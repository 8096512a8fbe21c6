-- ===== src/Peers/Ipc/Manager.antt =====
-- `struct IpcManager` of src/peers/ipc/ipc_manager.rs with its methods. A listener is true while it is
-- bound; times are numbers of milliseconds; what the manager asks of others is collected in `asked`.
pub mod States
pub mod Commands
pub mod Loop
pub mod Rank
pub mod Names
pub mod Steps
pub mod Wakes
pub mod Sessions
use anybus.Common.{
  ℕ, suc, ◌+◌, Bool, true, false, ◌&&◌, ◌||◌, not, List, [], ◌∷◌, ◌++◌, Option, none, some, min,
  map, if◌then◌else◌, nat_eq, ◌==◌, leb, ltb, any, push, retain,
}
use anybus.Routing.{NodeId, ConnectionId}
use anybus.LinkState.{Sender}
use anybus.Peers.Ipc.{DirectoryView, contains, dial_ids, IpcControl}

abbrev pub directory_retry_interval : ℕ
directory_retry_interval = 500

abbrev pub directory_health_interval : ℕ
directory_health_interval = 15000

abbrev pub primary_takeover_misses : ℕ
primary_takeover_misses = 3

abbrev pub directory_overwrite_after : ℕ
directory_overwrite_after = 3

-- A session: the node, the sender to its task, and its connection.
abbrev pub Session : Type 0
Session = NodeId × Sender × ConnectionId

-- The listeners that are bound by name, with `try_overwrite`; the tasks that are spawned; what is sent to
-- the tasks of peers.
pub data Asked : Type 0 where
  bind_peer_listener : Asked
  bind_primary_name bind_backup_name : Bool → Asked
  start_peer : Option NodeId → Asked
  start_probe : Bool → Bool → Asked
  control : Sender → IpcControl → Asked

pub record IpcManager : Type 0 where
  pub peers : List Session
  pub our_nodeid : NodeId
  pub primary_listener : Bool
  pub backup_listener : Bool
  pub peer_listener : Bool
  pub pending : List NodeId
  pub shutting_down : Bool
  pub directory_wake_at : Option ℕ
  pub directory_wake_probe : Bool
  pub primary_misses : ℕ
  pub primary_bind_in_use : ℕ
  pub backup_bind_in_use : ℕ
  pub probe_in_flight : Bool
  pub asked : List Asked

unfoldable pub new : NodeId → IpcManager
new our_nodeid = record {
  peers = [];
  our_nodeid = our_nodeid;
  primary_listener = false;
  backup_listener = false;
  peer_listener = false;
  pending = [];
  shutting_down = false;
  directory_wake_at = none;
  directory_wake_probe = false;
  primary_misses = 0;
  primary_bind_in_use = 0;
  backup_bind_in_use = 0;
  probe_in_flight = false;
  asked = [];
}

abbrev pub ask : Asked → IpcManager → IpcManager
ask a m = record m { asked = push m.asked a }

-- `u8::saturating_add` of one.
abbrev pub saturating_inc : ℕ → ℕ
saturating_inc n = min (n + 1) 255

abbrev pub peer_ids : List Session → List NodeId
peer_ids = map λ s. s.0

-- `sorted_unstable` of ids.
unfoldable pub insert_id : NodeId → List NodeId → List NodeId
insert_id id [] = id ∷ []
insert_id id (other ∷ ids) =
    let rest = insert_id id ids in if leb id other then id ∷ other ∷ ids else other ∷ rest

unfoldable pub sorted : List NodeId → List NodeId
unfolding insert_id
sorted [] = []
sorted (id ∷ ids) = insert_id id (sorted ids)

-- `find_position`; the first place.
unfoldable pub find_position : NodeId → List NodeId → Option ℕ
find_position id [] = none
find_position id (other ∷ ids) =
    let rest = find_position id ids in
    if other == id then some 0 else elim rest [ none ↦ none | some n ↦ some (suc n) ]

-- `none` is the panic of `unwrap`.
unfoldable pub rank : IpcManager → Option ℕ
rank m = find_position m.our_nodeid (sorted (peer_ids m.peers ++ m.our_nodeid ∷ []))

unfoldable pub has_unknown_peers : List NodeId → IpcManager → Bool
has_unknown_peers ids m =
    any
      (λ id.
        not (id == m.our_nodeid)
        && not (contains (peer_ids m.peers) id)
        && not (contains m.pending id))
      ids

unfoldable pub schedule_directory_wake : ℕ → ℕ → Bool → IpcManager → IpcManager
schedule_directory_wake now delay probe_primary m =
    let at = now + delay in
    let later = record m { directory_wake_at = some at; directory_wake_probe = probe_primary } in
    elim m.directory_wake_at [
      | none ↦ later
      | some existing ↦
          if leb existing at
          then record m { directory_wake_probe = m.directory_wake_probe || probe_primary }
          else later
    ]

unfoldable pub schedule_directory_health : ℕ → IpcManager → IpcManager
unfolding schedule_directory_wake
schedule_directory_health now m =
    if m.shutting_down then m else schedule_directory_wake now directory_health_interval true m

unfoldable pub spawn_directory_probe : IpcManager → IpcManager
spawn_directory_probe m =
    if m.probe_in_flight || m.shutting_down
    then m
    else ask (start_probe m.primary_listener m.backup_listener)
        (record m { probe_in_flight = true })

unfoldable pub drop_directory_listeners : IpcManager → IpcManager
drop_directory_listeners m = record m {
  primary_listener = false;
  backup_listener = false;
  directory_wake_at = none;
  directory_wake_probe = false;
  primary_misses = 0;
  primary_bind_in_use = 0;
  backup_bind_in_use = 0;
}

abbrev pub drop_backup : IpcManager → IpcManager
drop_backup m = record m { backup_listener = false }

-- `HashSet::insert` and `HashSet::remove`.
abbrev pub add_pending : NodeId → List NodeId → List NodeId
add_pending id ids = if contains ids id then ids else push ids id

abbrev pub remove_pending : NodeId → List NodeId → List NodeId
remove_pending id ids = retain (λ other. not (other == id)) ids

abbrev pub expect : Option NodeId → List NodeId → List NodeId
expect none ids = ids
expect (some id) ids = add_pending id ids

unfoldable pub spawn_peer : Option NodeId → IpcManager → IpcManager
spawn_peer expected m = ask (start_peer expected) (record m { pending = expect expected m.pending })
