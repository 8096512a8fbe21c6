-- ===== src/Peers/Ipc/Manager/States.antt =====
-- The states of src/peers/ipc/ipc_manager.rs that bind names, ask the directory and dial peers. What the
-- environment answers to a pass is in `Outside`.
use anybus.Common.{
  ℕ, Bool, true, false, ◌&&◌, ◌||◌, not, List, [], ◌∷◌, Option, none, some, if◌then◌else◌, nat_eq,
  ◌==◌, leb, ltb, retain,
}
use anybus.Routing.{NodeId}
use anybus.Suspend.{AnyBusStatusMsg}
use anybus.Peers.Ipc.{DirectoryView, contains, dial_ids, IpcCommand}
use anybus.Peers.Ipc.Manager.{
  IpcManager, bind_peer_listener, bind_primary_name, bind_backup_name, ask,
  directory_retry_interval, directory_health_interval, directory_overwrite_after, saturating_inc,
  peer_ids, schedule_directory_wake, schedule_directory_health, spawn_directory_probe, drop_backup,
  spawn_peer,
}

pub data State : Type 0 where
  creation : State
  start_peer_listener : Bool → State
  query_directory bind_primary bind_backup : State
  dial_peers : List NodeId → Bool → State
  serve_directory reconcile_directory : State
  listen : Bool → State
  soft_shutdown shutdown handle_error : State
  handle_ipc_command : IpcCommand → State

-- What binding a name gives.
pub data Bound : Type 0 where
  bound addr_in_use bind_failed : Bound

-- What `select!` finds first in `listen`; `false` is an error, as `none` is of a status.
pub data Found : Type 0 where
  peer_accepted primary_accepted backup_accepted : Bool → Found
  wake : Found
  command : IpcCommand → Found
  status : Option AnyBusStatusMsg → Found

pub record Outside : Type 0 where
  pub now : ℕ
  pub binds : Bound
  pub primary_view : Option DirectoryView
  pub backup_view : Option DirectoryView
  pub connects : NodeId → Bool
  pub served : Bool
  pub found : Found
  pub found_at : ℕ

unfoldable pub bind_retry_delay : Bound → ℕ
bind_retry_delay addr_in_use = directory_health_interval
bind_retry_delay _ = directory_retry_interval

abbrev pub in_use : Bound → ℕ → ℕ
in_use addr_in_use n = saturating_inc n
in_use _ n = n

unfoldable pub run_start_peer_listener : Bool → Outside → IpcManager → State × IpcManager
run_start_peer_listener query o m =
    let after = if query then query_directory else listen false in
    if m.peer_listener then (after, m) else elim o.binds [
      | bound ↦ (after, ask bind_peer_listener (record m { peer_listener = true }))
      | _ ↦ (shutdown, ask bind_peer_listener m)
    ]

-- `query_any_directory`.
unfoldable pub query_any_directory : Outside → Option (List NodeId)
unfolding dial_ids
query_any_directory o = elim o.primary_view [
  | some view ↦ some (dial_ids view)
  | none ↦ elim o.backup_view [ some view ↦ some (dial_ids view) | none ↦ none ]
]

unfoldable pub run_query_directory : Outside → State
unfolding query_any_directory
run_query_directory o = elim (query_any_directory o) [
  | some ids ↦ dial_peers ids true
  | none ↦ bind_primary
]

abbrev pub primary_held : Outside → IpcManager → IpcManager
primary_held o m = schedule_directory_health o.now (record (drop_backup m) { primary_misses = 0 })

abbrev pub primary_refused : Bound → Outside → IpcManager → IpcManager
primary_refused b o m =
    schedule_directory_wake o.now (bind_retry_delay b) false
      (spawn_directory_probe (record m { primary_bind_in_use = in_use b m.primary_bind_in_use }))

unfoldable pub run_bind_primary : Outside → IpcManager → State × IpcManager
unfolding schedule_directory_wake schedule_directory_health spawn_directory_probe bind_retry_delay
run_bind_primary o m =
    let overwrite = leb directory_overwrite_after m.primary_bind_in_use in
    let asked = ask (bind_primary_name overwrite) m in
    if m.shutting_down
    then (listen true, m)
    else if m.primary_listener
    then (listen false, primary_held o m)
    else elim o.binds [
      | bound ↦ (
        listen false,
        primary_held o (record asked { primary_listener = true; primary_bind_in_use = 0 }),
      )
      | addr_in_use ↦ (listen false, primary_refused addr_in_use o asked)
      | bind_failed ↦ (listen false, primary_refused bind_failed o asked)
    ]

abbrev pub backup_refused : Bound → Outside → IpcManager → IpcManager
backup_refused b o m =
    schedule_directory_wake o.now (bind_retry_delay b) false
      (record m { backup_bind_in_use = in_use b m.backup_bind_in_use })

unfoldable pub run_bind_backup : Outside → IpcManager → State × IpcManager
unfolding schedule_directory_wake schedule_directory_health bind_retry_delay
run_bind_backup o m =
    let m' = record m { primary_listener = false } in
    let overwrite = leb directory_overwrite_after m.backup_bind_in_use in
    let asked = ask (bind_backup_name overwrite) m' in
    if m.shutting_down
    then (listen true, m)
    else if m.backup_listener
    then (listen false, schedule_directory_health o.now m')
    else elim o.binds [
      | bound ↦ (
        listen false,
        schedule_directory_health o.now
            (record asked { backup_listener = true; backup_bind_in_use = 0 }),
      )
      | addr_in_use ↦ (listen false, backup_refused addr_in_use o asked)
      | bind_failed ↦ (listen false, backup_refused bind_failed o asked)
    ]

unfoldable pub is_to_dial : Bool → IpcManager → NodeId → Bool
is_to_dial from_directory m id =
    not (id == m.our_nodeid)
    && not (contains (peer_ids m.peers) id)
    && not (contains m.pending id)
    && (from_directory || ltb m.our_nodeid id)

abbrev pub dial : (NodeId → Bool) → List NodeId → IpcManager → IpcManager
dial connects [] m = m
dial connects (id ∷ ids) m =
    let m' = if connects id then spawn_peer (some id) m else m in dial connects ids m'

unfoldable pub run_dial_peers : List NodeId → Bool → Outside → IpcManager → State × IpcManager
unfolding schedule_directory_health is_to_dial spawn_peer
run_dial_peers ids from_directory o m =
    let m' = dial o.connects (retain (is_to_dial from_directory m) ids) m in
    if m.shutting_down
    then (listen true, m)
    else (listen m.shutting_down, schedule_directory_health o.now m')
