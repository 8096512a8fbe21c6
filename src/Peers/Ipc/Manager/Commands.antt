-- ===== src/Peers/Ipc/Manager/Commands.antt =====
-- How src/peers/ipc/ipc_manager.rs handles a command of a peer's task or of a probe.
use anybus.Common.{
  ℕ, Bool, true, false, ◌&&◌, ◌||◌, not, List, [], ◌∷◌, ◌++◌, Option, none, some, if◌then◌else◌,
  nat_eq, ◌==◌, leb, find, push, retain, is_empty, update_first,
}
use anybus.Routing.{NodeId, ConnectionId}
use anybus.LinkState.{Sender}
use anybus.Peers.Ipc.{DirectoryView, contains, dial_ids, IpcControl, IpcCommand}
use anybus.Peers.Ipc.Manager.{
  IpcManager, Session, control, directory_retry_interval, primary_takeover_misses, saturating_inc,
  peer_ids, has_unknown_peers, schedule_directory_wake, schedule_directory_health, remove_pending,
}
use anybus.Peers.Ipc.Manager.States.{State, dial_peers, bind_primary, reconcile_directory, listen}

abbrev pub is_session : NodeId → ConnectionId → Session → Bool
is_session uuid connection_id s = s.0 == uuid && s.2 == connection_id

unfoldable pub run_peer_closed : NodeId → ConnectionId → IpcManager → IpcManager
run_peer_closed uuid connection_id m =
    let peers = retain (λ s. not (is_session uuid connection_id s)) m.peers in
    record m {
      peers = peers;
      pending = if contains (peer_ids peers) uuid then m.pending else remove_pending uuid m.pending;
    }

unfoldable pub run_session_ready : NodeId → Sender → ConnectionId → IpcManager → IpcManager
run_session_ready peer_id tx connection_id m =
    let session : Session = (peer_id, tx, connection_id) in
    let pending = remove_pending peer_id m.pending in
    elim (find (λ (s : Session). s.0 == peer_id) m.peers) [
      | some old ↦ record m {
        pending = pending;
        peers = update_first (λ (s : Session). s.0 == peer_id) (λ s. session) m.peers;
        asked = m.asked ++ control old.1 IpcControl.shutdown ∷ control tx IpcControl.accepted ∷ [];
      }
      | none ↦ record m {
        pending = pending;
        peers = push m.peers session;
        asked = push m.asked (control tx IpcControl.accepted);
      }
    ]

abbrev pub forget_pending : Option NodeId → List NodeId → List NodeId
forget_pending none ids = ids
forget_pending (some id) ids = remove_pending id ids

unfoldable pub run_handshake_failed : ℕ → Option NodeId → IpcManager → IpcManager
unfolding schedule_directory_wake
run_handshake_failed now id m =
    let m' : IpcManager = record m { pending = forget_pending id m.pending } in
    if not m.primary_listener && is_empty m.peers
    then schedule_directory_wake now directory_retry_interval false m'
    else m'

-- A name that we hold, and what asking it gave: whether the name is lost, and the nodes that its new
-- owner knows.
abbrev pub stolen : NodeId → Bool → Option DirectoryView → Bool × List NodeId
stolen our_nodeid false view = (false, [])
stolen our_nodeid true none = (true, [])
stolen our_nodeid true (some view) =
    if view.owner == our_nodeid then (false, []) else (true, dial_ids view)

abbrev pub ids_of : Option DirectoryView → List NodeId
ids_of none = []
ids_of (some view) = dial_ids view

-- The primary name, which we do not hold, was asked.
abbrev pub count_miss : Option DirectoryView → IpcManager → IpcManager
count_miss (some view) m = record m { primary_misses = 0 }
count_miss none m = record m { primary_misses = saturating_inc m.primary_misses }

abbrev is_missed : Option DirectoryView → Bool
is_missed none = true
is_missed (some view) = false

-- The names are in the right hands.
abbrev pub dial_known : ℕ → List NodeId → IpcManager → State × IpcManager
dial_known now ids m =
    let m' = schedule_directory_health now m in
    if has_unknown_peers ids m then (dial_peers ids true, m') else (listen m.shutting_down, m')

abbrev pub after_probe :
    ℕ → Option DirectoryView → Bool → Option DirectoryView → IpcManager → State × IpcManager
after_probe now primary primary_self backup m =
    let m' = if primary_self then m else count_miss primary m in
    if not primary_self && is_missed primary && leb primary_takeover_misses m'.primary_misses
    then (bind_primary, m')
    else dial_known now (ids_of primary ++ ids_of backup) m'

unfoldable pub run_directory_probe :
    ℕ → Option DirectoryView → Bool → Option DirectoryView → Bool → IpcManager → State × IpcManager
unfolding dial_ids has_unknown_peers schedule_directory_health
run_directory_probe now primary primary_self backup backup_self m =
    let (primary_lost, primary_ids) = stolen m.our_nodeid primary_self primary in
    let (backup_lost, backup_ids) = stolen m.our_nodeid backup_self backup in
    let landed : IpcManager = record m { probe_in_flight = false } in
    let m' : IpcManager = record landed {
      primary_listener = m.primary_listener && not primary_lost;
      backup_listener = m.backup_listener && not backup_lost;
    } in
    let stolen_ids = primary_ids ++ backup_ids in
    if m.shutting_down
    then (listen true, landed)
    else if not (is_empty stolen_ids) && has_unknown_peers stolen_ids m'
    then (dial_peers stolen_ids true, schedule_directory_health now m')
    else if primary_lost || backup_lost
    then (reconcile_directory, m')
    else after_probe now primary primary_self backup m'

unfoldable pub run_command : ℕ → IpcCommand → IpcManager → State × IpcManager
unfolding run_peer_closed run_session_ready run_handshake_failed run_directory_probe
run_command now (IpcCommand.peer_closed uuid connection_id) m =
    (reconcile_directory, run_peer_closed uuid connection_id m)
run_command now (IpcCommand.session_ready peer_id tx connection_id) m =
    (reconcile_directory, run_session_ready peer_id tx connection_id m)
run_command now (IpcCommand.handshake_failed id) m =
    (listen m.shutting_down, run_handshake_failed now id m)
run_command now (IpcCommand.learned_peers ids) m = (dial_peers ids false, m)
run_command now (IpcCommand.directory_probe primary primary_self backup backup_self) m =
    run_directory_probe now primary primary_self backup backup_self m
