-- ===== src/Peers/Ipc/Manager/Loop.antt =====
-- The loop of src/peers/ipc/ipc_manager.rs: `next` is one pass.
use anybus.Common.{
  ℕ, zero, suc, Bool, true, false, ◌&&◌, ◌||◌, not, List, [], ◌++◌, Option, none, some, map,
  if◌then◌else◌,
}
use anybus.Suspend.{AnyBusStatusMsg}
use anybus.Suspend
use anybus.Peers.Ipc.{IpcControl}
use anybus.Peers.Ipc.Manager.{
  IpcManager, Session, Asked, control, rank, schedule_directory_health, spawn_directory_probe,
  drop_directory_listeners, spawn_peer,
}
use anybus.Peers.Ipc.Manager.States.{
  State, creation, start_peer_listener, query_directory, bind_primary, bind_backup, dial_peers,
  serve_directory, reconcile_directory, listen, soft_shutdown, shutdown, handle_error,
  handle_ipc_command, Outside, Found, peer_accepted, primary_accepted, backup_accepted, wake,
  command, status, run_start_peer_listener, run_query_directory, run_bind_primary, run_bind_backup,
  run_dial_peers, primary_held,
}
use anybus.Peers.Ipc.Manager.Commands.{run_command}

-- A further pass, the end of the loop, or the panic of `unwrap`.
pub data Next : Type 0 where
  go : State → IpcManager → Next
  stop : IpcManager → Next
  panicked : Next

abbrev pub go_with : State × IpcManager → Next
go_with (s, m) = go s m

abbrev pub by_rank : Option ℕ → Outside → IpcManager → Next
by_rank none o m = panicked
by_rank (some zero) o m =
    if m.primary_listener then go (listen false) (primary_held o m) else go bind_primary m
by_rank (some (suc zero)) o m = go bind_backup m
by_rank (some (suc (suc n))) o m = go (listen false) (drop_directory_listeners m)

unfoldable pub run_reconcile : Outside → IpcManager → Next
unfolding schedule_directory_health drop_directory_listeners
run_reconcile o m = if m.shutting_down then go (listen true) m else by_rank (rank m) o m

abbrev resume_all : List Session → List Asked
resume_all = map λ s. control s.1 IpcControl.resume

abbrev pub run_wake : Bool → Outside → IpcManager → State × IpcManager
run_wake shut o m =
    let m' : IpcManager = record m { directory_wake_at = none; directory_wake_probe = false } in
    if m.directory_wake_probe
    then (
      listen (shut || m.shutting_down),
      if m.probe_in_flight
          then schedule_directory_health o.found_at m'
          else spawn_directory_probe m',
    )
    else (reconcile_directory, m')

abbrev pub on_status : Bool → Option AnyBusStatusMsg → IpcManager → State × IpcManager
on_status shut none m = (shutdown, m)
on_status shut (some Suspend.shutting_down) m = (soft_shutdown, m)
on_status shut (some Suspend.resuming) m =
    (listen (shut || m.shutting_down), record m { asked = m.asked ++ resume_all m.peers })
on_status shut (some _) m = (listen (shut || m.shutting_down), m)

abbrev pub served_or_error : Bool → State
served_or_error true = serve_directory
served_or_error false = handle_error

-- `none` if the environment cannot find this: a socket is accepted only while we accept and the listener
-- is bound, and the timer fires only if one is set.
abbrev pub on_found : Bool → Found → Outside → IpcManager → Option (State × IpcManager)
on_found shut (peer_accepted ok) o m =
    if not shut && not m.shutting_down && m.peer_listener
    then (if ok then some (listen shut, spawn_peer none m) else some (handle_error, m))
    else none
on_found shut (primary_accepted ok) o m =
    if not shut && not m.shutting_down && m.primary_listener
    then some (served_or_error ok, m)
    else none
on_found shut (backup_accepted ok) o m =
    if not shut && not m.shutting_down && m.backup_listener
    then some (served_or_error ok, m)
    else none
on_found shut wake o m = elim m.directory_wake_at [
  | none ↦ none
  | some at ↦ some (run_wake shut o m)
]
on_found shut (command c) o m = some (handle_ipc_command c, m)
on_found shut (status s) o m = some (on_status shut s m)

-- What `listen` does before it waits.
unfoldable pub before_wait : Bool → Outside → IpcManager → IpcManager
unfolding schedule_directory_health
before_wait shut o m = elim m.directory_wake_at [
  | some at ↦ m
  | none ↦ if not shut && not m.shutting_down then schedule_directory_health o.now m else m
]

-- What cannot be found leaves the pass waiting.
unfoldable pub run_listen : Bool → Outside → IpcManager → State × IpcManager
unfolding before_wait spawn_peer schedule_directory_health spawn_directory_probe
run_listen shut o m =
    let m' = before_wait shut o m in
    if not shut && not m.shutting_down && not m.peer_listener
    then (start_peer_listener false, m)
    else elim (on_found shut o.found o m') [ none ↦ (listen shut, m') | some after ↦ after ]

unfoldable pub run_shutdown : IpcManager → IpcManager
unfolding drop_directory_listeners
run_shutdown m = record (drop_directory_listeners m) {
  peer_listener = false;
  peers = [];
  asked = m.asked ++ map (λ (s : Session). control s.1 IpcControl.shutdown) m.peers;
}

unfoldable pub run_soft_shutdown : IpcManager → IpcManager
unfolding drop_directory_listeners
run_soft_shutdown m = record (drop_directory_listeners m) {
  shutting_down = true;
  peer_listener = false;
}

unfoldable pub next : Outside → State → IpcManager → Next
unfolding run_start_peer_listener run_query_directory run_bind_primary run_bind_backup
    run_dial_peers run_reconcile run_listen run_soft_shutdown run_shutdown run_command
next o creation m = go (start_peer_listener true) m
next o (start_peer_listener query) m = go_with (run_start_peer_listener query o m)
next o query_directory m = go (run_query_directory o) m
next o bind_primary m = go_with (run_bind_primary o m)
next o bind_backup m = go_with (run_bind_backup o m)
next o (dial_peers ids from_directory) m = go_with (run_dial_peers ids from_directory o m)
next o serve_directory m = if o.served then go (listen false) m else go handle_error m
next o reconcile_directory m = run_reconcile o m
next o (listen shut) m = go_with (run_listen shut o m)
next o soft_shutdown m = go (listen true) (run_soft_shutdown m)
next o shutdown m = stop (run_shutdown m)
next o handle_error m = go (listen m.shutting_down) m
next o (handle_ipc_command c) m = go_with (run_command o.now c m)
