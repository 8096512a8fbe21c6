-- ===== src/Peers/Ipc/Manager/Steps.antt =====
-- What the passes of the manager's loop keep.
use anybus.Common.{
  ℕ, zero, suc, ◌≡◌, inl, inr, refl, arith, Bool, true, false, ◌&&◌, ◌||◌, not, List, ◌++◌, Option,
  none, some, Bool-cases, is_empty, if-cases, retain,
}
use anybus.Routing.{NodeId}
use anybus.Suspend.{AnyBusStatusMsg}
use anybus.Suspend
use anybus.Peers.Ipc.{IpcCommand, DirectoryView}
use anybus.Peers.Ipc.Manager.{
  IpcManager, schedule_directory_wake, schedule_directory_health, spawn_directory_probe, rank,
  drop_directory_listeners, spawn_peer, has_unknown_peers, peer_ids,
}
use anybus.Peers.Ipc.Manager.States.{
  State, creation, start_peer_listener, query_directory, bind_primary, bind_backup, dial_peers,
  serve_directory, reconcile_directory, listen, soft_shutdown, shutdown, handle_error,
  handle_ipc_command, Outside, Found, peer_accepted, primary_accepted, backup_accepted, wake,
  command, status, run_query_directory, run_dial_peers, dial, is_to_dial,
}
use anybus.Peers.Ipc.Manager.Commands.{run_command, run_directory_probe, after_probe, stolen}
use anybus.Peers.Ipc.Manager.Loop.{
  go, next, by_rank, run_reconcile, run_wake, on_status, on_found, before_wait, run_listen,
}
use anybus.Peers.Ipc.Manager.Rank.{rank_lem, older}
use anybus.Peers.Ipc.Manager.Names.{
  starts, IsProper, NextIsProper, SameNames, same-IsProper, schedule_directory_health-SameNames,
  dial-SameNames, bind_primary-IsProper, bind_backup-IsProper, start_peer_listener-IsProper,
}

by_rank-NextIsProper :
    (n : ℕ) (o : Outside) (m : IpcManager)
    → m.shutting_down ≡ false
    → IsProper reconcile_directory m
    → NextIsProper (by_rank (some n) o m)
unfolding schedule_directory_health schedule_directory_wake drop_directory_listeners
by_rank-NextIsProper zero o m f h = elim (Bool-cases m.primary_listener) [
  | inl t ↦ rw (t, by_rank) (ground (arith, f, h.0, h.1, t))
  | inr n ↦ rw (n, by_rank) (ground (arith, f, h.0, h.1))
]
by_rank-NextIsProper (suc zero) o m f h = ground (arith, f, h.0)
by_rank-NextIsProper (suc (suc n)) o m f h = ground (arith, f)

reconcile-NextIsProper :
    (o : Outside) (m : IpcManager)
    → IsProper reconcile_directory m
    → NextIsProper (run_reconcile o m)
unfolding run_reconcile
reconcile-NextIsProper o m h =
    if-cases NextIsProper m.shutting_down (go (listen true) m) (by_rank (rank m) o m)
      (λ t. ground (arith, h.0, h.1, t))
      (λ f. rw (rank_lem m) (by_rank-NextIsProper (older m.our_nodeid (peer_ids m.peers)) o m f h))

-- A state and a manager as one.
abbrev Proper : State × IpcManager → Type 0
Proper (s, m) = IsProper s m

dial_peers-IsProper :
    (ids : List NodeId) (b : Bool) (o : Outside) (m : IpcManager)
    → IsProper (dial_peers ids b) m
    → IsProper (run_dial_peers ids b o m).0 (run_dial_peers ids b o m).1
unfolding run_dial_peers
dial_peers-IsProper ids b o m h =
    let m' = dial o.connects (retain (is_to_dial b m) ids) m in
    let dialed = dial-SameNames o.connects (retain (is_to_dial b m) ids) m in
    let woken = schedule_directory_health-SameNames o.now m' in
    if-cases Proper m.shutting_down (listen true, m)
      (listen m.shutting_down, schedule_directory_health o.now m')
      (λ t. ground (arith, h.0, h.1, t))
      (λ f. ground (
        arith, h.0, h.1, f, dialed.primary, dialed.backup, dialed.quiet, woken.primary,
        woken.backup, woken.quiet,
      ))

before_wait-SameNames :
    (shut : Bool) (o : Outside) (m : IpcManager) → SameNames m (before_wait shut o m)
unfolding before_wait
before_wait-SameNames shut o m = ground arith

run_wake-IsProper :
    (shut b : Bool) (o : Outside) (m : IpcManager)
    → IsProper (listen b) m
    → Proper (run_wake shut o m)
unfolding schedule_directory_health schedule_directory_wake spawn_directory_probe
run_wake-IsProper shut b o m h = ground (arith, h.0, h.1)

on_status-IsProper :
    (shut b : Bool) (s : Option AnyBusStatusMsg) (m : IpcManager)
    → IsProper (listen b) m
    → Proper (on_status shut s m)
on_status-IsProper shut b none m h = h
on_status-IsProper shut b (some Suspend.shutting_down) m h = h
on_status-IsProper shut b (some Suspend.resuming) m h = h
on_status-IsProper shut b (some Suspend.suspending) m h = h
on_status-IsProper shut b (some Suspend.network_changed) m h = h

abbrev FoundProper : Option (State × IpcManager) → Type 0
FoundProper none = Unit {0}
FoundProper (some r) = Proper r

wake-FoundProper :
    (w : Option ℕ) (r : State × IpcManager)
    → Proper r
    → FoundProper (elim w [ none ↦ none | some at ↦ some r ])
wake-FoundProper none r h = tt
wake-FoundProper (some at) r h = h

on_found-IsProper :
    (shut b : Bool) (f : Found) (o : Outside) (m : IpcManager)
    → IsProper (listen b) m
    → FoundProper (on_found shut f o m)
unfolding spawn_peer
on_found-IsProper shut b (peer_accepted true) o m h = ground (arith, h.0, h.1)
on_found-IsProper shut b (peer_accepted false) o m h = ground (arith, h.0, h.1)
on_found-IsProper shut b (primary_accepted true) o m h = ground (arith, h)
on_found-IsProper shut b (primary_accepted false) o m h = ground (arith, h)
on_found-IsProper shut b (backup_accepted true) o m h = ground (arith, h)
on_found-IsProper shut b (backup_accepted false) o m h = ground (arith, h)
on_found-IsProper shut b wake o m h =
    wake-FoundProper m.directory_wake_at (run_wake shut o m) (run_wake-IsProper shut b o m h)
on_found-IsProper shut b (command c) o m h = h
on_found-IsProper shut b (status s) o m h = on_status-IsProper shut b s m h

FoundProper-wait :
    (shut : Bool) (m : IpcManager) (r : Option (State × IpcManager))
    → IsProper (listen shut) m
    → FoundProper r
    → Proper (elim r [ none ↦ (listen shut, m) | some after ↦ after ])
FoundProper-wait shut m none h k = h
FoundProper-wait shut m (some after) h k = k

listen-IsProper :
    (shut : Bool) (o : Outside) (m : IpcManager)
    → IsProper (listen shut) m
    → Proper (run_listen shut o m)
unfolding run_listen
listen-IsProper shut o m h =
    let m' = before_wait shut o m in
    let h' : IsProper (listen shut) m' =
      same-IsProper (listen shut) (listen shut) m m' (before_wait-SameNames shut o m) refl h in
    if-cases Proper (not shut && not m.shutting_down && not m.peer_listener)
      (start_peer_listener false, m)
      (elim (on_found shut o.found o m') [ none ↦ (listen shut, m') | some after ↦ after ])
      (λ t. ground (arith, h.0, h.1, t))
      (λ f.
        FoundProper-wait shut m' (on_found shut o.found o m') h'
          (on_found-IsProper shut shut o.found o m' h'))

after_probe-IsProper :
    (now : ℕ) (primary : Option DirectoryView) (ps : Bool) (backup : Option DirectoryView)
    (m : IpcManager) (c : IpcCommand)
    → IsProper (handle_ipc_command c) m
    → Proper (after_probe now primary ps backup m)
unfolding schedule_directory_health schedule_directory_wake
after_probe-IsProper now primary ps backup m c h = ground (arith, h.0, h.1)

fewer-IsProper :
    (s : State) (m : IpcManager) (a b : Bool)
    → IsProper s m
    → IsProper s (record m {
      probe_in_flight = false;
      primary_listener = m.primary_listener && not a;
      backup_listener = m.backup_listener && not b;
    })
fewer-IsProper s m a b h = ground (arith, h.0, h.1)

directory_probe-IsProper :
    (now : ℕ) (primary : Option DirectoryView) (ps : Bool) (backup : Option DirectoryView)
    (bs : Bool) (m : IpcManager) (c : IpcCommand)
    → IsProper (handle_ipc_command c) m
    → Proper (run_directory_probe now primary ps backup bs m)
unfolding run_directory_probe
directory_probe-IsProper now primary ps backup bs m c h =
    let lost = stolen m.our_nodeid ps primary in
    let lost' = stolen m.our_nodeid bs backup in
    let landed : IpcManager = record m { probe_in_flight = false } in
    let m' : IpcManager = record landed {
      primary_listener = m.primary_listener && not lost.0;
      backup_listener = m.backup_listener && not lost'.0;
    } in
    let ids = lost.1 ++ lost'.1 in
    let fewer : IsProper (handle_ipc_command c) m' =
      fewer-IsProper (handle_ipc_command c) m lost.0 lost'.0 h in
    if-cases Proper m.shutting_down (listen true, landed) _ (λ t. h)
      (λ f.
        if-cases Proper (not (is_empty ids) && has_unknown_peers ids m')
          (dial_peers ids true, schedule_directory_health now m') _
          (λ t.
            same-IsProper (handle_ipc_command c) (dial_peers ids true) m'
              (schedule_directory_health now m') (schedule_directory_health-SameNames now m') refl
              fewer)
          (λ n.
            if-cases Proper (lost.0 || lost'.0) (reconcile_directory, m') _ (λ t. fewer)
              (λ k. after_probe-IsProper now primary ps backup m' c fewer)))

command-IsProper :
    (now : ℕ) (c : IpcCommand) (m : IpcManager)
    → IsProper (handle_ipc_command c) m
    → Proper (run_command now c m)
unfolding run_command
command-IsProper now (IpcCommand.peer_closed uuid conn) m h = ground (arith, h.0, h.1)
command-IsProper now (IpcCommand.session_ready id tx conn) m h = ground (arith, h.0, h.1)
command-IsProper now (IpcCommand.handshake_failed id) m h = ground (arith, h.0, h.1)
command-IsProper now (IpcCommand.learned_peers ids) m h = h
command-IsProper now (IpcCommand.directory_probe primary ps backup bs) m h =
    directory_probe-IsProper now primary ps backup bs m
      (IpcCommand.directory_probe primary ps backup bs) h

starts-query_directory : (o : Outside) → starts (run_query_directory o) ≡ false
unfolding run_query_directory
starts-query_directory o = ground arith

-- A pass of the manager's loop does not panic, and after it the node holds at most one of the two names
-- of the directory; and once it shuts down, it holds none, has no listener for peers, and is in no state
-- that would bind one. When the loop ends all listeners are gone.
pub next-NextIsProper :
    (o : Outside) (s : State) (m : IpcManager) → IsProper s m → NextIsProper (next o s m)
unfolding next
next-NextIsProper o creation m h = h
next-NextIsProper o (start_peer_listener query) m h = start_peer_listener-IsProper query o m h
next-NextIsProper o query_directory m h = (h.0, rw (starts-query_directory o) h.1)
next-NextIsProper o bind_primary m h = bind_primary-IsProper o m h
next-NextIsProper o bind_backup m h = bind_backup-IsProper o m h
next-NextIsProper o (dial_peers ids b) m h = dial_peers-IsProper ids b o m h
next-NextIsProper o serve_directory m h =
    if-cases NextIsProper o.served (go (listen false) m) (go handle_error m) (λ t. h) (λ f. h)
next-NextIsProper o reconcile_directory m h = reconcile-NextIsProper o m h
next-NextIsProper o (listen shut) m h = listen-IsProper shut o m h
next-NextIsProper o soft_shutdown m h = (refl, refl)
next-NextIsProper o shutdown m h = refl
next-NextIsProper o handle_error m h = h
next-NextIsProper o (handle_ipc_command c) m h = command-IsProper o.now c m h
