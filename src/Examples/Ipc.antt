-- ===== src/Examples/Ipc.antt =====
-- The theorems on the IPC manager and its sessions at concrete inputs.
use anybus.Common.{ℕ, ◌+◌, ◌≡◌, ◌⊎◌, refl, true, false, [], ◌∷◌, none, some}
use anybus.Peers.Ipc.{IpcCommand, IpcMessage}
use anybus.Peers.Ipc.Manager.{IpcManager, rank, directory_health_interval}
use anybus.Peers.Ipc.Manager.States.{State, Outside, bound, wake}
use anybus.Peers.Ipc.Manager.Commands.{run_command}
use anybus.Peers.Ipc.Manager.Loop.{next, on_found, before_wait}
use anybus.Peers.Ipc.Manager.Rank.{older, rank_lem}
use anybus.Peers.Ipc.Manager.Names.{NextIsProper}
use anybus.Peers.Ipc.Manager.Steps.{next-NextIsProper}
use anybus.Peers.Ipc.Manager.Wakes.{before_wait-wakes}
use anybus.Peers.Ipc.Manager.Sessions.{OnePerNode, run_command-OnePerNode, session_of}
use anybus.Peers.Ipc.Session.{IpcPeer, message}
use anybus.Peers.Ipc.Session
use anybus.Peers.Ipc.Session.Loop
use anybus.Peers.Ipc.Session.Held.{NextSound}
use anybus.Peers.Ipc.Session.Ends.{next-NextSound}
use anybus.Peers.Ipc.Session.Aborted.{commands, run_commands, aborted_stays}

-- Node 5 has sessions with the nodes 3 and 9, and holds the backup name.
abbrev manager : IpcManager
manager = record {
  peers = (9, 90, 1) ∷ (3, 30, 2) ∷ [];
  our_nodeid = 5;
  primary_listener = false;
  backup_listener = true;
  peer_listener = true;
  pending = [];
  shutting_down = false;
  directory_wake_at = some 4000;
  directory_wake_probe = false;
  primary_misses = 0;
  primary_bind_in_use = 0;
  backup_bind_in_use = 0;
  probe_in_flight = false;
  asked = [];
}

abbrev outside : Outside
outside = record {
  now = 1000;
  binds = bound;
  primary_view = none;
  backup_view = none;
  connects = λ id. true;
  served = true;
  found = wake;
  found_at = 4000;
}

-- It takes the primary name over, and gives up the backup name.
next-NextIsProper_example : NextIsProper (next outside State.bind_primary manager)
next-NextIsProper_example = next-NextIsProper outside State.bind_primary manager (refl, refl)

run_command-OnePerNode_example :
    OnePerNode (run_command 1000 (IpcCommand.session_ready 9 91 7) manager).1.peers
run_command-OnePerNode_example =
    run_command-OnePerNode 1000 (IpcCommand.session_ready 9 91 7) manager (refl, (refl, tt))

rank_lem_example : rank manager ≡ some (older 5 (9 ∷ 3 ∷ []))
rank_lem_example = rank_lem manager

before_wait-wakes_example :
    (at : ℕ) × (r : State × IpcManager) × ((before_wait false outside manager).directory_wake_at
      ≡ some at)
    × (manager.directory_wake_at ≡ none → at ≡ 1000 + directory_health_interval)
    × (on_found false wake outside (before_wait false outside manager) ≡ some r)
    × ((r.0 ≡ State.reconcile_directory)
        ⊎ ((r.0 ≡ State.listen false) × (r.1.probe_in_flight ≡ true)))
before_wait-wakes_example = before_wait-wakes outside manager refl

-- A session that was dialed to node 12.
abbrev session : IpcPeer
session = Session.new 0 10000 30000 (some 12) 5 120

-- Node 12 greets, and nothing is accepted.
abbrev unanswered : Session.Outside
unanswered = record {
  now = 100;
  sends = true;
  heard = message (IpcMessage.hello 12);
  connection_counter = 8;
  peer_tx = 121;
  manager_takes = true;
  answer = none;
  neighbors = [];
  found = Session.deadline;
}

next-NextSound_example : NextSound (Loop.next unanswered Session.hello session)
unfolding Session.new
next-NextSound_example = next-NextSound unanswered Session.hello session (refl, refl)

aborted_stays_example :
    (q : IpcPeer) × (r : IpcPeer) × (Loop.next unanswered Session.hello session
      ≡ Loop.go Session.abort_handshake q)
    × (Loop.next unanswered Session.abort_handshake q ≡ Loop.stop r)
    × (session_of 12 (run_commands 3000 (commands r.sent) manager).peers ≡ some (12, 120, 8))
unfolding Session.new
aborted_stays_example =
    aborted_stays 3000 unanswered unanswered 12 session manager refl refl refl refl refl refl refl
