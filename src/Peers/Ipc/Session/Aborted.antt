-- ===== src/Peers/Ipc/Session/Aborted.antt =====
-- A handshake that is aborted after the manager was told of the session.
use anybus.Common.{ℕ, ◌+◌, ◌≡◌, refl, arith, true, false, List, [], ◌∷◌, some, nat_eq, ◌∙◌, ap}
use anybus.Routing.{NodeId}
use anybus.Peers.Ipc.{IpcCommand, IpcMessage}
use anybus.Peers.Ipc.Session.{
  IpcPeer, State, hello, abort_handshake, Outside, run_hello, message, Sent, to_stream, to_manager,
  is_accepted, is_expected,
}
use anybus.Peers.Ipc.Session.Loop.{go, stop, next, run_abort}
use anybus.Peers.Ipc.Manager.{IpcManager}
use anybus.Peers.Ipc.Manager.Commands.{run_command, run_session_ready, run_handshake_failed}
use anybus.Peers.Ipc.Manager.Sessions.{session_of, session_ready_stays}

-- The commands that a session's task has sent.
abbrev pub commands : List Sent → List IpcCommand
commands [] = []
commands (to_stream m ∷ sent) = commands sent
commands (to_manager c ∷ sent) = c ∷ commands sent

-- The manager handles commands one after the other.
abbrev pub run_commands : ℕ → List IpcCommand → IpcManager → IpcManager
run_commands now [] m = m
run_commands now (c ∷ cs) m = run_commands now cs (run_command now c m).1

aborted :
    (o o' : Outside) (id : NodeId) (p : IpcPeer)
    → o.sends ≡ true
    → o.heard ≡ message (IpcMessage.hello id)
    → is_expected p.expected id ≡ true
    → o.manager_takes ≡ true
    → is_accepted o.answer ≡ false
    → o'.manager_takes ≡ true
    → p.sent ≡ []
    → ((run_hello o p).0 ≡ abort_handshake)
      × ((run_abort o' (run_hello o p).1).sent
          ≡ to_stream (IpcMessage.hello p.our_nodeid)
            ∷ to_manager (IpcCommand.session_ready id p.control_tx o.connection_counter)
            ∷ to_manager (IpcCommand.handshake_failed p.expected)
            ∷ [])
unfolding run_hello run_abort
aborted o o' id p a b c d e f g = ground (arith, a, b, c, d, e, f, g)

-- A session's task that hears the hello it expects and tells the manager of the session, but is not
-- accepted in time, aborts and ends. Once the manager has handled what this task has sent, it keeps the
-- session of the ended task as the one with this node.
pub aborted_stays :
    (now : ℕ) (o o' : Outside) (id : NodeId) (p : IpcPeer) (m : IpcManager)
    → o.sends ≡ true
    → o.heard ≡ message (IpcMessage.hello id)
    → is_expected p.expected id ≡ true
    → o.manager_takes ≡ true
    → is_accepted o.answer ≡ false
    → o'.manager_takes ≡ true
    → p.sent ≡ []
    → (q : IpcPeer) × (r : IpcPeer) × (next o hello p ≡ go abort_handshake q)
      × (next o' abort_handshake q ≡ stop r)
      × (session_of id (run_commands now (commands r.sent) m).peers
          ≡ some (id, p.control_tx, o.connection_counter))
unfolding next
aborted_stays now o o' id p m a b c d e f g =
    let (state, sent) = aborted o o' id p a b c d e f g in
    let ready = run_session_ready id p.control_tx o.connection_counter m in
    let stays : session_of id (run_handshake_failed now p.expected ready).peers
        ≡ some (id, p.control_tx, o.connection_counter) =
      (session_ready_stays now id p.control_tx o.connection_counter (o.connection_counter + 1)
        p.expected m (λ same. absurd (omega arith))).1 in
    (
      (run_hello o p).1,
      run_abort o' (run_hello o p).1,
      ap (λ (s : State). go s (run_hello o p).1) state,
      refl,
      ap (λ sent. session_of id (run_commands now (commands sent) m).peers) sent
          ∙ (unfold run_command in stays),
    )
