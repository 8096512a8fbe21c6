-- ===== src/Peers/Ipc/Manager/Sessions.antt =====
-- The sessions that the manager keeps, one for each node.
use anybus.Common.{
  ℕ, ◌≡◌, ◌≢◌, refl, inl, inr, arith, Bool, true, false, not, List, [], ◌∷◌, Option, none, some,
  nat_eq, nat_beq_iff, ◌==◌, Bool-cases, Option-cases, retain, find, update_first, push, subst, sym,
  ap, ◌∙◌,
}
use anybus.Routing.{NodeId, ConnectionId}
use anybus.LinkState.{Sender}
use anybus.Peers.Ipc.{IpcCommand, DirectoryView}
use anybus.Peers.Ipc.Manager.{
  IpcManager, Session, schedule_directory_health, schedule_directory_wake,
}
use anybus.Peers.Ipc.Manager.Commands.{
  run_command, run_peer_closed, run_session_ready, run_handshake_failed, run_directory_probe,
  is_session,
}

abbrev pub session_of : NodeId → List Session → Option Session
session_of id peers = find (λ (s : Session). s.0 == id) peers

module _ (id : NodeId) (tx : Sender) (conn : ConnectionId) (q : Session → Bool)
    (kept : q (id, tx, conn) ≡ true) where
  find-update_first :
      (peers : List Session) (old : Session)
      → session_of id peers ≡ some old
      → session_of id
          (retain q (update_first (λ (s : Session). s.0 == id) (λ s. (id, tx, conn)) peers))
        ≡ some (id, tx, conn)
  find-update_first [] old h = cc
  find-update_first (p ∷ peers) old h = ground (arith, kept, h, find-update_first peers old)

  find-push :
      (peers : List Session)
      → session_of id peers ≡ none
      → session_of id (retain q (push peers (id, tx, conn))) ≡ some (id, tx, conn)
  find-push [] h = ground (arith, kept)
  find-push (p ∷ peers) h = ground (arith, kept, h, find-push peers)

  session_ready-retain :
      (m : IpcManager)
      → session_of id (retain q (run_session_ready id tx conn m).peers) ≡ some (id, tx, conn)
  unfolding run_session_ready
  session_ready-retain m = elim (Option-cases (session_of id m.peers)) [
    | inl e ↦ rw (e, run_session_ready) (find-push m.peers e)
    | inr (old, e) ↦ rw (e, run_session_ready) (find-update_first m.peers old e)
  ]

handshake_failed-peers :
    (now : ℕ) (id : Option NodeId) (m : IpcManager)
    → (run_handshake_failed now id m).peers ≡ m.peers
unfolding run_handshake_failed
handshake_failed-peers now id m = ground arith

-- No node has two sessions.
abbrev pub OnePerNode : List Session → Type 0
OnePerNode [] = Unit {0}
OnePerNode (p ∷ peers) = (session_of p.0 peers ≡ none) × OnePerNode peers

retain-none :
    (j : NodeId) (q : Session → Bool) (peers : List Session)
    → session_of j peers ≡ none
    → session_of j (retain q peers) ≡ none
retain-none j q [] h = refl
retain-none j q (p ∷ peers) h = ground (arith, h, retain-none j q peers)

retain-OnePerNode :
    (q : Session → Bool) (peers : List Session) → OnePerNode peers → OnePerNode (retain q peers)
retain-OnePerNode q [] u = tt
retain-OnePerNode q (p ∷ peers) u = elim (Bool-cases (q p)) [
  | inl t ↦ rw t (retain-none p.0 q peers u.0, retain-OnePerNode q peers u.1)
  | inr f ↦ rw f (retain-OnePerNode q peers u.1)
]

module _ (s : Session) where
  update-none :
      (j : NodeId) (peers : List Session)
      → session_of j peers ≡ none
      → session_of j (update_first (λ (p : Session). p.0 == s.0) (λ p. s) peers) ≡ none
  update-none j [] h = refl
  update-none j (p ∷ peers) h = ground (arith, h, update-none j peers)

  update-OnePerNode :
      (peers : List Session)
      → OnePerNode peers
      → OnePerNode (update_first (λ (p : Session). p.0 == s.0) (λ p. s) peers)
  update-OnePerNode [] u = tt
  update-OnePerNode (p ∷ peers) u = elim (Bool-cases (p.0 == s.0)) [
    | inl t ↦ rw t (subst (λ j. session_of j peers ≡ none) ((nat_beq_iff p.0 s.0).0 t) u.0, u.1)
    | inr f ↦ rw f (update-none p.0 peers u.0, update-OnePerNode peers u.1)
  ]

  push-none :
      (j : NodeId) (peers : List Session)
      → (s.0 == j) ≡ false
      → session_of j peers ≡ none
      → session_of j (push peers s) ≡ none
  push-none j [] n h = ground (arith, n)
  push-none j (p ∷ peers) n h = ground (arith, n, h, push-none j peers)

  push-OnePerNode :
      (peers : List Session)
      → session_of s.0 peers ≡ none
      → OnePerNode peers
      → OnePerNode (push peers s)
  push-OnePerNode [] n u = (refl, tt)
  push-OnePerNode (p ∷ peers) n u =
      (push-none p.0 peers (ground (arith, n)) u.0, push-OnePerNode peers (ground (arith, n)) u.1)

directory_probe-peers :
    (now : ℕ) (primary : Option DirectoryView) (ps : Bool) (backup : Option DirectoryView)
    (bs : Bool) (m : IpcManager)
    → (run_directory_probe now primary ps backup bs m).1.peers ≡ m.peers
unfolding run_directory_probe schedule_directory_health schedule_directory_wake
directory_probe-peers now primary ps backup bs m = ground arith

-- Handling any command, a manager that has at most one session for each node keeps it so.
pub run_command-OnePerNode :
    (now : ℕ) (c : IpcCommand) (m : IpcManager)
    → OnePerNode m.peers
    → OnePerNode (run_command now c m).1.peers
unfolding run_command
run_command-OnePerNode now (IpcCommand.peer_closed uuid conn) m u =
    retain-OnePerNode (λ s. not (is_session uuid conn s)) m.peers u
run_command-OnePerNode now (IpcCommand.session_ready id tx conn) m u =
    elim (Option-cases (session_of id m.peers)) [
      | inl e ↦ rw (e, run_session_ready) (push-OnePerNode (id, tx, conn) m.peers e u)
      | inr (old, e) ↦ rw (e, run_session_ready) (update-OnePerNode (id, tx, conn) m.peers u)
    ]
run_command-OnePerNode now (IpcCommand.handshake_failed id) m u =
    subst OnePerNode (sym (handshake_failed-peers now id m)) u
run_command-OnePerNode now (IpcCommand.learned_peers ids) m u = u
run_command-OnePerNode now (IpcCommand.directory_probe primary ps backup bs) m u =
    subst OnePerNode (sym (directory_probe-peers now primary ps backup bs m)) u

retain_all : (peers : List Session) → retain (λ s. true) peers ≡ peers
retain_all [] = refl
retain_all (p ∷ peers) = ap (λ ps. p ∷ ps) (retain_all peers)

not-session :
    (id : NodeId) (tx : Sender) (old conn : ConnectionId)
    → old ≢ conn
    → not (is_session id old (id, tx, conn)) ≡ true
not-session id tx old conn n = ground (arith, n)

-- Once a session with a node is ready, it is the one that the manager keeps for the node: the report that
-- another session with this node has closed leaves it, and so does the report that its own handshake has
-- failed, which names no session.
pub session_ready_stays :
    (now : ℕ) (id : NodeId) (tx : Sender) (conn old : ConnectionId) (expected : Option NodeId)
    (m : IpcManager)
    → old ≢ conn
    → (session_of id (run_peer_closed id old (run_session_ready id tx conn m)).peers
        ≡ some (id, tx, conn))
      × (session_of id (run_handshake_failed now expected (run_session_ready id tx conn m)).peers
          ≡ some (id, tx, conn))
unfolding run_peer_closed
session_ready_stays now id tx conn old expected m n = (
  session_ready-retain id tx conn (λ s. not (is_session id old s)) (not-session id tx old conn n) m,
  subst (λ ps. session_of id ps ≡ some (id, tx, conn))
      (sym (
        handshake_failed-peers now expected (run_session_ready id tx conn m)
        ∙ sym (retain_all (run_session_ready id tx conn m).peers)))
      (session_ready-retain id tx conn (λ s. true) refl m),
)
