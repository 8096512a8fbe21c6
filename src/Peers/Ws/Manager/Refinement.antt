-- ===== src/Peers/Ws/Manager/Refinement.antt =====
-- The manager of websocket peers implements the waiting room.
use mathlib.Core.Path.{ap}
use mathlib.Core.List.{Perm}
use mathlib.Core.List.Perm
use mathlib.Core.Quot.{sound}
use mathlib.Mathlib.Data.Multiset.Defs.{of_list}
use anybus.Common.{
  ℕ, ◌≤◌, ◌≡◌, ◌⊎◌, Option, none, some, Option-cases, nat_beq_iff, subst, refl, ◌∙◌, inl, inr,
  arith, true, List, [], ◌∷◌, Bool-cases, leb, nat_eq, ◌==◌,
}
use anybus.Peers.Ws.Pending.{
  WsPendingPeer, from_config, record_attempt, when_ready, place_of, is_taken, all_ready,
}
use anybus.Peers.Ws.Pending.Sorted.{enqueue_taken, enqueue_free}
use anybus.Routing.{NodeId}
use anybus.Suspend.{AnyBusStatusMsg, shutting_down, resuming, suspending, network_changed}
use anybus.Peers.Ws.Manager.{
  WebsocketManager, ManagerState, get_next_ready_peer, inbound, outbound, StreamDirection, pop,
  on_resume, WsCommand, listen, init, error, shutdown, handle_command, new_ws_stream,
  connect_remote, queue_reconnect, has_url, add_ws_peer, remove_ws_peer,
}
use anybus.Peers.Ws.Manager.Handlers.{
  close_peer, reconnect, take_first, drop_active, forget_url, knows_config,
}
use anybus.Peers.Ws.Manager.Loop.{
  next, Outside, Found, timeout, add_peer, remove_peer, command, status, listen_step, on_found,
  on_status, listen_ready,
}
use anybus.Peers.Ws.Manager.Queue.{List-cases, ready_empty, ready_first, ready_later}
use anybus.LinkState.{Sender}
use anybus.Peers.Ws.Manager.Handlers.{reconnect_later, remove_url}
use anybus.Peers.Ws.Manager.Room.{
  RoomStep, stay, arrive, refuse, come_back, call, hurry, send_away, room, Refines, insert_at-perm,
  sort_by_ready-perm,
}

-- A peer that is ready at the time is one of the room.
taken-perm :
    (at : ℕ) (ps : List WsPendingPeer)
    → is_taken at ps ≡ true
    → (q : WsPendingPeer) × (others : List WsPendingPeer) × Perm ps (q ∷ others)
      × (when_ready q ≡ at)
unfolding is_taken
taken-perm at [] h = cc
taken-perm at (p ∷ ps) h = elim (Bool-cases (when_ready p == at)) [
  | inl t ↦ (p, ps, Perm.refl (p ∷ ps), (nat_beq_iff (when_ready p) at).0 t)
  | inr f ↦
      let (q, others, perm, same) = taken-perm at ps (ground (arith, h, f)) in
      (q, p ∷ others, Perm.trans (Perm.cons p perm) (Perm.swap q p others), same)
]

queue_reconnect-RoomStep :
    (o : Outside) (pending : WsPendingPeer) (m : WebsocketManager)
    → RoomStep o
        (queue_reconnect pending)
        (room m)
        listen
        (room (reconnect_later (o.clock 0) pending m))
unfolding reconnect_later
queue_reconnect-RoomStep o pending m =
    let p = record_attempt (o.clock 0) pending in
    let ps = m.disconnected_peers in
    elim (Bool-cases (is_taken (when_ready p) ps)) [
      | inl taken ↦
          let (q, others, perm, same) = taken-perm (when_ready p) ps taken in
          refuse pending q listen _ _ (of_list others) (sound perm) same
            (ap (λ (x : List WsPendingPeer). of_list x) (enqueue_taken p ps taken))
      | inr free ↦ arrive pending listen _ _ (
          ap (λ (x : List WsPendingPeer). of_list x) (enqueue_free p ps free)
          ∙ sound (insert_at-perm (place_of (when_ready p) ps) p ps))
    ]

-- The room is as it was, or a peer that is ready was called.
ready-RoomStep :
    (o : Outside) (now : ℕ) (m : WebsocketManager)
    → (now ≡ o.clock 0) ⊎ (now ≡ o.found_at)
    → (p : WsPendingPeer) → (get_next_ready_peer now m).1 ≡ some p
    → RoomStep o listen (room m) (connect_remote p) (room (get_next_ready_peer now m).0)
ready-RoomStep o now m read p found = elim (List-cases m.disconnected_peers) [
  | inl e ↦ absurd (ground (arith, (ready_empty now m e).0, found))
  | inr (q, ps, e) ↦ elim (Bool-cases (leb (when_ready q) now)) [
    | inl r ↦
        let first = ready_first now m q ps e r in
        let same : q ≡ p = ground (arith, first, found) in
        let split : m.disconnected_peers ≡ p ∷ (get_next_ready_peer now m).0.disconnected_peers =
          rw first (e ∙ ap (λ x. x ∷ ps) same) in
        let due : when_ready q ≤ now = ground arith in
        call now p (room m) (room (get_next_ready_peer now m).0) read
          (subst (λ x. when_ready x ≤ now) same due)
          (ap (λ (x : List WsPendingPeer). of_list x) split)
    | inr r ↦ absurd (ground (arith, ready_later now m q ps e r, found))
  ]
]

-- A state and a manager after a pass.
abbrev StepsTo :
    Outside → ManagerState → WebsocketManager → ManagerState × WebsocketManager → Type 0
StepsTo o s m (s', m') = RoomStep o s (room m) s' (room m')

reconnect-StepsTo :
    (o : Outside) (id : NodeId) (d : StreamDirection) (ps : List WsPendingPeer)
    → RoomStep o
        (handle_command (WsCommand.peer_closed id))
        (of_list ps)
        listen
        (of_list (reconnect (o.clock 0) d ps))
reconnect-StepsTo o id inbound ps = stay _ listen _ _ refl refl
reconnect-StepsTo o id (outbound config) ps =
    let p = from_config (o.clock 0) config in
    elim (Bool-cases (is_taken (when_ready p) ps)) [
      | inl taken ↦
          stay _ listen _ _ refl
            (ap (λ (x : List WsPendingPeer). of_list x) (enqueue_taken p ps taken))
      | inr free ↦ come_back id config listen _ _ (
          ap (λ (x : List WsPendingPeer). of_list x) (enqueue_free p ps free)
          ∙ sound (insert_at-perm (place_of (when_ready p) ps) p ps))
    ]

close_peer-StepsTo :
    (o : Outside) (id : NodeId) (m : WebsocketManager)
    → StepsTo o (handle_command (WsCommand.peer_closed id)) m (listen, close_peer (o.clock 0) id m)
unfolding close_peer
close_peer-StepsTo o id m =
    elim (Option-cases (take_first (λ p. p.peer_id == id) m.current_peers)) [
      | inl e ↦ rw (e, close_peer) (stay _ listen _ _ refl refl)
      | inr ((closed_peer, rest), e) ↦
          rw (e, close_peer) (reconnect-StepsTo o id closed_peer.direction m.disconnected_peers)
    ]

status-StepsTo :
    (s : Option AnyBusStatusMsg) (o : Outside) (m : WebsocketManager)
    → o.found ≡ status s
    → StepsTo o listen m (on_status s o.clock m)
unfolding on_resume
status-StepsTo none o m e = stay listen _ _ _ refl refl
status-StepsTo (some shutting_down) o m e = stay listen _ _ _ refl refl
status-StepsTo (some resuming) o m e =
    hurry m.disconnected_peers _ _ e refl
      (sound (sort_by_ready-perm (all_ready o.clock m.disconnected_peers)))
status-StepsTo (some suspending) o m e = stay listen _ _ _ refl refl
status-StepsTo (some network_changed) o m e = stay listen _ _ _ refl refl

found-StepsTo :
    (f : Found) (o : Outside) (m : WebsocketManager)
    → o.found ≡ f
    → StepsTo o listen m (on_found f o m)
found-StepsTo timeout o m h = elim (Option-cases (get_next_ready_peer o.found_at m).1) [
  | inl e ↦ rw (e, on_found) (stay listen listen _ _ refl refl)
  | inr (p, e) ↦
      let called = ready-RoomStep o o.found_at m (inr refl) p e in rw (e, on_found) called
]
found-StepsTo (add_peer config respond_to) o m h = stay listen _ _ _ refl refl
found-StepsTo (remove_peer url respond_to) o m h = stay listen _ _ _ refl refl
found-StepsTo (command c) o m h = stay listen _ _ _ refl refl
found-StepsTo (status s) o m h = status-StepsTo s o m h

listen-StepsTo : (o : Outside) (m : WebsocketManager) → StepsTo o listen m (listen_step o m)
unfolding listen_step
listen-StepsTo o m = elim (Option-cases (pop m.pending_peers)) [
  | inr ((rest, peer), e) ↦ rw (e, listen_step) (stay listen _ _ _ refl refl)
  | inl e ↦
      rw (e, listen_step)
        (elim (Option-cases (get_next_ready_peer (o.clock 0) m).1) [
          | inl none_ready ↦ rw (none_ready, listen_ready) (found-StepsTo o.found o m refl)
          | inr (p, one) ↦
              let called = ready-RoomStep o (o.clock 0) m (inl refl) p one in
              rw (one, listen_ready) called
        ])
]

remove_url-StepsTo :
    (o : Outside) (url : ℕ) (respond_to : Sender) (m : WebsocketManager)
    → StepsTo o (remove_ws_peer url respond_to) m (listen, remove_url url respond_to m)
unfolding remove_url
remove_url-StepsTo o url respond_to m =
    let gone = forget_url url m in
    elim (Option-cases (take_first (λ p. has_url url p.direction) m.current_peers)) [
      | inl e ↦
          rw (e, drop_active) (send_away url respond_to m.disconnected_peers listen _ _ refl refl)
      | inr ((peer, rest), e) ↦
          rw (e, drop_active) (send_away url respond_to m.disconnected_peers listen _ _ refl refl)
    ]

-- The manager implements a waiting room that knows no order. Whatever state it is in and whatever happens,
-- a pass of its loop does to its queue one step that the room allows from this state: in `listen` nothing
-- changes, or one peer that is ready is called and connected to next, or on resume all are told to be
-- ready; after a failed attempt the peer comes in with its next time, or is refused since another peer is
-- ready at that time; when a peer closes nothing changes or one comes in with the first backoff; a removal
-- sends away the peers with the URL; and no other state changes the room.
pub next-Refines :
    (o : Outside) (s : ManagerState) (m : WebsocketManager) → Refines o s m (next o s m)
unfolding next
next-Refines o init m = elim (Bool-cases m.has_listener_options) [
  | inl t ↦ rw t (stay init _ _ _ refl refl)
  | inr f ↦ rw f (stay init _ _ _ refl refl)
]
next-Refines o listen m = listen-StepsTo o m
next-Refines o (handle_command (WsCommand.new_ws_stream stream pending peer_id)) m =
    stay _ _ _ _ refl refl
next-Refines o (handle_command (WsCommand.peer_closed id)) m = close_peer-StepsTo o id m
next-Refines o (handle_command (WsCommand.queue_reconnect pending)) m = stay _ _ _ _ refl refl
next-Refines o (new_ws_stream stream pending peer_id) m = stay _ _ _ _ refl refl
next-Refines o (connect_remote pending) m = stay _ _ _ _ refl refl
next-Refines o (queue_reconnect pending) m = queue_reconnect-RoomStep o pending m
next-Refines o error m = stay _ _ _ _ refl refl
next-Refines o shutdown m = refl
next-Refines o (add_ws_peer config respond_to) m = elim (Bool-cases (knows_config config m)) [
  | inl t ↦ rw t (stay _ _ _ _ refl refl)
  | inr f ↦ rw f (stay _ _ _ _ refl refl)
]
next-Refines o (remove_ws_peer url respond_to) m = remove_url-StepsTo o url respond_to m
