-- ===== src/Peers/Ws/Manager/Passes.antt =====
-- What all operations on the queue of disconnected peers keep, every pass of the manager's loop keeps.
use anybus.Common.{
  ◌∷◌, leb, subst, retain, ℕ, ◌≡◌, inl, inr, true, List, Option, none, some, Bool-cases,
  Option-cases, not, nat_eq, ◌==◌,
}
use anybus.Routing.{NodeId}
use anybus.Suspend.{AnyBusStatusMsg, shutting_down, resuming, suspending, network_changed}
use anybus.Peers.Ws.Pending.{
  enqueue, sort_by_ready, WsPendingPeer, when_ready, record_attempt, all_ready, from_config,
}
use anybus.Peers.Ws.Manager.{
  WebsocketManager, ManagerState, get_next_ready_peer, inbound, outbound, StreamDirection, pop,
  on_resume, WsCommand, listen, init, error, shutdown, handle_command, new_ws_stream,
  connect_remote, queue_reconnect, has_url, add_ws_peer, remove_ws_peer,
}
use anybus.Peers.Ws.Manager.Handlers.{
  close_peer, reconnect, take_first, drop_active, forget_url, knows_config,
}
use anybus.Peers.Ws.Manager.Loop.{
  Next, go, stop, next, Outside, Found, timeout, add_peer, remove_peer, command, status,
  listen_step, on_found, on_status, listen_ready,
}
use anybus.Peers.Ws.Manager.Queue.{List-cases, ready_empty, ready_first, ready_later}

-- What the code does to the queue: it puts a peer in, takes the first if it is ready, forgets those with a
-- URL, and makes all of them ready when the machine resumes.
pub record IsClosed (P : List WsPendingPeer → Type 0) : Type 0 where
  pub enqueued : (p : WsPendingPeer) (ps : List WsPendingPeer) → P ps → P (enqueue p ps)
  pub taken :
      (now : ℕ) (p : WsPendingPeer) (ps : List WsPendingPeer)
      → leb (when_ready p) now ≡ true
      → P (p ∷ ps)
      → P ps
  pub forgotten :
      (url : ℕ) (ps : List WsPendingPeer) → P ps → P (retain (λ p. not (p.config.url == url)) ps)
  pub refreshed :
      (clock : ℕ → ℕ) (ps : List WsPendingPeer) → P ps → P (sort_by_ready (all_ready clock ps))

-- The queue after a pass.
abbrev pub Keeps : (List WsPendingPeer → Type 0) → Next → Type 0
Keeps P (go state m) = P m.disconnected_peers
Keeps P (stop m) = P m.disconnected_peers

module _ (P : List WsPendingPeer → Type 0) (closed : IsClosed P) where
  abbrev Holds : WebsocketManager → Type 0
  Holds m = P m.disconnected_peers

  ready_taken :
      (now : ℕ) (m : WebsocketManager)
      → P m.disconnected_peers
      → Holds (get_next_ready_peer now m).0
  ready_taken now m s = elim (List-cases m.disconnected_peers) [
    | inl e ↦ rw (ready_empty now m e).0 s
    | inr (p, ps, e) ↦ elim (Bool-cases (leb (when_ready p) now)) [
      | inl r ↦ rw (ready_first now m p ps e r) (closed.taken now p ps r (subst P e s))
      | inr r ↦ rw (ready_later now m p ps e r) s
    ]
  ]

  reconnected :
      (now : ℕ) (d : StreamDirection) (ps : List WsPendingPeer) → P ps → P (reconnect now d ps)
  reconnected now inbound ps s = s
  reconnected now (outbound config) ps s = closed.enqueued (from_config now config) ps s

  peer_closed :
      (now : ℕ) (id : NodeId) (m : WebsocketManager)
      → P m.disconnected_peers
      → Holds (close_peer now id m)
  unfolding close_peer
  peer_closed now id m s = elim (Option-cases (take_first (λ p. p.peer_id == id) m.current_peers)) [
    | inl e ↦ rw (e, close_peer) s
    | inr ((closed_peer, rest), e) ↦
        rw (e, close_peer) (reconnected now closed_peer.direction m.disconnected_peers s)
  ]

  status_handled :
      (s : Option AnyBusStatusMsg) (clock : ℕ → ℕ) (m : WebsocketManager)
      → P m.disconnected_peers
      → Holds (on_status s clock m).1
  unfolding on_resume
  status_handled none clock m h = h
  status_handled (some shutting_down) clock m h = h
  status_handled (some resuming) clock m h = closed.refreshed clock m.disconnected_peers h
  status_handled (some suspending) clock m h = h
  status_handled (some network_changed) clock m h = h

  found_handled :
      (f : Found) (o : Outside) (m : WebsocketManager)
      → P m.disconnected_peers
      → Holds (on_found f o m).1
  found_handled timeout o m h =
      let kept = ready_taken o.found_at m h in
      elim (Option-cases (get_next_ready_peer o.found_at m).1) [
        | inl e ↦ rw (e, on_found) h
        | inr (p, e) ↦ rw (e, on_found) kept
      ]
  found_handled (add_peer config respond_to) o m h = h
  found_handled (remove_peer url respond_to) o m h = h
  found_handled (command c) o m h = h
  found_handled (status s) o m h = status_handled s o.clock m h

  listened :
      (o : Outside) (m : WebsocketManager) → P m.disconnected_peers → Holds (listen_step o m).1
  unfolding listen_step
  listened o m h = elim (Option-cases (pop m.pending_peers)) [
    | inr ((rest, peer), e) ↦ rw (e, listen_step) h
    | inl e ↦
        let kept = ready_taken (o.clock 0) m h in
        rw (e, listen_step)
          (elim (Option-cases (get_next_ready_peer (o.clock 0) m).1) [
            | inl none_ready ↦ rw (none_ready, listen_ready) (found_handled o.found o m h)
            | inr (p, one) ↦ rw (one, listen_ready) kept
          ])
  ]

  dropped : (url : ℕ) (m : WebsocketManager) → P m.disconnected_peers → Holds (drop_active url m)
  dropped url m h =
      elim (Option-cases (take_first (λ p. has_url url p.direction) m.current_peers)) [
        | inl e ↦ rw (e, drop_active) h
        | inr ((peer, rest), e) ↦ rw (e, drop_active) h
      ]

  -- A pass of the loop keeps what the operations on the queue keep.
  pub next-Keeps :
      (o : Outside) (state : ManagerState) (m : WebsocketManager)
      → P m.disconnected_peers
      → Keeps P (next o state m)
  unfolding next
  next-Keeps o init m h = elim (Bool-cases m.has_listener_options) [
    | inl t ↦ rw t h
    | inr f ↦ rw f h
  ]
  next-Keeps o listen m h = listened o m h
  next-Keeps o (handle_command (WsCommand.new_ws_stream stream pending peer_id)) m h = h
  next-Keeps o (handle_command (WsCommand.peer_closed id)) m h = peer_closed (o.clock 0) id m h
  next-Keeps o (handle_command (WsCommand.queue_reconnect pending)) m h = h
  next-Keeps o (new_ws_stream stream pending peer_id) m h = h
  next-Keeps o (connect_remote pending) m h = h
  next-Keeps o (queue_reconnect pending) m h =
      closed.enqueued (record_attempt (o.clock 0) pending) m.disconnected_peers h
  next-Keeps o error m h = h
  next-Keeps o shutdown m h = h
  next-Keeps o (add_ws_peer config respond_to) m h = elim (Bool-cases (knows_config config m)) [
    | inl t ↦ rw t h
    | inr f ↦ rw f h
  ]
  next-Keeps o (remove_ws_peer url respond_to) m h =
      dropped url (forget_url url m) (closed.forgotten url m.disconnected_peers h)
