-- ===== src/Peers/Ws/Manager/Attempts.antt =====
-- What becomes of an attempt to connect to a remote peer.
use anybus.Common.{
  ℕ, ◌≡◌, ◌⊎◌, inl, inr, refl, arith, true, false, List, [], ◌∷◌, Option, none, some, any, push,
  nat_eq, ◌==◌, zero, suc,
}
use anybus.Routing.{NodeId}
use anybus.Peers.Ws.{WsMessage}
use anybus.Peers.Ws.WsPeer.{InMessage}
use anybus.Peers.Ws.Pending.{
  WebSocketPeerConfig, config_eq, WsPendingPeer, when_ready, record_attempt, is_taken, insert_at,
  place_of,
}
use anybus.Peers.Ws.Pending.Sorted.{enqueue_free}
use anybus.Peers.Ws.Manager.{
  WebsocketManager, WsActivePeer, Stream, handle_command, outbound, has_config, listen, WsCommand,
}
use anybus.Peers.Ws.Manager.Handlers.{knows_config, open_stream, reconnect_later}
use anybus.Peers.Ws.Manager.Loop.{Outside, next, go, stop, Next, connected}

connected_cases :
    (attempt : Option Stream) (heard : Option InMessage) (pending : WsPendingPeer)
    → (connected attempt heard pending ≡ some (WsCommand.queue_reconnect pending))
      ⊎ ((stream : Stream) × (peer_id : NodeId) × (connected attempt heard pending
            ≡ some (WsCommand.new_ws_stream stream (some pending) peer_id)))
unfolding connected
connected_cases none heard pending = inl refl
connected_cases (some stream) (some (InMessage.ws_message (WsMessage.hello id))) pending =
    inr (stream, id, refl)
connected_cases (some stream) (some (InMessage.ws_message (WsMessage.node_msg m))) pending =
    inl refl
connected_cases (some stream) (some (InMessage.ws_message WsMessage.close_connection)) pending =
    inl refl
connected_cases (some stream) (some (InMessage.ws_message (WsMessage.ping t))) pending = inl refl
connected_cases (some stream) (some (InMessage.ws_message (WsMessage.pong t))) pending = inl refl
connected_cases (some stream) (some InMessage.ws_peer_closed) pending = inl refl
connected_cases (some stream) (some InMessage.unknown) pending = inl refl
connected_cases (some stream) none pending = inl refl

any-push :
    (config : WebSocketPeerConfig) (p : WsActivePeer) (ps : List WsActivePeer)
    → has_config config p.direction ≡ true
    → any (λ q. has_config config q.direction) (push ps p) ≡ true
any-push config p [] h = ground (arith, h)
any-push config p (q ∷ ps) h = ground (arith, any-push config p ps h)

any-insert_at :
    (i : ℕ) (p : WsPendingPeer) (ps : List WsPendingPeer)
    → any (λ q. q.config == p.config) (insert_at i p ps) ≡ true
unfolding insert_at
any-insert_at zero p ps = ground arith
any-insert_at (suc i) p [] = ground arith
any-insert_at (suc i) p (q ∷ ps) = ground (arith, any-insert_at i p ps)

knows_disconnected :
    (config : WebSocketPeerConfig) (m : WebsocketManager)
    → any (λ p. p.config == config) m.disconnected_peers ≡ true
    → knows_config config m ≡ true
knows_disconnected config m h = ground (arith, h)

knows_current :
    (config : WebSocketPeerConfig) (m : WebsocketManager)
    → any (λ p. has_config config p.direction) m.current_peers ≡ true
    → knows_config config m ≡ true
knows_current config m h = ground (arith, h)

reconnect_later-knows :
    (now : ℕ) (pending : WsPendingPeer) (m : WebsocketManager)
    → is_taken (when_ready (record_attempt now pending)) m.disconnected_peers ≡ false
    → knows_config pending.config (reconnect_later now pending m) ≡ true
unfolding reconnect_later
reconnect_later-knows now pending m free =
    let p = record_attempt now pending in
    knows_disconnected pending.config (reconnect_later now pending m) (
      rw (enqueue_free p m.disconnected_peers free)
        (any-insert_at (place_of (when_ready p) m.disconnected_peers) p m.disconnected_peers))

open_stream-knows :
    (o : Outside) (stream : Stream) (pending : WsPendingPeer) (id : NodeId) (m : WebsocketManager)
    → knows_config pending.config (open_stream o.peer_tx o.ws_tx stream (some pending) id m) ≡ true
unfolding open_stream
open_stream-knows o stream pending id m =
    let active : WsActivePeer = record {
      direction = outbound pending.config;
      peer_id = id;
      ws_control = o.ws_tx;
    } in
    knows_current pending.config (open_stream o.peer_tx o.ws_tx stream (some pending) id m)
      (any-push pending.config active m.current_peers (ground arith))

-- The manager handles a command and then the state that follows.
abbrev pub handled : Outside → Outside → WsCommand → WebsocketManager → Next
handled o o' c m = elim (next o (handle_command c) m) [
  | go state m' ↦ next o' state m'
  | stop m' ↦ stop m'
]

abbrev pub KnowsConfig : WebSocketPeerConfig → Next → Type 0
KnowsConfig config (go state m) = (state ≡ listen) × (knows_config config m ≡ true)
KnowsConfig config (stop m) = ⊥

-- However an attempt on a remote peer ends, and whatever comes in place of a greeting, the manager is
-- sent one command; once it has handled that it listens again and has the peer among its current ones or
-- among those that wait, if no other peer waits for the very time at which this one would be ready.
pub connected-KnowsConfig :
    (attempt : Option Stream) (heard : Option InMessage) (pending : WsPendingPeer) (o o' : Outside)
    (m : WebsocketManager)
    → is_taken (when_ready (record_attempt (o'.clock 0) pending)) m.disconnected_peers ≡ false
    → (c : WsCommand) × (connected attempt heard pending ≡ some c)
      × KnowsConfig pending.config (handled o o' c m)
unfolding next
connected-KnowsConfig attempt heard pending o o' m free =
    elim (connected_cases attempt heard pending) [
      | inl e ↦ (
        WsCommand.queue_reconnect pending,
        e,
        (refl, reconnect_later-knows (o'.clock 0) pending m free),
      )
      | inr (stream, id, e) ↦ (
        WsCommand.new_ws_stream stream (some pending) id,
        e,
        (refl, open_stream-knows o' stream pending id m),
      )
    ]
