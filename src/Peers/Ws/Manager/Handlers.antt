-- ===== src/Peers/Ws/Manager/Handlers.antt =====
-- The handlers of src/peers/ws/ws_manager.rs that change the manager's lists of peers.
use anybus.Common.{
  ℕ, ◌+◌, Bool, true, false, ◌||◌, not, List, [], ◌∷◌, Option, none, some, map, if◌then◌else◌,
  nat_eq, ◌==◌, ltb, length, retain, any, push,
}
use anybus.Routing.{NodeId, ConnectionId, RealmList, global}
use anybus.Routing
use anybus.LinkState.{Sender}
use anybus.Peers.Peer.{register_peer}
use anybus.Peers.Ws.{WsControl}
use anybus.Peers.Ws.Pending.{
  WebSocketPeerConfig, config_eq, WsPendingPeer, from_config, record_attempt, enqueue,
}
use anybus.Peers.Ws.Manager.{
  Stream, StreamDirection, inbound, outbound, WsActivePeer, WsCommand, has_config, has_url,
  ManagerState, listen, new_ws_stream, queue_reconnect, Asked, control, respond, run_ws_peer,
  WebsocketManager, ask,
}

-- `position` and `Vec::remove`: the first peer that passes the test, and the others.
unfoldable pub take_first :
    (WsActivePeer → Bool) → List WsActivePeer → Option (WsActivePeer × List WsActivePeer)
take_first test [] = none
take_first test (p ∷ ps) =
    let rest = take_first test ps in
    if test p then some (p, ps) else elim rest [ none ↦ none | some (q, qs) ↦ some (q, p ∷ qs) ]

abbrev pub reconnect : ℕ → StreamDirection → List WsPendingPeer → List WsPendingPeer
reconnect now inbound ps = ps
reconnect now (outbound config) ps = enqueue (from_config now config) ps

unfoldable pub close_peer : ℕ → NodeId → WebsocketManager → WebsocketManager
unfolding from_config enqueue
close_peer now id m = elim (take_first (λ p. p.peer_id == id) m.current_peers) [
  | none ↦ m
  | some (closed_peer, rest) ↦ record m {
    current_peers = rest;
    disconnected_peers = reconnect now closed_peer.direction m.disconnected_peers;
  }
]

unfoldable pub run_command : ℕ → WsCommand → WebsocketManager → ManagerState × WebsocketManager
unfolding close_peer
run_command now (WsCommand.new_ws_stream stream pending peer_id) m =
    (new_ws_stream stream pending peer_id, m)
run_command now (WsCommand.peer_closed id) m = (listen, close_peer now id m)
run_command now (WsCommand.queue_reconnect pending) m = (queue_reconnect pending, m)

abbrev pub direction_of : Option WsPendingPeer → StreamDirection
direction_of none = inbound
direction_of (some pending) = outbound pending.config

abbrev pub link_cost : ℕ
link_cost = 20

unfoldable pub open_stream :
    Sender → Sender → Stream → Option WsPendingPeer → NodeId → WebsocketManager → WebsocketManager
unfolding Routing.next register_peer
open_stream peer_tx ws_tx stream pending peer_id m =
    let (connection_id, counter) = Routing.next m.connection_counter in
    let peer =
      register_peer peer_id m.node_id global connection_id link_cost (global ∷ []) peer_tx in
    ask (run_ws_peer stream ws_tx peer) (record m {
      connection_counter = counter;
      current_peers =
          push m.current_peers
            (record { direction = direction_of pending; peer_id = peer_id; ws_control = ws_tx });
    })

abbrev pub knows_config : WebSocketPeerConfig → WebsocketManager → Bool
knows_config config m =
    any (λ p. p.config == config) m.pending_peers
    || any (λ p. p.config == config) m.disconnected_peers
    || any (λ p. has_config config p.direction) m.current_peers

unfoldable pub add_config : ℕ → WebSocketPeerConfig → Sender → WebsocketManager → WebsocketManager
unfolding from_config
add_config now config respond_to m =
    if knows_config config m
    then ask (respond respond_to false) m
    else ask (respond respond_to true)
        (record m { pending_peers = push m.pending_peers (from_config now config) })

abbrev peers_count : WebsocketManager → ℕ
peers_count m = length m.pending_peers + length m.disconnected_peers + length m.current_peers

abbrev pub forget_url : ℕ → WebsocketManager → WebsocketManager
forget_url url m = record m {
  pending_peers = retain (λ p. not (p.config.url == url)) m.pending_peers;
  disconnected_peers = retain (λ p. not (p.config.url == url)) m.disconnected_peers;
}

abbrev pub drop_active : ℕ → WebsocketManager → WebsocketManager
drop_active url m = elim (take_first (λ p. has_url url p.direction) m.current_peers) [
  | none ↦ m
  | some (peer, rest) ↦
      ask (control peer.ws_control WsControl.shutdown) (record m { current_peers = rest })
]

unfoldable pub remove_url : ℕ → Sender → WebsocketManager → WebsocketManager
remove_url url respond_to m =
    let m' = drop_active url (forget_url url m) in
    ask (respond respond_to (ltb (peers_count m') (peers_count m))) m'

unfoldable pub reconnect_later : ℕ → WsPendingPeer → WebsocketManager → WebsocketManager
unfolding record_attempt enqueue
reconnect_later now pending m = record m {
  disconnected_peers = enqueue (record_attempt now pending) m.disconnected_peers;
}

abbrev pub notify_peers : List WsActivePeer → List Asked
notify_peers = map λ p. control p.ws_control WsControl.shutdown
