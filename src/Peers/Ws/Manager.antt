-- ===== src/Peers/Ws/Manager.antt =====
-- `WebsocketManager` of src/peers/ws/ws_manager.rs. its state, the queue of peers that wait,
-- and what it asks of others, which is collected in `asked`. Streams and channels are named by numbers.
pub mod Handlers
pub mod Loop
pub mod Queue
pub mod Passes
pub mod Room
pub mod Refinement
pub mod Order
pub mod Configs
pub mod Attempts
use anybus.Common.{
  ℕ, ◌+◌, ◌-◌, Bool, true, false, ◌&&◌, ◌||◌, not, List, [], ◌∷◌, ◌++◌, Option, none, some, map,
  if◌then◌else◌, nat_beq, nat_eq, ◌==◌, ltb, leb, length, retain, find, any, push,
}
use anybus.Routing.{NodeId, ConnectionId, RealmList, global}
use anybus.Routing
use anybus.LinkState.{Sender}
use anybus.Suspend.{AnyBusStatusMsg, shutting_down, resuming}
use anybus.Peers.Peer.{Peer, register_peer}
use anybus.Peers.Ws.{WsControl, WsMessage}
use anybus.Peers.Ws.WsPeer.{InMessage}
use anybus.Peers.Ws.Pending.{
  WebSocketPeerConfig, config_eq, WsPendingPeer, from_config, when_ready, record_attempt, enqueue,
  all_ready, sort_by_ready,
}

abbrev pub Stream : Type 0
Stream = ℕ

pub data StreamDirection : Type 0 where
  inbound : StreamDirection
  outbound : WebSocketPeerConfig → StreamDirection

pub record WsActivePeer : Type 0 where
  pub direction : StreamDirection
  pub peer_id : NodeId
  pub ws_control : Sender

pub data WsCommand : Type 0 where
  new_ws_stream : Stream → Option WsPendingPeer → NodeId → WsCommand
  peer_closed : NodeId → WsCommand
  queue_reconnect : WsPendingPeer → WsCommand

-- `PartialEq` of a direction with a configuration, and with a URL.
abbrev pub has_config : WebSocketPeerConfig → StreamDirection → Bool
has_config config inbound = false
has_config config (outbound c) = c == config

abbrev pub has_url : ℕ → StreamDirection → Bool
has_url url inbound = false
has_url url (outbound c) = c.url == url

pub data ManagerState : Type 0 where
  init listen error shutdown : ManagerState
  handle_command : WsCommand → ManagerState
  new_ws_stream : Stream → Option WsPendingPeer → NodeId → ManagerState
  connect_remote : WsPendingPeer → ManagerState
  queue_reconnect : WsPendingPeer → ManagerState
  add_ws_peer : WebSocketPeerConfig → Sender → ManagerState
  remove_ws_peer : ℕ → Sender → ManagerState

-- What the manager asks of others: a control message to a peer's task, an answer to a call, `true` for
-- `Ok`, and tasks that it spawns.
pub data Asked : Type 0 where
  control : Sender → WsControl → Asked
  respond : Sender → Bool → Asked
  connect_to_peer : WsPendingPeer → Asked
  run_ws_peer : Stream → Sender → Peer → Asked
  create_listener : Asked

pub record WebsocketManager : Type 0 where
  pub current_peers : List WsActivePeer
  pub node_id : NodeId
  pub has_listener_options : Bool
  pub pending_peers : List WsPendingPeer
  pub disconnected_peers : List WsPendingPeer
  pub connection_counter : ℕ
  pub asked : List Asked

unfoldable pub new : ℕ → NodeId → Bool → List WebSocketPeerConfig → ℕ → WebsocketManager
unfolding from_config
new now node_id has_listener_options ws_peers connection_counter = record {
  current_peers = [];
  node_id = node_id;
  has_listener_options = has_listener_options;
  pending_peers = map (from_config now) ws_peers;
  disconnected_peers = [];
  connection_counter = connection_counter;
  asked = [];
}

abbrev pub ask : Asked → WebsocketManager → WebsocketManager
ask a m = record m { asked = push m.asked a }

-- `none` if no peer waits, else how long until the first is ready.
unfoldable pub get_next_timeout : ℕ → WebsocketManager → Option ℕ
get_next_timeout now m = elim m.disconnected_peers [
  | [] ↦ none
  | p ∷ ps ↦ some (if leb (when_ready p) now then 0 else when_ready p - now)
]

unfoldable pub get_next_ready_peer : ℕ → WebsocketManager → WebsocketManager × Option WsPendingPeer
get_next_ready_peer now m = elim m.disconnected_peers [
  | [] ↦ (m, none)
  | p ∷ ps ↦
      if leb (when_ready p) now then (record m { disconnected_peers = ps }, some p) else (m, none)
]

abbrev resume_all : List WsActivePeer → List Asked
resume_all = map λ p. control p.ws_control WsControl.resume

unfoldable pub on_resume : (ℕ → ℕ) → WebsocketManager → WebsocketManager
unfolding all_ready sort_by_ready
on_resume clock m = record m {
  disconnected_peers = sort_by_ready (all_ready clock m.disconnected_peers);
  asked = m.asked ++ resume_all m.current_peers;
}

-- `listener_ok` is what `create_listener` answers.
unfoldable pub init_listener : Bool → WebsocketManager → ManagerState × WebsocketManager
init_listener listener_ok m =
    if m.has_listener_options
    then (
      if listener_ok then listen else error,
      ask create_listener (record m { has_listener_options = false }),
    )
    else (listen, m)

-- `Vec::pop`: all but the last, and the last.
unfoldable pub pop : List WsPendingPeer → Option (List WsPendingPeer × WsPendingPeer)
pop [] = none
pop (p ∷ ps) = elim (pop ps) [ none ↦ some ([], p) | some (rest, last) ↦ some (p ∷ rest, last) ]
