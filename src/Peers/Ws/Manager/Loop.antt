-- ===== src/Peers/Ws/Manager/Loop.antt =====
-- The loop of src/peers/ws/ws_manager.rs: `next` is one pass of it. What `select!` delivers, the times
-- that the clock shows and the names of new channels are inputs.
use anybus.Common.{ℕ, Bool, [], ◌++◌, Option, none, some, nat_eq}
use anybus.LinkState.{Sender}
use anybus.Suspend.{AnyBusStatusMsg, shutting_down, resuming}
use anybus.Peers.Ws.{WsMessage}
use anybus.Peers.Ws.WsPeer.{InMessage}
use anybus.Peers.Ws.Pending.{WebSocketPeerConfig, config_eq, WsPendingPeer}
use anybus.Peers.Ws.Manager.{
  Stream, WsCommand, ManagerState, init, listen, error, shutdown, handle_command, new_ws_stream,
  connect_remote, queue_reconnect, add_ws_peer, remove_ws_peer, connect_to_peer, WebsocketManager,
  ask, get_next_ready_peer, on_resume, init_listener, pop,
}
use anybus.Peers.Ws.Manager.Handlers.{
  run_command, open_stream, add_config, remove_url, reconnect_later, notify_peers,
}

-- What `select!` finds first in `listen`; `none` of a status is an error.
pub data Found : Type 0 where
  timeout : Found
  add_peer : WebSocketPeerConfig → Sender → Found
  remove_peer : ℕ → Sender → Found
  command : WsCommand → Found
  status : Option AnyBusStatusMsg → Found

-- What one pass reads from outside.
pub record Outside : Type 0 where
  pub clock : ℕ → ℕ
  pub found : Found
  pub found_at : ℕ
  pub listener_ok : Bool
  pub peer_tx : Sender
  pub ws_tx : Sender

abbrev pub on_status :
    Option AnyBusStatusMsg → (ℕ → ℕ) → WebsocketManager → ManagerState × WebsocketManager
on_status none clock m = (shutdown, m)
on_status (some shutting_down) clock m = (shutdown, m)
on_status (some resuming) clock m = (listen, on_resume clock m)
on_status (some _) clock m = (listen, m)

abbrev ready_state :
    WebsocketManager × Option WsPendingPeer → Option (ManagerState × WebsocketManager)
ready_state (m, none) = none
ready_state (m, some pending) = some (connect_remote pending, m)

abbrev pub on_found : Found → Outside → WebsocketManager → ManagerState × WebsocketManager
on_found timeout o m = elim (ready_state (get_next_ready_peer o.found_at m)) [
  | none ↦ (listen, m)
  | some result ↦ result
]
on_found (add_peer config respond_to) o m = (add_ws_peer config respond_to, m)
on_found (remove_peer url respond_to) o m = (remove_ws_peer url respond_to, m)
on_found (command c) o m = (handle_command c, m)
on_found (status s) o m = on_status s o.clock m

abbrev pub listen_ready : Outside → WebsocketManager → ManagerState × WebsocketManager
listen_ready o m = elim (ready_state (get_next_ready_peer (o.clock 0) m)) [
  | none ↦ on_found o.found o m
  | some result ↦ result
]

unfoldable pub listen_step : Outside → WebsocketManager → ManagerState × WebsocketManager
unfolding on_resume
listen_step o m = elim (pop m.pending_peers) [
  | some (rest, peer) ↦ (connect_remote peer, record m { pending_peers = rest })
  | none ↦ listen_ready o m
]

pub data Next : Type 0 where
  go : ManagerState → WebsocketManager → Next
  stop : WebsocketManager → Next

abbrev go_with : ManagerState × WebsocketManager → Next
go_with (state, m) = go state m

unfoldable pub next : Outside → ManagerState → WebsocketManager → Next
unfolding init_listener listen_step run_command open_stream add_config remove_url reconnect_later
next o init m = go_with (init_listener o.listener_ok m)
next o listen m = go_with (listen_step o m)
next o (handle_command c) m = go_with (run_command (o.clock 0) c m)
next o (new_ws_stream stream pending peer_id) m =
    go listen (open_stream o.peer_tx o.ws_tx stream pending peer_id m)
next o (connect_remote pending) m = go listen (ask (connect_to_peer pending) m)
next o (queue_reconnect pending) m = go listen (reconnect_later (o.clock 0) pending m)
next o error m = go listen m
next o shutdown m =
    stop (record m { current_peers = []; asked = m.asked ++ notify_peers m.current_peers })
next o (add_ws_peer config respond_to) m = go listen (add_config (o.clock 0) config respond_to m)
next o (remove_ws_peer url respond_to) m = go listen (remove_url url respond_to m)

-- `handshake_peer`: `heard` is what comes within five seconds of our hello, if anything. An inbound
-- stream that does not greet is dropped.
unfoldable pub handshake_peer : Stream → Option WsPendingPeer → Option InMessage → Option WsCommand
handshake_peer stream pending (some (InMessage.ws_message (WsMessage.hello peer_id))) =
    some (WsCommand.new_ws_stream stream pending peer_id)
handshake_peer stream pending _ = elim pending [
  | none ↦ none
  | some p ↦ some (WsCommand.queue_reconnect p)
]

-- `connect_to_peer` with the handshake that it spawns: `attempt` is the stream, if one was opened.
unfoldable pub connected : Option Stream → Option InMessage → WsPendingPeer → Option WsCommand
unfolding handshake_peer
connected none heard pending = some (WsCommand.queue_reconnect pending)
connected (some stream) heard pending = handshake_peer stream (some pending) heard
