-- ===== src/Peers/Ws/WsPeer.antt =====
-- `struct WsPeer` of src/peers/ws/ws_peer.rs: the state machine of one websocket peer, without I/O. The
-- time that a transition reads from the clock is its first argument, in milliseconds.
use anybus.Common.{
  ℕ, Bool, true, false, List, [], ◌∷◌, Option, none, some, push, is_empty, ◌&&◌, if◌then◌else◌,
}
use anybus.Routing.{NodeId}
use anybus.LinkState.{NodeMessage}
use anybus.Heartbeat
use anybus.Heartbeat.{Heartbeat}
use anybus.Peers.Ws.{WsControl, WsMessage}

abbrev pub default_heartbeat_interval : ℕ
default_heartbeat_interval = 15000

abbrev pub default_heartbeat_timeout : ℕ
default_heartbeat_timeout = 45000

-- What the adapter of the socket makes of a frame.
pub data InMessage : Type 0 where
  ws_message : WsMessage → InMessage
  ws_peer_closed unknown : InMessage

pub data Event : Type 0 where
  control : WsControl → Event
  from_wire : WsMessage → Event
  from_node : NodeMessage → Event
  transport_dead unknown_wire : Event
  tick : ℕ → Event

pub data Effect : Type 0 where
  send : WsMessage → Effect
  close_socket : Effect
  handle_node_message : NodeMessage → Effect
  unregister notify_peer_closed : Effect

pub data Phase : Type 0 where
  open_phase closing closed : Phase

pub data CloseReason : Type 0 where
  local remote transport : CloseReason

pub record WsPeer : Type 0 where
  pub phase : Phase
  pub effects : List Effect
  pub peer_id : NodeId
  pub hb : Heartbeat

-- `new_with_heartbeat`; the connection and the own id are only logged.
unfoldable pub new_with_heartbeat : NodeId → ℕ → ℕ → ℕ → WsPeer
unfolding Heartbeat.new
new_with_heartbeat peer_id now interval timeout = record {
  phase = open_phase;
  effects = [];
  peer_id = peer_id;
  hb = Heartbeat.new now interval timeout;
}

unfoldable pub new : ℕ → NodeId → WsPeer
unfolding new_with_heartbeat
new now peer_id =
    new_with_heartbeat peer_id now default_heartbeat_interval default_heartbeat_timeout

abbrev pub is_closing : Phase → Bool
is_closing closing = true
is_closing _ = false

abbrev pub is_closed : Phase → Bool
is_closed closed = true
is_closed _ = false

unfoldable pub is_done : WsPeer → Bool
is_done p = is_closed p.phase && is_empty p.effects

unfoldable pub next_wake : WsPeer → Option ℕ
next_wake p = elim p.phase [ open_phase ↦ some (Heartbeat.next_deadline p.hb) | _ ↦ none ]

unfoldable pub poll_effect : WsPeer → WsPeer × Option Effect
poll_effect p = elim p.effects [
  | [] ↦ (p, none)
  | effect ∷ rest ↦ (record p { effects = rest }, some effect)
]

unfoldable pub effects_flushed : WsPeer → WsPeer
effects_flushed p =
    if is_closing p.phase && is_empty p.effects then record p { phase = closed } else p

unfoldable pub emit : Effect → WsPeer → WsPeer
emit effect p = record p { effects = push p.effects effect }

-- What `close` puts out before it unregisters.
abbrev pub goodbye : CloseReason → WsPeer → WsPeer
goodbye local p = emit close_socket (emit (send WsMessage.close_connection) p)
goodbye remote p = emit notify_peer_closed (emit close_socket p)
goodbye transport p = emit notify_peer_closed p

unfoldable pub close : CloseReason → WsPeer → WsPeer
unfolding emit
close reason p = elim p.phase [
  | open_phase ↦ record (emit unregister (goodbye reason p)) { phase = closing }
  | _ ↦ p
]

-- A ping with the next token.
abbrev pub send_ping : ℕ → WsPeer → WsPeer
send_ping now p =
    let (hb, token) = Heartbeat.take_ping_token now p.hb in
    emit (send (WsMessage.ping token)) (record p { hb = hb })

unfoldable pub on_wire : ℕ → WsMessage → WsPeer → WsPeer
unfolding emit close Heartbeat.on_rx
on_wire now msg p =
    let p' : WsPeer = record p { hb = Heartbeat.on_rx now p.hb } in
    elim msg [
      | WsMessage.hello id ↦ close local p'
      | WsMessage.close_connection ↦ close remote p'
      | WsMessage.ping token ↦ emit (send (WsMessage.pong token)) p'
      | WsMessage.pong token ↦ p'
      | WsMessage.node_msg m ↦ emit (handle_node_message m) p'
    ]

unfoldable pub on_tick : ℕ → WsPeer → WsPeer
unfolding emit close Heartbeat.timed_out Heartbeat.ping_due Heartbeat.take_ping_token
on_tick now p =
    if Heartbeat.timed_out p.hb now
    then close local p
    else if Heartbeat.ping_due p.hb now
    then send_ping now p
    else p

abbrev pub step_open : ℕ → Event → WsPeer → WsPeer
step_open now (control WsControl.shutdown) p = close local p
step_open now (control WsControl.resume) p =
    send_ping now (record p { hb = Heartbeat.note_resume now p.hb })
step_open now (from_wire msg) p = on_wire now msg p
step_open now transport_dead p = close transport p
step_open now unknown_wire p = p
step_open now (tick at) p = on_tick at p
step_open now (from_node m) p = emit (send (WsMessage.node_msg m)) p

-- A closing machine heeds nothing but the death of the transport.
abbrev pub step_closing : Event → WsPeer → WsPeer
step_closing transport_dead p = record p { phase = closed; effects = [] }
step_closing _ p = p

unfoldable pub step : ℕ → Event → WsPeer → WsPeer
unfolding emit close on_wire on_tick Heartbeat.note_resume Heartbeat.take_ping_token
step now event p = elim p.phase [
  | closed ↦ p
  | closing ↦ step_closing event p
  | open_phase ↦ step_open now event p
]

unfoldable pub wire_to_event : InMessage → Event
wire_to_event (InMessage.ws_message m) = from_wire m
wire_to_event InMessage.ws_peer_closed = transport_dead
wire_to_event InMessage.unknown = unknown_wire
