-- ===== src/Peers/Ipc/Session.antt =====
-- `struct IpcPeer` of src/peers/ipc/ipc_peer.rs: the task of one session. `next` is one pass of the loop
-- of `start`; what the stream, the channels and the clock give to the pass is in `Outside`, and what the
-- task sends is collected in `sent`. What is read under the lock of the manager's peers is an input.
pub mod Loop
pub mod Held
pub mod Ends
pub mod Aborted
use anybus.Common.{
  ℕ, Bool, true, false, ◌&&◌, not, List, [], ◌∷◌, Option, none, some, push, map, retain, is_empty,
  if◌then◌else◌, nat_eq, ◌==◌,
}
use anybus.Routing.{NodeId, ConnectionId, userspace, global}
use anybus.Routing
use anybus.LinkState.{Sender, NodeMessage}
use anybus.Heartbeat
use anybus.Heartbeat.{Heartbeat}
use anybus.Peers.Peer
use anybus.Peers.Peer.{Peer, register_peer, recv, unregister, handle_node_message}
use anybus.Peers.Ipc.{IpcControl, IpcCommand, IpcMessage}

pub data Sent : Type 0 where
  to_stream : IpcMessage → Sent
  to_manager : IpcCommand → Sent

-- `peer` is there once the link is registered.
pub record IpcPeer : Type 0 where
  pub control_tx : Sender
  pub peer : Option Peer
  pub hb : Heartbeat
  pub expected : Option NodeId
  pub our_nodeid : NodeId
  pub established : Bool
  pub stream_open : Bool
  pub sent : List Sent

unfoldable pub new : ℕ → ℕ → ℕ → Option NodeId → NodeId → Sender → IpcPeer
unfolding Heartbeat.new
new now interval timeout expected our_nodeid control_tx = record {
  control_tx = control_tx;
  peer = none;
  hb = Heartbeat.new now interval timeout;
  expected = expected;
  our_nodeid = our_nodeid;
  established = false;
  stream_open = true;
  sent = [];
}

pub data State : Type 0 where
  hello abort_handshake send_peers wait_for_messages heartbeat_tick send_ping handle_error : State
  close_peer shutdown : State
  node_message_received : NodeMessage → State
  ipc_control_received : IpcControl → State
  ipc_message_received : IpcMessage → State

-- What the stream gives: a message, an error (or a time-out), or its end.
pub data Heard : Type 0 where
  message : IpcMessage → Heard
  failed ended : Heard

-- What `select!` finds first; `none` is a closed channel.
pub data Found : Type 0 where
  from_stream : Heard → Found
  from_control : Option IpcControl → Found
  from_peer : Option NodeMessage → Found
  deadline : Found

pub record Outside : Type 0 where
  pub now : ℕ
  pub sends : Bool
  pub heard : Heard
  pub connection_counter : ℕ
  pub peer_tx : Sender
  pub manager_takes : Bool
  pub answer : Option IpcControl
  pub neighbors : List NodeId
  pub found : Found

-- A message that cannot be sent is not among those sent.
abbrev pub send : IpcMessage → Outside → IpcPeer → IpcPeer
send msg o p = if o.sends then record p { sent = push p.sent (to_stream msg) } else p

abbrev pub tell : IpcCommand → Outside → IpcPeer → IpcPeer
tell c o p = if o.manager_takes then record p { sent = push p.sent (to_manager c) } else p

abbrev pub peer_id : IpcPeer → Option NodeId
peer_id p = elim p.peer [ some peer ↦ some peer.peer_id | none ↦ p.expected ]

abbrev pub unregister_peer : IpcPeer → IpcPeer
unregister_peer p = elim p.peer [
  | some peer ↦ record p { peer = some (unregister peer) }
  | none ↦ p
]

abbrev pub session_cost : ℕ
session_cost = 10

abbrev pub is_expected : Option NodeId → NodeId → Bool
is_expected none id = true
is_expected (some expected) id = expected == id

abbrev pub is_accepted : Option IpcControl → Bool
is_accepted (some IpcControl.accepted) = true
is_accepted _ = false

abbrev pub greeted : NodeId → Outside → IpcPeer → State × IpcPeer
greeted id o p =
    let (connection_id, counter) = Routing.next o.connection_counter in
    let peer =
      register_peer id p.our_nodeid userspace connection_id session_cost (userspace ∷ global ∷ [])
        o.peer_tx in
    let registered : IpcPeer = record p { peer = some peer } in
    let ready = tell (IpcCommand.session_ready id p.control_tx connection_id) o registered in
    if not (is_expected p.expected id)
    then (abort_handshake, p)
    else if o.manager_takes && is_accepted o.answer
    then (send_peers, record ready { established = true })
    else (abort_handshake, ready)

abbrev pub on_hello : Heard → Outside → IpcPeer → State × IpcPeer
on_hello (message (IpcMessage.hello id)) o p = greeted id o p
on_hello _ o p = (abort_handshake, p)

unfoldable pub run_hello : Outside → IpcPeer → State × IpcPeer
unfolding Routing.next register_peer
run_hello o p =
    let p' = send (IpcMessage.hello p.our_nodeid) o p in
    if o.sends then on_hello o.heard o p' else (abort_handshake, p)

abbrev pub after_send : Outside → State
after_send o = if o.sends then wait_for_messages else handle_error

-- `none` is the panic of `expect`.
abbrev pub known_peers : Outside → IpcPeer → Option (List NodeId)
known_peers o p = elim (peer_id p) [
  | none ↦ none
  | some id ↦ some (push (retain (λ u. not (u == id)) o.neighbors) p.our_nodeid)
]

abbrev pub received : NodeMessage → IpcPeer → IpcPeer
received m p = elim p.peer [
  | some peer ↦ record p { peer = some (recv (some m) peer).0 }
  | none ↦ p
]

abbrev pub on_found : Found → Outside → IpcPeer → State × IpcPeer
on_found (from_stream (message m)) o p =
    (ipc_message_received m, record p { hb = Heartbeat.on_rx o.now p.hb })
on_found (from_stream failed) o p = (handle_error, p)
on_found (from_stream ended) o p = (close_peer, p)
on_found (from_control (some c)) o p = (ipc_control_received c, p)
on_found (from_control none) o p = (shutdown, p)
on_found (from_peer (some m)) o p = (node_message_received m, received m p)
on_found (from_peer none) o p = (shutdown, p)
on_found deadline o p = (heartbeat_tick, p)

unfoldable pub run_tick : Outside → IpcPeer → State
run_tick o p =
    if Heartbeat.timed_out p.hb o.now
    then close_peer
    else if Heartbeat.ping_due p.hb o.now
    then send_ping
    else wait_for_messages

unfoldable pub run_ping : Outside → IpcPeer → State × IpcPeer
unfolding Heartbeat.take_ping_token
run_ping o p =
    let (hb, token) = Heartbeat.take_ping_token o.now p.hb in
    (after_send o, send (IpcMessage.ping token) o (record p { hb = hb }))

abbrev pub on_control : IpcControl → Outside → IpcPeer → State × IpcPeer
on_control IpcControl.shutdown o p = (shutdown, p)
on_control IpcControl.accepted o p = (wait_for_messages, p)
on_control IpcControl.resume o p = (send_ping, record p { hb = Heartbeat.note_resume o.now p.hb })

abbrev pub handled : NodeMessage → IpcPeer → IpcPeer
handled m p = elim p.peer [
  | some peer ↦ record p { peer = some (handle_node_message m peer) }
  | none ↦ p
]

abbrev pub on_message : IpcMessage → Outside → IpcPeer → State × IpcPeer
on_message (IpcMessage.hello id) o p = (wait_for_messages, p)
on_message (IpcMessage.known_peers ids) o p =
    (wait_for_messages, tell (IpcCommand.learned_peers ids) o p)
on_message (IpcMessage.neighbor_removed id) o p = (wait_for_messages, p)
on_message IpcMessage.close_connection o p = (close_peer, p)
on_message (IpcMessage.ping token) o p = (after_send o, send (IpcMessage.pong token) o p)
on_message (IpcMessage.pong token) o p = (wait_for_messages, p)
on_message (IpcMessage.node_msg m) o p = (wait_for_messages, handled m p)
