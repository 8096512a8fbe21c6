-- ===== src/Peers/Ipc/Session/Loop.antt =====
-- The loop of src/peers/ipc/ipc_peer.rs: `next` is one pass.
use anybus.Common.{false, List, Option, none, some, if◌then◌else◌}
use anybus.Routing.{NodeId}
use anybus.Peers.Ipc.{IpcCommand, IpcMessage}
use anybus.Peers.Ipc.Session.{
  IpcPeer, State, hello, abort_handshake, send_peers, wait_for_messages, heartbeat_tick, send_ping,
  handle_error, close_peer, shutdown, node_message_received, ipc_control_received,
  ipc_message_received, Outside, send, tell, unregister_peer, run_hello, after_send, known_peers,
  on_found, run_tick, run_ping, on_control, on_message,
}

-- A further pass, the end of the task, or the panic of an `expect`.
pub data Next : Type 0 where
  go : State → IpcPeer → Next
  stop : IpcPeer → Next
  panicked : Next

abbrev pub go_with : State × IpcPeer → Next
go_with (s, p) = go s p

abbrev pub shut_stream : IpcPeer → IpcPeer
shut_stream p = record p { stream_open = false }

unfoldable pub run_abort : Outside → IpcPeer → IpcPeer
run_abort o p = tell (IpcCommand.handshake_failed p.expected) o (unregister_peer (shut_stream p))

-- The node and the connection that the manager is told of.
abbrev pub run_close : Outside → IpcPeer → Next
run_close o p =
    if p.established
    then elim p.peer [
      | none ↦ panicked
      | some peer ↦ stop (
          unregister_peer
            (tell (IpcCommand.peer_closed peer.peer_id peer.connection_id) o (shut_stream p)))
    ]
    else stop (tell (IpcCommand.handshake_failed p.expected) o (shut_stream p))

abbrev pub run_send_peers : Option (List NodeId) → Outside → IpcPeer → Next
run_send_peers none o p = panicked
run_send_peers (some ids) o p = go (after_send o) (send (IpcMessage.known_peers ids) o p)

abbrev pub run_wait : Outside → IpcPeer → Next
run_wait o p = elim p.peer [ none ↦ panicked | some peer ↦ go_with (on_found o.found o p) ]

unfoldable pub next : Outside → State → IpcPeer → Next
unfolding run_hello run_tick run_ping run_abort
next o hello p = go_with (run_hello o p)
next o abort_handshake p = stop (run_abort o p)
next o send_peers p = run_send_peers (known_peers o p) o p
next o wait_for_messages p = run_wait o p
next o heartbeat_tick p = go (run_tick o p) p
next o send_ping p = go_with (run_ping o p)
next o handle_error p = go (if p.established then close_peer else abort_handshake) p
next o (node_message_received m) p = go (after_send o) (send (IpcMessage.node_msg m) o p)
next o (ipc_control_received c) p = go_with (on_control c o p)
next o (ipc_message_received m) p = go_with (on_message m o p)
next o close_peer p = run_close o p
next o shutdown p = go close_peer (send IpcMessage.close_connection o p)
