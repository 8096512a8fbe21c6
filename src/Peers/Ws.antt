-- ===== src/Peers/Ws.antt =====
-- src/peers/ws.rs: what the websocket manager and its peers say to each other and over the wire.
pub mod WsPeer
pub mod Task
pub mod Pending
pub mod Manager
use anybus.Common.{ℕ}
use anybus.Routing.{NodeId}
use anybus.LinkState.{NodeMessage}

pub data WsControl : Type 0 where
  shutdown resume : WsControl

pub data WsMessage : Type 0 where
  hello : NodeId → WsMessage
  node_msg : NodeMessage → WsMessage
  close_connection : WsMessage
  ping : ℕ → WsMessage
  pong : ℕ → WsMessage
