-- ===== src/Peers/Ipc.antt =====
-- src/peers/ipc.rs: what the IPC manager, its peers and other nodes on the machine say to each other.
pub mod Manager
pub mod Session
use anybus.Common.{ℕ, Bool, List, Option, any, push, if◌then◌else◌, nat_eq, ◌==◌}
use anybus.Routing.{NodeId, ConnectionId}
use anybus.LinkState.{Sender, NodeMessage}

pub record DirectoryView : Type 0 where
  pub owner : NodeId
  pub peers : List NodeId

abbrev pub contains : List NodeId → NodeId → Bool
contains ids id = any (λ other. other == id) ids

unfoldable pub dial_ids : DirectoryView → List NodeId
dial_ids view = if contains view.peers view.owner then view.peers else push view.peers view.owner

pub data IpcControl : Type 0 where
  accepted shutdown resume : IpcControl

pub data IpcCommand : Type 0 where
  peer_closed : NodeId → ConnectionId → IpcCommand
  learned_peers : List NodeId → IpcCommand
  session_ready : NodeId → Sender → ConnectionId → IpcCommand
  handshake_failed : Option NodeId → IpcCommand
  directory_probe : Option DirectoryView → Bool → Option DirectoryView → Bool → IpcCommand

pub data IpcMessage : Type 0 where
  hello : NodeId → IpcMessage
  known_peers : List NodeId → IpcMessage
  neighbor_removed : NodeId → IpcMessage
  close_connection : IpcMessage
  node_msg : NodeMessage → IpcMessage
  ping : ℕ → IpcMessage
  pong : ℕ → IpcMessage
