-- ===== src/Peers.antt =====
-- src/peers.rs and below: the tasks that talk to other nodes, over websockets and on one machine.
pub mod Peer
pub mod Ws
pub mod Ipc
