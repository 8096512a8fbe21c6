-- ===== src/Lib.antt =====
-- anybus: a model of the router of the message bus and of its peers, with the theorems that make them
-- correct.
--
-- A bus connects the clients of one process, and processes with each other. Each process is a node
-- with one router. Clients register endpoints with the router; peers are other nodes over a
-- connection. Nodes flood link-state advertisements (LSAs): a router LSA lists a node's adjacencies,
-- an endpoint LSA announces one endpoint of the node. From these the router computes shortest paths
-- and builds the forwarding table by which packets are sent and forwarded. Peers come over websockets
-- and, on one machine, over local sockets (IPC): a manager for each kind keeps its peers, and a task for
-- each connection passes messages between the socket and the router, registers the link when it begins
-- and unregisters it when it ends. The features "remote", "ws", "ws_server" and "ipc" are taken to be on.
--
-- The files and the code:
-- - Common: the names, lists, maps and predicates that the other files share.
-- - Routing: src/routing.rs, identifiers, realms, costs, addresses and packets. `add` is `Cost::add`,
--   which saturates at 65535; `next` is `ConnectionIdCounter::next`, which wraps at 2^16.
-- - LinkState: the types of src/routing/linkstate.rs and src/messages.rs. Wire is what the code asks
--   of tokio's channels; Links is `impl Link`.
-- - LinkState.RouteTable: src/routing/linkstate/db/route_table.rs, with children Remote and Removal
--   for the operations on remote routes and on closed listeners. Validity, Invariant and
--   RemoteInvariant hold the invariant, Steps the tables that operations reach.
-- - LinkState.Spf: `LsDb::compute_spf` of src/routing/linkstate/db.rs. Queue, Walks, Improve, Measure,
--   Relax, Rounds and Shortest are its proofs.
-- - LinkState.Db: `struct LsDb` and its flooding; the children Paths, Lsas, Peers, Endpoints and
--   Refresh are its other operations, in the order of the code. Anchor, Keeps, RemoteSafe, PeerSafe,
--   PeerGone, EndpointSafe and RefreshSafe hold the invariant, with Departure for what goes with a
--   peer; RoutesValid and RoutesKept hold that of the route table; Versions, Authority, Purge and Withdrawal say what becomes of the records,
--   Flooding what is let out, and Acks what waits for an ack.
-- - LinkState.Forward: src/routing/linkstate/db/forward_table.rs, with child Send for `send` and
--   `forward` and for `SendError` of src/errors/mod.rs; Total, Delivered, Cheapest and Unsent are
--   proofs.
-- - Router: the state machine of src/routing/router.rs; Safety, Traces and Routes are
--   proofs.
-- - Handle: src/handle.rs with the errors of src/errors/mod.rs, and src/receivers/anycast_cost.rs;
--   `register` is what the registrations of src/handle.rs have in common. Its child Receiver is
--   src/receivers/packet_receiver.rs.
-- - Heartbeat: `struct Heartbeat` of src/peers/common.rs.
-- - Peers: what is below src/peers. Peer is `struct Peer` of src/peers/common.rs.
-- - Peers.Ws: src/peers/ws.rs. WsPeer is the state machine of src/peers/ws/ws_peer.rs, Task the task
--   around it, with proofs in Ends, LastWords and Once. Pending is `WsPendingPeer` and its queue, with
--   Sorted and Backoff.
-- - Peers.Ws.Manager: src/peers/ws/ws_manager.rs. Handlers change the lists of peers, Loop is the loop;
--   Queue, Passes, Order, Configs and Attempts are proofs. Room is the abstract view of the queue, a
--   multiset, and Refinement the proof that the manager implements it.
-- - Peers.Ipc: src/peers/ipc.rs. Manager, with its children States, Commands and Loop, is
--   src/peers/ipc/ipc_manager.rs: `run_bind_primary` is the state BindPrimary, and so on; Rank, Names,
--   Steps, Wakes and Sessions are proofs. Session with Loop is src/peers/ipc/ipc_peer.rs; Held, Ends and
--   Aborted are proofs.
-- - Suspend: `LifecycleDebounce`, `emit` and the step of `stall_loop` of src/anybus/suspend.rs.
-- - Examples: the theorems at concrete inputs.
--
-- How the model reads the code:
-- * A Uuid is the number that it holds, an Instant a number of milliseconds; the clock is read once
--   for each operation. Logging is left out, and so is the text of a failed registration.
-- * A HashMap is an association list; iteration goes through the list in its order. The theorems hold
--   of every list, so of every order.
-- * A Sender is named by its channel. `Wire.answer` and `Wire.is_closed` are what the environment
--   answers to `try_send` and `is_closed`, from all deliveries so far; `Wire.sent` are the deliveries.
-- * A Box<dyn BusRider> is a number; what it encodes to is a parameter of the packet conversions.
-- * `none` of an operation and `panicked` of a step are the panics of `unwrap` and `todo!()`.
-- * The sequence number of an LSA is a u64 and wraps at 2^64, as in a release build.
-- * `partition_point` goes through the queue from its front: the queue is sorted by `Entry::better`,
--   which Spf.Queue shows.
-- * The loop of `compute_spf` runs on fuel `enough nodes`, one round for the root and 65535 for each
--   adjacency: each further round follows a fall of a cost, which is at most 65535 and not below 0.
-- * "Anchored" is the invariant of the database: its keys are unique, the only router LSA of our own
--   node is that under our own key, and every adjacency in it is over a connection that has a link to
--   the same peer.
-- * "Valid" is the invariant of the route table: the routes of an entry have its kind, a unicast
--   endpoint has at most one route, and no two remote routes of an entry lead to one node.
-- * In the tasks of peers, what a stream, a channel or the clock gives, and what `select!` finds first,
--   are inputs of a pass; what is sent is collected in order. A socket and a channel are numbers.
-- * `send_broker` spawns a task for each message to the router, so their order on arrival is up to the
--   runtime: the model says what is asked of the handle, in the order of the calls.
-- * `binary_search_by_key` on a list without order is not specified: Peers.Ws.Manager.Order shows that
--   the queue always has the order in which the model searches.
-- * The run of a websocket peer takes fuel, one for each pass: a pass consumes an event, but for the last
--   three, in which the task fails, closes and ends.
--
-- Not modelled: the sockets (src/peers/ws/listener.rs, src/peers/ws/tg_websock.rs,
-- src/peers/ws/websys_websock.rs), the peer for tests (src/peers/dummy.rs), the typed
-- receivers (the rest of src/receivers), the registration builder and `send_busticket` of
-- src/handle.rs, local calls and services (src/localrpc.rs, src/services.rs), the start of the bus and its watchers (src/anybus.rs, the rest of src/anybus),
-- the codec (src/codec.rs), which calls bincode, the macros (anybus-macro) and the examples. They
-- stand around what is modelled: to it they are messages that come in, and channels that answer.
pub mod Common
pub mod Routing
pub mod LinkState
pub mod Router
pub mod Suspend
pub mod Handle
pub mod Heartbeat
pub mod Peers
pub mod Examples
