-- ===== src/LinkState/Forward.antt =====
-- `ForwardingTable` of src/routing/linkstate/db/forward_table.rs, and how it is built from the
-- database. What it sends is in the child `Send`.
pub mod Send
pub mod Total
pub mod Delivered
pub mod Cheapest
pub mod Unsent
use anybus.Common.{
  ℕ, ◌≡◌, Bool, true, false, not, List, [], ◌∷◌, ◌++◌, any, Option, none, some, ◌==◌, if◌then◌else◌,
  nat_eq, ltb, is_empty, length,
}
use anybus.Common.Assoc.{HashMap, get, insert}
use anybus.Routing.{
  NodeId, EndpointId, ConnectionId, Cost, RouteKind, unicast, anycast, broadcast, multicast, node,
  max_cost, add,
}
use anybus.LinkState.{Link, LsForwardTo, LsRoute, LsRouteEntry, FibForwardTo, Sender}
use anybus.LinkState.Db.{LsDb}

pub data FibEntry : Type 0 where
  single : FibForwardTo → FibEntry
  multi_cast : List FibForwardTo → FibEntry

pub record ForwardingTable : Type 0 where
  pub our_id : NodeId
  pub table : HashMap EndpointId FibEntry
  pub links : HashMap ConnectionId Link
  pub next_hop : HashMap NodeId Link

unfoldable pub new : NodeId → ForwardingTable
new our_id = record { our_id = our_id; table = []; links = []; next_hop = [] }

-- The cost of a remote anycast route with the path to its node, if there is one.
unfoldable pub path_total : LsDb → Cost → NodeId → Cost → Option Cost
path_total d cost node_id path =
    if path == max_cost
    then none
    else elim (get node_id d.next_hop) [ none ↦ none | some link ↦ some (add cost path) ]

unfoldable pub via_total : LsDb → Cost → LsForwardTo → Option Cost
unfolding path_total
via_total d cost (LsForwardTo.local sender) = some cost
via_total d cost (LsForwardTo.remote node_id) = elim (get node_id d.cost) [
  | none ↦ none
  | some path ↦ path_total d cost node_id path
]

unfoldable pub anycast_total : LsDb → LsRoute → Option Cost
unfolding via_total
anycast_total d route = via_total d route.cost route.via

unfoldable pub forward_via : LsDb → LsForwardTo → Option FibForwardTo
forward_via d (LsForwardTo.local sender) = some (FibForwardTo.local sender)
forward_via d (LsForwardTo.remote node_id) = elim (get node_id d.next_hop) [
  | none ↦ none
  | some next_hop ↦ some (FibForwardTo.remote next_hop)
]

unfoldable pub fib_forward : LsDb → LsRoute → Option FibForwardTo
unfolding forward_via
fib_forward d route = forward_via d route.via

-- `min_by_key`: of several minima the first.
unfoldable pub better_of : Cost × LsRoute → Option (Cost × LsRoute) → Option (Cost × LsRoute)
better_of a none = some a
better_of (c, r) (some (d, q)) = if ltb d c then some (d, q) else some (c, r)

unfoldable pub min_by_key : (LsRoute → Option Cost) → List LsRoute → Option (Cost × LsRoute)
unfolding better_of
min_by_key key [] = none
min_by_key key (r ∷ routes) =
    let rest = min_by_key key routes in
    elim (key r) [ none ↦ rest | some c ↦ better_of (c, r) rest ]

-- The route by the least key, as a single hop; `none` is `continue`.
unfoldable pub best : LsDb → (LsRoute → Option Cost) → List LsRoute → Option FibEntry
unfolding min_by_key fib_forward
best d key routes = elim (min_by_key key routes) [
  | none ↦ none
  | some (c, route) ↦ elim (fib_forward d route) [ none ↦ none | some hop ↦ some (single hop) ]
]

-- The hops to the local listeners of a broadcast route, and the peers towards the remote ones.
local_hop : LsForwardTo → List FibForwardTo
local_hop (LsForwardTo.local sender) = FibForwardTo.local sender ∷ []
local_hop (LsForwardTo.remote node_id) = []

unfoldable pub local_hops : List LsRoute → List FibForwardTo
unfolding local_hop
local_hops [] = []
local_hops (r ∷ routes) = local_hop r.via ++ local_hops routes

-- `HashSet::insert`.
unfoldable pub insert_peer : NodeId → List NodeId → List NodeId
insert_peer n peers = if any (λ m. m == n) peers then peers else n ∷ peers

remote_peer : LsDb → LsForwardTo → List NodeId → List NodeId
unfolding insert_peer
remote_peer d (LsForwardTo.local sender) peers = peers
remote_peer d (LsForwardTo.remote node_id) peers = elim (get node_id d.next_hop) [
  | none ↦ peers
  | some next_hop ↦ insert_peer next_hop.peer_id peers
]

unfoldable pub remote_peers : LsDb → List LsRoute → List NodeId
unfolding remote_peer
remote_peers d [] = []
remote_peers d (r ∷ routes) = remote_peer d r.via (remote_peers d routes)

unfoldable pub remote_hops : LsDb → List NodeId → List FibForwardTo
remote_hops d [] = []
remote_hops d (n ∷ peers) = elim (get n d.next_hop) [
  | none ↦ remote_hops d peers
  | some next_hop ↦ FibForwardTo.remote next_hop ∷ remote_hops d peers
]

unfoldable pub broadcast_entry : LsDb → List LsRoute → Option FibEntry
unfolding local_hops remote_peers remote_hops
broadcast_entry d routes =
    let forwards = local_hops routes ++ remote_hops d (remote_peers d routes) in
    if is_empty forwards then none else some (multi_cast forwards)

-- What becomes of one endpoint: an entry, none (`continue`), or the panic of `todo!()`.
pub data Built : Type 0 where
  entry : FibEntry → Built
  skipped panicked : Built

unfoldable pub built : Option FibEntry → Built
built none = skipped
built (some e) = entry e

unfoldable pub build_entry : LsDb → RouteKind → List LsRoute → Built
unfolding best broadcast_entry anycast_total built
build_entry d anycast routes = built (best d (anycast_total d) routes)
build_entry d unicast routes = built (best d (λ r. some r.cost) routes)
build_entry d node routes = built (best d (λ r. some r.cost) routes)
build_entry d broadcast routes = built (broadcast_entry d routes)
build_entry d multicast routes = panicked

unfoldable pub put_entry :
    EndpointId → Built → HashMap EndpointId FibEntry → Option (HashMap EndpointId FibEntry)
put_entry endpoint_id (entry e) table = some (insert endpoint_id e table)
put_entry endpoint_id skipped table = some table
put_entry endpoint_id panicked table = none

unfoldable pub build_table :
    LsDb
    → List (EndpointId × LsRouteEntry)
    → HashMap EndpointId FibEntry
    → Option (HashMap EndpointId FibEntry)
unfolding build_entry put_entry
build_table d [] table = some table
build_table d ((endpoint_id, e) ∷ routes) table =
    elim (put_entry endpoint_id (build_entry d e.kind e.routes) table) [
      | none ↦ none
      | some table' ↦ build_table d routes table'
    ]

abbrev pub table_of : LsDb → HashMap EndpointId FibEntry → ForwardingTable
table_of d table = record {
  our_id = d.self_id;
  table = table;
  links = d.links;
  next_hop = d.next_hop;
}

-- `none` is the panic at a multicast endpoint.
unfoldable pub build_from_db : LsDb → Option ForwardingTable
unfolding build_table
build_from_db d = elim (build_table d d.routes []) [
  | none ↦ none
  | some table ↦ some (table_of d table)
]
