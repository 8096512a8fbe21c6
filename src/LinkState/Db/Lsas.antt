-- ===== src/LinkState/Db/Lsas.antt =====
-- LSAs from other nodes: `handle_lsa`, `upsert_lsa` and `remove_dead_lsa` of db.rs.
use anybus.Common.{
  ℕ, Bool, true, false, not, [], ◌∷◌, retain, Option, none, some, ◌==◌, if◌then◌else◌, nat_eq, ltb,
}
use anybus.Common.Assoc.{HashMap, get, get_or, insert, remove}
use anybus.Routing.{NodeId, ConnectionId, node, global, max_cost}
use anybus.LinkState.{Lsa, LsaKey, key_eq, LsaBody, LsaRecord, router, endpoint, EndpointInfo}
use anybus.LinkState.Wire.{Wire}
use anybus.LinkState.RouteTable.{RouteTable}
use anybus.LinkState.RouteTable.Remote.{add_remote_endpoint, remove_remote_endpoint}
use anybus.LinkState.Db.{LsDb, request_rebuild, flood_all_neighbors, send_ack}
use anybus.LinkState.Db.Paths.{compute_spf}

abbrev pub is_router : LsaBody → Bool
is_router (router adjacencies) = true
is_router (endpoint info) = false

-- `extract_if(|k, _v| k.origin == origin)`: the entries that go, with their routes.
unfoldable pub from_node : NodeId → LsaKey × LsaRecord → Bool
from_node origin kr = kr.0.origin == origin

unfoldable pub forget_node : NodeId → HashMap LsaKey LsaRecord → HashMap LsaKey LsaRecord
unfolding from_node
forget_node origin db = retain (λ kr. not (from_node origin kr)) db

unfoldable pub forget_routes : HashMap LsaKey LsaRecord → RouteTable → RouteTable
forget_routes [] routes = routes
forget_routes ((k, r) ∷ gone) routes =
    forget_routes gone (remove_remote_endpoint k.endpoint_id k.origin routes).0

-- A dead LSA that is newer takes out its record, or, if that is a router's, all of the node's.
unfoldable pub take_out : Lsa → LsaBody → LsDb → LsDb
unfolding forget_node forget_routes
take_out lsa (router adjacencies) d = record d {
  db = forget_node lsa.key.origin d.db;
  routes = forget_routes (retain (from_node lsa.key.origin) d.db) d.routes;
}
take_out lsa (endpoint info) d = record d {
  db = remove lsa.key d.db;
  routes = (remove_remote_endpoint lsa.key.endpoint_id lsa.key.origin d.routes).0;
}

unfoldable pub drop_route : Lsa → LsDb × Wire → LsDb × Wire
drop_route lsa (d, w) = (
  record d { routes = (remove_remote_endpoint lsa.key.endpoint_id lsa.key.origin d.routes).0 },
  w,
)

unfoldable pub rebuild : ℕ → LsDb × Wire → LsDb × Wire
unfolding request_rebuild
rebuild now (d, w) = (request_rebuild now d, w)

unfoldable pub remove_dead_of : ℕ → Lsa → Option LsaRecord → LsDb × Wire → LsDb × Wire
unfolding drop_route take_out rebuild flood_all_neighbors
remove_dead_of now lsa none dw = drop_route lsa dw
remove_dead_of now lsa (some current) (d, w) =
    if ltb current.lsa.seq lsa.seq
    then drop_route lsa
        (rebuild now (flood_all_neighbors lsa none (take_out lsa current.lsa.body d, w)))
    else (d, w)

unfoldable pub remove_dead_lsa : ℕ → Lsa → LsDb × Wire → LsDb × Wire
unfolding remove_dead_of
remove_dead_lsa now lsa (d, w) = remove_dead_of now lsa (get lsa.key d.db) (d, w)

-- The route that an LSA announces; an error of the route table is only logged.
unfoldable pub announced : LsDb → Lsa → LsaBody → EndpointInfo
announced d lsa (router adjacencies) = record {
  kind = node;
  realm = global;
  cost = get_or lsa.key.origin max_cost d.cost;
}
announced d lsa (endpoint info) = info

unfoldable pub add_route : Lsa → LsDb → LsDb
unfolding announced
add_route lsa d =
    let info = announced d lsa lsa.body in
    let added = add_remote_endpoint lsa.key.endpoint_id lsa.key.origin info d.routes in
    record d { routes = added.0 }

unfoldable pub put_record : ℕ → Lsa → LsDb → LsDb
put_record now lsa d = record d {
  db = insert lsa.key (record { lsa = lsa; updated_at = now }) d.db;
}

unfoldable pub upsert_of : ℕ → Lsa → Option LsaRecord → LsDb → Option LsDb
unfolding request_rebuild add_route put_record
upsert_of now lsa none d = some (add_route lsa (request_rebuild now (put_record now lsa d)))
upsert_of now lsa (some current) d =
    if ltb current.lsa.seq lsa.seq
    then some (add_route lsa (request_rebuild now (put_record now lsa d)))
    else none

-- `none` is `Err(())`: the LSA is not newer, and nothing has changed.
unfoldable pub upsert_lsa : ℕ → Lsa → LsDb → Option LsDb
unfolding upsert_of
upsert_lsa now lsa d = upsert_of now lsa (get lsa.key d.db) d

-- `compute_spf` behind other changes; `none` is its panic.
unfoldable pub then_spf : LsDb × Wire → Option (LsDb × Wire)
then_spf (d, w) = elim (compute_spf d.self_id d) [ none ↦ none | some d' ↦ some (d', w) ]

unfoldable pub accept : Lsa → ConnectionId → LsDb × Wire → Option (LsDb × Wire)
unfolding then_spf flood_all_neighbors
accept lsa in_connection_id dw =
    let flooded = flood_all_neighbors lsa (some in_connection_id) dw in
    if is_router lsa.body then then_spf flooded else some flooded

unfoldable pub receive : ℕ → Lsa → ConnectionId → LsDb × Wire → Option (LsDb × Wire)
unfolding remove_dead_lsa upsert_lsa accept
receive now lsa in_connection_id (d, w) =
    if lsa.key.origin == d.self_id
    then some (d, w)
    else if lsa.dead
    then some (remove_dead_lsa now lsa (d, w))
    else elim (upsert_lsa now lsa d) [
      | none ↦ some (d, w)
      | some d' ↦ accept lsa in_connection_id (d', w)
    ]

-- Every LSA is acked first. `none` is a panic.
unfoldable pub handle_lsa : ℕ → Lsa → ConnectionId → LsDb × Wire → Option (LsDb × Wire)
unfolding receive send_ack
handle_lsa now lsa in_connection_id (d, w) =
    receive now lsa in_connection_id (d, send_ack in_connection_id lsa.key lsa.seq d w)
