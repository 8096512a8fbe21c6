-- ===== src/LinkState/RouteTable/Remote.antt =====
-- `add_remote_endpoint` and `remove_remote_endpoint` of route_table.rs: what other nodes announce.
use anybus.Common.{
  Bool, false, not, ◌&&◌, ◌||◌, List, retain, find, all, is_empty, length, update_first, push,
  Option, none, some, if◌then◌else◌, ◌==◌, nat_eq,
}
use anybus.Common.Assoc.{get, insert, remove}
use anybus.Routing.{NodeId, EndpointId, unicast, kind_eq, realm_eq}
use anybus.LinkState.{LsForwardTo, is_local, LsRoute, LsRouteEntry, EndpointInfo}
use anybus.LinkState.RouteTable.{
  RouteTable, Effects, rebuild_fib, noop, RouteTableError, mismatched_route_kind, duplicate_unicast,
  Result, ok, err, entry_or,
}

-- `matches!(r.via, LsForwardTo::Remote(node_id) if node_id == origin)`.
unfoldable pub learned_from : NodeId → LsForwardTo → Bool
learned_from origin (LsForwardTo.local sender) = false
learned_from origin (LsForwardTo.remote node_id) = node_id == origin

abbrev pub remote_route : EndpointInfo → NodeId → LsRoute
remote_route info origin = record {
  via = LsForwardTo.remote origin;
  cost = info.cost;
  realm = info.realm;
  kind = info.kind;
}

abbrev pub with_info : EndpointInfo → LsRoute → LsRoute
with_info info route = record route { cost = info.cost; realm = info.realm }

-- The routes afterwards and the effect, on the routes of an entry of the right kind.
unfoldable pub add_remote_route :
    NodeId
    → EndpointInfo
    → LsRouteEntry
    → Option LsRoute
    → List LsRoute × Result RouteTableError Effects
unfolding learned_from
add_remote_route origin info entry (some existing) =
    if not (existing.cost == info.cost) || not (existing.realm == info.realm)
    then (
      update_first (λ (r : LsRoute). learned_from origin r.via) (with_info info) entry.routes,
      ok rebuild_fib,
    )
    else (entry.routes, ok noop)
add_remote_route origin info entry none =
    if entry.kind == unicast && not (is_empty entry.routes)
    then (entry.routes, err duplicate_unicast)
    else (
      push entry.routes (remote_route info origin),
      ok (if all (λ (r : LsRoute). is_local r.via) entry.routes then rebuild_fib else noop),
    )

unfoldable pub add_remote_endpoint :
    EndpointId → NodeId → EndpointInfo → RouteTable → RouteTable × Result RouteTableError Effects
unfolding add_remote_route entry_or
add_remote_endpoint endpoint_id origin info table =
    let entry = entry_or endpoint_id info.kind table in
    let (routes, result) =
      if entry.kind == info.kind
      then add_remote_route origin info entry
          (find (λ (r : LsRoute). learned_from origin r.via) entry.routes)
      else (entry.routes, err mismatched_route_kind) in
    (insert endpoint_id (record entry { routes = routes }) table, result)

unfoldable pub not_from : NodeId → List LsRoute → List LsRoute
unfolding learned_from
not_from origin = retain (λ (r : LsRoute). not (learned_from origin r.via))

unfoldable pub remove_remote_route :
    EndpointId → NodeId → Option LsRouteEntry → RouteTable → RouteTable × Effects
unfolding not_from
remove_remote_route endpoint_id origin none table = (table, noop)
remove_remote_route endpoint_id origin (some entry) table =
    let routes = not_from origin entry.routes in
    if is_empty routes then (remove endpoint_id table, rebuild_fib) else (
      insert endpoint_id (record entry { routes = routes }) table,
      if length entry.routes == length routes then noop else rebuild_fib,
    )

unfoldable pub remove_remote_endpoint : EndpointId → NodeId → RouteTable → RouteTable × Effects
unfolding remove_remote_route
remove_remote_endpoint endpoint_id origin table =
    remove_remote_route endpoint_id origin (get endpoint_id table) table
