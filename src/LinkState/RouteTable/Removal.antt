-- ===== src/LinkState/RouteTable/Removal.antt =====
-- `remove_endpoint` and `shutdown` of route_table.rs: local listeners that are gone.
use anybus.Common.{
  Bool, true, not, List, [], ◌∷◌, retain, is_empty, length, Option, none, some, if◌then◌else◌, ◌==◌,
  nat_eq,
}
use anybus.Common.Assoc.{get, insert, remove, values}
use anybus.Routing.{EndpointId, anycast, kind_eq, Cost}
use anybus.LinkState.{LsForwardTo, LsRoute, LsRouteEntry, ClientMessage}
use anybus.LinkState.Wire.{Wire, try_send}
use anybus.LinkState.RouteTable.{
  RouteTable, Effects, update_lsa, remove_lsa, rebuild_fib, noop, min_local_cost,
}

-- The test of `retain`: all but the local routes whose channel is closed.
unfoldable pub is_kept : Wire → LsForwardTo → Bool
is_kept w (LsForwardTo.local sender) = not (w.is_closed w.sent sender)
is_kept w (LsForwardTo.remote node_id) = true

unfoldable pub kept : Wire → List LsRoute → List LsRoute
unfolding is_kept
kept w = retain (λ (r : LsRoute). is_kept w r.via)

-- `previous_min != Some(cost)`.
differs : Option Cost → Cost → Bool
differs none cost = true
differs (some previous) cost = not (previous == cost)

unfoldable pub shrunk : List LsRoute → List LsRoute → Effects
shrunk before after = if length before == length after then noop else rebuild_fib

-- The effect of a removal that leaves routes behind.
unfoldable pub anycast_removal :
    EndpointId → Option Cost → Option Cost → List LsRoute → List LsRoute → Effects
unfolding differs shrunk
anycast_removal endpoint_id previous_min none before after = shrunk before after
anycast_removal endpoint_id previous_min (some cost) before after =
    if differs previous_min cost then update_lsa endpoint_id cost else shrunk before after

unfoldable pub remove_closed :
    Wire → EndpointId → Option LsRouteEntry → RouteTable → RouteTable × Effects
unfolding kept anycast_removal shrunk min_local_cost
remove_closed w endpoint_id none table = (table, noop)
remove_closed w endpoint_id (some entry) table =
    let routes = kept w entry.routes in
    if is_empty routes then (remove endpoint_id table, remove_lsa endpoint_id) else (
      insert endpoint_id (record entry { routes = routes }) table,
      if entry.kind == anycast
          then anycast_removal endpoint_id (min_local_cost entry.routes) (min_local_cost routes)
              entry.routes routes
          else shrunk entry.routes routes,
    )

-- `delete` stays true exactly if no route is retained.
unfoldable pub remove_endpoint : Wire → EndpointId → RouteTable → RouteTable × Effects
unfolding remove_closed
remove_endpoint w endpoint_id table = remove_closed w endpoint_id (get endpoint_id table) table

shut_route : LsForwardTo → Wire → Wire
unfolding try_send
shut_route (LsForwardTo.local sender) w = (try_send sender ClientMessage.shutdown w).0
shut_route (LsForwardTo.remote node_id) w = w

unfoldable pub shut_routes : List LsRoute → Wire → Wire
unfolding shut_route
shut_routes [] w = w
shut_routes (r ∷ routes) w = shut_routes routes (shut_route r.via w)

shut_entries : List LsRouteEntry → Wire → Wire
unfolding shut_routes
shut_entries [] w = w
shut_entries (entry ∷ entries) w = shut_entries entries (shut_routes entry.routes w)

unfoldable pub shutdown : RouteTable → Wire → RouteTable × Wire
unfolding shut_entries
shutdown table w = ([], shut_entries (values table) w)
