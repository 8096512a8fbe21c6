-- ===== src/LinkState/RouteTable.antt =====
-- src/routing/linkstate/db/route_table.rs: the routes to each endpoint, local and remote.
pub mod Remote
pub mod Removal
pub mod Validity
pub mod Invariant
pub mod RemoteInvariant
pub mod Steps
use anybus.Common.{
  ℕ, ◌≡◌, Bool, true, false, not, ◌&&◌, ◌||◌, List, [], ◌∷◌, map, retain, find, any, all, is_empty,
  length, update_first, push, Option, none, some, if◌then◌else◌, ltb, ◌==◌, nat_eq, arith,
}
use anybus.Common.Assoc.{HashMap, get, insert, remove, values}
use anybus.Routing.{
  NodeId, EndpointId, Cost, RouteKind, unicast, anycast, broadcast, multicast, node, kind_eq,
  realm_eq,
}
use anybus.LinkState.{
  SetAnycastCostError, SetAnycastCostOutcome, not_anycast, not_registered, unchanged, changed,
  Sender, LsForwardTo, is_local, LsRoute, LsRouteEntry, EndpointInfo, ClientMessage,
}
use anybus.LinkState.Wire.{Wire, try_send}

abbrev pub RouteTable : Type 0
RouteTable = HashMap EndpointId LsRouteEntry

pub data Effects : Type 0 where
  add_lsa : EndpointId → EndpointInfo → Effects
  update_lsa : EndpointId → Cost → Effects
  remove_lsa : EndpointId → Effects
  rebuild_fib noop : Effects

pub data RouteTableError : Type 0 where
  mismatched_route_kind duplicate_unicast : RouteTableError

pub data Result {ℓ κ} (E : Type κ) (A : Type ℓ) : Type (ℓ ⊔ κ) where
  ok : A → Result E A
  err : E → Result E A

-- `Iterator::min` on the costs, `none` on no cost.
lesser : Cost → Option Cost → Option Cost
lesser c none = some c
lesser c (some d) = if ltb d c then some d else some c

unfoldable pub min_local_cost : List LsRoute → Option Cost
unfolding lesser
min_local_cost [] = none
min_local_cost (r ∷ routes) =
    let rest = min_local_cost routes in if is_local r.via then lesser r.cost rest else rest

-- `table.entry(id).or_insert(..)`: the entry, made with no routes if there is none.
unfoldable pub entry_or : EndpointId → RouteKind → RouteTable → LsRouteEntry
entry_or endpoint_id kind table = elim (get endpoint_id table) [
  | none ↦ record { routes = []; kind = kind }
  | some entry ↦ entry
]

abbrev pub local_route : EndpointInfo → Sender → LsRoute
local_route info sender = record {
  via = LsForwardTo.local sender;
  cost = info.cost;
  realm = info.realm;
  kind = info.kind;
}

anycast_effect : Option Cost → EndpointId → EndpointInfo → Effects
anycast_effect none endpoint_id info = add_lsa endpoint_id info
anycast_effect (some previous) endpoint_id info =
    if ltb info.cost previous then update_lsa endpoint_id info.cost else noop

-- The `match endpoint_info.kind` of `add_endpoint`, on the routes of the entry.
add_local :
    RouteKind
    → EndpointId
    → EndpointInfo
    → LsRoute
    → List LsRoute
    → Result RouteTableError (List LsRoute × Effects)
unfolding anycast_effect min_local_cost
add_local unicast endpoint_id info route routes =
    if is_empty routes
    then ok (push routes route, add_lsa endpoint_id info)
    else err duplicate_unicast
add_local anycast endpoint_id info route routes =
    ok (push routes route, anycast_effect (min_local_cost routes) endpoint_id info)
add_local node endpoint_id info route routes = ok (routes, noop)
add_local _ endpoint_id info route routes = ok (
  push routes route,
  if any (λ (r : LsRoute). is_local r.via) routes then noop else add_lsa endpoint_id info,
)

store :
    EndpointId
    → LsRouteEntry
    → RouteTable
    → Result RouteTableError (List LsRoute × Effects)
    → RouteTable × Result RouteTableError Effects
store endpoint_id entry table (ok (routes, effect)) =
    (insert endpoint_id (record entry { routes = routes }) table, ok effect)
store endpoint_id entry table (err e) = (insert endpoint_id entry table, err e)

unfoldable pub add_endpoint :
    EndpointId → EndpointInfo → Sender → RouteTable → RouteTable × Result RouteTableError Effects
unfolding add_local store entry_or
add_endpoint endpoint_id info sender table =
    let entry = entry_or endpoint_id info.kind table in
    store endpoint_id entry table (
      if entry.kind == info.kind
      then add_local info.kind endpoint_id info (local_route info sender) entry.routes
      else err mismatched_route_kind)

-- The local route over the sender's channel.
unfoldable pub sends_to : Sender → LsForwardTo → Bool
sends_to sender (LsForwardTo.local existing) = existing == sender
sends_to sender (LsForwardTo.remote node_id) = false

unfoldable pub to_advertise : Option Cost → Option Cost → Option Cost
to_advertise (some old) (some new_min) = if old == new_min then none else some new_min
to_advertise _ _ = none

abbrev pub with_cost : Cost → LsRoute → LsRoute
with_cost cost route = record route { cost = cost }

change_cost :
    EndpointId
    → Sender
    → Cost
    → LsRouteEntry
    → LsRoute
    → RouteTable
    → RouteTable × SetAnycastCostOutcome
unfolding sends_to min_local_cost to_advertise
change_cost endpoint_id sender cost entry route table =
    let routes =
      update_first (λ (r : LsRoute). sends_to sender r.via) (with_cost cost) entry.routes in
    if route.cost == cost then (table, unchanged) else (
      insert endpoint_id (record entry { routes = routes }) table,
      changed route.cost cost (to_advertise (min_local_cost entry.routes) (min_local_cost routes)),
    )

set_cost_in :
    EndpointId
    → Sender
    → Cost
    → LsRouteEntry
    → Option LsRoute
    → RouteTable
    → RouteTable × Result SetAnycastCostError SetAnycastCostOutcome
unfolding change_cost
set_cost_in endpoint_id sender cost entry none table = (table, err not_registered)
set_cost_in endpoint_id sender cost entry (some route) table =
    let (table', outcome) = change_cost endpoint_id sender cost entry route table in
    (table', ok outcome)

set_cost_entry :
    EndpointId
    → Sender
    → Cost
    → Option LsRouteEntry
    → RouteTable
    → RouteTable × Result SetAnycastCostError SetAnycastCostOutcome
unfolding set_cost_in sends_to
set_cost_entry endpoint_id sender cost none table = (table, err not_registered)
set_cost_entry endpoint_id sender cost (some entry) table =
    if entry.kind == anycast
    then set_cost_in endpoint_id sender cost entry
        (find (λ (r : LsRoute). sends_to sender r.via) entry.routes) table
    else (table, err not_anycast)

unfoldable pub set_anycast_cost :
    EndpointId
    → Sender
    → Cost
    → RouteTable
    → RouteTable × Result SetAnycastCostError SetAnycastCostOutcome
unfolding set_cost_entry
set_anycast_cost endpoint_id sender cost table =
    set_cost_entry endpoint_id sender cost (get endpoint_id table) table
