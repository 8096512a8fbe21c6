-- ===== src/LinkState/Db/Endpoints.antt =====
-- Local endpoints: `add_endpoint`, `update_endpoint_cost`, `set_anycast_cost`, `remove_endpoint` and
-- `shutdown` of db.rs.
use anybus.Common.{ℕ, Bool, true, false, [], none, some, ◌==◌, if◌then◌else◌, nat_eq}
use anybus.Common.Assoc.{get, insert, remove}
use anybus.Routing.{EndpointId, Cost}
use anybus.LinkState.{
  SetAnycastCostError, SetAnycastCostOutcome, Lsa, LsaKey, key_eq, LsaBody, LsaRecord, router,
  endpoint, EndpointInfo, Sender, ClientMessage,
}
use anybus.LinkState.Wire.{Wire, try_send}
use anybus.LinkState.RouteTable.{
  Effects, add_lsa, update_lsa, remove_lsa, rebuild_fib, noop, Result, ok, err, RouteTableError,
}
use anybus.LinkState.RouteTable
use anybus.LinkState.RouteTable.Removal
use anybus.LinkState.Db.{LsDb, own_key, bump, request_rebuild, flood_all_neighbors}

-- `struct RegistrationRequest` of routing.rs.
pub record RegistrationRequest : Type 0 where
  pub endpoint_id : EndpointId
  pub endpoint_info : EndpointInfo
  pub sender : Sender

abbrev pub endpoint_key : LsDb → EndpointId → LsaKey
endpoint_key d endpoint_id = record { origin = d.self_id; endpoint_id = endpoint_id }

unfoldable pub flood_own : ℕ → Lsa → LsDb × Wire → LsDb × Wire
unfolding flood_all_neighbors request_rebuild
flood_own now lsa dw = let (d, w) = flood_all_neighbors lsa none dw in (request_rebuild now d, w)

-- A new version of the LSA of a local endpoint.
abbrev pub with_new_cost : ℕ → Cost → EndpointInfo → LsaRecord → LsaRecord
with_new_cost now cost info r =
    let lsa = r.lsa in
    record {
      lsa = record lsa { seq = bump lsa.seq; body = endpoint (record info { cost = cost }) };
      updated_at = now;
    }

unfoldable pub update_body : ℕ → EndpointId → Cost → LsaRecord → LsaBody → LsDb × Wire → LsDb × Wire
unfolding flood_own
update_body now endpoint_id cost r (router adjacencies) dw = dw
update_body now endpoint_id cost r (endpoint info) (d, w) =
    let r' = with_new_cost now cost info r in
    if info.cost == cost
    then (d, w)
    else flood_own now r'.lsa (record d { db = insert (endpoint_key d endpoint_id) r' d.db }, w)

unfoldable pub update_endpoint_cost : ℕ → EndpointId → Cost → LsDb × Wire → LsDb × Wire
unfolding update_body
update_endpoint_cost now endpoint_id cost (d, w) = elim (get (endpoint_key d endpoint_id) d.db) [
  | none ↦ (d, w)
  | some r ↦ update_body now endpoint_id cost r r.lsa.body (d, w)
]

abbrev pub fresh_record : ℕ → LsaKey → EndpointInfo → LsaRecord
fresh_record now key info = record {
  lsa = record { key = key; seq = 0; dead = false; body = endpoint info };
  updated_at = now;
}

-- The LSA of a new local endpoint is flooded before it is stored, past connection 0.
unfoldable pub advertise : ℕ → EndpointId → EndpointInfo → LsDb × Wire → LsDb × Wire
unfolding flood_all_neighbors
advertise now endpoint_id info (d, w) =
    let key = endpoint_key d endpoint_id in
    let r = fresh_record now key info in
    let (d', w') = flood_all_neighbors r.lsa (some 0) (d, w) in
    (record d' { db = insert key r d'.db }, w')

unfoldable pub added : ℕ → Effects → LsDb × Wire → LsDb × Wire
unfolding advertise update_endpoint_cost request_rebuild
added now (add_lsa endpoint_id info) dw = advertise now endpoint_id info dw
added now (update_lsa endpoint_id cost) dw = update_endpoint_cost now endpoint_id cost dw
added now _ (d, w) = (request_rebuild now d, w)

unfoldable pub registered :
    ℕ → RegistrationRequest → Result RouteTableError Effects → LsDb × Wire → LsDb × Wire × Bool
unfolding added try_send
registered now request (ok effect) dw = let (d, w) = added now effect dw in (d, w, true)
registered now request (err e) (d, w) = (
  d,
  (try_send request.sender (ClientMessage.failed_registration request.endpoint_id) w).0,
  false,
)

-- The last part is true for `Ok(())`.
unfoldable pub add_endpoint : ℕ → RegistrationRequest → LsDb × Wire → LsDb × Wire × Bool
unfolding registered
add_endpoint now request (d, w) =
    let (routes, result) =
      RouteTable.add_endpoint request.endpoint_id request.endpoint_info request.sender d.routes in
    registered now request result (record d { routes = routes }, w)

unfoldable pub set_anycast_cost :
    EndpointId → Sender → Cost → LsDb → LsDb × Result SetAnycastCostError SetAnycastCostOutcome
set_anycast_cost endpoint_id sender cost d =
    let (routes, result) = RouteTable.set_anycast_cost endpoint_id sender cost d.routes in
    (record d { routes = routes }, result)

-- The withdrawal of an endpoint's LSA.
unfoldable pub withdraw : EndpointId → LsDb × Wire → LsDb × Wire
unfolding flood_all_neighbors
withdraw endpoint_id (d, w) = elim (get (endpoint_key d endpoint_id) d.db) [
  | none ↦ (d, w)
  | some r ↦
      let lsa = r.lsa in
      flood_all_neighbors (record lsa { dead = true; seq = bump lsa.seq }) none
        (record d { db = remove (endpoint_key d endpoint_id) d.db }, w)
]

unfoldable pub removed : ℕ → Effects → LsDb × Wire → LsDb × Wire
unfolding update_endpoint_cost withdraw
removed now (update_lsa endpoint_id cost) dw = update_endpoint_cost now endpoint_id cost dw
removed now (remove_lsa endpoint_id) dw = withdraw endpoint_id dw
removed now _ dw = dw

unfoldable pub remove_endpoint : ℕ → EndpointId → LsDb × Wire → LsDb × Wire
unfolding removed request_rebuild
remove_endpoint now endpoint_id (d, w) =
    let (routes, effect) = Removal.remove_endpoint w endpoint_id d.routes in
    removed now effect (request_rebuild now (record d { routes = routes }), w)

-- Our router LSA is flooded as dead if it is there.
unfoldable pub announce_end : ℕ → LsaRecord → LsaBody → LsDb × Wire → LsDb × Wire
unfolding flood_all_neighbors
announce_end now r (endpoint info) dw = dw
announce_end now r (router adjacencies) dw =
    let lsa = r.lsa in flood_all_neighbors (record lsa { dead = true; seq = bump lsa.seq }) none dw

unfoldable pub clear : LsDb × Wire → LsDb × Wire
clear (d, w) =
    let (routes, w') = Removal.shutdown d.routes w in
    (record d { db = []; links = []; routes = routes }, w')

unfoldable pub shutdown : ℕ → LsDb × Wire → LsDb × Wire
unfolding announce_end clear
shutdown now (d, w) = elim (get (own_key d.self_id) d.db) [
  | none ↦ clear (d, w)
  | some r ↦ clear (announce_end now r r.lsa.body (d, w))
]
