-- ===== src/LinkState/Db/EndpointSafe.antt =====
-- Local endpoints: the invariant is kept.
use anybus.Common.{arith, ℕ, refl, inl, inr, none, ◌==◌, nat_eq, if-cases, Option-cases}
use anybus.Common.Assoc.{get, insert}
use anybus.Routing.{EndpointId, Cost}
use anybus.LinkState.{key_eq, LsaBody, LsaRecord, router, endpoint, Sender}
use anybus.LinkState.Wire.{Wire}
use anybus.LinkState.RouteTable.{
  Effects, add_lsa, update_lsa, remove_lsa, rebuild_fib, noop, Result, ok, err, RouteTableError,
}
use anybus.LinkState.Db.{own_key, LsDb, request_rebuild}
use anybus.LinkState.Db.Anchor.{IsAnchored}
use anybus.LinkState.Db.Keeps.{insert-DbIsAnchored, remove-DbIsAnchored, endpoint-IsOwnRouter}
use anybus.LinkState.Db.RemoteSafe.{request_rebuild-IsAnchored, flood-IsAnchored}
use anybus.LinkState.RouteTable
use anybus.LinkState.RouteTable.Removal
use anybus.LinkState.Db.Endpoints.{
  shutdown, clear, announce_end, fresh_record, add_endpoint, added, registered,
  update_endpoint_cost, update_body, remove_endpoint, removed, withdraw, RegistrationRequest,
  endpoint_key, with_new_cost, set_anycast_cost,
}

pub update_endpoint_cost-IsAnchored :
    (now : ℕ) (e : EndpointId) (cost : Cost) (dw : LsDb × Wire)
    → IsAnchored dw.0
    → IsAnchored (update_endpoint_cost now e cost dw).0
unfolding update_endpoint_cost
update_endpoint_cost-IsAnchored now e cost (d, w) inv =
    elim (Option-cases (get (endpoint_key d e) d.db)) [
      | inl h ↦ rw (h, update_endpoint_cost) inv
      | inr (r, h) ↦ rw (h, update_endpoint_cost) (go r r.lsa.body)
    ]
  where
    go : (r : LsaRecord) (body : LsaBody) → IsAnchored (update_body now e cost r body (d, w)).0
    go r (router adjs) = inv
    go r (endpoint info) =
        let r' = with_new_cost now cost info r in
        if-cases (λ (x : LsDb × Wire). IsAnchored x.0) (info.cost == cost) _ _ (λ _. inv)
          (λ _. request_rebuild-IsAnchored now _ (
            flood-IsAnchored r'.lsa none (record d { db = insert (endpoint_key d e) r' d.db }, w)
              (insert-DbIsAnchored (endpoint_key d e) r' inv
                (endpoint-IsOwnRouter d.self_id d.links (endpoint_key d e) r' refl))))

added-IsAnchored :
    (now : ℕ) (effect : Effects) (dw : LsDb × Wire)
    → IsAnchored dw.0
    → IsAnchored (added now effect dw).0
unfolding added
added-IsAnchored now (add_lsa e info) (d, w) inv =
    let key = endpoint_key d e in
    insert-DbIsAnchored key (fresh_record now key info) inv
      (endpoint-IsOwnRouter d.self_id d.links key (fresh_record now key info) refl)
added-IsAnchored now (update_lsa e cost) dw inv = update_endpoint_cost-IsAnchored now e cost dw inv
added-IsAnchored now _ (d, w) inv = request_rebuild-IsAnchored now d inv

-- Registering a local endpoint keeps the invariant.
pub add_endpoint-IsAnchored :
    (now : ℕ) (request : RegistrationRequest) (d : LsDb) (w : Wire)
    → IsAnchored d
    → IsAnchored (add_endpoint now request (d, w)).0
unfolding add_endpoint
add_endpoint-IsAnchored now request d w inv =
    let (routes, result) =
      RouteTable.add_endpoint request.endpoint_id request.endpoint_info request.sender d.routes in
    go (record d { routes = routes }) result inv
  where
    go :
        (d' : LsDb) (result : Result RouteTableError Effects)
        → IsAnchored d'
        → IsAnchored (registered now request result (d', w)).0
    go d' (ok effect) h = added-IsAnchored now effect (d', w) h
    go d' (err e) h = h

withdraw-IsAnchored :
    (e : EndpointId) (d : LsDb) (w : Wire) → IsAnchored d → IsAnchored (withdraw e (d, w)).0
unfolding withdraw
withdraw-IsAnchored e d w inv = elim (Option-cases (get (endpoint_key d e) d.db)) [
  | inl h ↦ rw (h, withdraw) inv
  | inr (r, h) ↦ rw (h, withdraw) (remove-DbIsAnchored (endpoint_key d e) inv)
]

-- Dropping closed listeners keeps it.
pub remove_endpoint-IsAnchored :
    (now : ℕ) (e : EndpointId) (d : LsDb) (w : Wire)
    → IsAnchored d
    → IsAnchored (remove_endpoint now e (d, w)).0
unfolding remove_endpoint
remove_endpoint-IsAnchored now e d w inv =
    let (routes, effect) = Removal.remove_endpoint w e d.routes in
    go effect (request_rebuild now (record d { routes = routes }))
      (request_rebuild-IsAnchored now (record d { routes = routes }) inv)
  where
    go : (effect : Effects) (d' : LsDb) → IsAnchored d' → IsAnchored (removed now effect (d', w)).0
    go (update_lsa x cost) d' h = update_endpoint_cost-IsAnchored now x cost (d', w) h
    go (remove_lsa x) d' h = withdraw-IsAnchored x d' w h
    go (add_lsa x info) d' h = h
    go rebuild_fib d' h = h
    go noop d' h = h

pub set_anycast_cost-IsAnchored :
    (e : EndpointId) (s : Sender) (cost : Cost) (d : LsDb)
    → IsAnchored d
    → IsAnchored (set_anycast_cost e s cost d).0
unfolding set_anycast_cost
set_anycast_cost-IsAnchored e s cost d inv = inv

clear-IsAnchored : (dw : LsDb × Wire) → IsAnchored (clear dw).0
unfolding clear
clear-IsAnchored (d, w) = record { unique = tt; own = λ k r h. unfold get in absurd (ground arith) }

-- After a shutdown the database is empty.
pub shutdown-IsAnchored : (now : ℕ) (d : LsDb) (w : Wire) → IsAnchored (shutdown now (d, w)).0
unfolding shutdown
shutdown-IsAnchored now d w = elim (Option-cases (get (own_key d.self_id) d.db)) [
  | inl e ↦ rw (e, shutdown) (clear-IsAnchored (d, w))
  | inr (r, e) ↦ rw (e, shutdown) (clear-IsAnchored (announce_end now r r.lsa.body (d, w)))
]
