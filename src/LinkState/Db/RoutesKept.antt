-- ===== src/LinkState/Db/RoutesKept.antt =====
-- Peers, local endpoints and timers of db.rs keep the route table valid.
use anybus.Common.{
  ℕ, Bool, List, [], ◌∷◌, Option, none, some, inl, inr, Option-cases, if-cases, ltb, ◌+◌, ◌/◌,
  length, nat_eq, ◌==◌,
}
use anybus.Common.Assoc.{get, remove, insert}
use anybus.Routing.{ConnectionId, EndpointId, Cost}
use anybus.LinkState.{Lsa, key_eq, LsaBody, LsaRecord, router, endpoint, Link, Sender}
use anybus.LinkState.Wire.{Wire}
use anybus.LinkState.RouteTable.{
  Effects, add_lsa, update_lsa, remove_lsa, rebuild_fib, noop, Result, ok, err, RouteTableError,
}
use anybus.LinkState.RouteTable
use anybus.LinkState.RouteTable.Removal
use anybus.LinkState.RouteTable.Invariant.{add_endpoint-IsValid, set_anycast_cost-IsValid}
use anybus.LinkState.RouteTable.RemoteInvariant.{remove_endpoint-IsValid}
use anybus.LinkState.Db.{LsDb, own_key, request_rebuild, flood_all_neighbors, flood_peer}
use anybus.LinkState.Db.Lsas.{then_spf}
use anybus.LinkState.Db.Peers.{
  add_peer, add_adjacency, push_adjacency, root_record, connect, remove_peer, drop_own_adjacency,
  drop_adjacency, adjacency_of, without,
}
use anybus.LinkState.Db.Endpoints.{
  RegistrationRequest, add_endpoint, registered, added, advertise, update_endpoint_cost,
  update_body, flood_own, set_anycast_cost, remove_endpoint, removed, withdraw, shutdown, clear,
  endpoint_key,
}
use anybus.LinkState.Db.Refresh.{
  tick, refresh_and_purge_lsas, refresh_records, flood_all, purge, purge_stale_lsas, then_stamp,
  stamp, take_request, rebuilt, extract_first,
}
use anybus.LinkState.Db.RoutesValid.{
  HasValid, Kept, request_rebuild-HasValid, flood-HasValid, then_spf-Kept,
}

flood_peer-HasValid :
    (c : ConnectionId) (dw : LsDb × Wire) → HasValid dw.0 → HasValid (flood_peer c dw).0
unfolding flood_peer
flood_peer-HasValid c (d, w) v = elim (Option-cases (get c d.links)) [
  | inl e ↦ rw (e, flood_peer) v
  | inr (link, e) ↦ rw (e, flood_peer) v
]

connect-HasValid :
    (now : ℕ) (link : Link) (w : Wire) (x : LsDb × Option Lsa)
    → HasValid x.0
    → HasValid (connect now link w x).0
unfolding connect
connect-HasValid now link w (d, none) v = v
connect-HasValid now link w (d, some lsa) v =
    let c = link.connection_id in
    let linked = record d { links = insert c link d.links } in
    let d' = request_rebuild now linked in
    flood_peer-HasValid c (flood_all_neighbors lsa (some c) (d', w))
      (flood-HasValid lsa (some c) (d', w) (request_rebuild-HasValid now linked v))

pub add_peer-HasValid :
    (now : ℕ) (link : Link) (dw : LsDb × Wire) → HasValid dw.0 → HasValid (add_peer now link dw).0
unfolding add_peer add_adjacency
add_peer-HasValid now link (d, w) v =
    connect-HasValid now link w _ (go (root_record now d) (root_record now d).lsa.body)
  where
    go : (r : LsaRecord) (b : LsaBody) → HasValid (push_adjacency now (adjacency_of link) r b d).0
    go r (router adjs) = unfold push_adjacency in v
    go r (endpoint info) = unfold push_adjacency in v

drop_own-HasValid :
    (now : ℕ) (c : ConnectionId) (dw : LsDb × Wire)
    → HasValid dw.0
    → HasValid (drop_own_adjacency now c dw).0
unfolding drop_own_adjacency
drop_own-HasValid now c (d, w) v = go (get (own_key d.self_id) d.db)
  where
    at_body : (r : LsaRecord) (b : LsaBody) → HasValid (drop_adjacency now c r b (d, w)).0
    at_body r (endpoint info) = unfold drop_adjacency in v
    at_body r (router adjs) =
        unfold drop_adjacency in
        if-cases (λ (x : LsDb × Wire). HasValid x.0) (ltb (length (without c adjs)) (length adjs)) _
          _ (λ _. unfold flood_all_neighbors in v) (λ _. v)

    go :
        (o : Option LsaRecord)
        → HasValid
            (elim o as (λ x. LsDb × Wire) [
              | none ↦ (d, w)
              | some r ↦ drop_adjacency now c r r.lsa.body (d, w)
            ]).0
    go none = v
    go (some r) = at_body r r.lsa.body

pub remove_peer-Kept :
    (now : ℕ) (c : ConnectionId) (dw : LsDb × Wire) → HasValid dw.0 → Kept (remove_peer now c dw)
unfolding remove_peer
remove_peer-Kept now c (d, w) v = elim (Option-cases (get c d.links)) [
  | inl e ↦ rw (e, remove_peer) v
  | inr (link, e) ↦
      rw (e, remove_peer)
        (then_spf-Kept _ (drop_own-HasValid now c (record d { links = remove c d.links }, w) v))
]

pub update_endpoint_cost-HasValid :
    (now : ℕ) (e : EndpointId) (cost : Cost) (dw : LsDb × Wire)
    → HasValid dw.0
    → HasValid (update_endpoint_cost now e cost dw).0
unfolding update_endpoint_cost
update_endpoint_cost-HasValid now e cost (d, w) v = go (get (endpoint_key d e) d.db)
  where
    at_body : (r : LsaRecord) (b : LsaBody) → HasValid (update_body now e cost r b (d, w)).0
    at_body r (router adjs) = unfold update_body in v
    at_body r (endpoint info) =
        unfold update_body in
        if-cases (λ (x : LsDb × Wire). HasValid x.0) (info.cost == cost) _ _ (λ _. v)
          (λ _.
            unfold flood_own in request_rebuild-HasValid now _ (unfold flood_all_neighbors in v))

    go :
        (o : Option LsaRecord)
        → HasValid
            (elim o as (λ x. LsDb × Wire) [
              | none ↦ (d, w)
              | some r ↦ update_body now e cost r r.lsa.body (d, w)
            ]).0
    go none = v
    go (some r) = at_body r r.lsa.body

added-HasValid :
    (now : ℕ) (x : Effects) (dw : LsDb × Wire) → HasValid dw.0 → HasValid (added now x dw).0
unfolding added
added-HasValid now (add_lsa e info) dw v = unfold advertise in unfold flood_all_neighbors in v
added-HasValid now (update_lsa e cost) dw v = update_endpoint_cost-HasValid now e cost dw v
added-HasValid now (remove_lsa e) dw v = request_rebuild-HasValid now dw.0 v
added-HasValid now rebuild_fib dw v = request_rebuild-HasValid now dw.0 v
added-HasValid now noop dw v = request_rebuild-HasValid now dw.0 v

pub add_endpoint-HasValid :
    (now : ℕ) (request : RegistrationRequest) (dw : LsDb × Wire)
    → HasValid dw.0
    → HasValid (add_endpoint now request dw).0
unfolding add_endpoint
add_endpoint-HasValid now request (d, w) v =
    go _
      (record d {
        routes =
            (RouteTable.add_endpoint request.endpoint_id request.endpoint_info request.sender
              d.routes).0;
      })
      (add_endpoint-IsValid request.endpoint_id request.endpoint_info request.sender d.routes v)
  where
    go :
        (r : Result RouteTableError Effects) (d' : LsDb)
        → HasValid d'
        → HasValid (registered now request r (d', w)).0
    go (ok x) d' u = unfold registered in added-HasValid now x (d', w) u
    go (err x) d' u = unfold registered in u

pub set_anycast_cost-HasValid :
    (e : EndpointId) (s : Sender) (cost : Cost) (d : LsDb)
    → HasValid d
    → HasValid (set_anycast_cost e s cost d).0
unfolding set_anycast_cost
set_anycast_cost-HasValid e s cost d v = set_anycast_cost-IsValid e s cost d.routes v

withdraw-HasValid : (e : EndpointId) (dw : LsDb × Wire) → HasValid dw.0 → HasValid (withdraw e dw).0
unfolding withdraw
withdraw-HasValid e (d, w) v = elim (Option-cases (get (endpoint_key d e) d.db)) [
  | inl gone ↦ rw (gone, withdraw) v
  | inr (r, here) ↦ rw (here, withdraw) (unfold flood_all_neighbors in v)
]

removed-HasValid :
    (now : ℕ) (x : Effects) (dw : LsDb × Wire) → HasValid dw.0 → HasValid (removed now x dw).0
unfolding removed
removed-HasValid now (update_lsa e cost) dw v = update_endpoint_cost-HasValid now e cost dw v
removed-HasValid now (remove_lsa e) dw v = withdraw-HasValid e dw v
removed-HasValid now (add_lsa e info) dw v = v
removed-HasValid now rebuild_fib dw v = v
removed-HasValid now noop dw v = v

pub remove_endpoint-HasValid :
    (now : ℕ) (e : EndpointId) (dw : LsDb × Wire)
    → HasValid dw.0
    → HasValid (remove_endpoint now e dw).0
unfolding remove_endpoint
remove_endpoint-HasValid now e (d, w) v = removed-HasValid now _ _ (
    request_rebuild-HasValid now (record d { routes = (Removal.remove_endpoint w e d.routes).0 })
      (remove_endpoint-IsValid w e d.routes v))

pub shutdown-HasValid : (now : ℕ) (dw : LsDb × Wire) → HasValid (shutdown now dw).0
unfolding shutdown clear Removal.shutdown
shutdown-HasValid now (d, w) = elim (Option-cases (get (own_key d.self_id) d.db)) [
  | inl e ↦ rw (e, shutdown) tt
  | inr (r, e) ↦ rw (e, shutdown) tt
]

flood_all-HasValid :
    (lsas : List Lsa) (dw : LsDb × Wire) → HasValid dw.0 → HasValid (flood_all lsas dw).0
unfolding flood_all
flood_all-HasValid [] dw v = v
flood_all-HasValid (lsa ∷ lsas) dw v = flood_all-HasValid lsas _ (flood-HasValid lsa none dw v)

map-Kept :
    (f : LsDb × Wire → LsDb × Wire) (o : Option (LsDb × Wire))
    → ((dw : LsDb × Wire) → HasValid dw.0 → HasValid (f dw).0)
    → Kept o
    → Kept (elim o [ none ↦ none | some dw ↦ some (f dw) ])
map-Kept f none h k = tt
map-Kept f (some dw) h k = h dw k

purge-Kept : (now : ℕ) (dw : LsDb × Wire) → HasValid dw.0 → Kept (purge now dw)
unfolding purge purge_stale_lsas
purge-Kept now (d, w) v =
    if-cases Kept (extract_first d now d.db).1 _ _
      (λ dirty.
        map-Kept (rebuilt now) (then_spf (record d { db = (extract_first d now d.db).0 }, w))
          (λ dw u. unfold rebuilt in request_rebuild-HasValid now dw.0 u) (then_spf-Kept _ v))
      (λ clean. v)

-- The result of a tick that may panic.
abbrev pub KeptTick : Option (LsDb × Wire × Bool) → Type 0
KeptTick none = Unit {0}
KeptTick (some x) = HasValid x.0

take_request-HasValid : (dw : LsDb × Wire) → HasValid dw.0 → HasValid (take_request dw).0
unfolding take_request
take_request-HasValid (d, w) v = elim (Option-cases d.rebuild_requested) [
  | inl e ↦ rw (e, take_request) v
  | inr (at, e) ↦ rw (e, take_request) v
]

refresh-Kept : (now : ℕ) (dw : LsDb × Wire) → HasValid dw.0 → Kept (refresh_and_purge_lsas now dw)
unfolding refresh_and_purge_lsas
refresh-Kept now (d, w) v =
    let rr = refresh_records d now d.db in
    go (purge now (flood_all rr.1 (record d { db = rr.0 }, w))) (
      purge-Kept now (flood_all rr.1 (record d { db = rr.0 }, w))
        (flood_all-HasValid rr.1 (record d { db = rr.0 }, w) v))
  where
    go : (o : Option (LsDb × Wire)) → Kept o → Kept (then_stamp now o)
    go none k = unfold then_stamp in tt
    go (some dw) k = unfold then_stamp in unfold stamp in k

pub tick-Kept : (now : ℕ) (dw : LsDb × Wire) → HasValid dw.0 → KeptTick (tick now dw)
unfolding tick
tick-Kept now (d, w) v =
    if-cases KeptTick (ltb (d.last_refresh + d.lsa_timeout / 3) now) _ _
      (λ due.
        go (refresh_and_purge_lsas now (record d { last_tick = now }, w))
          (refresh-Kept now (record d { last_tick = now }, w) v))
      (λ early. take_request-HasValid (record d { last_tick = now }, w) v)
  where
    go :
        (o : Option (LsDb × Wire))
        → Kept o
        → KeptTick (elim o [ none ↦ none | some dw ↦ some (take_request dw) ])
    go none k = tt
    go (some dw) k = take_request-HasValid dw k
