-- ===== src/LinkState/Db/RoutesValid.antt =====
-- The routes of the database: every operation of db.rs keeps the route table valid.
use anybus.Common.{
  ℕ, retain, [], ◌∷◌, Option, none, some, inl, inr, Option-cases, Bool-cases, if-cases, ltb, nat_eq,
  ◌==◌,
}
use anybus.Common.Assoc.{HashMap, get}
use anybus.Routing.{ConnectionId}
use anybus.LinkState.{Lsa, LsaKey, key_eq, LsaBody, LsaRecord, router, endpoint}
use anybus.LinkState.Wire.{Wire}
use anybus.LinkState.Spf.{Outcome, done, panicked, out_of_fuel}
use anybus.LinkState.RouteTable.{RouteTable}
use anybus.LinkState.RouteTable.Validity.{IsValid}
use anybus.LinkState.RouteTable.RemoteInvariant.{
  add_remote_endpoint-IsValid, remove_remote_endpoint-IsValid,
}
use anybus.LinkState.Db.{LsDb, request_rebuild, flood_all_neighbors}
use anybus.LinkState.Db.Paths.{compute_spf, installed}
use anybus.LinkState.Db.Lsas.{
  handle_lsa, receive, accept, then_spf, upsert_lsa, upsert_of, remove_dead_lsa, remove_dead_of,
  put_record, add_route, take_out, forget_routes, rebuild, drop_route, is_router, announced,
  from_node,
}

abbrev pub HasValid : LsDb → Type 0
HasValid d = IsValid d.routes

-- The result of an operation that may panic.
abbrev pub Kept : Option (LsDb × Wire) → Type 0
Kept none = Unit {0}
Kept (some dw) = HasValid dw.0

pub request_rebuild-HasValid : (now : ℕ) (d : LsDb) → HasValid d → HasValid (request_rebuild now d)
unfolding request_rebuild
request_rebuild-HasValid now d v = elim (Option-cases d.rebuild_requested) [
  | inl e ↦ rw (e, request_rebuild) v
  | inr (at, e) ↦ rw (e, request_rebuild) v
]

pub flood-HasValid :
    (lsa : Lsa) (i : Option ConnectionId) (dw : LsDb × Wire)
    → HasValid dw.0
    → HasValid (flood_all_neighbors lsa i dw).0
unfolding flood_all_neighbors
flood-HasValid lsa i dw v = v

pub then_spf-Kept : (dw : LsDb × Wire) → HasValid dw.0 → Kept (then_spf dw)
unfolding then_spf compute_spf
then_spf-Kept (d, w) v = go _
  where
    go : (o : Outcome) → Kept (elim (installed d o) [ none ↦ none | some d' ↦ some (d', w) ])
    go (done s) = unfold installed in v
    go panicked = unfold installed in tt
    go out_of_fuel = unfold installed in tt

forget_routes-IsValid :
    (gone : HashMap LsaKey LsaRecord) (routes : RouteTable)
    → IsValid routes
    → IsValid (forget_routes gone routes)
unfolding forget_routes
forget_routes-IsValid [] routes v = v
forget_routes-IsValid ((k, r) ∷ gone) routes v =
    forget_routes-IsValid gone _ (remove_remote_endpoint-IsValid k.endpoint_id k.origin routes v)

take_out-HasValid :
    (lsa : Lsa) (body : LsaBody) (d : LsDb) → HasValid d → HasValid (take_out lsa body d)
unfolding take_out
take_out-HasValid lsa (router adjs) d v =
    forget_routes-IsValid (retain (from_node lsa.key.origin) d.db) d.routes v
take_out-HasValid lsa (endpoint info) d v =
    remove_remote_endpoint-IsValid lsa.key.endpoint_id lsa.key.origin d.routes v

drop_route-HasValid :
    (lsa : Lsa) (dw : LsDb × Wire) → HasValid dw.0 → HasValid (drop_route lsa dw).0
unfolding drop_route
drop_route-HasValid lsa (d, w) v =
    remove_remote_endpoint-IsValid lsa.key.endpoint_id lsa.key.origin d.routes v

remove_dead-HasValid :
    (now : ℕ) (lsa : Lsa) (found : Option LsaRecord) (dw : LsDb × Wire)
    → HasValid dw.0
    → HasValid (remove_dead_of now lsa found dw).0
unfolding remove_dead_of
remove_dead-HasValid now lsa none dw v = drop_route-HasValid lsa dw v
remove_dead-HasValid now lsa (some r) (d, w) v =
    if-cases (λ (x : LsDb × Wire). HasValid x.0) (ltb r.lsa.seq lsa.seq) _ _
      (λ newer.
        let flooded = flood_all_neighbors lsa none (take_out lsa r.lsa.body d, w) in
        drop_route-HasValid lsa (rebuild now flooded) (
          unfold rebuild in
          request_rebuild-HasValid now flooded.0 (
            flood-HasValid lsa none (take_out lsa r.lsa.body d, w)
              (take_out-HasValid lsa r.lsa.body d v))))
      (λ old. v)

add_route-HasValid : (lsa : Lsa) (d : LsDb) → HasValid d → HasValid (add_route lsa d)
unfolding add_route
add_route-HasValid lsa d v =
    add_remote_endpoint-IsValid lsa.key.endpoint_id lsa.key.origin (announced d lsa lsa.body)
      d.routes v

accept-Kept :
    (lsa : Lsa) (c : ConnectionId) (dw : LsDb × Wire) → HasValid dw.0 → Kept (accept lsa c dw)
unfolding accept
accept-Kept lsa c dw v =
    if-cases Kept (is_router lsa.body) _ _ (λ _. then_spf-Kept _ (flood-HasValid lsa (some c) dw v))
      (λ _. flood-HasValid lsa (some c) dw v)

upserted-HasValid :
    (now : ℕ) (lsa : Lsa) (d : LsDb)
    → HasValid d
    → HasValid (add_route lsa (request_rebuild now (put_record now lsa d)))
upserted-HasValid now lsa d v =
    add_route-HasValid lsa _
      (request_rebuild-HasValid now (put_record now lsa d) (unfold put_record in v))

upsert-Kept :
    (now : ℕ) (lsa : Lsa) (c : ConnectionId) (found : Option LsaRecord) (d : LsDb) (w : Wire)
    → HasValid d
    → Kept
        (elim (upsert_of now lsa found d) [ none ↦ some (d, w) | some d' ↦ accept lsa c (d', w) ])
upsert-Kept now lsa c none d w v =
    unfold upsert_of in accept-Kept lsa c _ (upserted-HasValid now lsa d v)
upsert-Kept now lsa c (some r) d w v = elim (Bool-cases (ltb r.lsa.seq lsa.seq)) [
  | inl t ↦ unfold upsert_of in rw t (accept-Kept lsa c _ (upserted-HasValid now lsa d v))
  | inr f ↦ unfold upsert_of in rw f v
]

-- Whatever LSA a peer sends, a valid route table stays valid if its handling ends without a panic.
pub handle_lsa-Kept :
    (now : ℕ) (lsa : Lsa) (c : ConnectionId) (d : LsDb) (w : Wire)
    → HasValid d
    → Kept (handle_lsa now lsa c (d, w))
unfolding handle_lsa receive remove_dead_lsa upsert_lsa
handle_lsa-Kept now lsa c d w v =
    if-cases Kept (lsa.key.origin == d.self_id) _ _ (λ own. v)
      λ other.
        if-cases Kept lsa.dead _ _
          (λ dead. remove_dead-HasValid now lsa (get lsa.key d.db) (d, _) v)
          (λ live. upsert-Kept now lsa c (get lsa.key d.db) d _ v)
