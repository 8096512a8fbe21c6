-- ===== src/LinkState/Db/RemoteSafe.antt =====
-- LSAs from other nodes and peers that come and go: no panic, and the invariant is kept.
use anybus.Common.{
  ℕ, ◌≡◌, ◌≢◌, refl, sym, subst, inl, inr, not, Option, none, some, ◌==◌, nat_eq, nat_beq_iff,
  arith, Bool-cases, if-cases, Option-cases, ltb,
}
use anybus.Common.Assoc.{get}
use anybus.Routing.{ConnectionId}
use anybus.LinkState.{Lsa, LsaKey, key_eq, LsaBody, LsaRecord, router, endpoint}
use anybus.LinkState.Wire.{Wire}
use anybus.LinkState.Db.{LsDb, flood_all_neighbors, request_rebuild}
use anybus.LinkState.Db.Anchor.{IsAnchored, compute_spf_lem}
use anybus.LinkState.Db.Keeps.{
  insert-DbIsAnchored, remove-DbIsAnchored, retain-DbIsAnchored, foreign-IsOwnRouter,
}
use anybus.LinkState.Db.Lsas.{
  then_spf, handle_lsa, receive, accept, upsert_lsa, upsert_of, remove_dead_lsa, remove_dead_of,
  take_out, put_record, add_route, is_router,
}

-- No panic, and the invariant afterwards.
abbrev pub Safe : Option (LsDb × Wire) → Type 0
Safe r = (dw : LsDb × Wire) × (r ≡ some dw) × IsAnchored dw.0

pub request_rebuild-IsAnchored :
    (now : ℕ) (d : LsDb) → IsAnchored d → IsAnchored (request_rebuild now d)
unfolding request_rebuild
request_rebuild-IsAnchored now d inv = elim (Option-cases d.rebuild_requested) [
  | inl e ↦ rw (e, request_rebuild) inv
  | inr (at, e) ↦ rw (e, request_rebuild) inv
]

pub flood-IsAnchored :
    (lsa : Lsa) (c : Option ConnectionId) (dw : LsDb × Wire)
    → IsAnchored dw.0
    → IsAnchored (flood_all_neighbors lsa c dw).0
unfolding flood_all_neighbors
flood-IsAnchored lsa c dw inv = inv

pub then_spf-Safe : (dw : LsDb × Wire) → IsAnchored dw.0 → Safe (then_spf dw)
unfolding then_spf
then_spf-Safe (d, w) inv =
    let (d', eq, computed) = compute_spf_lem d inv in
    ((d', w), rw (eq, then_spf), subst IsAnchored (sym computed.kept) inv)

take_out-IsAnchored :
    (lsa : Lsa) (body : LsaBody) (d : LsDb) → IsAnchored d → IsAnchored (take_out lsa body d)
unfolding take_out
take_out-IsAnchored lsa (router adjs) d inv =
    retain-DbIsAnchored (λ (k : LsaKey). not (k.origin == lsa.key.origin)) inv
take_out-IsAnchored lsa (endpoint info) d inv = remove-DbIsAnchored lsa.key inv

remove_dead_lsa-IsAnchored :
    (now : ℕ) (lsa : Lsa) (dw : LsDb × Wire)
    → IsAnchored dw.0
    → IsAnchored (remove_dead_lsa now lsa dw).0
unfolding remove_dead_lsa
remove_dead_lsa-IsAnchored now lsa (d, w) inv = go (get lsa.key d.db)
  where
    go : (found : Option LsaRecord) → IsAnchored (remove_dead_of now lsa found (d, w)).0
    go none = inv
    go (some r) = elim (Bool-cases (ltb r.lsa.seq lsa.seq)) [
      | inl t ↦ rw t (
          request_rebuild-IsAnchored now _ (
            flood-IsAnchored lsa none (take_out lsa r.lsa.body d, w)
              (take_out-IsAnchored lsa r.lsa.body d inv)))
      | inr f ↦ rw f inv
    ]

upsert-IsAnchored :
    (now : ℕ) (lsa : Lsa) (d : LsDb)
    → lsa.key.origin ≢ d.self_id
    → IsAnchored d
    → IsAnchored (add_route lsa (request_rebuild now (put_record now lsa d)))
unfolding add_route put_record
upsert-IsAnchored now lsa d ne inv = request_rebuild-IsAnchored now _ (
    insert-DbIsAnchored lsa.key (record { lsa = lsa; updated_at = now }) inv
      (foreign-IsOwnRouter d.self_id d.links lsa.key (record { lsa = lsa; updated_at = now }) ne))

accept-Safe :
    (lsa : Lsa) (c : ConnectionId) (dw : LsDb × Wire) → IsAnchored dw.0 → Safe (accept lsa c dw)
unfolding accept
accept-Safe lsa c dw inv =
    let flooded = flood_all_neighbors lsa (some c) dw in
    let kept = flood-IsAnchored lsa (some c) dw inv in
    elim (Bool-cases (is_router lsa.body)) [
      | inl t ↦ rw t (then_spf-Safe flooded kept)
      | inr f ↦ rw f (flooded, refl, kept)
    ]

-- What `upsert_lsa` gives, if anything.
pub upsert_lem :
    (now : ℕ) (lsa : Lsa) (d d' : LsDb)
    → upsert_lsa now lsa d ≡ some d'
    → d' ≡ add_route lsa (request_rebuild now (put_record now lsa d))
unfolding upsert_lsa
upsert_lem now lsa d d' h = go (get lsa.key d.db) h
  where
    go :
        (found : Option LsaRecord)
        → upsert_of now lsa found d ≡ some d'
        → d' ≡ add_route lsa (request_rebuild now (put_record now lsa d))
    go none e = ground arith
    go (some r) e = elim (Bool-cases (ltb r.lsa.seq lsa.seq)) [
      | inl t ↦ ground arith
      | inr f ↦ ground arith
    ]

receive-Safe :
    (now : ℕ) (lsa : Lsa) (c : ConnectionId) (d : LsDb) (w : Wire)
    → IsAnchored d
    → Safe (receive now lsa c (d, w))
unfolding receive
receive-Safe now lsa c d w inv =
    if-cases Safe (lsa.key.origin == d.self_id) _ _ (λ own. ((d, w), refl, inv))
      λ other.
        if-cases Safe lsa.dead _ _
          (λ dead.
            (remove_dead_lsa now lsa (d, w), refl, remove_dead_lsa-IsAnchored now lsa (d, w) inv))
          λ live. elim (Option-cases (upsert_lsa now lsa d)) [
            | inl old ↦ rw old ((d, w), refl, inv)
            | inr (d', e) ↦
                let ne : lsa.key.origin ≢ d.self_id =
                  λ p. ground (arith, nat_beq_iff lsa.key.origin d.self_id, p) in
                rw e (
                  accept-Safe lsa c (d', w)
                    (subst IsAnchored (sym (upsert_lem now lsa d d' e))
                      (upsert-IsAnchored now lsa d ne inv)))
          ]

-- If the database is anchored, an LSA from a peer, of whatever content, is handled without a
-- panic, and the database is anchored afterwards.
pub handle_lsa-Safe :
    (now : ℕ) (lsa : Lsa) (c : ConnectionId) (d : LsDb) (w : Wire)
    → IsAnchored d
    → Safe (handle_lsa now lsa c (d, w))
unfolding handle_lsa
handle_lsa-Safe now lsa c d w inv = receive-Safe now lsa c d _ inv
