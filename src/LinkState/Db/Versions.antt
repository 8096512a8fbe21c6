-- ===== src/LinkState/Db/Versions.antt =====
-- What an LSA from a peer changes in the database: `handle_lsa`, `upsert_lsa` and `remove_dead_lsa`
-- of db.rs.
use anybus.Common.{
  ℕ, ◌<◌, ◌≡◌, ◌≢◌, ◌⊎◌, inl, inr, refl, sym, ap, subst, ◌∙◌, true, false, not, Option, none, some,
  ◌==◌, arith, Bool-cases, if-cases, nat_eq, nat_beq_iff, ltb, if◌then◌else◌,
}
use anybus.Common.Unique.{get-retain}
use anybus.Common.Assoc.{HashMap, get, insert, remove, get-remove}
use anybus.Routing.{NodeId, ConnectionId}
use anybus.LinkState.{Lsa, LsaKey, LsaBody, LsaRecord, key_eq, key_beq_iff, router, endpoint}
use anybus.LinkState.Wire.{Wire}
use anybus.LinkState.Spf.{Outcome, done, panicked, out_of_fuel}
use anybus.LinkState.Db.{LsDb, request_rebuild, flood_all_neighbors}
use anybus.LinkState.Db.Paths.{compute_spf, installed}
use anybus.LinkState.Db.Lsas.{
  handle_lsa, receive, accept, then_spf, upsert_lsa, upsert_of, remove_dead_lsa, is_router,
  remove_dead_of, put_record, add_route, take_out, forget_node, from_node, rebuild, drop_route,
}
use anybus.LinkState.Db.Withdrawal.{request_rebuild_lem}

abbrev pub Records : Type 0
Records = HashMap LsaKey LsaRecord

-- The LSA is newer than the record under its key, if there is one.
abbrev pub IsNewer : Lsa → Option LsaRecord → Type 0
IsNewer lsa none = Unit {0}
IsNewer lsa (some r) = r.lsa.seq < lsa.seq

-- What a dead LSA may do to the record under a key.
abbrev pub IsTaken : Lsa → Records → Records → LsaKey → Type 0
IsTaken lsa before after k =
    (get k after ≡ get k before) ⊎ ((get k after ≡ none) × (k.origin ≡ lsa.key.origin))

-- The changes of the records: none; a newer live LSA is stored under its key; or a dead one takes
-- records of its node out.
pub data Change (now : ℕ) (self_id : NodeId) (lsa : Lsa) (before after : Records) : Type 0 where
  kept : after ≡ before → Change now self_id lsa before after
  stored :
      lsa.key.origin ≢ self_id
      → lsa.dead ≡ false
      → IsNewer lsa (get lsa.key before)
      → after ≡ insert lsa.key (record { lsa = lsa; updated_at = now }) before
      → Change now self_id lsa before after
  taken :
      lsa.key.origin ≢ self_id
      → lsa.dead ≡ true
      → ((k : LsaKey) → IsTaken lsa before after k)
      → Change now self_id lsa before after

compute_spf-db : (d d' : LsDb) → compute_spf d.self_id d ≡ some d' → d'.db ≡ d.db
unfolding compute_spf
compute_spf-db d d' e = go _ e
  where
    go : (o : Outcome) → installed d o ≡ some d' → d'.db ≡ d.db
    go (done s) h = unfold installed in ground arith
    go panicked h = unfold installed in ground arith
    go out_of_fuel h = unfold installed in ground arith

then_spf-db : (dw dw' : LsDb × Wire) → then_spf dw ≡ some dw' → dw'.0.db ≡ dw.0.db
unfolding then_spf
then_spf-db (d, w) dw' e = go (compute_spf d.self_id d) refl e
  where
    go :
        (o : Option LsDb)
        → compute_spf d.self_id d ≡ o
        → (elim o [ none ↦ none | some d₁ ↦ some (d₁, w) ]) ≡ some dw'
        → dw'.0.db ≡ d.db
    go none h k = ground arith
    go (some d₁) h k =
        let same : ◌≡◌ {A = LsDb × Wire} (d₁, w) dw' = ground arith in
        ap (λ (x : LsDb × Wire). x.0.db) (sym same) ∙ compute_spf-db d d₁ h

accept-db :
    (lsa : Lsa) (c : ConnectionId) (dw dw' : LsDb × Wire)
    → accept lsa c dw ≡ some dw'
    → dw'.0.db ≡ dw.0.db
unfolding accept flood_all_neighbors
accept-db lsa c dw dw' = go lsa.body
  where
    go :
        (b : LsaBody)
        → (if is_router b
            then then_spf (flood_all_neighbors lsa (some c) dw)
            else some (flood_all_neighbors lsa (some c) dw))
          ≡ some dw'
        → dw'.0.db ≡ dw.0.db
    go (router adjs) e = unfold flood_all_neighbors in then_spf-db _ dw' e
    go (endpoint info) e = unfold flood_all_neighbors in ground arith

upsert_lsa-stored :
    (now : ℕ) (lsa : Lsa) (d d' : LsDb)
    → upsert_lsa now lsa d ≡ some d'
    → IsNewer lsa (get lsa.key d.db)
      × (d'.db ≡ insert lsa.key (record { lsa = lsa; updated_at = now }) d.db)
unfolding upsert_lsa
upsert_lsa-stored now lsa d d' = go (get lsa.key d.db)
  where
    d₁ : LsDb
    d₁ = add_route lsa (request_rebuild now (put_record now lsa d))

    is_put :
        some d₁ ≡ some d' → d'.db ≡ insert lsa.key (record { lsa = lsa; updated_at = now }) d.db
    is_put e =
        let same : d₁ ≡ d' = ground arith in
        ap (λ (x : LsDb). x.db) (sym same)
        ∙ unfold add_route in
          unfold put_record in (request_rebuild_lem now (put_record now lsa d)).0

    go :
        (found : Option LsaRecord)
        → upsert_of now lsa found d ≡ some d'
        → IsNewer lsa found × (d'.db ≡ insert lsa.key (record { lsa = lsa; updated_at = now }) d.db)
    go none e = (tt, is_put (unfold upsert_of in e))
    go (some r) e = elim (Bool-cases (ltb r.lsa.seq lsa.seq)) [
      | inl t ↦ (ground arith, is_put (unfold upsert_of in ground arith))
      | inr f ↦ absurd (unfold upsert_of in ground arith)
    ]

remove-IsTaken : (lsa : Lsa) (db : Records) (k : LsaKey) → IsTaken lsa db (remove lsa.key db) k
remove-IsTaken lsa db k = elim (Bool-cases (lsa.key == k)) [
  | inl t ↦ inr (
    ground (arith, get-remove lsa.key k db),
    ap (λ (x : LsaKey). x.origin) (sym ((key_beq_iff lsa.key k).0 t)),
  )
  | inr f ↦ inl (ground (arith, get-remove lsa.key k db))
]

forget_node-IsTaken :
    (lsa : Lsa) (db : Records) (k : LsaKey) → IsTaken lsa db (forget_node lsa.key.origin db) k
unfolding forget_node from_node
forget_node-IsTaken lsa db k =
    let at_k = get-retain (λ j. not (j.origin == lsa.key.origin)) k db in
    elim (Bool-cases (k.origin == lsa.key.origin)) [
      | inl t ↦ inr (at_k ∙ rw t refl, (nat_beq_iff _ _).0 t)
      | inr f ↦ inl (at_k ∙ rw f refl)
    ]

take_out-IsTaken :
    (lsa : Lsa) (body : LsaBody) (d : LsDb) (k : LsaKey)
    → IsTaken lsa d.db (take_out lsa body d).db k
unfolding take_out
take_out-IsTaken lsa (router adjs) d k = forget_node-IsTaken lsa d.db k
take_out-IsTaken lsa (endpoint info) d k = remove-IsTaken lsa d.db k

remove_dead_lsa-IsTaken :
    (now : ℕ) (lsa : Lsa) (dw : LsDb × Wire) (k : LsaKey)
    → IsTaken lsa dw.0.db (remove_dead_lsa now lsa dw).0.db k
unfolding remove_dead_lsa
remove_dead_lsa-IsTaken now lsa (d, w) k = go (get lsa.key d.db)
  where
    rebuild-db : (dw : LsDb × Wire) → (drop_route lsa (rebuild now dw)).0.db ≡ dw.0.db
    rebuild-db dw = unfold drop_route in unfold rebuild in (request_rebuild_lem now dw.0).0

    go : (found : Option LsaRecord) → IsTaken lsa d.db (remove_dead_of now lsa found (d, w)).0.db k
    go none = unfold remove_dead_of in unfold drop_route in inl refl
    go (some r) =
        unfold remove_dead_of in
        if-cases (λ (x : LsDb × Wire). IsTaken lsa d.db x.0.db k) (ltb r.lsa.seq lsa.seq) _ _
          (λ newer.
            subst (λ db. IsTaken lsa d.db db k)
              (sym (rebuild-db (flood_all_neighbors lsa none (take_out lsa r.lsa.body d, w))))
              (unfold flood_all_neighbors in take_out-IsTaken lsa r.lsa.body d k))
          (λ old. inl refl)

receive-Change :
    (now : ℕ) (lsa : Lsa) (c : ConnectionId) (d : LsDb) (w : Wire) (dw : LsDb × Wire)
    → receive now lsa c (d, w) ≡ some dw
    → Change now d.self_id lsa d.db dw.0.db
unfolding receive
receive-Change now lsa c d w dw e = elim (Bool-cases (lsa.key.origin == d.self_id)) [
  | inl own ↦
      let same : ◌≡◌ {A = LsDb × Wire} dw (d, w) = ground arith in
      kept (ap (λ (x : LsDb × Wire). x.0.db) same)
  | inr other ↦
      let ne : lsa.key.origin ≢ d.self_id =
        λ p. ground (arith, nat_beq_iff lsa.key.origin d.self_id, p) in
      elim (Bool-cases lsa.dead) [
        | inl dead ↦
            let same : remove_dead_lsa now lsa (d, w) ≡ dw = ground arith in
            taken ne dead (λ k.
              subst (λ (x : LsDb × Wire). IsTaken lsa d.db x.0.db k) same
                (remove_dead_lsa-IsTaken now lsa (d, w) k))
        | inr live ↦ upserted ne live (upsert_lsa now lsa d) refl (ground arith)
      ]
]
  where
    upserted :
        lsa.key.origin ≢ d.self_id
        → lsa.dead ≡ false
        → (o : Option LsDb) → upsert_lsa now lsa d ≡ o
        → (elim o [ none ↦ some (d, w) | some d' ↦ accept lsa c (d', w) ]) ≡ some dw
        → Change now d.self_id lsa d.db dw.0.db
    upserted ne live none h k =
        let same : ◌≡◌ {A = LsDb × Wire} dw (d, w) = ground arith in
        kept (ap (λ (x : LsDb × Wire). x.0.db) same)
    upserted ne live (some d') h k =
        let (newer, put) = upsert_lsa-stored now lsa d d' h in
        stored ne live newer (accept-db lsa c (d', w) dw k ∙ put)

-- If an LSA from a peer is handled without a panic, it changes the records in one of three ways:
-- not at all; a live LSA of another node, newer than the record under its key if there is one, is
-- stored there; or a dead LSA of another node takes records of that node out and leaves the other
-- keys as they were.
pub handle_lsa-Change :
    (now : ℕ) (lsa : Lsa) (c : ConnectionId) (d : LsDb) (w : Wire) (dw : LsDb × Wire)
    → handle_lsa now lsa c (d, w) ≡ some dw
    → Change now d.self_id lsa d.db dw.0.db
unfolding handle_lsa
handle_lsa-Change now lsa c d w dw e = receive-Change now lsa c d _ dw e
