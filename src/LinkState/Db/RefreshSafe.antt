-- ===== src/LinkState/Db/RefreshSafe.antt =====
-- The timers: no panic, and the invariant is kept.
use anybus.Common.{
  ℕ, ◌+◌, ◌/◌, ◌≡◌, refl, sym, ap, ◌∙◌, subst, ◌⊎◌, inl, inr, Bool, List, [], ◌∷◌, Option, none,
  some, ◌==◌, nat_eq, arith, Bool-cases, if-cases, Option-cases, ltb,
}
use anybus.Common.Assoc.{HashMap, get}
use anybus.Common.Unique.{UniqueKeys}
use anybus.LinkState.{Lsa, LsaKey, key_eq, key_beq_iff, LsaRecord}
use anybus.LinkState.Wire.{Wire}
use anybus.LinkState.Db.{LsDb, flood_all_neighbors, request_rebuild}
use anybus.LinkState.Db.Anchor.{IsAnchored}
use anybus.LinkState.Db.RemoteSafe.{
  Safe, then_spf-Safe, request_rebuild-IsAnchored, flood-IsAnchored,
}
use anybus.LinkState.Db.Refresh.{
  tick, refresh_and_purge_lsas, refresh_records, refreshed, is_due, flood_all, extract_first,
  is_stale, purge, take_request, then_stamp,
}

refresh_records-get :
    (d : LsDb) (now : ℕ) (k : LsaKey) (db : HashMap LsaKey LsaRecord)
    → ((get k (refresh_records d now db).0 ≡ none) × (get k db ≡ none))
      ⊎ ((r q : LsaRecord) × (get k (refresh_records d now db).0 ≡ some r)
          × (get k db ≡ some q)
          × (r.lsa.body ≡ q.lsa.body))
unfolding refresh_records get
refresh_records-get d now k [] = inl (refl, refl)
refresh_records-get d now k ((j, r) ∷ db) = elim (Bool-cases (j == k)) [
  | inl t ↦ elim (Bool-cases (is_due d now r)) [
    | inl due ↦ inr (refreshed now r, r, rw (due, t), rw t, refl)
    | inr fresh ↦ inr (r, r, rw (fresh, t), rw t, refl)
  ]
  | inr f ↦ elim (Bool-cases (is_due d now r)) [
    | inl due ↦ rw (due, f) (refresh_records-get d now k db)
    | inr fresh ↦ rw (fresh, f) (refresh_records-get d now k db)
  ]
]

refresh_records-UniqueKeys :
    (d : LsDb) (now : ℕ) (db : HashMap LsaKey LsaRecord)
    → UniqueKeys db
    → UniqueKeys (refresh_records d now db).0
unfolding refresh_records
refresh_records-UniqueKeys d now [] u = tt
refresh_records-UniqueKeys d now ((j, r) ∷ db) u =
    let rest = refresh_records-UniqueKeys d now db u.1 in
    let missing : get j (refresh_records d now db).0 ≡ none =
      elim (refresh_records-get d now j db) [
        | inl (gone, _) ↦ gone
        | inr (a, b, _, here, _) ↦ absurd (ground (arith, u.0))
      ] in
    elim (Bool-cases (is_due d now r)) [
      | inl due ↦ rw due (missing, rest)
      | inr fresh ↦ rw fresh (missing, rest)
    ]

refresh-IsAnchored :
    (d : LsDb) (now : ℕ)
    → IsAnchored d
    → IsAnchored (record d { db = (refresh_records d now d.db).0 })
refresh-IsAnchored d now inv = record {
  unique = refresh_records-UniqueKeys d now d.db inv.unique;
  own = λ k r h. elim (refresh_records-get d now k d.db) [
    | inl (gone, _) ↦ absurd (ground arith)
    | inr (a, b, after, before, same) ↦
        let equal : a ≡ r = ground arith in
        λ adjs o e.
          inv.own k b before adjs o (ground (arith, ap (λ (x : LsaRecord). x.lsa.body) equal))
  ];
}

flood_all-IsAnchored :
    (lsas : List Lsa) (dw : LsDb × Wire) → IsAnchored dw.0 → IsAnchored (flood_all lsas dw).0
unfolding flood_all
flood_all-IsAnchored [] dw inv = inv
flood_all-IsAnchored (lsa ∷ lsas) dw inv =
    flood_all-IsAnchored lsas (flood_all_neighbors lsa none dw) (flood-IsAnchored lsa none dw inv)

extract_first-get :
    (d : LsDb) (now : ℕ) (k : LsaKey) (db : HashMap LsaKey LsaRecord)
    → UniqueKeys db
    → (get k (extract_first d now db).0 ≡ none) ⊎ (get k (extract_first d now db).0 ≡ get k db)
unfolding extract_first get
extract_first-get d now k [] u = inl refl
extract_first-get d now k ((j, r) ∷ db) u = elim (Bool-cases (is_stale d now r)) [
  | inl stale ↦ rw stale (elim (Bool-cases (j == k)) [
    | inl t ↦ inl (subst (λ i. get i db ≡ none) ((key_beq_iff j k).0 t) u.0)
    | inr f ↦ rw f (inr refl)
  ])
  | inr fresh ↦ rw fresh (elim (Bool-cases (j == k)) [
    | inl t ↦ rw t (inr refl)
    | inr f ↦ rw f (extract_first-get d now k db u.1)
  ])
]

extract_first-UniqueKeys :
    (d : LsDb) (now : ℕ) (db : HashMap LsaKey LsaRecord)
    → UniqueKeys db
    → UniqueKeys (extract_first d now db).0
unfolding extract_first
extract_first-UniqueKeys d now [] u = tt
extract_first-UniqueKeys d now ((j, r) ∷ db) u = elim (Bool-cases (is_stale d now r)) [
  | inl stale ↦ rw stale u.1
  | inr fresh ↦ rw fresh (
    elim (extract_first-get d now j db u.1) [ inl gone ↦ gone | inr e ↦ e ∙ u.0 ],
    extract_first-UniqueKeys d now db u.1,
  )
]

extract-IsAnchored :
    (d : LsDb) (now : ℕ)
    → IsAnchored d
    → IsAnchored (record d { db = (extract_first d now d.db).0 })
extract-IsAnchored d now inv = record {
  unique = extract_first-UniqueKeys d now d.db inv.unique;
  own = λ k r h. elim (extract_first-get d now k d.db inv.unique) [
    | inl gone ↦ absurd (ground arith)
    | inr e ↦ inv.own k r (sym e ∙ h)
  ];
}

purge-Safe : (now : ℕ) (d : LsDb) (w : Wire) → IsAnchored d → Safe (purge now (d, w))
unfolding purge
purge-Safe now d w inv =
    let kept = extract-IsAnchored d now inv in
    let d' = record d { db = (extract_first d now d.db).0 } in
    if-cases Safe (extract_first d now d.db).1 _ _
      (λ dirty.
        let ((d₁, w₁), e, h) = then_spf-Safe (d', w) kept in
        rw e ((request_rebuild now d₁, w₁), refl, request_rebuild-IsAnchored now d₁ h))
      (λ clean. ((d', w), refl, kept))

then_stamp-Safe : (now : ℕ) (r : Option (LsDb × Wire)) → Safe r → Safe (then_stamp now r)
unfolding then_stamp
then_stamp-Safe now r (dw, e, h) =
    subst (λ x. Safe (then_stamp now x)) (sym e)
      ((record (dw.0) { last_refresh = now }, dw.1), refl, h)

refresh_and_purge-Safe :
    (now : ℕ) (d : LsDb) (w : Wire) → IsAnchored d → Safe (refresh_and_purge_lsas now (d, w))
unfolding refresh_and_purge_lsas
refresh_and_purge-Safe now d w inv =
    let rr = refresh_records d now d.db in
    let flooded = flood_all rr.1 (record d { db = rr.0 }, w) in
    then_stamp-Safe now (purge now flooded) (
      purge-Safe now flooded.0 flooded.1
        (flood_all-IsAnchored rr.1 (record d { db = rr.0 }, w) (refresh-IsAnchored d now inv)))

-- The result of `tick`: no panic, and the invariant afterwards.
abbrev pub SafeTick : Option (LsDb × Wire × Bool) → Type 0
SafeTick r = (x : LsDb × Wire × Bool) × (r ≡ some x) × IsAnchored x.0

take_request-IsAnchored : (dw : LsDb × Wire) → IsAnchored dw.0 → IsAnchored (take_request dw).0
unfolding take_request
take_request-IsAnchored (d, w) inv = elim (Option-cases d.rebuild_requested) [
  | inl e ↦ rw (e, take_request) inv
  | inr (at, e) ↦ rw (e, take_request) inv
]

-- If the database is anchored, a tick ends without a panic, and the database is anchored
-- afterwards.
pub tick-Safe : (now : ℕ) (d : LsDb) (w : Wire) → IsAnchored d → SafeTick (tick now (d, w))
unfolding tick
tick-Safe now d w inv =
    let d₁ = record d { last_tick = now } in
    if-cases SafeTick (ltb (d.last_refresh + d.lsa_timeout / 3) now) _ _
      (λ due.
        let (dw, e, h) = refresh_and_purge-Safe now d₁ w inv in
        rw e (take_request dw, refl, take_request-IsAnchored dw h))
      (λ early. (take_request (d₁, w), refl, take_request-IsAnchored (d₁, w) inv))
