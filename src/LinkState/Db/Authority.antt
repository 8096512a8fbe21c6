-- ===== src/LinkState/Db/Authority.antt =====
-- What an LSA from a peer cannot do: touch our own records, or bring an older version back.
use anybus.Common.{
  ℕ, ◌≤◌, ◌≡◌, inl, inr, sym, ap, subst, ◌∙◌, Bool, true, Option, none, some, ◌==◌, arith,
  Bool-cases, nat_eq,
}
use anybus.Common.Assoc.{get, insert, get-insert}
use anybus.Routing.{NodeId, ConnectionId}
use anybus.LinkState.{Lsa, LsaKey, LsaRecord, key_eq, key_beq_iff}
use anybus.LinkState.Wire.{Wire}
use anybus.LinkState.Db.{LsDb}
use anybus.LinkState.Db.Lsas.{handle_lsa}
use anybus.LinkState.Db.Versions.{Records, Change, kept, stored, taken, IsNewer, handle_lsa-Change}

Change-own :
    (now : ℕ) (self_id : NodeId) (lsa : Lsa) (before after : Records) (k : LsaKey)
    → k.origin ≡ self_id
    → Change now self_id lsa before after
    → get k after ≡ get k before
Change-own now self_id lsa before after k own (kept e) = ap (get k) e
Change-own now self_id lsa before after k own (stored ne live newer e) =
    ap (get k) e ∙ elim (Bool-cases (lsa.key == k)) [
      | inl t ↦ absurd (ne (ap (λ (x : LsaKey). x.origin) ((key_beq_iff lsa.key k).0 t) ∙ own))
      | inr f ↦ ground (arith, get-insert lsa.key k (record { lsa = lsa; updated_at = now }) before)
    ]
Change-own now self_id lsa before after k own (taken ne dead h) = elim (h k) [
  | inl same ↦ same
  | inr (gone, o) ↦ absurd (ne (sym o ∙ own))
]

-- If an LSA from a peer is handled without a panic, the records under keys of our own node are
-- afterwards what they were.
pub handle_lsa-own :
    (now : ℕ) (lsa : Lsa) (c : ConnectionId) (d : LsDb) (w : Wire) (dw : LsDb × Wire) (k : LsaKey)
    → handle_lsa now lsa c (d, w) ≡ some dw
    → k.origin ≡ d.self_id
    → get k dw.0.db ≡ get k d.db
handle_lsa-own now lsa c d w dw k e own =
    Change-own now d.self_id lsa d.db dw.0.db k own (handle_lsa-Change now lsa c d w dw e)

abbrev pub IsSince : LsaRecord → Option LsaRecord → Bool → Type 0
IsSince r none dead = dead ≡ true
IsSince r (some r') dead = r.lsa.seq ≤ r'.lsa.seq

Change-IsSince :
    (now : ℕ) (self_id : NodeId) (lsa : Lsa) (before after : Records) (k : LsaKey) (r : LsaRecord)
    → get k before ≡ some r
    → Change now self_id lsa before after
    → IsSince r (get k after) lsa.dead
Change-IsSince now self_id lsa before after k r here (kept e) =
    subst (λ o. IsSince r o lsa.dead) (sym (ap (get k) e ∙ here)) (omega arith)
Change-IsSince now self_id lsa before after k r here (stored ne live newer e) =
    let new : LsaRecord = record { lsa = lsa; updated_at = now } in
    let put = get-insert lsa.key k new before in
    elim (Bool-cases (lsa.key == k)) [
      | inl t ↦
          let same : lsa.key ≡ k = (key_beq_iff lsa.key k).0 t in
          let older : IsNewer lsa (some r) =
            subst (IsNewer lsa) (ap (λ j. get j before) same ∙ here) newer in
          let at_k : get k (insert lsa.key new before) ≡ some new = ground (arith, put) in
          subst (λ o. IsSince r o lsa.dead) (sym (ap (get k) e ∙ at_k)) (omega (arith, older))
      | inr f ↦
          let at_k : get k (insert lsa.key new before) ≡ some r = ground (arith, put, here) in
          subst (λ o. IsSince r o lsa.dead) (sym (ap (get k) e ∙ at_k)) (omega arith)
    ]
Change-IsSince now self_id lsa before after k r here (taken ne dead h) = elim (h k) [
  | inl same ↦ subst (λ o. IsSince r o lsa.dead) (sym (same ∙ here)) (omega arith)
  | inr (gone, o) ↦ subst (λ x. IsSince r x lsa.dead) (sym gone) dead
]

-- If an LSA from a peer is handled without a panic, a record that was there has afterwards not
-- got a lower sequence number under its key, and it is gone only if the LSA was dead.
pub handle_lsa-IsSince :
    (now : ℕ) (lsa : Lsa) (c : ConnectionId) (d : LsDb) (w : Wire) (dw : LsDb × Wire) (k : LsaKey)
    (r : LsaRecord)
    → handle_lsa now lsa c (d, w) ≡ some dw
    → get k d.db ≡ some r
    → IsSince r (get k dw.0.db) lsa.dead
handle_lsa-IsSince now lsa c d w dw k r e here =
    Change-IsSince now d.self_id lsa d.db dw.0.db k r here (handle_lsa-Change now lsa c d w dw e)
