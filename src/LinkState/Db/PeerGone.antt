-- ===== src/LinkState/Db/PeerGone.antt =====
-- Peers that go, `remove_peer` of db.rs: no panic, the invariant is kept, and the
-- connection is gone.
pub mod Departure
use anybus.Common.{
  ℕ, ◌≡◌, ◌≢◌, refl, sym, subst, Option, inl, inr, false, List, [], ◌∷◌, length, some, ◌==◌, nat_eq,
  nat_beq_iff, arith, Bool-cases, if-cases, Option-cases, ltb,
}
use anybus.Common.Assoc.{HashMap, get, insert, remove, get-insert, get-remove}
use anybus.Common.Unique.{UniqueKeys, insert-UniqueKeys}
use anybus.Routing.{ConnectionId}
use anybus.LinkState.{
  LsaKey, key_eq, key_beq_iff, LsaBody, LsaRecord, router, endpoint, Adjacency, Link,
}
use anybus.LinkState.Wire.{Wire}
use anybus.LinkState.Db.{LsDb, own_key}
use anybus.LinkState.Db.Anchor.{DbIsAnchored, IsAnchored, compute_spf_lem, IsOwnRouter, Anchored}
use anybus.LinkState.Db.Lsas.{then_spf}
use anybus.LinkState.Db.PeerGone.Departure.{Gone, drop_own-Gone, unknown-Gone}
use anybus.LinkState.Db.Peers.{
  with_adjacencies, remove_peer, drop_own_adjacency, drop_adjacency, without,
}

-- Without a connection: its link and its adjacencies go.
Anchored-remove :
    (c : ConnectionId) (links : HashMap ConnectionId Link) (adjs : List Adjacency)
    → Anchored links adjs
    → Anchored (remove c links) (without c adjs)
unfolding without
Anchored-remove c links [] h = tt
Anchored-remove c links (a ∷ adjs) ((l, e, p), rest) = elim (Bool-cases (a.connection_id == c)) [
  | inl t ↦ rw t (Anchored-remove c links adjs rest)
  | inr f ↦ rw f (
    (
      l,
      ground (
        arith,
        get-remove c a.connection_id links,
        nat_beq_iff c a.connection_id,
        nat_beq_iff a.connection_id c,
      ),
      p,
    ),
    Anchored-remove c links adjs rest,
  )
]

-- The database before our own router LSA is put right.
abbrev OthersAnchored : ConnectionId → LsDb → Type 0
OthersAnchored c d =
    UniqueKeys d.db
    × ((k : LsaKey) (r : LsaRecord)
        → get k d.db ≡ some r
        → (own_key d.self_id == k) ≡ false
        → IsOwnRouter d.self_id (remove c d.links) k r)

others_of_IsAnchored : (c : ConnectionId) (d : LsDb) → IsAnchored d → OthersAnchored c d
others_of_IsAnchored c d inv = (
  inv.unique,
  λ k r h ne adjs o b.
      absurd (ground (arith, key_beq_iff (own_key d.self_id) k, (inv.own k r h adjs o b).0)),
)

put_own :
    (c : ConnectionId) (d : LsDb) (r : LsaRecord)
    → OthersAnchored c d
    → IsOwnRouter d.self_id (remove c d.links) (own_key d.self_id) r
    → DbIsAnchored d.self_id (remove c d.links) (insert (own_key d.self_id) r d.db)
put_own c d r (unique, others) mine = record {
  unique = insert-UniqueKeys (own_key d.self_id) r d.db unique;
  own = λ k q h. elim (Bool-cases (own_key d.self_id == k)) [
    | inl t ↦
        let value : r ≡ q = ground (arith, get-insert (own_key d.self_id) k r d.db) in
        subst (λ i. IsOwnRouter d.self_id (remove c d.links) i q) ((key_beq_iff _ _).0 t)
          (subst (IsOwnRouter d.self_id (remove c d.links) (own_key d.self_id)) value mine)
    | inr f ↦ others k q (ground (arith, get-insert (own_key d.self_id) k r d.db)) f
  ];
}

-- If our own router LSA is no router LSA, nothing is to be put right.
keep_own :
    (c : ConnectionId) (d : LsDb)
    → IsAnchored d
    → ((r : LsaRecord) (adjs : List Adjacency)
        → get (own_key d.self_id) d.db ≡ some r
        → r.lsa.body ≢ router adjs)
    → DbIsAnchored d.self_id (remove c d.links) d.db
keep_own c d inv no_router = record {
  unique = inv.unique;
  own = λ k r h adjs o b.
      let key = (inv.own k r h adjs o b).0 in
      absurd (no_router r adjs (subst (λ i. get i d.db ≡ some r) key h) b);
}

without-IsOwnRouter :
    (c : ConnectionId) (d : LsDb) (r r' : LsaRecord) (adjs : List Adjacency)
    → IsAnchored d
    → get (own_key d.self_id) d.db ≡ some r
    → r.lsa.body ≡ router adjs
    → r'.lsa.body ≡ router (without c adjs)
    → IsOwnRouter d.self_id (remove c d.links) (own_key d.self_id) r'
without-IsOwnRouter c d r r' adjs inv h b b' others o e =
    let same : without c adjs ≡ others = ground arith in
    (
      refl,
      subst (Anchored (remove c d.links)) same
          (Anchored-remove c d.links adjs (inv.own (own_key d.self_id) r h adjs refl b).1),
    )

drop_own-IsAnchored :
    (now : ℕ) (c : ConnectionId) (d : LsDb) (w : Wire)
    → IsAnchored d
    → IsAnchored (drop_own_adjacency now c (record d { links = remove c d.links }, w)).0
unfolding drop_own_adjacency
drop_own-IsAnchored now c d w inv = elim (Option-cases (get (own_key d.self_id) d.db)) [
  | inl e ↦ rw (e, drop_own_adjacency) (keep_own c d inv (λ r adjs h. absurd (ground arith)))
  | inr (r, e) ↦ rw (e, drop_own_adjacency) (go r e r.lsa.body refl)
]
  where
    d₀ : LsDb
    d₀ = record d { links = remove c d.links }

    go :
        (r : LsaRecord)
        → get (own_key d.self_id) d.db ≡ some r
        → (body : LsaBody) → r.lsa.body ≡ body
        → IsAnchored (drop_adjacency now c r body (d₀, w)).0
    go r e (endpoint info) b = keep_own c d inv (λ q adjs h f. absurd (ground arith))
    go r e (router adjs) b =
        let rest = without c adjs in
        let others = others_of_IsAnchored c d inv in
        let shorter = with_adjacencies now r rest in
        let same : LsaRecord = record r {
          lsa = (let lsa = r.lsa in record lsa { body = router rest });
        } in
        if-cases (λ (x : LsDb × Wire). IsAnchored x.0) (ltb (length rest) (length adjs)) _ _
          (λ _. put_own c d shorter others (without-IsOwnRouter c d r shorter adjs inv e b refl))
          (λ _. put_own c d same others (without-IsOwnRouter c d r same adjs inv e b refl))

-- What a removal gives: no panic, an anchored database, and the connection gone from it.
abbrev pub Removed : ConnectionId → LsDb → Option (LsDb × Wire) → Type 0
Removed c d r = (dw : LsDb × Wire) × (r ≡ some dw) × IsAnchored dw.0 × Gone c d dw.0

then_spf-Removed :
    (c : ConnectionId) (d : LsDb) (dw : LsDb × Wire)
    → IsAnchored dw.0
    → Gone c d dw.0
    → Removed c d (then_spf dw)
unfolding then_spf
then_spf-Removed c d (d₁, w) inv gone =
    let (d', eq, computed) = compute_spf_lem d₁ inv in
    (
      (d', w),
      rw (eq, then_spf),
      subst IsAnchored (sym computed.kept) inv,
      subst (Gone c d) (sym computed.kept) (record {
        no_link = gone.no_link;
        links_stay = gone.links_stay;
        no_adjacency = gone.no_adjacency;
        adjacencies_stay = gone.adjacencies_stay;
      }),
    )

-- If the database is anchored, the removal of the peer on a connection, known or not, ends without a
-- panic, and the database is anchored afterwards. Then the connection has no link and our own router
-- LSA announces no adjacency over it; the links of all other connections are as before, and every
-- adjacency over another connection that our router LSA announced is still announced.
pub remove_peer-Safe :
    (now : ℕ) (c : ConnectionId) (dw : LsDb × Wire)
    → IsAnchored dw.0
    → Removed c dw.0 (remove_peer now c dw)
unfolding remove_peer
remove_peer-Safe now c (d, w) inv = elim (Option-cases (get c d.links)) [
  | inl e ↦ rw (e, remove_peer) ((d, w), refl, inv, unknown-Gone c d e inv)
  | inr (link, e) ↦
      rw (e, remove_peer)
        (then_spf-Removed c d (drop_own_adjacency now c (record d { links = remove c d.links }, w))
          (drop_own-IsAnchored now c d w inv) (drop_own-Gone now c d w))
]
