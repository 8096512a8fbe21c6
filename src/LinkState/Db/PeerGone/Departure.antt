-- ===== src/LinkState/Db/PeerGone/Departure.antt =====
-- What `remove_peer` of db.rs takes out of the database, and what it leaves.
use anybus.Common.{
  ℕ, ◌≡◌, ◌≢◌, refl, subst, inl, inr, false, List, [], ◌∷◌, length, none, some, Memᴰ, ◌==◌, nat_eq,
  nat_beq_iff, arith, Bool-cases, if-cases, Option-cases, ltb,
}
use anybus.Common.Assoc.{get, insert, remove, get-insert, get-remove}
use anybus.Routing.{ConnectionId}
use anybus.LinkState.{key_eq, key_beq_iff, LsaBody, LsaRecord, router, endpoint, Adjacency}
use anybus.LinkState.Wire.{Wire}
use anybus.LinkState.Db.{LsDb, own_key, flood_all_neighbors}
use anybus.Common.Preds.{All-get}
use anybus.LinkState.Db.Anchor.{IsAnchored, HasLink}
use anybus.LinkState.Db.Peers.{drop_own_adjacency, drop_adjacency, without}

-- The adjacencies that our own router LSA announces.
abbrev pub Announces : LsDb → List Adjacency → Type 0
Announces d adjs =
    (r : LsaRecord) × (get (own_key d.self_id) d.db ≡ some r) × (r.lsa.body ≡ router adjs)

-- From `d` to `d'` the connection is gone, and nothing of the others.
pub record Gone (c : ConnectionId) (d d' : LsDb) : Type 0 where
  pub no_link : get c d'.links ≡ none
  pub links_stay : (i : ConnectionId) → i ≢ c → get i d'.links ≡ get i d.links
  pub no_adjacency :
      (adjs : List Adjacency) (a : Adjacency)
      → Announces d' adjs
      → Memᴰ a adjs
      → a.connection_id ≢ c
  pub adjacencies_stay :
      (adjs : List Adjacency)
      → Announces d adjs
      → (adjs' : List Adjacency) × Announces d' adjs'
        × ((a : Adjacency) → Memᴰ a adjs → a.connection_id ≢ c → Memᴰ a adjs')

without-gone :
    (c : ConnectionId) (adjs : List Adjacency) (a : Adjacency)
    → Memᴰ a (without c adjs)
    → a.connection_id ≢ c
unfolding without
without-gone c [] a m = elim m [ ]
without-gone c (b ∷ adjs) a m = elim (Bool-cases (b.connection_id == c)) [
  | inl t ↦ without-gone c adjs a (rw t at m)
  | inr f ↦ at_head (without-gone c adjs a) f (rw f at m)
]
  where
    at_head :
        (Memᴰ a (without c adjs) → a.connection_id ≢ c)
        → (b.connection_id == c) ≡ false
        → Memᴰ a (b ∷ without c adjs)
        → a.connection_id ≢ c
    at_head rest f (Memᴰ.head e) = λ p. ground (arith, nat_beq_iff b.connection_id c, p, e)
    at_head rest f (Memᴰ.tail n) = rest n

without-kept :
    (c : ConnectionId) (adjs : List Adjacency) (a : Adjacency)
    → Memᴰ a adjs
    → a.connection_id ≢ c
    → Memᴰ a (without c adjs)
unfolding without
without-kept c [] a m ne = elim m [ ]
without-kept c (b ∷ adjs) a (Memᴰ.head e) ne = elim (Bool-cases (b.connection_id == c)) [
  | inl t ↦ absurd (ground (arith, nat_beq_iff b.connection_id c, e))
  | inr f ↦ rw f (Memᴰ.head e)
]
without-kept c (b ∷ adjs) a (Memᴰ.tail m) ne = elim (Bool-cases (b.connection_id == c)) [
  | inl t ↦ rw t (without-kept c adjs a m ne)
  | inr f ↦ rw f (Memᴰ.tail (without-kept c adjs a m ne))
]

-- The links are those without the connection's, and our own router LSA is known in both databases.
removed-Gone :
    (c : ConnectionId) (d d' : LsDb)
    → d'.links ≡ remove c d.links
    → ((adjs : List Adjacency)
        → Announces d' adjs
        → (old : List Adjacency) × Announces d old × (adjs ≡ without c old))
    → ((adjs : List Adjacency) → Announces d adjs → Announces d' (without c adjs))
    → Gone c d d'
removed-Gone c d d' links back on = record {
  no_link = rw links (ground (arith, get-remove c c d.links, nat_beq_iff c c));
  links_stay = λ i ne. rw links (ground (arith, get-remove c i d.links, nat_beq_iff c i, ne));
  no_adjacency =
      λ adjs a h m. let (old, before, e) = back adjs h in without-gone c old a (subst (Memᴰ a) e m);
  adjacencies_stay = λ adjs h. (without c adjs, on adjs h, without-kept c adjs);
}

-- Our own router LSA now announces the rest.
stored-Gone :
    (c : ConnectionId) (d d' : LsDb) (r r' : LsaRecord) (adjs : List Adjacency)
    → d'.links ≡ remove c d.links
    → get (own_key d.self_id) d.db ≡ some r
    → r.lsa.body ≡ router adjs
    → get (own_key d'.self_id) d'.db ≡ some r'
    → r'.lsa.body ≡ router (without c adjs)
    → Gone c d d'
stored-Gone c d d' r r' adjs links h b h' b' =
    removed-Gone c d d' links
      (λ new (q, e, f). (adjs, (r, h, b), (let same : r' ≡ q = ground arith in ground arith)))
      (λ old (q, e, f).
        let same : r ≡ q = ground arith in
        let body : adjs ≡ old = ground arith in
        (r', h', subst (λ x. r'.lsa.body ≡ router (without c x)) body b'))

pub drop_own-Gone :
    (now : ℕ) (c : ConnectionId) (d : LsDb) (w : Wire)
    → Gone c d (drop_own_adjacency now c (record d { links = remove c d.links }, w)).0
unfolding drop_own_adjacency drop_adjacency flood_all_neighbors
drop_own-Gone now c d w = elim (Option-cases (get (own_key d.self_id) d.db)) [
  | inl e ↦
      rw (e, drop_own_adjacency)
        (removed-Gone c d _ refl (λ adjs (q, h, b). absurd (ground arith))
          (λ adjs (q, h, b). absurd (ground arith)))
  | inr (r, e) ↦ rw (e, drop_own_adjacency) (go r e r.lsa.body refl)
]
  where
    own_stored :
        (r : LsaRecord) → get (own_key d.self_id) (insert (own_key d.self_id) r d.db) ≡ some r
    own_stored r = ground (
      arith,
      get-insert (own_key d.self_id) (own_key d.self_id) r d.db,
      key_beq_iff (own_key d.self_id) (own_key d.self_id),
    )

    go :
        (r : LsaRecord)
        → get (own_key d.self_id) d.db ≡ some r
        → (body : LsaBody) → r.lsa.body ≡ body
        → Gone c d (drop_adjacency now c r body (record d { links = remove c d.links }, w)).0
    go r e (endpoint info) b =
        removed-Gone c d _ refl (λ adjs (q, h, f). absurd (ground arith))
          (λ adjs (q, h, f). absurd (ground arith))
    go r e (router adjs) b =
        if-cases (λ (x : LsDb × Wire). Gone c d x.0) (ltb (length (without c adjs)) (length adjs)) _
          _ (λ _. stored-Gone c d _ r _ adjs refl e b (own_stored _) refl)
          (λ _. stored-Gone c d _ r _ adjs refl e b (own_stored _) refl)

-- A connection without a link has no adjacency in an anchored database.
pub unknown-Gone : (c : ConnectionId) (d : LsDb) → get c d.links ≡ none → IsAnchored d → Gone c d d
unknown-Gone c d e inv = record {
  no_link = e;
  links_stay = λ i ne. refl;
  no_adjacency = λ adjs a (r, h, b) m p.
      let (l, here, same) = All-get (HasLink d.links) adjs a (inv.own _ r h adjs refl b).1 m in
      ground arith;
  adjacencies_stay = λ adjs h. (adjs, h, λ a m ne. m);
}
