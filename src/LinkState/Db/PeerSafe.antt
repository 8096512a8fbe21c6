-- ===== src/LinkState/Db/PeerSafe.antt =====
-- Peers that come, `add_peer` of db.rs: the invariant is kept.
use anybus.Common.{
  ℕ, ◌≡◌, refl, subst, inl, inr, List, [], ◌∷◌, push, none, some, nat_eq, nat_beq_iff, arith,
  Option-cases,
}
use anybus.Common.Assoc.{HashMap, get, insert, get-insert}
use anybus.Common.Preds.{All-push}
use anybus.Routing.{ConnectionId}
use anybus.LinkState.{Lsa, key_eq, LsaBody, LsaRecord, router, endpoint, Adjacency, Link}
use anybus.LinkState.Wire.{Wire}
use anybus.LinkState.Db.{LsDb, flood_all_neighbors, flood_peer, request_rebuild, own_key}
use anybus.LinkState.Db.Anchor.{DbIsAnchored, IsAnchored, IsOwnRouter, Anchored, HasLink}
use anybus.LinkState.Db.Keeps.{insert-DbIsAnchored, endpoint-IsOwnRouter}
use anybus.LinkState.Db.RemoteSafe.{request_rebuild-IsAnchored, flood-IsAnchored}
use anybus.LinkState.Db.Peers.{
  add_peer, connect, push_adjacency, root_record, adjacency_of, with_adjacencies,
}

-- More links do no harm, if the new one has a connection of its own.
Anchored-insert :
    (c : ConnectionId) (link : Link) (links : HashMap ConnectionId Link) (adjs : List Adjacency)
    → get c links ≡ none
    → Anchored links adjs
    → Anchored (insert c link links) adjs
Anchored-insert c link links [] fresh h = tt
Anchored-insert c link links (a ∷ adjs) fresh ((l, e, p), rest) = (
  (l, ground (arith, get-insert c a.connection_id link links, nat_beq_iff c a.connection_id), p),
  Anchored-insert c link links adjs fresh rest,
)

links-insert :
    (d : LsDb) (c : ConnectionId) (link : Link)
    → get c d.links ≡ none
    → IsAnchored d
    → DbIsAnchored d.self_id (insert c link d.links) d.db
links-insert d c link fresh inv = record {
  unique = inv.unique;
  own = λ k r h adjs o b.
      let (key, anchored) = inv.own k r h adjs o b in
      (key, Anchored-insert c link d.links adjs fresh anchored);
}

root-Anchored :
    (now : ℕ) (d : LsDb) (adjs : List Adjacency)
    → IsAnchored d
    → (root_record now d).lsa.body ≡ router adjs
    → Anchored d.links adjs
unfolding root_record
root-Anchored now d adjs inv b = elim (Option-cases (get (own_key d.self_id) d.db)) [
  | inl e ↦
      let at_empty : router [] ≡ router adjs = rw (e, root_record) at b in
      let nothing : ◌≡◌ {A = List Adjacency} [] adjs = ground arith in
      subst (Anchored d.links) nothing tt
  | inr (r, e) ↦ (inv.own (own_key d.self_id) r e adjs refl (rw (e, root_record) at b)).1
]

flood_peer-IsAnchored :
    (c : ConnectionId) (dw : LsDb × Wire) → IsAnchored dw.0 → IsAnchored (flood_peer c dw).0
unfolding flood_peer
flood_peer-IsAnchored c (d, w) inv = elim (Option-cases (get c d.links)) [
  | inl e ↦ rw (e, flood_peer) inv
  | inr (link, e) ↦ rw (e, flood_peer) inv
]

connect-IsAnchored :
    (now : ℕ) (link : Link) (w : Wire) (d : LsDb) (lsa : Lsa)
    → DbIsAnchored d.self_id (insert link.connection_id link d.links) d.db
    → IsAnchored (connect now link w (d, some lsa)).0
unfolding connect
connect-IsAnchored now link w d lsa wide =
    let c = link.connection_id in
    let dw : LsDb × Wire = (request_rebuild now (record d { links = insert c link d.links }), w) in
    flood_peer-IsAnchored c (flood_all_neighbors lsa (some c) dw) (
      flood-IsAnchored lsa (some c) dw
        (request_rebuild-IsAnchored now (record d { links = insert c link d.links }) wide))

-- Our router LSA with the adjacency of a new link.
pushed-IsOwnRouter :
    (now : ℕ) (link : Link) (d : LsDb) (r : LsaRecord) (adjs : List Adjacency)
    → get link.connection_id d.links ≡ none
    → Anchored d.links adjs
    → IsOwnRouter d.self_id
        (insert link.connection_id link d.links)
        (own_key d.self_id)
        (with_adjacencies now r (push adjs (adjacency_of link)))
pushed-IsOwnRouter now link d r adjs fresh anchored others o b =
    let c = link.connection_id in
    let wide = insert c link d.links in
    let same : push adjs (adjacency_of link) ≡ others = ground arith in
    (
      refl,
      subst (Anchored wide) same (
          All-push (HasLink wide) adjs (adjacency_of link)
            (Anchored-insert c link d.links adjs fresh anchored)
            (link, ground (arith, get-insert c c link d.links, nat_beq_iff c c), refl)),
    )

-- If the database is anchored and the connection has no link yet, a peer that is added on it
-- leaves the database anchored.
pub add_peer-IsAnchored :
    (now : ℕ) (link : Link) (dw : LsDb × Wire)
    → get link.connection_id dw.0.links ≡ none
    → IsAnchored dw.0
    → IsAnchored (add_peer now link dw).0
unfolding add_peer
add_peer-IsAnchored now link (d, w) fresh inv =
    go (root_record now d) (root_record now d).lsa.body refl refl
  where
    go :
        (r : LsaRecord) (body : LsaBody)
        → (root_record now d).lsa.body ≡ body
        → r.lsa.body ≡ body
        → IsAnchored (connect now link w (push_adjacency now (adjacency_of link) r body d)).0
    go r (endpoint info) b e =
        insert-DbIsAnchored (own_key d.self_id) r inv
          (endpoint-IsOwnRouter d.self_id d.links (own_key d.self_id) r e)
    go r (router adjs) b e =
        let r' = with_adjacencies now r (push adjs (adjacency_of link)) in
        connect-IsAnchored now link w (record d { db = insert (own_key d.self_id) r' d.db }) r'.lsa
          (insert-DbIsAnchored (own_key d.self_id) r'
            (links-insert d link.connection_id link fresh inv)
            (pushed-IsOwnRouter now link d r adjs fresh (root-Anchored now d adjs inv b)))
