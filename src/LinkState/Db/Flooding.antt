-- ===== src/LinkState/Db/Flooding.antt =====
-- What `flood_all_neighbors` of db.rs and `Link::send_lsa` of linkstate.rs let out.
use anybus.Common.{
  ◌≡◌, ◌≢◌, refl, sym, subst, true, false, not, ◌||◌, List, [], ◌∷◌, Option, none, some, Memᴰ,
  arith, inl, inr, Bool-cases, nat_eq, nat_beq_iff, ◌==◌, if-cases, is_empty, map,
}
use anybus.Common.Assoc.{HashMap, get}
use anybus.Common.Preds.{All, All-retain}
use anybus.Routing.{NodeId, ConnectionId, RealmList, contains, intersection}
use anybus.LinkState.{Link, Lsa, LsaBody, router, endpoint, Adjacency, NodeMessage}
use anybus.LinkState.Wire.{
  Wire, Delivery, to_client, to_peer, to_caller, TrySend, delivered, full, closed, deliver,
  try_send_node,
}
use anybus.LinkState.Wire.Added.{Adds, Adds-refl, Adds-trans, deliver-Adds, All-mem, All-weaken}
use anybus.LinkState.Links.{
  SendResult, restrict, visible, send_result, transmit, send_body, send_lsa,
}
use anybus.LinkState.Db.{
  LsDb, Pending, note_sent, skips, flood_link, flood_links, flood_all_neighbors,
}

-- All that a body says is within the realms.
abbrev pub InRealms : RealmList → LsaBody → Type 0
InRealms realms (router adjacencies) =
    All (λ (a : Adjacency). All (λ r. contains realms r ≡ true) a.realms) adjacencies
InRealms realms (endpoint info) = contains realms info.realm ≡ true

-- The version of an LSA that a link lets through.
abbrev pub IsShown : Link → Lsa → NodeMessage → Type 0
IsShown link lsa m =
    (out : Lsa) × (m ≡ NodeMessage.lsa out)
    × (out.key ≡ lsa.key)
    × (out.seq ≡ lsa.seq)
    × (out.dead ≡ lsa.dead)
    × InRealms link.realms out.body

intersection-All :
    (realms other : RealmList) → All (λ r. contains other r ≡ true) (intersection realms other)
unfolding intersection
intersection-All [] other = tt
intersection-All (r ∷ realms) other = elim (Bool-cases (contains other r)) [
  | inl t ↦ rw t (t, intersection-All realms other)
  | inr f ↦ rw f (intersection-All realms other)
]

visible-InRealms :
    (link : Link) (adjs : List Adjacency) → InRealms link.realms (router (visible link adjs))
unfolding visible
visible-InRealms link adjs =
    All-retain _ (λ (adj : Adjacency). not (is_empty adj.realms)) (map (restrict link) adjs)
      (each adjs)
  where
    each :
        (xs : List Adjacency)
        → All
            (λ (a : Adjacency). All (λ r. contains link.realms r ≡ true) a.realms)
            (map (restrict link) xs)
    each [] = tt
    each (x ∷ xs) = (intersection-All x.realms link.realms, each xs)

module _ (P : Delivery → Type 0) (link : Link) (lsa : Lsa) where
  transmit-Adds :
      (out : Lsa) (w : Wire)
      → P (to_peer link.tx (NodeMessage.lsa out))
      → Adds P w (transmit link out w).0
  unfolding transmit try_send_node
  transmit-Adds out w p = go (w.answer w.sent link.tx)
    where
      go :
          (r : TrySend)
          → Adds P w (send_result (deliver (to_peer link.tx (NodeMessage.lsa out)) r w, r)).0
      go delivered = unfold send_result in deliver-Adds P _ delivered w p
      go full = unfold send_result in deliver-Adds P _ full w p
      go closed = unfold send_result in deliver-Adds P _ closed w p

  pub send_lsa-Adds :
      (w : Wire)
      → ((m : NodeMessage) → IsShown link lsa m → P (to_peer link.tx m))
      → Adds P w (send_lsa link lsa w).0
  unfolding send_lsa
  send_lsa-Adds w h = go lsa.body refl
    where
      go : (b : LsaBody) → lsa.body ≡ b → Adds P w (send_body link lsa b w).0
      go (router adjs) e =
          unfold send_body in
          if-cases (λ (x : Wire × SendResult). Adds P w x.0) (is_empty (visible link adjs)) _ _
            (λ _. Adds-refl P w)
            (λ _.
              transmit-Adds (record lsa { body = router (visible link adjs) }) w
                (h _ (
                  record lsa { body = router (visible link adjs) },
                  refl,
                  refl,
                  refl,
                  refl,
                  visible-InRealms link adjs,
                )))
      go (endpoint info) e =
          unfold send_body in
          if-cases (λ (x : Wire × SendResult). Adds P w x.0) (contains link.realms info.realm) _ _
            (λ within. transmit-Adds lsa w (
              h (NodeMessage.lsa lsa)
                (lsa, refl, refl, refl, refl, subst (InRealms link.realms) (sym e) within)))
            (λ _. Adds-refl P w)

-- Over a link an LSA may go that is not the connection it came in on, nor leads to its origin or to
-- the next hop towards its origin.
pub record IsOnward (lsa : Lsa) (in_connection_id : Option ConnectionId)
    (next_hop : HashMap NodeId Link) (c : ConnectionId) (link : Link) : Type 0 where
  pub not_back : in_connection_id ≢ some c
  pub not_origin : lsa.key.origin ≢ link.peer_id
  pub not_hop : (hop : Link) → get lsa.key.origin next_hop ≡ some hop → hop.peer_id ≢ link.peer_id

skips-IsOnward :
    (lsa : Lsa) (i : Option ConnectionId) (next_hop : HashMap NodeId Link) (c : ConnectionId)
    (link : Link)
    → skips lsa i next_hop c link ≡ false
    → IsOnward lsa i next_hop c link
unfolding skips
skips-IsOnward lsa i next_hop c link e = record {
  not_back = λ p. same_conn (subst (λ j. skips lsa j next_hop c link ≡ false) p e);
  not_origin = λ p. ground (arith, nat_beq_iff lsa.key.origin link.peer_id, p, e);
  not_hop = λ hop found q. to_hop hop q (
      subst
        (λ o.
          (◌||◌ (elim i [ none ↦ false | some x ↦ c == x ])
            (lsa.key.origin == link.peer_id
              || elim o [ none ↦ false | some from_hop ↦ from_hop.peer_id == link.peer_id ]))
          ≡ false)
        found e);
}
  where
    same_conn : skips lsa (some c) next_hop c link ≡ false → ⊥
    same_conn h = ground (arith, nat_beq_iff c c)

    to_hop :
        (hop : Link)
        → hop.peer_id ≡ link.peer_id
        → (◌||◌
            (elim i [ none ↦ false | some x ↦ c == x ])
            (lsa.key.origin == link.peer_id || hop.peer_id == link.peer_id))
          ≡ false
        → ⊥
    to_hop hop q h = ground (arith, nat_beq_iff hop.peer_id link.peer_id)

-- What flooding may deliver.
abbrev pub IsFlooded : LsDb → Lsa → Option ConnectionId → Delivery → Type 0
IsFlooded d lsa i (to_peer tx m) =
    (c : ConnectionId) × (link : Link) × Memᴰ (c, link) d.links
    × IsOnward lsa i d.next_hop c link
    × (tx ≡ link.tx)
    × IsShown link lsa m
IsFlooded d lsa i (to_client tx m) = ⊥
IsFlooded d lsa i (to_caller tx r) = ⊥

module _ (P : Delivery → Type 0) (lsa : Lsa) (i : Option ConnectionId)
    (next_hop : HashMap NodeId Link) where
  note_sent-wire :
      (link : Link) (pending : Pending) (x : Wire × SendResult)
      → (note_sent link lsa pending x).1 ≡ x.0
  unfolding note_sent
  note_sent-wire link pending (w, SendResult.sent) = refl
  note_sent-wire link pending (w, SendResult.try_send_error e) = refl
  note_sent-wire link pending (w, SendResult.realm_mismatch) = refl

  flood_link-Adds :
      (c : ConnectionId) (link : Link) (pending : Pending) (w : Wire)
      → (IsOnward lsa i next_hop c link
          → (m : NodeMessage) → IsShown link lsa m
          → P (to_peer link.tx m))
      → Adds P w (flood_link lsa i next_hop c link (pending, w)).1
  unfolding flood_link
  flood_link-Adds c link pending w h =
      if-cases (λ (x : Pending × Wire). Adds P w x.1) (skips lsa i next_hop c link) _ _
        (λ _. Adds-refl P w)
        (λ on.
          subst (Adds P w) (sym (note_sent-wire link pending (send_lsa link lsa w)))
            (send_lsa-Adds P link lsa w (h (skips-IsOnward lsa i next_hop c link on))))

  flood_links-Adds :
      (links : HashMap ConnectionId Link) (pw : Pending × Wire)
      → All
          (λ (cl : ConnectionId × Link).
            IsOnward lsa i next_hop cl.0 cl.1
            → (m : NodeMessage) → IsShown cl.1 lsa m
            → P (to_peer cl.1.tx m))
          links
      → Adds P pw.1 (flood_links lsa i next_hop links pw).1
  unfolding flood_links
  flood_links-Adds [] pw h = Adds-refl P pw.1
  flood_links-Adds ((c, link) ∷ links) pw h =
      let next = flood_link lsa i next_hop c link pw in
      Adds-trans P pw.1 next.1 (flood_links lsa i next_hop links next).1
        (flood_link-Adds c link pw.0 pw.1 h.0) (flood_links-Adds links next h.1)

-- Whatever the channels answer, flooding delivers an LSA only to peers of our links: not over the
-- connection that it came in on, nor to its origin, nor to the next hop towards its origin; and what
-- a link lets through has the key, the version and the liveness of the LSA and is within its realms.
pub flood_all_neighbors-Adds :
    (lsa : Lsa) (i : Option ConnectionId) (d : LsDb) (w : Wire)
    → Adds (IsFlooded d lsa i) w (flood_all_neighbors lsa i (d, w)).1
unfolding flood_all_neighbors
flood_all_neighbors-Adds lsa i d w =
    flood_links-Adds (IsFlooded d lsa i) lsa i d.next_hop d.links (d.pending_tx, w)
      (All-weaken _ _ _
        (λ (cl : ConnectionId × Link) m. λ on. λ out. λ shown. (cl.0, cl.1, m, on, refl, shown))
        (All-mem d.links))
