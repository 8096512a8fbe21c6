-- ===== src/LinkState/Db/Anchor.antt =====
-- The invariant of the database under which `compute_spf` does not panic: whatever our own router
-- LSA announces has a link.
use anybus.Common.{
  ℕ, ◌≡◌, refl, sym, subst, ◌⊎◌, inl, inr, true, false, List, [], ◌∷◌, some, Memᴰ, ◌==◌, nat_eq,
  nat_beq_iff, arith, Bool-cases,
}
use anybus.Common.Assoc.{HashMap, get, get-insert, values}
use anybus.Common.Preds.{All}
use anybus.Common.Unique.{UniqueKeys, get-mem, find-values}
use anybus.Routing.{NodeId, ConnectionId}
use anybus.LinkState.{
  LsaKey, key_eq, key_beq_iff, LsaBody, LsaRecord, router, endpoint, Adjacency, Link,
}
use anybus.LinkState.Spf.{Nodes}
use anybus.LinkState.Spf.Walks.{Linked}
use anybus.LinkState.Spf.Shortest.{IsShortest, compute-IsShortest}
use anybus.LinkState.Db.{LsDb, own_key, new}
use anybus.LinkState.Db.Paths.{collect, compute_spf, add_node}

-- The connection of each adjacency is that of a link to the same peer.
abbrev pub HasLink : HashMap ConnectionId Link → Adjacency → Type 0
HasLink links a = (l : Link) × (get a.connection_id links ≡ some l) × (l.peer_id ≡ a.peer_id)

abbrev pub Anchored : HashMap ConnectionId Link → List Adjacency → Type 0
Anchored links = All (HasLink links)

-- A record that may stand under its key: a router LSA of our own is under our own key, and anchored.
abbrev pub IsOwnRouter : NodeId → HashMap ConnectionId Link → LsaKey → LsaRecord → Type 0
IsOwnRouter self_id links k r =
    (adjacencies : List Adjacency)
    → k.origin ≡ self_id
    → r.lsa.body ≡ router adjacencies
    → (k ≡ own_key self_id) × Anchored links adjacencies

pub record DbIsAnchored (self_id : NodeId) (links : HashMap ConnectionId Link)
    (db : HashMap LsaKey LsaRecord) : Type 0 where
  pub unique : UniqueKeys db
  pub own : (k : LsaKey) (r : LsaRecord) → get k db ≡ some r → IsOwnRouter self_id links k r

abbrev pub IsAnchored : LsDb → Type 0
IsAnchored d = DbIsAnchored d.self_id d.links d.db

pub new-IsAnchored : (self_id : NodeId) (now : ℕ) → IsAnchored (new self_id now)
unfolding new
new-IsAnchored self_id now = record {
  unique = (unfold get in refl, tt);
  own = λ k r h adjs o b. unfold get in go k r (Bool-cases (own_key self_id == k)) h adjs b;
}
  where
    go :
        (k : LsaKey) (r : LsaRecord)
        → ((own_key self_id == k) ≡ true) ⊎ ((own_key self_id == k) ≡ false)
        → get k (new self_id now).db ≡ some r
        → (adjs : List Adjacency) → r.lsa.body ≡ router adjs
        → (k ≡ own_key self_id) × Anchored [] adjs
    go k r (inl t) h adjs b =
        let none_yet : ◌≡◌ {A = List Adjacency} [] adjs = unfold get in ground arith in
        (sym ((key_beq_iff _ _).0 t), subst (Anchored []) none_yet tt)
    go k r (inr f) h adjs b = absurd (unfold get in ground arith)

-- Where the adjacencies of a node come from.
pub collect_lem :
    (n : NodeId) (adjs : List Adjacency) (db : HashMap LsaKey LsaRecord) (nodes : Nodes)
    → get n (collect db nodes) ≡ some adjs
    → ((k : LsaKey) × (r : LsaRecord) × Memᴰ (k, r) db
        × (k.origin ≡ n)
        × (r.lsa.body ≡ router adjs))
      ⊎ (get n nodes ≡ some adjs)
unfolding collect add_node
collect_lem n adjs [] nodes h = inr h
collect_lem n adjs ((k, r) ∷ db) nodes h =
    elim (collect_lem n adjs db (add_node k.origin r.lsa.body nodes) h) [
      | inl (j, q, m, o, b) ↦ inl (j, q, Memᴰ.tail m, o, b)
      | inr before ↦ at_body r.lsa.body refl before
    ]
  where
    at_body :
        (body : LsaBody)
        → r.lsa.body ≡ body
        → get n (add_node k.origin body nodes) ≡ some adjs
        → ((j : LsaKey) × (q : LsaRecord) × Memᴰ (j, q) ((k, r) ∷ db)
            × (j.origin ≡ n)
            × (q.lsa.body ≡ router adjs))
          ⊎ (get n nodes ≡ some adjs)
    at_body (endpoint info) e g = inr g
    at_body (router others) e g = elim (Bool-cases (k.origin == n)) [
      | inl t ↦ inl (
        k,
        r,
        Memᴰ.head refl,
        (nat_beq_iff k.origin n).0 t,
        ground (arith, get-insert k.origin n others nodes),
      )
      | inr f ↦ inr (ground (arith, get-insert k.origin n others nodes))
    ]

Linked-of_Anchored :
    (links : HashMap ConnectionId Link) (adjs : List Adjacency)
    → Anchored links adjs
    → Linked (values links) adjs
Linked-of_Anchored links [] h = tt
Linked-of_Anchored links (a ∷ adjs) ((l, e, p), rest) = (
  find-values (λ (link : Link). link.peer_id == a.peer_id) a.connection_id l links e
      ((nat_beq_iff _ _).1 p),
  Linked-of_Anchored links adjs rest,
)

pub near_of_IsAnchored :
    (d : LsDb)
    → IsAnchored d
    → (adjs : List Adjacency) → get d.self_id (collect d.db []) ≡ some adjs
    → Linked (values d.links) adjs
near_of_IsAnchored d inv adjs h = elim (collect_lem d.self_id adjs d.db [] h) [
  | inl (k, r, m, o, b) ↦
      Linked-of_Anchored d.links adjs (inv.own k r (get-mem k r d.db inv.unique m) adjs o b).1
  | inr none_yet ↦ absurd (unfold get in ground arith)
]

-- `compute_spf` succeeds, changes the three path tables only, and finds the shortest paths.
pub record Computed (d d' : LsDb) : Type 0 where
  pub kept : d' ≡ record d { next_hop = d'.next_hop; cost = d'.cost; parent = d'.parent }
  pub shortest : IsShortest d.self_id (collect d.db []) d'.cost

pub compute_spf_lem :
    (d : LsDb) → IsAnchored d → (d' : LsDb) × (compute_spf d.self_id d ≡ some d') × Computed d d'
unfolding compute_spf
compute_spf_lem d inv =
    let (s, eq, shortest, routed) =
      compute-IsShortest (values d.links) d.self_id (collect d.db []) (near_of_IsAnchored d inv) in
    (
      record d { next_hop = s.next_hop; cost = s.cost; parent = s.parent },
      rw (eq, compute_spf),
      record { kept = refl; shortest = shortest },
    )
