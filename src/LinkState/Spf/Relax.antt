-- ===== src/LinkState/Spf/Relax.antt =====
-- One relaxation and one visit of `compute_spf`: no panic, the invariant, a smaller weight.
use anybus.Common.{
  ◌≤◌, ◌<◌, ◌≡◌, refl, sym, subst, ◌⊎◌, inl, inr, List, [], ◌∷◌, ◌==◌, nat_eq, nat_beq_iff, arith,
  Option, some, Memᴰ, Bool-cases,
}
use anybus.Common.Assoc.{HashMap, get, insert, get-insert}
use anybus.Common.Preds.{All-get, find-mem}
use anybus.Routing.{NodeId, add}
use anybus.LinkState.{Adjacency, Entry, Link, better}
use anybus.LinkState.Spf.{
  Spf, Nodes, cost_of, alternative, improve, dequeue, hop, relax, relax_all, peers,
}
use anybus.LinkState.Spf.Queue.{
  length-enqueue, length-dequeue-le, Sorted, enqueue-Sorted, dequeue-Sorted,
}
use anybus.LinkState.Spf.Walks.{Walk, HasHop, Linked, Inv, Covered, better_lt, not_better_le}
use anybus.LinkState.Spf.Improve.{improve-Inv, improve-Covered, cost_after_le, cost_after_peer}
use anybus.LinkState.Spf.Measure.{weight, total-lt, mem-peers}

module _ (links : List Link) (root : NodeId) (nodes : Nodes)
    (near : (adjacencies : List Adjacency)
      → get root nodes ≡ some adjacencies
      → Linked links adjacencies) where
  -- What a new next hop for `n` keeps.
  pub record Hopped (s : Spf) (n : NodeId) (next_hop : HashMap NodeId Link) : Type 0 where
    pub grow : (m : NodeId) → HasHop root s.next_hop m → HasHop root next_hop m
    pub new : HasHop root next_hop n
    pub linked : (m : NodeId) (l : Link) → get m next_hop ≡ some l → Memᴰ l links

  insert-Hopped :
      (s : Spf) (n : NodeId) (l : Link)
      → Inv links root nodes s
      → Memᴰ l links
      → Hopped s n (insert n l s.next_hop)
  insert-Hopped s n l inv known = record {
    grow = λ m h. grow_at m h;
    new = inr (l, ground (arith, get-insert n n l s.next_hop, nat_beq_iff n n));
    linked = λ m k e. linked_at m k e;
  }
    where
      grow_at : (m : NodeId) → HasHop root s.next_hop m → HasHop root (insert n l s.next_hop) m
      grow_at m (inl r) = inl r
      grow_at m (inr (k, e)) = elim (Bool-cases (n == m)) [
        | inl t ↦ inr (l, ground (arith, get-insert n m l s.next_hop))
        | inr f ↦ inr (k, ground (arith, get-insert n m l s.next_hop))
      ]

      linked_at : (m : NodeId) (k : Link) → get m (insert n l s.next_hop) ≡ some k → Memᴰ k links
      linked_at m k e = elim (Bool-cases (n == m)) [
        | inl t ↦
            let same : l ≡ k = ground (arith, get-insert n m l s.next_hop) in
            subst (λ (z : Link). Memᴰ z links) same known
        | inr f ↦ inv.linked m k (ground (arith, get-insert n m l s.next_hop))
      ]

  -- The `unwrap` of the next hop does not panic.
  hop_lem :
      (s : Spf) (u : NodeId) (adjacencies : List Adjacency) (a : Adjacency)
      → Inv links root nodes s
      → HasHop root s.next_hop u
      → get u nodes ≡ some adjacencies
      → Memᴰ a adjacencies
      → (h : HashMap NodeId Link) × (hop links root u a.peer_id s.next_hop ≡ some h)
        × Hopped s a.peer_id h
  unfolding hop
  hop_lem s u adjs a inv has e m = elim (Bool-cases (u == root)) [
    | inl t ↦
        let at_root : get root nodes ≡ some adjs =
          subst (λ k. get k nodes ≡ some adjs) ((nat_beq_iff u root).0 t) e in
        let (l, found) = All-get _ adjs a (near adjs at_root) m in
        (
          insert a.peer_id l s.next_hop,
          ground arith,
          insert-Hopped s a.peer_id l inv (find-mem _ links l found),
        )
    | inr f ↦ elim has [
      | inl r ↦ absurd (ground (arith, nat_beq_iff u root))
      | inr (l, known) ↦ (
        insert a.peer_id l s.next_hop,
        ground arith,
        insert-Hopped s a.peer_id l inv (inv.linked u l known),
      )
    ]
  ]

  -- From `s` to `s'`, with `before` and `rest` the adjacencies to relax before and after.
  pub record Relaxed (current : Entry) (before rest : List Adjacency) (s s' : Spf) : Type 0 where
    pub inv : Inv links root nodes s'
    pub covered :
        Covered links root nodes current before s → Covered links root nodes current rest s'
    pub hops : (n : NodeId) → HasHop root s.next_hop n → HasHop root s'.next_hop n
    pub lighter : weight nodes s' ≤ weight nodes s
    pub sorted : Sorted s.queue → Sorted s'.queue

  unchanged_Relaxed :
      (current : Entry) (a : Adjacency) (rest : List Adjacency) (s : Spf)
      → Inv links root nodes s
      → cost_of s.cost a.peer_id ≤ add current.cost a.cost
      → Relaxed current (a ∷ rest) rest s s
  unchanged_Relaxed current a rest s inv le = record {
    inv = inv;
    covered = covered;
    hops = λ n h. h;
    lighter = omega arith;
    sorted = λ h. h;
  }
    where
      sooner :
          (b : Adjacency)
          → Memᴰ b (a ∷ rest) ⊎ (cost_of s.cost b.peer_id ≤ add current.cost b.cost)
          → Memᴰ b rest ⊎ (cost_of s.cost b.peer_id ≤ add current.cost b.cost)
      sooner b (inl (Memᴰ.head h)) =
          inr (
            subst (λ (z : Adjacency). cost_of s.cost z.peer_id ≤ add current.cost z.cost) (sym h)
              le)
      sooner b (inl (Memᴰ.tail m)) = inl m
      sooner b (inr k) = inr k

      covered :
          Covered links root nodes current (a ∷ rest) s → Covered links root nodes current rest s
      covered cover n = elim (cover n) [
        | inl settled ↦ inl settled
        | inr (inl queued) ↦ inr (inl queued)
        | inr (inr (same, cost, todo)) ↦
            inr (inr (same, cost, λ adjs b e m. sooner b (todo adjs b e m)))
      ]

  improved_Relaxed :
      (current : Entry) (a : Adjacency) (rest adjacencies : List Adjacency) (s : Spf)
      (h : HashMap NodeId Link)
      → Inv links root nodes s
      → Walk nodes root current.node current.cost
      → get current.node nodes ≡ some adjacencies
      → Memᴰ a adjacencies
      → add current.cost a.cost < cost_of s.cost a.peer_id
      → Hopped s a.peer_id h
      → Relaxed current (a ∷ rest) rest s (improve (alternative current a) current.node h s)
  unfolding improve
  improved_Relaxed current a rest adjs s h inv walk e m lower hopped =
      let falls = cost_after_le links root nodes s inv current a adjs h lower walk e m in
      let peer = cost_after_peer links root nodes s inv current a adjs h lower walk e m in
      let less =
        total-lt s.cost (insert a.peer_id (add current.cost a.cost) s.cost) falls a.peer_id
          (peers nodes) (omega (arith, peer)) (mem-peers current.node nodes adjs a e m) in
      record {
        inv =
            improve-Inv links root nodes s inv current a adjs h lower walk e m hopped.grow
              hopped.new hopped.linked;
        covered = improve-Covered links root nodes s inv current a adjs h lower walk e m rest;
        hops = hopped.grow;
        lighter = omega (
          arith,
          less,
          length-enqueue (alternative current a) (dequeue a.peer_id s.queue),
          length-dequeue-le a.peer_id s.queue,
        );
        sorted = λ q. enqueue-Sorted _ _ (dequeue-Sorted a.peer_id s.queue q);
      }

  abbrev pub RelaxedTo : Entry → List Adjacency → List Adjacency → Spf → Option Spf → Type 0
  RelaxedTo current before rest s r = (s' : Spf) × (r ≡ some s') × Relaxed current before rest s s'

  relax_lem :
      (current : Entry) (a : Adjacency) (rest adjacencies : List Adjacency) (s : Spf)
      → Inv links root nodes s
      → Walk nodes root current.node current.cost
      → HasHop root s.next_hop current.node
      → get current.node nodes ≡ some adjacencies
      → Memᴰ a adjacencies
      → RelaxedTo current (a ∷ rest) rest s (relax links root current a s)
  unfolding relax
  relax_lem current a rest adjs s inv walk has e m =
      elim (Bool-cases (
        better (alternative current a)
          (record { cost = cost_of s.cost a.peer_id; node = a.peer_id }))) [
            | inl t ↦
                let (h, found, hopped) = hop_lem s current.node adjs a inv has e m in
                (
                  improve (alternative current a) current.node h s,
                  ground arith,
                  improved_Relaxed current a rest adjs s h inv walk e m (better_lt current a _ t)
                      hopped,
                )
            | inr f ↦ (
              s,
              ground arith,
              unchanged_Relaxed current a rest s inv (not_better_le current a _ f),
            )
          ]

  pub relax_all_lem :
      (current : Entry) (rest adjacencies : List Adjacency) (s : Spf)
      → Inv links root nodes s
      → Walk nodes root current.node current.cost
      → HasHop root s.next_hop current.node
      → get current.node nodes ≡ some adjacencies
      → ((a : Adjacency) → Memᴰ a rest → Memᴰ a adjacencies)
      → RelaxedTo current rest [] s (relax_all links root current rest s)
  unfolding relax_all
  relax_all_lem current [] adjs s inv walk has e sub = (
    s,
    refl,
    record { inv = inv; covered = λ c. c; hops = λ n h. h; lighter = omega arith; sorted = λ h. h },
  )
  relax_all_lem current (a ∷ rest) adjs s inv walk has e sub =
      let (s₁, eq₁, r₁) = relax_lem current a rest adjs s inv walk has e (sub a (Memᴰ.head refl)) in
      let (s₂, eq₂, r₂) =
        relax_all_lem current rest adjs s₁ r₁.inv walk (r₁.hops current.node has) e
          (λ b m. sub b (Memᴰ.tail m)) in
      (
        s₂,
        rw (eq₁, relax_all) eq₂,
        record {
          inv = r₂.inv;
          covered = λ c. r₂.covered (r₁.covered c);
          hops = λ n h. r₂.hops n (r₁.hops n h);
          lighter = omega (arith, r₁.lighter, r₂.lighter);
          sorted = λ h. r₂.sorted (r₁.sorted h);
        },
      )
