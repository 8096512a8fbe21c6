-- ===== src/LinkState/Spf/Rounds.antt =====
-- The loop of `compute_spf`: it ends, it does not panic, and it settles every node.
use anybus.Common.{
  ℕ, zero, suc, ◌≤◌, ◌<◌, ◌≡◌, refl, sym, ap, subst, ◌⊎◌, inl, inr, List, [], ◌∷◌, length,
  if◌then◌else◌, ◌==◌, nat_eq, nat_beq_iff, arith, Option, none, some, Memᴰ, Bool-cases,
  Option-cases,
}
use anybus.Common.Assoc.{get, insert}
use anybus.Common.Preds.{All}
use anybus.Routing.{NodeId, max_cost, add}
use anybus.LinkState.{Adjacency, Entry, Link}
use anybus.LinkState.Spf.{Spf, Nodes, cost_of, visit, loop, start, all_max, compute, enough, done}
use anybus.LinkState.Spf.Queue.{Sorted}
use anybus.LinkState.Spf.Walks.{
  Walk, HasHop, Linked, Inv, Settled, Queued, Current, Covered, cost_of-insert,
}
use anybus.LinkState.Spf.Measure.{weight, cost_of-all_max, weight-start}
use anybus.LinkState.Spf.Relax.{relax_all_lem}

module _ (links : List Link) (root : NodeId) (nodes : Nodes)
    (near : (adjacencies : List Adjacency)
      → get root nodes ≡ some adjacencies
      → Linked links adjacencies) where
  -- Between two rounds every node is settled or queued.
  pub record Ready (s : Spf) : Type 0 where
    pub inv : Inv links root nodes s
    pub covered : (n : NodeId) → Settled links root nodes s n ⊎ Queued links root nodes s n
    pub sorted : Sorted s.queue

  abbrev VisitedTo : Spf → ℕ → Option Spf → Type 0
  VisitedTo s bound r = (s' : Spf) × (r ≡ some s') × Ready s' × (weight nodes s' < bound)

  -- The covering of the nodes when the head of the queue is taken to be visited.
  popped :
      (s : Spf) (current : Entry) (queue : List Entry) (adjacencies : List Adjacency)
      → s.queue ≡ current ∷ queue
      → get current.node nodes ≡ some adjacencies
      → ((n : NodeId) → Settled links root nodes s n ⊎ Queued links root nodes s n)
      → Covered links root nodes current adjacencies (record s { queue = queue })
  popped s current queue adjs e announced cover n = elim (cover n) [
    | inl settled ↦ inl settled
    | inr m ↦ taken (subst (Memᴰ (record { cost = cost_of s.cost n; node = n })) e m)
  ]
    where
      taken :
          Memᴰ (record { cost = cost_of s.cost n; node = n }) (current ∷ queue)
          → Settled links root nodes (record s { queue = queue }) n
            ⊎ (Queued links root nodes (record s { queue = queue }) n
                ⊎ Current links root nodes current adjs (record s { queue = queue }) n)
      taken (Memᴰ.tail m) = inr (inl m)
      taken (Memᴰ.head h) =
          let same : n ≡ current.node = ap (λ (x : Entry). x.node) h in
          inr (
            inr (
              same,
              ap (λ (x : Entry). x.cost) h,
              λ others b f m. inl (
                  subst (λ (l : List Adjacency). Memᴰ b l)
                    (ground (arith, subst (λ k. get k nodes ≡ some others) same f)) m),
            ))

  -- A visited node without adjacencies is settled.
  lonely :
      (s : Spf) (current : Entry) (queue : List Entry)
      → s.queue ≡ current ∷ queue
      → get current.node nodes ≡ none
      → ((n : NodeId) → Settled links root nodes s n ⊎ Queued links root nodes s n)
      → (n : NodeId)
      → Settled links root nodes (record s { queue = queue }) n
        ⊎ Queued links root nodes (record s { queue = queue }) n
  lonely s current queue e missing cover n = elim (cover n) [
    | inl settled ↦ inl settled
    | inr m ↦ taken (subst (Memᴰ (record { cost = cost_of s.cost n; node = n })) e m)
  ]
    where
      taken :
          Memᴰ (record { cost = cost_of s.cost n; node = n }) (current ∷ queue)
          → Settled links root nodes (record s { queue = queue }) n
            ⊎ Queued links root nodes (record s { queue = queue }) n
      taken (Memᴰ.tail m) = inr m
      taken (Memᴰ.head h) =
          let same : n ≡ current.node = ap (λ (x : Entry). x.node) h in
          inl
            (λ others b f m. absurd (ground (arith, subst (λ k. get k nodes ≡ some others) same f)))

  finished :
      (s : Spf) (current : Entry)
      → Covered links root nodes current [] s
      → (n : NodeId) → Settled links root nodes s n ⊎ Queued links root nodes s n
  finished s current cover n = elim (cover n) [
    | inl settled ↦ inl settled
    | inr (inl queued) ↦ inr queued
    | inr (inr (same, cost, todo)) ↦
        inl (λ adjs b e m. elim (todo adjs b e m) [ inl h ↦ elim h [ ] | inr le ↦ rw cost le ])
  ]

  pop-Inv :
      (s : Spf) (current : Entry) (queue : List Entry)
      → s.queue ≡ current ∷ queue
      → Inv links root nodes s
      → Inv links root nodes (record s { queue = queue })
        × Walk nodes root current.node current.cost
        × HasHop root s.next_hop current.node
  pop-Inv s current queue e inv =
      let walks = subst (All (λ (x : Entry). Walk nodes root x.node x.cost)) e inv.queue_sound in
      let hops = subst (All (λ (x : Entry). HasHop root s.next_hop x.node)) e inv.queue_hops in
      (
        record {
          bounded = inv.bounded;
          root_zero = inv.root_zero;
          sound = inv.sound;
          reached = inv.reached;
          linked = inv.linked;
          queue_sound = walks.1;
          queue_hops = hops.1;
        },
        walks.0,
        hops.0,
      )

  visit_lem :
      (s : Spf) (current : Entry) (queue : List Entry)
      → s.queue ≡ current ∷ queue
      → Ready s
      → VisitedTo s (weight nodes s) (visit links root nodes current (record s { queue = queue }))
  unfolding visit
  visit_lem s current queue e ready =
      let (inv, walk, has) = pop-Inv s current queue e ready.inv in
      let sorted = subst Sorted e ready.sorted in
      elim (Option-cases (get current.node nodes)) [
        | inl missing ↦ (
          record s { queue = queue },
          rw (missing, visit),
          record {
            inv = inv;
            covered = lonely s current queue e missing ready.covered;
            sorted = sorted.1;
          },
          omega (arith, ap length e),
        )
        | inr (adjs, found) ↦
            let (s', eq, r) =
              relax_all_lem links root nodes near current adjs adjs (record s { queue = queue }) inv
                walk has found (λ a m. m) in
            (
              s',
              rw (found, visit) eq,
              record {
                inv = r.inv;
                covered =
                    finished s' current
                      (r.covered (popped s current queue adjs e found ready.covered));
                sorted = r.sorted sorted.1;
              },
              omega (arith, ap length e, r.lighter),
            )
      ]

  -- With fuel above the weight the loop ends, with an empty queue and every node settled.
  pub loop_lem :
      (fuel : ℕ) (queue : List Entry) (s : Spf)
      → s.queue ≡ queue
      → weight nodes s ≤ fuel
      → Ready s
      → (s' : Spf) × (loop fuel links root nodes queue s ≡ done s')
        × Inv links root nodes s'
        × ((n : NodeId) → Settled links root nodes s' n)
  unfolding loop
  loop_lem fuel [] s e le ready = (s, refl, ready.inv, settled)
    where
      settled : (n : NodeId) → Settled links root nodes s n
      settled n = elim (ready.covered n) [
        | inl h ↦ h
        | inr m ↦
            let gone : Memᴰ (record { cost = cost_of s.cost n; node = n }) [] =
              subst (Memᴰ (record { cost = cost_of s.cost n; node = n })) e m in
            elim gone [ ]
      ]
  loop_lem zero (current ∷ queue) s e le ready = absurd (omega (arith, ap length e))
  loop_lem (suc fuel) (current ∷ queue) s e le ready =
      let (s₁, eq, ready₁, lt) = visit_lem s current queue e ready in
      let (s', eq', inv, settled) = loop_lem fuel s₁.queue s₁ refl (omega arith) ready₁ in
      (s', rw (eq, loop) eq', inv, settled)

  start-Ready : Ready (start root nodes)
  unfolding start add
  start-Ready = record {
    inv = record {
      bounded = λ n. ground (arith, at_start n);
      root_zero = ground (arith, at_start root, nat_beq_iff root root);
      sound = sound;
      reached = reached;
      linked = λ n l e. unfold get in cc;
      queue_sound = (Walk.here _ _ refl refl, tt);
      queue_hops = (inl refl, tt);
    };
    covered = covered;
    sorted = (tt, tt);
  }
    where
      at_start :
          (n : NodeId)
          → cost_of (insert root 0 (all_max nodes)) n ≡ (if root == n then 0 else max_cost)
      at_start n = ground (arith, cost_of-insert root n 0 (all_max nodes), cost_of-all_max nodes n)

      sound :
          (n : NodeId)
          → (cost_of (insert root 0 (all_max nodes)) n ≡ max_cost)
            ⊎ Walk nodes root n (cost_of (insert root 0 (all_max nodes)) n)
      sound n = elim (Bool-cases (root == n)) [
        | inl t ↦ inr (Walk.here _ _ (sym ((nat_beq_iff root n).0 t)) (ground (arith, at_start n)))
        | inr f ↦ inl (ground (arith, at_start n))
      ]

      reached :
          (n : NodeId) → (cost_of (insert root 0 (all_max nodes)) n ≡ max_cost) ⊎ HasHop root [] n
      reached n = elim (Bool-cases (root == n)) [
        | inl t ↦ inr (inl (sym ((nat_beq_iff root n).0 t)))
        | inr f ↦ inl (ground (arith, at_start n))
      ]

      covered :
          (n : NodeId)
          → Settled links root nodes (start root nodes) n
            ⊎ Queued links root nodes (start root nodes) n
      covered n = elim (Bool-cases (root == n)) [
        | inl t ↦ inr (Memᴰ.head (ground (arith, at_start n, nat_beq_iff root n)))
        | inr f ↦ inl (λ adjs a e m. ground (arith, at_start n, at_start a.peer_id))
      ]

  pub compute_done :
      (s : Spf) × (compute links root nodes ≡ done s)
      × Inv links root nodes s
      × ((n : NodeId) → Settled links root nodes s n)
  unfolding compute
  compute_done =
      loop_lem (enough nodes) _ (start root nodes) refl (weight-start root nodes) start-Ready
