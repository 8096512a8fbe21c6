-- ===== src/LinkState/Spf/Improve.antt =====
-- One improvement of `compute_spf`: it keeps the invariant, and every node stays covered.
use anybus.Common.{
  ◌≤◌, ◌<◌, ◌≡◌, ◌≢◌, refl, sym, ◌∙◌, subst, ◌⊎◌, inl, inr, List, [], ◌∷◌, if◌then◌else◌, ◌==◌,
  nat_eq, nat_beq_iff, arith, some, Memᴰ, Bool-cases,
}
use anybus.Common.Assoc.{HashMap, get}
use anybus.Common.Preds.{All}
use anybus.Routing.{NodeId, max_cost, add}
use anybus.LinkState.{Adjacency, Entry, Link}
use anybus.LinkState.Spf.{Spf, Nodes, cost_of, alternative, improve}
use anybus.LinkState.Spf.Queue.{
  mem-enqueue_self, mem-enqueue, mem-dequeue, All-enqueue, All-dequeue,
}
use anybus.LinkState.Spf.Walks.{
  Walk, HasHop, Inv, Settled, Queued, Current, Covered, cost_of-insert,
}

module _ (links : List Link) (root : NodeId) (nodes : Nodes) (s : Spf)
    (inv : Inv links root nodes s) (current : Entry) (a : Adjacency) (adjacencies : List Adjacency)
    (next_hop : HashMap NodeId Link) (lower : add current.cost a.cost < cost_of s.cost a.peer_id)
    (walk : Walk nodes root current.node current.cost)
    (announced : get current.node nodes ≡ some adjacencies) (member : Memᴰ a adjacencies) where
  abbrev pub after : Spf
  after = improve (alternative current a) current.node next_hop s

  cost_after :
      (n : NodeId)
      → cost_of after.cost n
        ≡ (if a.peer_id == n then add current.cost a.cost else cost_of s.cost n)
  unfolding improve
  cost_after n = cost_of-insert a.peer_id n (add current.cost a.cost) s.cost

  pub cost_after_le : (n : NodeId) → cost_of after.cost n ≤ cost_of s.cost n
  cost_after_le n = ground (arith, cost_after n, nat_beq_iff a.peer_id n)

  pub cost_after_peer : cost_of after.cost a.peer_id ≡ add current.cost a.cost
  cost_after_peer = ground (arith, cost_after a.peer_id, nat_beq_iff a.peer_id a.peer_id)

  cost_after_ne : (n : NodeId) → n ≢ a.peer_id → cost_of after.cost n ≡ cost_of s.cost n
  cost_after_ne n h = ground (arith, cost_after n, nat_beq_iff a.peer_id n)

  new-Walk : Walk nodes root a.peer_id (add current.cost a.cost)
  new-Walk = Walk.along current.node current.cost adjacencies a _ _ walk announced member refl refl

  module _ (grow : (n : NodeId) → HasHop root s.next_hop n → HasHop root next_hop n)
      (new : HasHop root next_hop a.peer_id)
      (linked : (n : NodeId) (l : Link) → get n next_hop ≡ some l → Memᴰ l links) where
    sound_after :
        (n : NodeId) → (cost_of after.cost n ≡ max_cost) ⊎ Walk nodes root n (cost_of after.cost n)
    sound_after n = elim (Bool-cases (a.peer_id == n)) [
      | inl t ↦ inr (
          subst (λ m. Walk nodes root m (cost_of after.cost m)) ((nat_beq_iff _ _).0 t)
            (rw cost_after_peer new-Walk))
      | inr f ↦ rw (cost_after n, f) (inv.sound n)
    ]

    reached_after : (n : NodeId) → (cost_of after.cost n ≡ max_cost) ⊎ HasHop root next_hop n
    reached_after n = elim (Bool-cases (a.peer_id == n)) [
      | inl t ↦ inr (subst (HasHop root next_hop) ((nat_beq_iff _ _).0 t) new)
      | inr f ↦ elim (inv.reached n) [
        | inl m ↦ inl (rw (cost_after n, f) m)
        | inr h ↦ inr (grow n h)
      ]
    ]

    hops_grow :
        (q : List Entry)
        → All (λ (e : Entry). HasHop root s.next_hop e.node) q
        → All (λ (e : Entry). HasHop root next_hop e.node) q
    hops_grow [] h = tt
    hops_grow (e ∷ q) h = (grow e.node h.0, hops_grow q h.1)

    pub improve-Inv : Inv links root nodes (improve (alternative current a) current.node next_hop s)
    unfolding improve
    improve-Inv = record {
      bounded = λ n. omega (arith, cost_after_le n, inv.bounded n);
      root_zero = omega (arith, cost_after_le root, inv.root_zero);
      sound = sound_after;
      reached = reached_after;
      linked = linked;
      queue_sound =
          All-enqueue (λ (e : Entry). Walk nodes root e.node e.cost) _ _ new-Walk
            (All-dequeue (λ (e : Entry). Walk nodes root e.node e.cost) a.peer_id s.queue
              inv.queue_sound);
      queue_hops =
          All-enqueue (λ (e : Entry). HasHop root next_hop e.node) _ _ new
            (All-dequeue (λ (e : Entry). HasHop root next_hop e.node) a.peer_id s.queue
              (hops_grow s.queue inv.queue_hops));
    }

  Settled-after :
      (n : NodeId) → n ≢ a.peer_id → Settled links root nodes s n → Settled links root nodes after n
  Settled-after n ne h adjs b e m =
      rw (cost_after_ne n ne) (omega (arith, cost_after_le b.peer_id, h adjs b e m))

  Queued-self : Queued links root nodes after a.peer_id
  unfolding improve
  Queued-self = rw cost_after_peer (mem-enqueue_self _ _)

  Queued-after :
      (n : NodeId) → n ≢ a.peer_id → Queued links root nodes s n → Queued links root nodes after n
  unfolding improve
  Queued-after n ne m =
      rw (cost_after_ne n ne) (mem-enqueue _ _ _ (mem-dequeue a.peer_id _ s.queue ne m))

  Current-after :
      (rest : List Adjacency) (n : NodeId)
      → n ≢ a.peer_id
      → Current links root nodes current (a ∷ rest) s n
      → Current links root nodes current rest after n
  Current-after rest n ne (same, cost, todo) =
      (same, cost_after_ne n ne ∙ cost, λ adjs b e m. go b (todo adjs b e m))
    where
      go :
          (b : Adjacency)
          → Memᴰ b (a ∷ rest) ⊎ (cost_of s.cost b.peer_id ≤ add current.cost b.cost)
          → Memᴰ b rest ⊎ (cost_of after.cost b.peer_id ≤ add current.cost b.cost)
      go b (inl (Memᴰ.head h)) = inr (
          subst (λ (z : Adjacency). cost_of after.cost z.peer_id ≤ add current.cost z.cost) (sym h)
            (omega (arith, cost_after_peer)))
      go b (inl (Memᴰ.tail m)) = inl m
      go b (inr le) = inr (omega (arith, cost_after_le b.peer_id))

  pub improve-Covered :
      (rest : List Adjacency)
      → Covered links root nodes current (a ∷ rest) s
      → Covered links root nodes current rest
          (improve (alternative current a) current.node next_hop s)
  improve-Covered rest cover n = elim (Bool-cases (a.peer_id == n)) [
    | inl t ↦ inr (inl (subst (Queued links root nodes after) ((nat_beq_iff _ _).0 t) Queued-self))
    | inr f ↦
        let ne : n ≢ a.peer_id = λ p. ground (arith, nat_beq_iff a.peer_id n, p) in
        elim (cover n) [
          | inl settled ↦ inl (Settled-after n ne settled)
          | inr (inl queued) ↦ inr (inl (Queued-after n ne queued))
          | inr (inr visited) ↦ inr (inr (Current-after rest n ne visited))
        ]
  ]
