-- ===== src/LinkState/Spf/Shortest.antt =====
-- The properties of `compute_spf`: it ends without a panic and finds the shortest walks.
use anybus.Common.{◌≤◌, ◌≡◌, sym, subst, ◌⊎◌, inl, inr, List, some, Memᴰ, arith, nat_eq}
use anybus.Common.Assoc.{HashMap, get}
use anybus.Routing.{NodeId, Cost, max_cost}
use anybus.LinkState.{Adjacency, Link}
use anybus.LinkState.Spf.{Spf, Nodes, cost_of, compute, done}
use anybus.LinkState.Spf.Walks.{Walk, HasHop, Linked, Inv, Settled, add_mono}
use anybus.LinkState.Spf.Rounds.{compute_done}

-- The costs are those of shortest walks: no walk is cheaper, and a cost below the maximum is walked.
pub record IsShortest (root : NodeId) (nodes : Nodes) (cost : HashMap NodeId Cost) : Type 0 where
  pub minimal : (n : NodeId) (c : Cost) → Walk nodes root n c → cost_of cost n ≤ c
  pub walked : (n : NodeId) → (cost_of cost n ≡ max_cost) ⊎ Walk nodes root n (cost_of cost n)

-- Every node with a cost below the maximum, but the root, has one of the links as its next hop.
abbrev pub IsRouted : List Link → NodeId → Spf → Type 0
IsRouted links root s =
    (n : NodeId)
    → (cost_of s.cost n ≡ max_cost)
      ⊎ ((n ≡ root) ⊎ ((l : Link) × (get n s.next_hop ≡ some l) × Memᴰ l links))

module _ (links : List Link) (root : NodeId) (nodes : Nodes) where
  minimal_of_Settled :
      (s : Spf)
      → Inv links root nodes s
      → ((n : NodeId) → Settled links root nodes s n)
      → (n : NodeId) (c : Cost) → Walk nodes root n c
      → cost_of s.cost n ≤ c
  minimal_of_Settled s inv settled n c (Walk.here _ _ e z) =
      subst (λ k. cost_of s.cost k ≤ c) (sym e) (omega (arith, inv.root_zero))
  minimal_of_Settled s inv settled n c (Walk.along u b adjs a _ _ walk found m e z) =
      let before = minimal_of_Settled s inv settled u b walk in
      let here = settled u adjs a found m in
      subst (λ k. cost_of s.cost k ≤ c) (sym e)
        (omega (arith, add_mono (cost_of s.cost u) b a.cost before))

  -- If each peer that the root announces has a link, the search ends within its fuel and without
  -- a panic. Its cost of a node is at most that of any walk from the root, and it is that of a
  -- walk or the maximum; and every node below the maximum, but the root, has one of the links as
  -- next hop.
  pub compute-IsShortest :
      ((adjacencies : List Adjacency)
        → get root nodes ≡ some adjacencies
        → Linked links adjacencies)
      → (s : Spf) × (compute links root nodes ≡ done s)
        × IsShortest root nodes s.cost
        × IsRouted links root s
  compute-IsShortest near =
      let (s, eq, inv, settled) = compute_done links root nodes near in
      (
        s,
        eq,
        record { minimal = minimal_of_Settled s inv settled; walked = inv.sound },
        λ n. routed s inv n (inv.reached n),
      )
    where
      routed :
          (s : Spf)
          → Inv links root nodes s
          → (n : NodeId) → (cost_of s.cost n ≡ max_cost) ⊎ HasHop root s.next_hop n
          → (cost_of s.cost n ≡ max_cost)
            ⊎ ((n ≡ root) ⊎ ((l : Link) × (get n s.next_hop ≡ some l) × Memᴰ l links))
      routed s inv n (inl m) = inl m
      routed s inv n (inr (inl r)) = inr (inl r)
      routed s inv n (inr (inr (l, e))) = inr (inr (l, e, inv.linked n l e))
