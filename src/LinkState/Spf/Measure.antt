-- ===== src/LinkState/Spf/Measure.antt =====
-- What falls from round to round of `compute_spf`: the queue's length and the costs of all peers.
use anybus.Common.{
  ℕ, ◌+◌, ◌*◌, ◌≤◌, ◌<◌, ◌≡◌, refl, subst, inl, inr, List, [], ◌∷◌, length, ◌==◌, nat_eq, arith,
  some, Memᴰ, Bool-cases,
}
use anybus.Common.Assoc.{HashMap, get, insert}
use anybus.Common.Preds.{mem-append_left, mem-append_right, mem-map}
use anybus.Routing.{NodeId, Cost, max_cost}
use anybus.LinkState.{Adjacency}
use anybus.LinkState.Spf.{Spf, Nodes, cost_of, peers, start, all_max, enough}
use anybus.LinkState.Spf.Walks.{cost_of-insert}

pub total : HashMap NodeId Cost → List NodeId → ℕ
total cost [] = 0
total cost (n ∷ ns) = cost_of cost n + total cost ns

abbrev pub weight : Nodes → Spf → ℕ
weight nodes s = length s.queue + total s.cost (peers nodes)

module _ (before after : HashMap NodeId Cost)
    (falls : (n : NodeId) → cost_of after n ≤ cost_of before n) where
  pub total-le : (ns : List NodeId) → total after ns ≤ total before ns
  unfolding total
  total-le [] = omega arith
  total-le (n ∷ ns) = omega (arith, falls n, total-le ns)

  pub total-lt :
      (m : NodeId) (ns : List NodeId)
      → cost_of after m < cost_of before m
      → Memᴰ m ns
      → total after ns < total before ns
  unfolding total
  total-lt m [] lt h = elim h [ ]
  total-lt m (n ∷ ns) lt (Memᴰ.head e) =
      let here = subst (λ k. cost_of after k < cost_of before k) e lt in
      omega (arith, here, total-le ns)
  total-lt m (n ∷ ns) lt (Memᴰ.tail h) = omega (arith, falls n, total-lt m ns lt h)

pub mem-peers :
    (u : NodeId) (nodes : Nodes) (adjacencies : List Adjacency) (a : Adjacency)
    → get u nodes ≡ some adjacencies
    → Memᴰ a adjacencies
    → Memᴰ a.peer_id (peers nodes)
unfolding get peers
mem-peers u [] adjs a e m = cc
mem-peers u ((j, others) ∷ nodes) adjs a e m = elim (Bool-cases (j == u)) [
  | inl t ↦
      let same : adjs ≡ others = ground arith in
      mem-append_left _ _ _
        (mem-map (λ (b : Adjacency). b.peer_id) a others (subst (Memᴰ a) same m))
  | inr f ↦ mem-append_right _ _ _ (mem-peers u nodes adjs a (ground arith) m)
]

-- The costs at the start: none but the root's is known.
pub cost_of-all_max : (nodes : Nodes) (n : NodeId) → cost_of (all_max nodes) n ≡ max_cost
unfolding all_max get
cost_of-all_max [] n = refl
cost_of-all_max ((j, adjs) ∷ nodes) n =
    ground (arith, cost_of-insert j n max_cost (all_max nodes), cost_of-all_max nodes n)

total-le-max :
    (cost : HashMap NodeId Cost) (ns : List NodeId)
    → ((n : NodeId) → cost_of cost n ≤ max_cost)
    → total cost ns ≤ max_cost * length ns
unfolding total
total-le-max cost [] h = omega arith
total-le-max cost (n ∷ ns) h = omega (arith, h n, total-le-max cost ns h)

pub weight-start : (root : NodeId) (nodes : Nodes) → weight nodes (start root nodes) ≤ enough nodes
unfolding start enough
weight-start root nodes =
    omega (arith, total-le-max (insert root 0 (all_max nodes)) (peers nodes) bounded)
  where
    bounded : (n : NodeId) → cost_of (insert root 0 (all_max nodes)) n ≤ max_cost
    bounded n = ground (arith, cost_of-insert root n 0 (all_max nodes), cost_of-all_max nodes n)
