-- ===== src/LinkState/Spf/Walks.antt =====
-- What `compute_spf` is about: walks through the announced adjacencies, and the loop's invariant.
use anybus.Common.{
  ◌≤◌, ◌<◌, ◌≡◌, ◌⊎◌, true, false, List, find, if◌then◌else◌, ◌==◌, nat_eq, nat_beq_iff, arith,
  some, Memᴰ,
}
use anybus.Common.Assoc.{HashMap, get, insert, get-insert}
use anybus.Common.Preds.{All}
use anybus.Routing.{NodeId, Cost, max_cost, add}
use anybus.LinkState.{Adjacency, Entry, Link, better}
use anybus.LinkState.Spf.{Spf, Nodes, cost_of, alternative}

-- `Walk nodes root n c`: some chain of adjacencies leads from the root to `n`, and its costs add up
-- to `c`, as `Cost` adds.
pub data Walk (nodes : Nodes) (root : NodeId) : NodeId → Cost → Type 0 where
  here : (n : NodeId) (c : Cost) → n ≡ root → c ≡ 0 → Walk nodes root n c
  along :
      (u : NodeId) (c : Cost) (adjacencies : List Adjacency) (a : Adjacency) (n : NodeId) (d : Cost)
      → Walk nodes root u c
      → get u nodes ≡ some adjacencies
      → Memᴰ a adjacencies
      → n ≡ a.peer_id
      → d ≡ add c a.cost
      → Walk nodes root n d

abbrev pub HasHop : NodeId → HashMap NodeId Link → NodeId → Type 0
HasHop root next_hop n = (n ≡ root) ⊎ ((l : Link) × (get n next_hop ≡ some l))

-- Every peer of the adjacencies has a link.
abbrev pub Linked : List Link → List Adjacency → Type 0
Linked links = All (λ (a : Adjacency).
    (l : Link) × (find (λ (link : Link). link.peer_id == a.peer_id) links ≡ some l))

module _ (links : List Link) (root : NodeId) (nodes : Nodes) where
  -- What holds of the maps and of the queue between any two relaxations.
  pub record Inv (s : Spf) : Type 0 where
    pub bounded : (n : NodeId) → cost_of s.cost n ≤ max_cost
    pub root_zero : cost_of s.cost root ≡ 0
    pub sound : (n : NodeId) → (cost_of s.cost n ≡ max_cost) ⊎ Walk nodes root n (cost_of s.cost n)
    pub reached : (n : NodeId) → (cost_of s.cost n ≡ max_cost) ⊎ HasHop root s.next_hop n
    pub linked : (n : NodeId) (l : Link) → get n s.next_hop ≡ some l → Memᴰ l links
    pub queue_sound : All (λ (e : Entry). Walk nodes root e.node e.cost) s.queue
    pub queue_hops : All (λ (e : Entry). HasHop root s.next_hop e.node) s.queue

  -- No adjacency of the node offers its peer a lower cost.
  abbrev pub Settled : Spf → NodeId → Type 0
  Settled s n =
      (adjacencies : List Adjacency) (a : Adjacency)
      → get n nodes ≡ some adjacencies
      → Memᴰ a adjacencies
      → cost_of s.cost a.peer_id ≤ add (cost_of s.cost n) a.cost

  abbrev pub Queued : Spf → NodeId → Type 0
  Queued s n = Memᴰ (record { cost = cost_of s.cost n; node = n }) s.queue

  -- The node is the one being visited, and only `rest` of its adjacencies are still to be relaxed.
  abbrev pub Current : Entry → List Adjacency → Spf → NodeId → Type 0
  Current current rest s n =
      (n ≡ current.node)
      × (cost_of s.cost n ≡ current.cost)
      × ((adjacencies : List Adjacency) (a : Adjacency)
          → get n nodes ≡ some adjacencies
          → Memᴰ a adjacencies
          → Memᴰ a rest ⊎ (cost_of s.cost a.peer_id ≤ add current.cost a.cost))

  abbrev pub Covered : Entry → List Adjacency → Spf → Type 0
  Covered current rest s = (n : NodeId) → Settled s n ⊎ (Queued s n ⊎ Current current rest s n)

pub cost_of-insert :
    (v n : NodeId) (c : Cost) (cost : HashMap NodeId Cost)
    → cost_of (insert v c cost) n ≡ (if v == n then c else cost_of cost n)
cost_of-insert v n c cost = ground (arith, get-insert v n c cost, nat_beq_iff v n)

pub add-le-max : (a b : Cost) → add a b ≤ max_cost
unfolding add
add-le-max a b = omega arith

pub le-add : (a b : Cost) → a ≤ max_cost → a ≤ add a b
unfolding add
le-add a b h = omega arith

pub add_mono : (a b c : Cost) → a ≤ b → add a c ≤ add b c
unfolding add
add_mono a b c h = omega arith

pub better_lt :
    (current : Entry) (a : Adjacency) (c : Cost)
    → better (alternative current a) (record { cost = c; node = a.peer_id }) ≡ true
    → add current.cost a.cost < c
unfolding better
better_lt current a c h = ground arith

pub not_better_le :
    (current : Entry) (a : Adjacency) (c : Cost)
    → better (alternative current a) (record { cost = c; node = a.peer_id }) ≡ false
    → c ≤ add current.cost a.cost
unfolding better
not_better_le current a c h = ground arith
