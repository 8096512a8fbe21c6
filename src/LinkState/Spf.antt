-- ===== src/LinkState/Spf.antt =====
-- `compute_spf` of src/routing/linkstate/db.rs: shortest paths from the root, with a queue sorted
-- by `Entry::better` in which a node is moved when its cost falls.
pub mod Queue
pub mod Walks
pub mod Improve
pub mod Measure
pub mod Relax
pub mod Rounds
pub mod Shortest
use anybus.Common.{
  ℕ, zero, suc, ◌*◌, List, [], ◌∷◌, ◌++◌, find, length, map, Option, none, some, if◌then◌else◌,
  ◌==◌, nat_eq,
}
use anybus.Common.Assoc.{HashMap, get, insert, get_or}
use anybus.Routing.{NodeId, Cost, max_cost, add}
use anybus.LinkState.{Adjacency, Link, Entry, better}

-- The maps and the queue that the loop changes.
pub record Spf : Type 0 where
  pub cost : HashMap NodeId Cost
  pub parent : HashMap NodeId NodeId
  pub next_hop : HashMap NodeId Link
  pub queue : List Entry

abbrev pub Nodes : Type 0
Nodes = HashMap NodeId (List Adjacency)

-- `*self.cost.get(&node).unwrap_or(&Cost(u16::MAX))`.
abbrev pub cost_of : HashMap NodeId Cost → NodeId → Cost
cost_of cost n = get_or n max_cost cost

-- `find_position` and `queue.remove(pos)`: the first entry of the node goes.
unfoldable pub dequeue : NodeId → List Entry → List Entry
dequeue n [] = []
dequeue n (e ∷ queue) = let rest = dequeue n queue in if e.node == n then queue else e ∷ rest

-- `partition_point` and `queue.insert(pos, entry)`: behind the entries that are better.
unfoldable pub enqueue : Entry → List Entry → List Entry
enqueue entry [] = entry ∷ []
enqueue entry (e ∷ queue) =
    let rest = enqueue entry queue in if better e entry then e ∷ rest else entry ∷ e ∷ queue

-- The next hop of a node that is now reached from `current`; `none` is the panic of `unwrap`.
unfoldable pub hop :
    List Link → NodeId → NodeId → NodeId → HashMap NodeId Link → Option (HashMap NodeId Link)
hop links root current next_node next_hop =
    if current == root
    then some (elim (find (λ (link : Link). link.peer_id == next_node) links) [
      | none ↦ next_hop
      | some link ↦ insert next_node link next_hop
    ])
    else elim (get current next_hop) [
      | none ↦ none
      | some link ↦ some (insert next_node link next_hop)
    ]

unfoldable pub improve : Entry → NodeId → HashMap NodeId Link → Spf → Spf
unfolding dequeue enqueue
improve alt parent next_hop s = record {
  cost = insert alt.node alt.cost s.cost;
  parent = insert alt.node parent s.parent;
  next_hop = next_hop;
  queue = enqueue alt (dequeue alt.node s.queue);
}

abbrev pub alternative : Entry → Adjacency → Entry
alternative current adjacency = record {
  cost = add current.cost adjacency.cost;
  node = adjacency.peer_id;
}

-- The body of the loop over the adjacencies of the current node.
unfoldable pub relax : List Link → NodeId → Entry → Adjacency → Spf → Option Spf
unfolding hop improve
relax links root current adjacency s =
    let alt = alternative current adjacency in
    let other : Entry = record { cost = cost_of s.cost alt.node; node = alt.node } in
    if better alt other
    then elim (hop links root current.node alt.node s.next_hop) [
      | none ↦ none
      | some next_hop ↦ some (improve alt current.node next_hop s)
    ]
    else some s

unfoldable pub relax_all : List Link → NodeId → Entry → List Adjacency → Spf → Option Spf
unfolding relax
relax_all links root current [] s = some s
relax_all links root current (adjacency ∷ adjacencies) s =
    elim (relax links root current adjacency s) [
      | none ↦ none
      | some s' ↦ relax_all links root current adjacencies s'
    ]

unfoldable pub visit : List Link → NodeId → Nodes → Entry → Spf → Option Spf
unfolding relax_all
visit links root nodes current s = elim (get current.node nodes) [
  | none ↦ some s
  | some adjacencies ↦ relax_all links root current adjacencies s
]

pub data Outcome : Type 0 where
  done : Spf → Outcome
  panicked out_of_fuel : Outcome

-- `while let Some(current_entry) = queue.pop_front()`. The queue is an argument of its own.
unfoldable pub loop : ℕ → List Link → NodeId → Nodes → List Entry → Spf → Outcome
unfolding visit
loop fuel links root nodes [] s = done s
loop zero links root nodes (current ∷ queue) s = out_of_fuel
loop (suc fuel) links root nodes (current ∷ queue) s =
    elim (visit links root nodes current (record s { queue = queue })) [
      | none ↦ panicked
      | some s' ↦ loop fuel links root nodes s'.queue s'
    ]

unfoldable pub all_max : Nodes → HashMap NodeId Cost
all_max [] = []
all_max ((n, adjacencies) ∷ nodes) = insert n max_cost (all_max nodes)

unfoldable pub start : NodeId → Nodes → Spf
unfolding all_max
start root nodes = record {
  cost = insert root 0 (all_max nodes);
  parent = [];
  next_hop = [];
  queue = record { cost = 0; node = root } ∷ [];
}

-- The nodes that some adjacency leads to.
unfoldable pub peers : Nodes → List NodeId
peers [] = []
peers ((n, adjacencies) ∷ nodes) = map (λ (a : Adjacency). a.peer_id) adjacencies ++ peers nodes

-- One round for the root, and one for each fall of the cost of a peer.
unfoldable pub enough : Nodes → ℕ
unfolding peers
enough nodes = suc (max_cost * length (peers nodes))

unfoldable pub compute : List Link → NodeId → Nodes → Outcome
unfolding loop start enough
compute links root nodes =
    let s = start root nodes in loop (enough nodes) links root nodes s.queue s
