-- ===== src/LinkState/Db/Paths.antt =====
-- `LsDb::compute_spf`: the announced adjacencies of all nodes, and the tables that the search fills.
use anybus.Common.{[], ◌∷◌, Option, none, some, nat_eq}
use anybus.Common.Assoc.{HashMap, insert, values}
use anybus.Routing.{NodeId}
use anybus.LinkState.{LsaKey, LsaBody, LsaRecord, router, endpoint}
use anybus.LinkState.Spf.{Nodes, Outcome, done, panicked, out_of_fuel, compute}
use anybus.LinkState.Db.{LsDb}

unfoldable pub add_node : NodeId → LsaBody → Nodes → Nodes
add_node origin (router adjacencies) nodes = insert origin adjacencies nodes
add_node origin (endpoint info) nodes = nodes

-- `filter_map` and `collect`: of two entries for one node the later one stays.
unfoldable pub collect : HashMap LsaKey LsaRecord → Nodes → Nodes
unfolding add_node
collect [] nodes = nodes
collect ((k, r) ∷ db) nodes = collect db (add_node k.origin r.lsa.body nodes)

unfoldable pub installed : LsDb → Outcome → Option LsDb
installed d (done s) = some (record d { next_hop = s.next_hop; cost = s.cost; parent = s.parent })
installed d panicked = none
installed d out_of_fuel = none

-- `none` is the panic of `unwrap`.
unfoldable pub compute_spf : NodeId → LsDb → Option LsDb
unfolding installed compute collect
compute_spf root d = installed d (compute (values d.links) root (collect d.db []))
