-- ===== src/Examples.antt =====
-- The theorems at concrete inputs, with the test data: a node 1 with a link to its peer 2, which
-- leads on to node 3.
mod Database
mod Machine
mod Table
mod Fib
mod Signals
mod Beats
mod Websockets
mod Ipc
mod Clients
use anybus.Common.{ℕ, ◌≡◌, refl, subst, ap, true, false, List, [], ◌∷◌, some, Option, arith, nat_eq}
use anybus.Common.Assoc.{HashMap, get}
use anybus.Routing.{global, node}
use anybus.LinkState.{Adjacency, Link, Lsa, LsaKey, LsaRecord, router, EndpointInfo}
use anybus.LinkState.Wire.{Wire, TrySend}
use anybus.LinkState.Spf.{Spf, Nodes, compute, done}
use anybus.LinkState.Spf.Walks.{Linked}
use anybus.LinkState.Spf.Shortest.{IsShortest, IsRouted, compute-IsShortest}
use anybus.LinkState.Db.{LsDb}
use anybus.LinkState.Db

-- Channels that deliver whatever is sent.
abbrev pub open_wire : Wire
open_wire = record { answer = λ ds tx. TrySend.delivered; is_closed = λ ds tx. false; sent = [] }

-- Channels whose receivers are gone.
abbrev pub closed_wire : Wire
closed_wire = record { answer = λ ds tx. TrySend.closed; is_closed = λ ds tx. true; sent = [] }

abbrev pub link_two : Link
link_two = record {
  tx = 7;
  peer_id = 2;
  connection_id = 1;
  realms = global ∷ [];
  cost = 5;
  default_route = false;
  role_stub = false;
}

abbrev pub adjacency_to : ℕ → ℕ → Adjacency
adjacency_to peer_id cost = record {
  connection_id = 1;
  peer_id = peer_id;
  cost = cost;
  realms = global ∷ [];
}

abbrev pub three_nodes : Nodes
three_nodes =
    (1, adjacency_to 2 5 ∷ [])
    ∷ (2, adjacency_to 1 5 ∷ adjacency_to 3 7 ∷ [])
    ∷ (3, adjacency_to 2 7 ∷ [])
    ∷ []

near_example :
    (adjacencies : List Adjacency)
    → get 1 three_nodes ≡ some adjacencies
    → Linked (link_two ∷ []) adjacencies
unfolding get
near_example adjacencies h =
    let same : ◌≡◌ {A = List Adjacency} (adjacency_to 2 5 ∷ []) adjacencies = ground arith in
    subst (Linked (link_two ∷ [])) same ((link_two, refl), tt)

compute-IsShortest_example :
    (s : Spf) × (compute (link_two ∷ []) 1 three_nodes ≡ done s)
    × IsShortest 1 three_nodes s.cost
    × IsRouted (link_two ∷ []) 1 s
compute-IsShortest_example = compute-IsShortest (link_two ∷ []) 1 three_nodes near_example

-- The database of node 1 before it has any peer.
abbrev pub first_db : LsDb
first_db = Db.new 1 0

-- A router LSA of node 2.
abbrev pub lsa_two : Lsa
lsa_two = record {
  key = record { origin = 2; endpoint_id = 2 };
  seq = 4;
  dead = false;
  body = router (adjacency_to 1 5 ∷ adjacency_to 3 7 ∷ []);
}
