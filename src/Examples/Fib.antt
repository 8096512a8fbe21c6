-- ===== src/Examples/Fib.antt =====
-- The forwarding table's theorems at concrete inputs.
use anybus.Common.{none, some, [], ◌∷◌, List}
use anybus.Routing.{Cost, anycast, global, WirePacket, Address}
use anybus.LinkState.{LsForwardTo, LsRoute, FibForwardTo}
use anybus.LinkState.Db.{LsDb}
use anybus.LinkState.Forward.{ForwardingTable, single, multi_cast, build_entry}
use anybus.LinkState.Forward.Send.{forward}
use anybus.LinkState.Wire.Added.{Adds}
use anybus.LinkState.Forward.Delivered.{IsForwarded, forward-Adds}
use anybus.LinkState.Forward.Cheapest.{IsCheapest, build_entry-IsCheapest}
use anybus.LinkState.Forward.Send.{send}
use anybus.LinkState.Forward.Unsent.{IsHonest, send-IsHonest}
use anybus.Routing.{Packet, Payload, Rider, get_endpoint}
use anybus.Common.Assoc.{get}
use anybus.Common.{ℕ}
use anybus.Examples.{closed_wire, open_wire, link_two, first_db}

-- Endpoint 10 has a listener on channel 8 and a hop to node 2.
abbrev two_hops : ForwardingTable
two_hops = record {
  our_id = 1;
  table = (10, multi_cast (FibForwardTo.local 8 ∷ FibForwardTo.remote link_two ∷ [])) ∷ [];
  links = (1, link_two) ∷ [];
  next_hop = (2, link_two) ∷ [];
}

abbrev from_two : WirePacket
from_two = record { to = Address.endpoint 10; reply_to = none; from = 2; payload = 1 ∷ 2 ∷ [] }

forward-Adds_example :
    Adds (IsForwarded two_hops from_two 1) open_wire (forward two_hops from_two 1 open_wire)
forward-Adds_example = forward-Adds two_hops from_two 1 open_wire

abbrev any_route : LsForwardTo → Cost → LsRoute
any_route via cost = record { via = via; cost = cost; realm = global; kind = anycast }

-- Node 2 at cost 5 is better with its own 1 than the listener here with 8, node 3 is out of reach.
abbrev three_routes : List LsRoute
three_routes =
    any_route (LsForwardTo.local 8) 8
    ∷ any_route (LsForwardTo.remote 3) 0
    ∷ any_route (LsForwardTo.remote 2) 1
    ∷ []

abbrev routed_db : LsDb
routed_db = record first_db { cost = (2, 5) ∷ (3, 65535) ∷ []; next_hop = (2, link_two) ∷ [] }

build_entry-IsCheapest_example :
    IsCheapest routed_db three_routes (build_entry routed_db anycast three_routes)
build_entry-IsCheapest_example = build_entry-IsCheapest routed_db three_routes

-- A codec that writes the rider's number as one byte.
abbrev one_byte : Rider → List ℕ
one_byte rider = rider ∷ []

abbrev to_ten : Packet
to_ten = record {
  to = Address.endpoint 10;
  reply_to = none;
  from = 1;
  payload = Payload.bus_rider 5;
}

abbrev one_hop : ForwardingTable
one_hop = record two_hops { table = (10, single (FibForwardTo.remote link_two)) ∷ [] }

send-IsHonest_example :
    IsHonest one_byte to_ten
      (some (single (FibForwardTo.remote link_two)))
      closed_wire
      (send one_byte one_hop to_ten closed_wire)
unfolding get get_endpoint
send-IsHonest_example = send-IsHonest one_byte one_hop to_ten closed_wire
