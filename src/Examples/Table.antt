-- ===== src/Examples/Table.antt =====
-- The route table's theorems at concrete inputs.
use anybus.Common.{refl, []}
use anybus.Routing.{anycast, global}
use anybus.LinkState.{EndpointInfo}
use anybus.LinkState.RouteTable.{RouteTable}
use anybus.LinkState.RouteTable.Validity.{IsValid}
use anybus.LinkState.RouteTable.Steps.{
  apply, Reached, Reached-IsValid, add_local, add_remote, remove_local,
}
use anybus.Examples.{closed_wire}

abbrev info_anycast : EndpointInfo
info_anycast = record { kind = anycast; realm = global; cost = 3 }

-- An anycast endpoint 10 with a listener on channel 8 and a route to node 2.
abbrev one_table : RouteTable
one_table = apply (add_remote 10 2 info_anycast) (apply (add_local 10 info_anycast 8) [])

one_table-Reached : Reached one_table
one_table-Reached =
    Reached.step (add_remote 10 2 info_anycast) (apply (add_local 10 info_anycast 8) []) one_table
      (Reached.step (add_local 10 info_anycast 8) [] (apply (add_local 10 info_anycast 8) [])
        (Reached.empty [] refl) refl)
      refl

one_table-IsValid : IsValid one_table
one_table-IsValid = Reached-IsValid one_table one_table-Reached

Reached-IsValid_example : IsValid (apply (remove_local closed_wire 10) one_table)
Reached-IsValid_example = Reached-IsValid (apply (remove_local closed_wire 10) one_table) (
    Reached.step (remove_local closed_wire 10) one_table
      (apply (remove_local closed_wire 10) one_table) one_table-Reached refl)
