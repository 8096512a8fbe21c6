-- ===== src/LinkState/RouteTable/Steps.antt =====
-- The tables that the operations of route_table.rs reach from the empty one.
use anybus.Common.{◌≡◌, sym, subst, []}
use anybus.Routing.{NodeId, EndpointId, Cost}
use anybus.LinkState.{EndpointInfo, Sender}
use anybus.LinkState.Wire.{Wire}
use anybus.LinkState.RouteTable.{RouteTable, add_endpoint, set_anycast_cost}
use anybus.LinkState.RouteTable.Remote.{add_remote_endpoint, remove_remote_endpoint}
use anybus.LinkState.RouteTable.Removal.{remove_endpoint, shutdown}
use anybus.LinkState.RouteTable.Validity.{IsValid}
use anybus.LinkState.RouteTable.Invariant.{add_endpoint-IsValid, set_anycast_cost-IsValid}
use anybus.LinkState.RouteTable.RemoteInvariant.{
  add_remote_endpoint-IsValid, remove_remote_endpoint-IsValid, remove_endpoint-IsValid,
}

-- One operation, with any arguments and in any state of the channels.
pub data Op : Type 0 where
  add_local : EndpointId → EndpointInfo → Sender → Op
  set_cost : EndpointId → Sender → Cost → Op
  add_remote : EndpointId → NodeId → EndpointInfo → Op
  remove_remote : EndpointId → NodeId → Op
  remove_local : Wire → EndpointId → Op
  shut_down : Wire → Op

unfoldable pub apply : Op → RouteTable → RouteTable
unfolding add_endpoint set_anycast_cost add_remote_endpoint remove_remote_endpoint remove_endpoint
    shutdown
apply (add_local e info s) t = (add_endpoint e info s t).0
apply (set_cost e s cost) t = (set_anycast_cost e s cost t).0
apply (add_remote e origin info) t = (add_remote_endpoint e origin info t).0
apply (remove_remote e origin) t = (remove_remote_endpoint e origin t).0
apply (remove_local w e) t = (remove_endpoint w e t).0
apply (shut_down w) t = (shutdown t w).0

-- The tables that sequences of operations reach.
pub data Reached : RouteTable → Type 0 where
  empty : (t : RouteTable) → t ≡ [] → Reached t
  step : (op : Op) (t t' : RouteTable) → Reached t → t' ≡ apply op t → Reached t'

apply-IsValid : (op : Op) (t : RouteTable) → IsValid t → IsValid (apply op t)
unfolding apply
apply-IsValid (add_local e info s) t v = add_endpoint-IsValid e info s t v
apply-IsValid (set_cost e s cost) t v = set_anycast_cost-IsValid e s cost t v
apply-IsValid (add_remote e origin info) t v = add_remote_endpoint-IsValid e origin info t v
apply-IsValid (remove_remote e origin) t v = remove_remote_endpoint-IsValid e origin t v
apply-IsValid (remove_local w e) t v = remove_endpoint-IsValid w e t v
apply-IsValid (shut_down w) t v = unfold shutdown in tt

-- In every table that sequences of operations reach from the empty one, the routes of an entry
-- have its kind, a unicast endpoint has at most one route, and no two remote routes of an entry
-- lead to the same node.
pub Reached-IsValid : (t : RouteTable) → Reached t → IsValid t
Reached-IsValid t (Reached.empty _ e) = subst IsValid (sym e) tt
Reached-IsValid t (Reached.step op before _ r e) =
    subst IsValid (sym e) (apply-IsValid op before (Reached-IsValid before r))
