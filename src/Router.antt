-- ===== src/Router.antt =====
-- src/routing/router.rs: the router's state machine. `next` makes one step; in `listen` the
-- environment says what comes first, a message or the timer. Logging has no part in the model.
pub mod Safety
pub mod Traces
pub mod Routes
use anybus.Common.{ℕ, Bool, true, false, Option, none, some}
use anybus.Routing.{NodeId, EndpointId, ConnectionId, Cost, RealmList}
use anybus.LinkState.{
  Lsa, LsaKey, Link, Sender, ClientMessage, SetAnycastCostError, SetAnycastCostOutcome, unchanged,
  changed,
}
use anybus.LinkState.Wire.{Wire, try_send, reply}
use anybus.LinkState.RouteTable.{Result, ok, err}
use anybus.LinkState.Db.{LsDb, handle_ack}
use anybus.LinkState.Db
use anybus.LinkState.Db.Lsas.{handle_lsa}
use anybus.LinkState.Db.Peers.{add_peer, remove_peer}
use anybus.LinkState.Db.Paths.{compute_spf}
use anybus.LinkState.Db.Endpoints.{
  RegistrationRequest, add_endpoint, update_endpoint_cost, remove_endpoint,
}
use anybus.LinkState.Db.Endpoints
use anybus.LinkState.Db.Refresh
use anybus.LinkState.Forward.{ForwardingTable, build_from_db}
use anybus.LinkState.Forward

-- `enum RouterMsg` of src/messages.rs. A `PeerEntry` is its sender.
pub data RouterMsg : Type 0 where
  register_endpoint : RegistrationRequest → RouterMsg
  dead_link : EndpointId → RouterMsg
  register_peer : NodeId → ConnectionId → Sender → Cost → RealmList → RouterMsg
  unregister_peer : ConnectionId → RouterMsg
  lsa_inbound : ConnectionId → Lsa → RouterMsg
  lsa_ack_inbound : ConnectionId → LsaKey → ℕ → RouterMsg
  set_anycast_cost : EndpointId → Sender → Cost → Sender → RouterMsg
  shutdown : RouterMsg

pub data State : Type 0 where
  start listen : State
  handle_broker_msg : RouterMsg → State
  register_endpoint : RegistrationRequest → State
  route_change : Option RegistrationRequest → State
  tick shutdown : State

-- What `select!` finds in `listen`: a message, the closed channel, or the timer.
pub data Event : Type 0 where
  received : RouterMsg → Event
  channel_closed timer : Event

-- The router with the channels that it sends to.
pub record Router : Type 0 where
  pub lsdb : LsDb
  pub fib : ForwardingTable
  pub wire : Wire

unfoldable pub new : NodeId → ℕ → Wire → Router
new node_id now w = record { lsdb = Db.new node_id now; fib = Forward.new node_id; wire = w }

-- `stop` is the end of the loop of `start`, `panicked` the end of the task.
pub data Next : Type 0 where
  go : State → Router → Next
  stop : Router → Next
  panicked : Next

abbrev pub put : Router → LsDb × Wire → Router
put r (d, w) = record r { lsdb = d; wire = w }

unfoldable pub go_or_panic : State → Router → Option (LsDb × Wire) → Next
go_or_panic s r none = panicked
go_or_panic s r (some dw) = go s (put r dw)

unfoldable pub new_link : NodeId → ConnectionId → Sender → Cost → RealmList → Link
new_link peer_id connection_id tx cost realms = record {
  tx = tx;
  peer_id = peer_id;
  connection_id = connection_id;
  realms = realms;
  cost = cost;
  default_route = false;
  role_stub = false;
}

-- The new minimum of an anycast endpoint goes into its LSA.
unfoldable pub advertise_min : ℕ → EndpointId → Option Cost → LsDb × Wire → LsDb × Wire
unfolding update_endpoint_cost
advertise_min now endpoint_id none dw = dw
advertise_min now endpoint_id (some min_cost) dw = update_endpoint_cost now endpoint_id min_cost dw

unfoldable pub answer_cost :
    ℕ
    → EndpointId
    → Sender
    → Result SetAnycastCostError SetAnycastCostOutcome
    → LsDb
    → Router
    → Next
unfolding advertise_min reply
answer_cost now endpoint_id caller (ok unchanged) d r =
    go listen (put r (d, reply caller none r.wire))
answer_cost now endpoint_id caller (ok (changed previous new_cost advertise)) d r =
    go (route_change none)
      (put r (advertise_min now endpoint_id advertise (d, reply caller none r.wire)))
answer_cost now endpoint_id caller (err e) d r = go listen (put r (d, reply caller (some e) r.wire))

unfoldable pub handle : ℕ → RouterMsg → Router → Next
unfolding go_or_panic new_link answer_cost
handle now (RouterMsg.register_endpoint request) r = go (State.register_endpoint request) r
handle now (dead_link endpoint_id) r =
    go (route_change none) (put r (remove_endpoint now endpoint_id (r.lsdb, r.wire)))
handle now (register_peer peer_id connection_id tx cost realms) r =
    go (route_change none)
      (put r (add_peer now (new_link peer_id connection_id tx cost realms) (r.lsdb, r.wire)))
handle now (unregister_peer connection_id) r =
    go_or_panic (route_change none) r (remove_peer now connection_id (r.lsdb, r.wire))
handle now (lsa_inbound from lsa) r =
    go_or_panic (route_change none) r (handle_lsa now lsa from (r.lsdb, r.wire))
handle now (lsa_ack_inbound from key seq) r =
    go listen (record r { lsdb = handle_ack from key seq r.lsdb })
handle now (set_anycast_cost endpoint_id sender cost caller) r =
    let (d, result) = Endpoints.set_anycast_cost endpoint_id sender cost r.lsdb in
    answer_cost now endpoint_id caller result d r
handle now RouterMsg.shutdown r = go State.shutdown r

unfoldable pub after_registration : RegistrationRequest → LsDb × Wire × Bool → Router → Next
after_registration request (d, w, true) r = go (route_change (some request)) (put r (d, w))
after_registration request (d, w, false) r = go listen (put r (d, w))

-- `LsDb::build_fib`: paths first, then the table.
unfoldable pub build_fib : LsDb → Option (LsDb × ForwardingTable)
build_fib d = elim (compute_spf d.self_id d) [
  | none ↦ none
  | some d' ↦
      let d'' = record d' { rebuild_requested = none } in
      elim (build_from_db d'') [ none ↦ none | some fib ↦ some (d'', fib) ]
]

-- The registrant hears of its success once the new table is in place.
unfoldable pub notify : Option RegistrationRequest → Wire → Wire
unfolding try_send
notify none w = w
notify (some request) w =
    (try_send request.sender (ClientMessage.successful_registration request.endpoint_id) w).0

unfoldable pub change_routes : Option RegistrationRequest → Router → Next
unfolding notify
change_routes request r = elim (build_fib r.lsdb) [
  | none ↦ panicked
  | some (d, fib) ↦ go listen (record { lsdb = d; fib = fib; wire = notify request r.wire })
]

unfoldable pub listened : Event → Router → Next
listened (received msg) r = go (handle_broker_msg msg) r
listened channel_closed r = go State.shutdown r
listened timer r = go State.tick r

unfoldable pub ticked : Option (LsDb × Wire × Bool) → Router → Next
ticked none r = panicked
ticked (some (d, w, true)) r = go (route_change none) (put r (d, w))
ticked (some (d, w, false)) r = go listen (put r (d, w))

unfoldable pub next : ℕ → Event → State → Router → Next
unfolding listened handle after_registration change_routes ticked
next now event start r = go listen r
next now event listen r = listened event r
next now event (handle_broker_msg msg) r = handle now msg r
next now event (State.register_endpoint request) r =
    after_registration request (add_endpoint now request (r.lsdb, r.wire)) r
next now event State.shutdown r = stop (put r (Endpoints.shutdown now (r.lsdb, r.wire)))
next now event (route_change request) r = change_routes request r
next now event State.tick r = ticked (Refresh.tick now (r.lsdb, r.wire)) r
