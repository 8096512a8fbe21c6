-- ===== src/Router/Routes.antt =====
-- The route table under the router's steps.
use anybus.Common.{ℕ, Bool, true, false, Option, none, some, inl, inr, Option-cases}
use anybus.Routing.{EndpointId}
use anybus.LinkState.{Sender, SetAnycastCostError, SetAnycastCostOutcome, unchanged, changed}
use anybus.LinkState.Wire.{Wire, reply}
use anybus.LinkState.RouteTable.{Result, ok, err}
use anybus.LinkState.Db.{LsDb, handle_ack, pending_eq}
use anybus.LinkState.Db.RoutesValid.{HasValid, Kept, handle_lsa-Kept}
use anybus.LinkState.Db.RoutesKept.{
  add_peer-HasValid, remove_peer-Kept, update_endpoint_cost-HasValid, add_endpoint-HasValid,
  set_anycast_cost-HasValid, remove_endpoint-HasValid, shutdown-HasValid, tick-Kept, KeptTick,
}
use anybus.LinkState.Db.Paths.{compute_spf, installed}
use anybus.LinkState.Spf.{Outcome, done, panicked, out_of_fuel}
use anybus.LinkState.Db.Endpoints.{RegistrationRequest}
use anybus.LinkState.Forward.{build_from_db, ForwardingTable}
use anybus.Common.Assoc.{get}
use anybus.Routing.{ConnectionId}
use anybus.LinkState.{LsaKey}
use anybus.Router.{
  Router, State, Event, RouterMsg, Next, go, stop, next, handle, go_or_panic, answer_cost,
  advertise_min, after_registration, change_routes, ticked, listened, build_fib, received,
  channel_closed, timer, start, listen, handle_broker_msg, route_change, dead_link, register_peer,
  unregister_peer, lsa_inbound, lsa_ack_inbound,
}
use anybus.Router

-- The route table is valid in what a step leaves, if it leaves anything.
abbrev pub HasRoutes : Next → Type 0
HasRoutes (go s r) = HasValid r.lsdb
HasRoutes (stop r) = HasValid r.lsdb
HasRoutes Next.panicked = Unit {0}

go_or_panic-HasRoutes :
    (s : State) (r : Router) (x : Option (LsDb × Wire)) → Kept x → HasRoutes (go_or_panic s r x)
unfolding go_or_panic
go_or_panic-HasRoutes s r none k = tt
go_or_panic-HasRoutes s r (some dw) k = k

answer_cost-HasRoutes :
    (now : ℕ) (e : EndpointId) (caller : Sender)
    (result : Result SetAnycastCostError SetAnycastCostOutcome) (d : LsDb) (r : Router)
    → HasValid d
    → HasRoutes (answer_cost now e caller result d r)
unfolding answer_cost
answer_cost-HasRoutes now e caller (ok unchanged) d r v = v
answer_cost-HasRoutes now e caller (ok (changed p n none)) d r v = unfold advertise_min in v
answer_cost-HasRoutes now e caller (ok (changed p n (some c))) d r v =
    unfold advertise_min in update_endpoint_cost-HasValid now e c (d, reply caller none r.wire) v
answer_cost-HasRoutes now e caller (err x) d r v = v

handle_ack-HasValid :
    (c : ConnectionId) (k : LsaKey) (seq : ℕ) (d : LsDb)
    → HasValid d
    → HasValid (handle_ack c k seq d)
unfolding handle_ack
handle_ack-HasValid c k seq d v =
    elim (Option-cases (get (record { connection_id = c; key = k }) d.pending_tx)) [
      | inl e ↦ rw (e, handle_ack) v
      | inr (val, e) ↦ rw (e, handle_ack) v
    ]

handle-HasRoutes :
    (now : ℕ) (msg : RouterMsg) (r : Router) → HasValid r.lsdb → HasRoutes (handle now msg r)
unfolding handle
handle-HasRoutes now (RouterMsg.register_endpoint request) r v = v
handle-HasRoutes now (dead_link e) r v = remove_endpoint-HasValid now e (r.lsdb, r.wire) v
handle-HasRoutes now (register_peer p c tx cost realms) r v =
    add_peer-HasValid now _ (r.lsdb, r.wire) v
handle-HasRoutes now (unregister_peer c) r v =
    go_or_panic-HasRoutes (route_change none) r _ (remove_peer-Kept now c (r.lsdb, r.wire) v)
handle-HasRoutes now (lsa_inbound from lsa) r v =
    go_or_panic-HasRoutes (route_change none) r _ (handle_lsa-Kept now lsa from r.lsdb r.wire v)
handle-HasRoutes now (lsa_ack_inbound from k seq) r v = handle_ack-HasValid from k seq r.lsdb v
handle-HasRoutes now (RouterMsg.set_anycast_cost e s cost caller) r v =
    answer_cost-HasRoutes now e caller _ _ r (set_anycast_cost-HasValid e s cost r.lsdb v)
handle-HasRoutes now RouterMsg.shutdown r v = v

change_routes-HasRoutes :
    (request : Option RegistrationRequest) (r : Router)
    → HasValid r.lsdb
    → HasRoutes (change_routes request r)
unfolding change_routes build_fib compute_spf
change_routes-HasRoutes request r v = at_paths _
  where
    settle : LsDb → LsDb
    settle d = record d { rebuild_requested = none }

    at_table :
        (d : LsDb) (f : Option ForwardingTable)
        → HasValid d
        → HasRoutes
            (elim (elim f as (λ x. Option (LsDb × ForwardingTable)) [
              | none ↦ none
              | some fib ↦ some (settle d, fib)
            ]) [
              | none ↦ Next.panicked
              | some (d', fib) ↦
                  go listen (record { lsdb = d'; fib = fib; wire = Router.notify request r.wire })
            ])
    at_table d none u = tt
    at_table d (some fib) u = u

    at_paths :
        (o : Outcome)
        → HasRoutes
            (elim (elim (installed r.lsdb o) as (λ x. Option (LsDb × ForwardingTable)) [
              | none ↦ none
              | some d ↦ elim (build_from_db (settle d)) [
                | none ↦ none
                | some fib ↦ some (settle d, fib)
              ]
            ]) [
              | none ↦ Next.panicked
              | some (d', fib) ↦
                  go listen (record { lsdb = d'; fib = fib; wire = Router.notify request r.wire })
            ])
    at_paths (done s) =
        unfold installed in
        (let d = record (r.lsdb) { next_hop = s.next_hop; cost = s.cost; parent = s.parent } in
          at_table d (build_from_db (settle d)) v)
    at_paths panicked = unfold installed in tt
    at_paths out_of_fuel = unfold installed in tt

after_registration-HasRoutes :
    (request : RegistrationRequest) (x : LsDb × Wire × Bool) (r : Router)
    → HasValid x.0
    → HasRoutes (after_registration request x r)
unfolding after_registration
after_registration-HasRoutes request (d, w, true) r v = v
after_registration-HasRoutes request (d, w, false) r v = v

ticked-HasRoutes :
    (x : Option (LsDb × Wire × Bool)) (r : Router) → KeptTick x → HasRoutes (ticked x r)
unfolding ticked
ticked-HasRoutes none r k = tt
ticked-HasRoutes (some (d, w, true)) r k = k
ticked-HasRoutes (some (d, w, false)) r k = k

listened-HasRoutes : (event : Event) (r : Router) → HasValid r.lsdb → HasRoutes (listened event r)
unfolding listened
listened-HasRoutes (received msg) r v = v
listened-HasRoutes channel_closed r v = v
listened-HasRoutes timer r v = v

-- If the route table is valid before a step of the router, from whatever state and on whatever
-- message, it is valid after the step, unless the step panics.
pub next-HasRoutes :
    (now : ℕ) (event : Event) (s : State) (r : Router)
    → HasValid r.lsdb
    → HasRoutes (next now event s r)
unfolding next
next-HasRoutes now event start r v = v
next-HasRoutes now event listen r v = listened-HasRoutes event r v
next-HasRoutes now event (handle_broker_msg msg) r v = handle-HasRoutes now msg r v
next-HasRoutes now event (State.register_endpoint request) r v =
    after_registration-HasRoutes request _ r (add_endpoint-HasValid now request (r.lsdb, r.wire) v)
next-HasRoutes now event State.shutdown r v = shutdown-HasValid now (r.lsdb, r.wire)
next-HasRoutes now event (route_change request) r v = change_routes-HasRoutes request r v
next-HasRoutes now event State.tick r v = ticked-HasRoutes _ r (tick-Kept now (r.lsdb, r.wire) v)
