-- ===== src/Router/Safety.antt =====
-- The router's steps: no panic but for multicast endpoints, and the invariant is kept.
use anybus.Common.{
  ℕ, ◌≡◌, ap, inl, inr, sym, subst, Bool, true, false, Option, none, some, nat_eq, Memᴰ,
  Option-cases,
}
use anybus.Common.Assoc.{get}
use anybus.Common.Preds.{AllValues}
use anybus.Routing.{EndpointId, Cost, ConnectionId, multicast}
use anybus.LinkState.{
  Sender, SetAnycastCostError, SetAnycastCostOutcome, unchanged, changed, LsRouteEntry, LsaKey,
}
use anybus.LinkState.Wire.{Wire, reply}
use anybus.LinkState.RouteTable.{Result, ok, err}
use anybus.LinkState.Db.{LsDb, handle_ack, pending_eq}
use anybus.LinkState.Db.Anchor.{IsAnchored, compute_spf_lem, Computed}
use anybus.LinkState.Db.RemoteSafe.{Safe, handle_lsa-Safe}
use anybus.LinkState.Db.PeerSafe.{add_peer-IsAnchored}
use anybus.LinkState.Db.PeerGone.{remove_peer-Safe}
use anybus.LinkState.Db.EndpointSafe.{
  add_endpoint-IsAnchored, remove_endpoint-IsAnchored, update_endpoint_cost-IsAnchored,
  set_anycast_cost-IsAnchored, shutdown-IsAnchored,
}
use anybus.LinkState.Db.RefreshSafe.{SafeTick, tick-Safe}
use anybus.LinkState.Db.Endpoints.{RegistrationRequest}
use anybus.LinkState.Forward.{build_from_db, ForwardingTable}
use anybus.LinkState.Forward.Total.{NotMulticast, build_from_db-some, build_from_db-none}
use anybus.Router.{
  Router, State, Event, RouterMsg, Next, go, stop, panicked, next, handle, go_or_panic, answer_cost,
  advertise_min, after_registration, change_routes, ticked, listened, build_fib, received,
  channel_closed, timer, start, listen, handle_broker_msg, route_change, dead_link, register_peer,
  unregister_peer, lsa_inbound, lsa_ack_inbound,
}

-- A peer registers on a connection that has no link yet.
abbrev pub IsFresh : State → Router → Type 0
IsFresh (handle_broker_msg (register_peer peer_id c tx cost realms)) r = get c r.lsdb.links ≡ none
IsFresh _ r = Unit {0}

abbrev pub IsSafe : Next → Type 0
IsSafe (go s r) = IsAnchored r.lsdb
IsSafe (stop r) = IsAnchored r.lsdb
IsSafe panicked = ⊥

go_or_panic-IsSafe :
    (s : State) (r : Router) (x : Option (LsDb × Wire)) → Safe x → IsSafe (go_or_panic s r x)
unfolding go_or_panic
go_or_panic-IsSafe s r x (dw, e, h) = subst (λ y. IsSafe (go_or_panic s r y)) (sym e) h

advertise_min-IsAnchored :
    (now : ℕ) (e : EndpointId) (c : Option Cost) (dw : LsDb × Wire)
    → IsAnchored dw.0
    → IsAnchored (advertise_min now e c dw).0
unfolding advertise_min
advertise_min-IsAnchored now e none dw h = h
advertise_min-IsAnchored now e (some c) dw h = update_endpoint_cost-IsAnchored now e c dw h

answer_cost-IsSafe :
    (now : ℕ) (e : EndpointId) (caller : Sender)
    (result : Result SetAnycastCostError SetAnycastCostOutcome) (d : LsDb) (r : Router)
    → IsAnchored d
    → IsSafe (answer_cost now e caller result d r)
unfolding answer_cost
answer_cost-IsSafe now e caller (ok unchanged) d r h = h
answer_cost-IsSafe now e caller (ok (changed p n a)) d r h =
    advertise_min-IsAnchored now e a (d, reply caller none r.wire) h
answer_cost-IsSafe now e caller (err x) d r h = h

handle_ack-IsAnchored :
    (c : ConnectionId) (k : LsaKey) (seq : ℕ) (d : LsDb)
    → IsAnchored d
    → IsAnchored (handle_ack c k seq d)
unfolding handle_ack
handle_ack-IsAnchored c k seq d h =
    elim (Option-cases (get (record { connection_id = c; key = k }) d.pending_tx)) [
      | inl e ↦ rw (e, handle_ack) h
      | inr (val, e) ↦ rw (e, handle_ack) h
    ]

handle-IsSafe :
    (now : ℕ) (msg : RouterMsg) (r : Router)
    → IsAnchored r.lsdb
    → IsFresh (handle_broker_msg msg) r
    → IsSafe (handle now msg r)
unfolding handle
handle-IsSafe now (RouterMsg.register_endpoint request) r h f = h
handle-IsSafe now (dead_link e) r h f = remove_endpoint-IsAnchored now e r.lsdb r.wire h
handle-IsSafe now (register_peer p c tx cost realms) r h f =
    add_peer-IsAnchored now _ (r.lsdb, r.wire) f h
handle-IsSafe now (unregister_peer c) r h f =
    let (dw, e, safe, gone) = remove_peer-Safe now c (r.lsdb, r.wire) h in
    go_or_panic-IsSafe (route_change none) r _ (dw, e, safe)
handle-IsSafe now (lsa_inbound from lsa) r h f =
    go_or_panic-IsSafe (route_change none) r _ (handle_lsa-Safe now lsa from r.lsdb r.wire h)
handle-IsSafe now (lsa_ack_inbound from k seq) r h f = handle_ack-IsAnchored from k seq r.lsdb h
handle-IsSafe now (RouterMsg.set_anycast_cost e s cost caller) r h f =
    answer_cost-IsSafe now e caller _ _ r (set_anycast_cost-IsAnchored e s cost r.lsdb h)
handle-IsSafe now RouterMsg.shutdown r h f = h

-- The database that a rebuild leaves, from the one with its paths computed.
abbrev pub settled : LsDb → LsDb
settled d = record d { rebuild_requested = none }

-- If the database is anchored and no endpoint is multicast, a rebuild succeeds: the paths are
-- computed anew and are shortest, nothing else changes but that no rebuild is requested any more,
-- and the table is the one built from that database.
pub build_fib_lem :
    (d : LsDb)
    → IsAnchored d
    → AllValues NotMulticast d.routes
    → (d' : LsDb) × (fib : ForwardingTable) × (build_fib d ≡ some (settled d', fib))
      × (build_from_db (settled d') ≡ some fib)
      × Computed d d'
unfolding build_fib
build_fib_lem d h calm =
    let (d', e, computed) = compute_spf_lem d h in
    let routes : d'.routes ≡ d.routes = ap (λ (x : LsDb). x.routes) computed.kept in
    let (fib, eq) =
      build_from_db-some (settled d') (subst (AllValues NotMulticast) (sym routes) calm) in
    (d', fib, rw (e, build_fib, eq), eq, computed)

change_routes-IsSafe :
    (request : Option RegistrationRequest) (r : Router)
    → IsAnchored r.lsdb
    → AllValues NotMulticast r.lsdb.routes
    → IsSafe (change_routes request r)
unfolding change_routes
change_routes-IsSafe request r h calm =
    let (d', fib, e, _, computed) = build_fib_lem r.lsdb h calm in
    rw (e, change_routes) (subst IsAnchored (sym computed.kept) h)

-- If the database is anchored and some endpoint of the route table is multicast, the next rebuild
-- of the forwarding table panics.
pub change_routes-panicked :
    (request : Option RegistrationRequest) (r : Router) (k : EndpointId) (e : LsRouteEntry)
    → IsAnchored r.lsdb
    → Memᴰ (k, e) r.lsdb.routes
    → e.kind ≡ multicast
    → change_routes request r ≡ panicked
unfolding change_routes build_fib
change_routes-panicked request r k e h m multi =
    let (d', eq, computed) = compute_spf_lem r.lsdb h in
    let routes : d'.routes ≡ r.lsdb.routes = ap (λ (x : LsDb). x.routes) computed.kept in
    let none_built =
      build_from_db-none (settled d') k e (subst (Memᴰ (k, e)) (sym routes) m) multi in
    rw (eq, build_fib, none_built, change_routes)

after_registration-IsSafe :
    (request : RegistrationRequest) (x : LsDb × Wire × Bool) (r : Router)
    → IsAnchored x.0
    → IsSafe (after_registration request x r)
unfolding after_registration
after_registration-IsSafe request (d, w, true) r h = h
after_registration-IsSafe request (d, w, false) r h = h

ticked-IsSafe : (x : Option (LsDb × Wire × Bool)) (r : Router) → SafeTick x → IsSafe (ticked x r)
unfolding ticked
ticked-IsSafe x r (y, e, h) = subst (λ z. IsSafe (ticked z r)) (sym e) (go_on y h)
  where
    go_on : (y : LsDb × Wire × Bool) → IsAnchored y.0 → IsSafe (ticked (some y) r)
    go_on (d, w, true) k = k
    go_on (d, w, false) k = k

listened-IsSafe : (event : Event) (r : Router) → IsAnchored r.lsdb → IsSafe (listened event r)
unfolding listened
listened-IsSafe (received msg) r h = h
listened-IsSafe channel_closed r h = h
listened-IsSafe timer r h = h

-- If the database is anchored, a registering peer has a connection without a link, and no
-- endpoint is multicast, a step of the router from any state does not panic, and the database is
-- anchored afterwards.
pub next-IsSafe :
    (now : ℕ) (event : Event) (s : State) (r : Router)
    → IsAnchored r.lsdb
    → IsFresh s r
    → AllValues NotMulticast r.lsdb.routes
    → IsSafe (next now event s r)
unfolding next
next-IsSafe now event start r h f calm = h
next-IsSafe now event listen r h f calm = listened-IsSafe event r h
next-IsSafe now event (handle_broker_msg msg) r h f calm = handle-IsSafe now msg r h f
next-IsSafe now event (State.register_endpoint request) r h f calm =
    after_registration-IsSafe request _ r (add_endpoint-IsAnchored now request r.lsdb r.wire h)
next-IsSafe now event State.shutdown r h f calm = shutdown-IsAnchored now r.lsdb r.wire
next-IsSafe now event (route_change request) r h f calm = change_routes-IsSafe request r h calm
next-IsSafe now event State.tick r h f calm = ticked-IsSafe _ r (tick-Safe now r.lsdb r.wire h)
