-- ===== src/Examples/Machine.antt =====
-- The router's theorems at concrete inputs.
use anybus.Common.{◌≡◌, refl, none, some, [], ◌∷◌, Memᴰ, nat_eq}
use anybus.Common.Assoc.{get}
use anybus.Routing.{RouteKind, anycast, multicast, global}
use anybus.LinkState.{LsRouteEntry}
use anybus.LinkState.Db.{LsDb}
use anybus.LinkState.Db
use anybus.LinkState.Db.Anchor.{IsAnchored, new-IsAnchored, Computed}
use anybus.LinkState.Forward.{ForwardingTable, build_from_db}
use anybus.LinkState.Forward
use anybus.Router.{
  Router, start, listen, handle_broker_msg, timer, received, register_peer, lsa_inbound, RouterMsg,
  next, new, change_routes, build_fib, panicked,
}
use anybus.Router.Safety.{IsSafe, next-IsSafe, settled, build_fib_lem, change_routes-panicked}
use anybus.Router.Traces.{Run, Run-IsSafe}
use anybus.Router.Routes.{HasRoutes, next-HasRoutes}
use anybus.Examples.{open_wire, first_db, lsa_two}

abbrev first_router : Router
first_router = new 1 0 open_wire

first_router-IsAnchored : IsAnchored first_router.lsdb
unfolding new
first_router-IsAnchored = new-IsAnchored 1 0

next-IsSafe_example : IsSafe (next 9 timer (handle_broker_msg (lsa_inbound 1 lsa_two)) first_router)
unfolding new Db.new
next-IsSafe_example =
    next-IsSafe 9 timer (handle_broker_msg (lsa_inbound 1 lsa_two)) first_router
      first_router-IsAnchored tt tt

-- The registration of peer 2.
abbrev peer_two : RouterMsg
peer_two = register_peer 2 1 7 5 (global ∷ [])

listening : Run 1 0 open_wire listen first_router
unfolding new Db.new next
listening =
    Run.step 1 timer start listen first_router first_router (Run.begin start first_router refl refl)
      (tt, tt) refl

registering : Run 1 0 open_wire (handle_broker_msg peer_two) first_router
unfolding new Db.new next
registering =
    Run.step 2 (received peer_two) listen (handle_broker_msg peer_two) first_router first_router
      listening (tt, tt) refl

Run-IsSafe_example : IsSafe (next 3 timer (handle_broker_msg peer_two) first_router)
unfolding new Db.new get
Run-IsSafe_example =
    Run-IsSafe 1 0 open_wire 3 timer (handle_broker_msg peer_two) first_router registering
      (refl, tt)

abbrev entry_of : RouteKind → LsRouteEntry
entry_of kind = record { routes = []; kind = kind }

abbrev db_with : RouteKind → LsDb
db_with kind = record first_db { routes = (10, entry_of kind) ∷ [] }

db_with-IsAnchored : (kind : RouteKind) → IsAnchored (db_with kind)
db_with-IsAnchored kind = new-IsAnchored 1 0

build_fib_lem_example :
    (d' : LsDb) × (fib : ForwardingTable) × (build_fib (db_with anycast) ≡ some (settled d', fib))
    × (build_from_db (settled d') ≡ some fib)
    × Computed (db_with anycast) d'
build_fib_lem_example = build_fib_lem (db_with anycast) (db_with-IsAnchored anycast) ((λ e. cc), tt)

abbrev multicast_router : Router
multicast_router = record { lsdb = db_with multicast; fib = Forward.new 1; wire = open_wire }

change_routes-panicked_example : change_routes none multicast_router ≡ panicked
change_routes-panicked_example =
    change_routes-panicked none multicast_router 10 (entry_of multicast)
      (db_with-IsAnchored multicast) (Memᴰ.head refl) refl

next-HasRoutes_example :
    HasRoutes (next 9 timer (handle_broker_msg (lsa_inbound 1 lsa_two)) first_router)
unfolding new Db.new
next-HasRoutes_example =
    next-HasRoutes 9 timer (handle_broker_msg (lsa_inbound 1 lsa_two)) first_router tt
