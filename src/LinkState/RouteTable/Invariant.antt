-- ===== src/LinkState/RouteTable/Invariant.antt =====
-- Every operation of the route table keeps its invariant.
use anybus.Common.{
  ◌≤◌, ◌≡◌, refl, sym, true, inl, inr, List, [], ◌∷◌, is_empty, length, update_first, push, Option,
  none, some, ◌==◌, nat_eq, arith, Bool-cases, Option-cases,
}
use anybus.Common.Assoc.{get, insert}
use anybus.Common.Preds.{All, All-push, AllValues-insert, AllValues-get}
use anybus.Routing.{EndpointId, RouteKind, unicast, anycast, node, kind_eq, kind_beq_iff, Cost}
use anybus.LinkState.{LsForwardTo, LsRoute, LsRouteEntry, EndpointInfo, Sender}
use anybus.LinkState.RouteTable.{
  RouteTable, Effects, entry_or, add_endpoint, set_anycast_cost, local_route, with_cost, sends_to,
  Result, ok, err, add_local, store, RouteTableError, mismatched_route_kind, set_cost_entry,
  set_cost_in,
}
use anybus.LinkState.RouteTable.Remote.{learned_from}
use anybus.LinkState.RouteTable.Validity.{
  EntryIsValid, IsValid, OfKind, Distinct-push, Apart, EntryIsValid-update_first,
}

empty-EntryIsValid : (k : RouteKind) → EntryIsValid (record { routes = []; kind = k })
empty-EntryIsValid k = record { same_kind = tt; single = λ e. omega arith; distinct = tt }

pub entry_or-EntryIsValid :
    (e : EndpointId) (k : RouteKind) (table : RouteTable)
    → IsValid table
    → EntryIsValid (entry_or e k table)
unfolding entry_or
entry_or-EntryIsValid e k table v = elim (Option-cases (get e table)) [
  | inl h ↦ rw (h, entry_or) (empty-EntryIsValid k)
  | inr (en, h) ↦ rw (h, entry_or) (AllValues-get EntryIsValid e table en v h)
]

-- A local route, at the end of routes that allow one more, leaves them valid.
push_local :
    (entry : LsRouteEntry) (info : EndpointInfo) (s : Sender)
    → EntryIsValid entry
    → entry.kind ≡ info.kind
    → (entry.kind ≡ unicast → is_empty entry.routes ≡ true)
    → EntryIsValid (record entry { routes = push entry.routes (local_route info s) })
push_local entry info s v same room = record {
  same_kind = All-push (OfKind entry.kind) entry.routes _ v.same_kind (sym same);
  single = λ e. one entry.routes (room e);
  distinct = Distinct-push entry.routes (local_route info s) (apart entry.routes) tt v.distinct;
}
  where
    one : (rs : List LsRoute) → is_empty rs ≡ true → length (push rs (local_route info s)) ≤ 1
    one [] h = omega arith
    one (x ∷ rs) h = cc

    apart_from : (via : LsForwardTo) → Apart via (LsForwardTo.local s)
    apart_from (LsForwardTo.local x) = tt
    apart_from (LsForwardTo.remote o) = unfold learned_from in refl

    apart : (rs : List LsRoute) → All (λ (x : LsRoute). Apart x.via (LsForwardTo.local s)) rs
    apart [] = tt
    apart (x ∷ rs) = (apart_from x.via, apart rs)

abbrev Keeps : LsRouteEntry → Result RouteTableError (List LsRoute × Effects) → Type 0
Keeps entry (ok (routes, effect)) = EntryIsValid (record entry { routes = routes })
Keeps entry (err e) = Unit {0}

add_local-Keeps :
    (k : RouteKind) (e : EndpointId) (info : EndpointInfo) (s : Sender) (entry : LsRouteEntry)
    → EntryIsValid entry
    → entry.kind ≡ info.kind
    → info.kind ≡ k
    → Keeps entry (add_local k e info (local_route info s) entry.routes)
unfolding add_local
add_local-Keeps unicast e info s entry v same known = elim (Bool-cases (is_empty entry.routes)) [
  | inl h ↦ rw h (push_local entry info s v same (λ _. h))
  | inr h ↦ rw h tt
]
add_local-Keeps node e info s entry v same known = v
add_local-Keeps _ e info s entry v same known = push_local entry info s v same (λ u. cc)

store-IsValid :
    (e : EndpointId) (entry : LsRouteEntry) (table : RouteTable)
    (r : Result RouteTableError (List LsRoute × Effects))
    → IsValid table
    → EntryIsValid entry
    → Keeps entry r
    → IsValid (store e entry table r).0
unfolding store
store-IsValid e entry table (ok (routes, effect)) v w k =
    AllValues-insert EntryIsValid e (record entry { routes = routes }) table k v
store-IsValid e entry table (err x) v w k = AllValues-insert EntryIsValid e entry table w v

-- A local listener that is added, also one that is refused, leaves a valid table valid.
pub add_endpoint-IsValid :
    (e : EndpointId) (info : EndpointInfo) (s : Sender) (table : RouteTable)
    → IsValid table
    → IsValid (add_endpoint e info s table).0
unfolding add_endpoint
add_endpoint-IsValid e info s table v =
    let entry = entry_or e info.kind table in
    let good = entry_or-EntryIsValid e info.kind table v in
    elim (Bool-cases (entry.kind == info.kind)) [
      | inl h ↦ rw h (
          store-IsValid e entry table _ v good
            (add_local-Keeps info.kind e info s entry good ((kind_beq_iff _ _).0 h) refl))
      | inr h ↦ rw h (store-IsValid e entry table (err mismatched_route_kind) v good tt)
    ]

-- A change of the cost of an anycast listener, also one that is refused, leaves a valid table
-- valid.
pub set_anycast_cost-IsValid :
    (e : EndpointId) (s : Sender) (cost : Cost) (table : RouteTable)
    → IsValid table
    → IsValid (set_anycast_cost e s cost table).0
unfolding set_anycast_cost
set_anycast_cost-IsValid e s cost table v = on_entry (get e table) refl
  where
    changed :
        (entry : LsRouteEntry)
        → EntryIsValid entry
        → IsValid (
            insert e
              (record entry {
                routes =
                    update_first (λ (r : LsRoute). sends_to s r.via) (with_cost cost) entry.routes;
              })
              table)
    changed entry w =
        AllValues-insert EntryIsValid e _ table
          (EntryIsValid-update_first _ (with_cost cost)
            (record { same_via = λ r. refl; same_kind = λ r. refl }) entry w)
          v

    on_route :
        (entry : LsRouteEntry) (found : Option LsRoute)
        → EntryIsValid entry
        → IsValid (set_cost_in e s cost entry found table).0
    on_route entry none w = v
    on_route entry (some route) w = elim (Bool-cases (route.cost == cost)) [
      | inl h ↦ rw h v
      | inr h ↦ rw h (changed entry w)
    ]

    on_entry :
        (found : Option LsRouteEntry)
        → get e table ≡ found
        → IsValid (set_cost_entry e s cost found table).0
    on_entry none h = v
    on_entry (some entry) h = elim (Bool-cases (entry.kind == anycast)) [
      | inl t ↦ rw t (on_route entry _ (AllValues-get EntryIsValid e table entry v h))
      | inr f ↦ rw f v
    ]
