-- ===== src/LinkState/RouteTable/RemoteInvariant.antt =====
-- The operations of the route table that other nodes and closed channels cause keep its invariant.
use anybus.Common.{
  ◌≤◌, ◌≡◌, refl, sym, true, false, not, ◌&&◌, ◌||◌, inl, inr, List, [], ◌∷◌, find, is_empty,
  length, push, Option, none, some, ◌==◌, nat_eq, nat_beq_iff, arith, Bool-cases,
}
use anybus.Common.Assoc.{get}
use anybus.Common.Preds.{All, All-push, AllValues-insert, AllValues-remove, AllValues-get}
use anybus.Routing.{NodeId, EndpointId, unicast, kind_eq, realm_eq, kind_beq_iff}
use anybus.LinkState.{LsForwardTo, LsRoute, LsRouteEntry, EndpointInfo}
use anybus.LinkState.Wire.{Wire}
use anybus.LinkState.RouteTable.{RouteTable, entry_or}
use anybus.LinkState.RouteTable.Remote.{
  learned_from, add_remote_endpoint, remove_remote_endpoint, not_from, remote_route, with_info,
  add_remote_route, remove_remote_route,
}
use anybus.LinkState.RouteTable.Removal.{remove_endpoint, remove_closed, kept}
use anybus.LinkState.RouteTable.Validity.{
  EntryIsValid, IsValid, OfKind, Distinct-push, Apart, EntryIsValid-retain,
  EntryIsValid-update_first,
}
use anybus.LinkState.RouteTable.Invariant.{entry_or-EntryIsValid}

-- A route that no search found has another origin than every route there.
Apart-of_missing :
    (o : NodeId) (rs : List LsRoute)
    → find (λ (r : LsRoute). learned_from o r.via) rs ≡ none
    → All (λ (x : LsRoute). Apart x.via (LsForwardTo.remote o)) rs
Apart-of_missing o [] h = tt
Apart-of_missing o (x ∷ rs) h = elim (Bool-cases (learned_from o x.via)) [
  | inl t ↦ absurd (ground arith)
  | inr f ↦ (go x.via f, Apart-of_missing o rs (ground arith))
]
  where
    go : (v : LsForwardTo) → learned_from o v ≡ false → Apart v (LsForwardTo.remote o)
    go (LsForwardTo.local s) e = tt
    go (LsForwardTo.remote n) e =
        unfold learned_from in ground (arith, nat_beq_iff n o, nat_beq_iff o n)

push_remote :
    (entry : LsRouteEntry) (info : EndpointInfo) (o : NodeId)
    → EntryIsValid entry
    → entry.kind ≡ info.kind
    → find (λ (r : LsRoute). learned_from o r.via) entry.routes ≡ none
    → ((entry.kind == unicast) && not (is_empty entry.routes)) ≡ false
    → EntryIsValid (record entry { routes = push entry.routes (remote_route info o) })
push_remote entry info o v same missing room = record {
  same_kind = All-push (OfKind entry.kind) entry.routes _ v.same_kind (sym same);
  single = λ e. one entry.routes (ground (arith, kind_beq_iff entry.kind unicast));
  distinct =
      Distinct-push entry.routes (remote_route info o) (Apart-of_missing o entry.routes missing)
        refl v.distinct;
}
  where
    one : (rs : List LsRoute) → is_empty rs ≡ true → length (push rs (remote_route info o)) ≤ 1
    one [] h = omega arith
    one (x ∷ rs) h = cc

add_remote_route-EntryIsValid :
    (o : NodeId) (info : EndpointInfo) (entry : LsRouteEntry) (found : Option LsRoute)
    → EntryIsValid entry
    → entry.kind ≡ info.kind
    → find (λ (r : LsRoute). learned_from o r.via) entry.routes ≡ found
    → EntryIsValid (record entry { routes = (add_remote_route o info entry found).0 })
unfolding add_remote_route
add_remote_route-EntryIsValid o info entry (some existing) v same h =
    elim (Bool-cases (not (existing.cost == info.cost) || not (existing.realm == info.realm))) [
      | inl t ↦ rw t (
          EntryIsValid-update_first _ (with_info info)
            (record { same_via = λ r. refl; same_kind = λ r. refl }) entry v)
      | inr f ↦ rw f v
    ]
add_remote_route-EntryIsValid o info entry none v same h =
    elim (Bool-cases ((entry.kind == unicast) && not (is_empty entry.routes))) [
      | inl t ↦ rw t v
      | inr f ↦ rw f (push_remote entry info o v same h f)
    ]

-- A remote route that is learned or updated, also one that is refused, leaves a valid table
-- valid.
pub add_remote_endpoint-IsValid :
    (e : EndpointId) (o : NodeId) (info : EndpointInfo) (table : RouteTable)
    → IsValid table
    → IsValid (add_remote_endpoint e o info table).0
unfolding add_remote_endpoint
add_remote_endpoint-IsValid e o info table v =
    let entry = entry_or e info.kind table in
    let good = entry_or-EntryIsValid e info.kind table v in
    elim (Bool-cases (entry.kind == info.kind)) [
      | inl h ↦ rw h (
          AllValues-insert EntryIsValid e _ table
            (add_remote_route-EntryIsValid o info entry _ good ((kind_beq_iff _ _).0 h) refl) v)
      | inr h ↦ rw h (AllValues-insert EntryIsValid e entry table good v)
    ]

remove_remote_route-IsValid :
    (e : EndpointId) (o : NodeId) (found : Option LsRouteEntry) (table : RouteTable)
    → IsValid table
    → get e table ≡ found
    → IsValid (remove_remote_route e o found table).0
unfolding remove_remote_route
remove_remote_route-IsValid e o none table v h = v
remove_remote_route-IsValid e o (some entry) table v h =
    elim (Bool-cases (is_empty (not_from o entry.routes))) [
      | inl t ↦ rw t (AllValues-remove EntryIsValid e table v)
      | inr f ↦ rw f (
          AllValues-insert EntryIsValid e _ table
            (EntryIsValid-retain entry _ (AllValues-get EntryIsValid e table entry v h)) v)
    ]

-- A remote route that is withdrawn leaves a valid table valid.
pub remove_remote_endpoint-IsValid :
    (e : EndpointId) (o : NodeId) (table : RouteTable)
    → IsValid table
    → IsValid (remove_remote_endpoint e o table).0
unfolding remove_remote_endpoint
remove_remote_endpoint-IsValid e o table v =
    remove_remote_route-IsValid e o (get e table) table v refl

remove_closed-IsValid :
    (w : Wire) (e : EndpointId) (found : Option LsRouteEntry) (table : RouteTable)
    → IsValid table
    → get e table ≡ found
    → IsValid (remove_closed w e found table).0
unfolding remove_closed
remove_closed-IsValid w e none table v h = v
remove_closed-IsValid w e (some entry) table v h =
    elim (Bool-cases (is_empty (kept w entry.routes))) [
      | inl t ↦ rw t (AllValues-remove EntryIsValid e table v)
      | inr f ↦ rw f (
          AllValues-insert EntryIsValid e _ table
            (EntryIsValid-retain entry _ (AllValues-get EntryIsValid e table entry v h)) v)
    ]

-- The removal of an endpoint's closed listeners leaves a valid table valid.
pub remove_endpoint-IsValid :
    (w : Wire) (e : EndpointId) (table : RouteTable)
    → IsValid table
    → IsValid (remove_endpoint w e table).0
unfolding remove_endpoint
remove_endpoint-IsValid w e table v = remove_closed-IsValid w e (get e table) table v refl
