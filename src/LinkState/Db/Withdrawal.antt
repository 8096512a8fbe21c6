-- ===== src/LinkState/Db/Withdrawal.antt =====
-- When the LSA of a local endpoint is withdrawn: `remove_endpoint` of db.rs and route_table.rs.
use anybus.Common.{
  ℕ, ◌≡◌, refl, subst, inl, inr, true, false, List, Option, none, some, arith, is_empty, ◌==◌,
  Bool-cases, Option-cases, length, nat_eq,
}
use anybus.Common.Assoc.{get, get-remove}
use anybus.Routing.{EndpointId, ConnectionId, anycast, kind_eq}
use anybus.LinkState.{Lsa, LsRoute, LsRouteEntry, key_eq, key_beq_iff}
use anybus.LinkState.Wire.{Wire}
use anybus.LinkState.RouteTable.{RouteTable, Effects, min_local_cost}
use anybus.LinkState.RouteTable.Removal.{kept, remove_closed, anycast_removal, shrunk}
use anybus.LinkState.RouteTable.Removal
use anybus.LinkState.Db.{LsDb, request_rebuild, flood_all_neighbors}
use anybus.LinkState.Db.Endpoints.{remove_endpoint, removed, withdraw, endpoint_key}

-- An effect of `remove_endpoint` that leaves the database and the channels alone.
abbrev IsQuiet : Effects → Type 0
IsQuiet x = (now : ℕ) (dw : LsDb × Wire) → removed now x dw ≡ dw

shrunk-IsQuiet : (before after : List LsRoute) → IsQuiet (shrunk before after)
unfolding shrunk removed
shrunk-IsQuiet before after now dw = elim (Bool-cases (length before == length after)) [
  | inl t ↦ rw (t, removed)
  | inr f ↦ rw (f, removed)
]

remove_closed-IsQuiet :
    (w : Wire) (e : EndpointId) (entry : LsRouteEntry) (table : RouteTable)
    → is_empty (kept w entry.routes) ≡ false
    → min_local_cost (kept w entry.routes) ≡ none
    → IsQuiet (remove_closed w e (some entry) table).1
unfolding remove_closed anycast_removal
remove_closed-IsQuiet w e entry table left none_local now dw =
    elim (Bool-cases (entry.kind == anycast)) [
      | inl t ↦ rw (left, t, none_local, anycast_removal) (shrunk-IsQuiet entry.routes _ now dw)
      | inr f ↦ rw (left, f) (shrunk-IsQuiet entry.routes _ now dw)
    ]

pub request_rebuild_lem :
    (now : ℕ) (d : LsDb)
    → ((request_rebuild now d).db ≡ d.db) × ((request_rebuild now d).self_id ≡ d.self_id)
unfolding request_rebuild
request_rebuild_lem now d = elim (Option-cases d.rebuild_requested) [
  | inl e ↦ rw (e, request_rebuild) (refl, refl)
  | inr (at, e) ↦ rw (e, request_rebuild) (refl, refl)
]

-- If none of an endpoint's open listeners is local, but routes of it to other nodes remain, the
-- removal of its closed listeners changes no record of the database, our own LSA of the endpoint
-- included, and sends nothing.
pub remove_endpoint-remote :
    (now : ℕ) (e : EndpointId) (d : LsDb) (w : Wire) (entry : LsRouteEntry)
    → get e d.routes ≡ some entry
    → is_empty (kept w entry.routes) ≡ false
    → min_local_cost (kept w entry.routes) ≡ none
    → ((remove_endpoint now e (d, w)).0.db ≡ d.db) × ((remove_endpoint now e (d, w)).1 ≡ w)
unfolding remove_endpoint Removal.remove_endpoint
remove_endpoint-remote now e d w entry found left none_local =
    rw (found, remove_closed-IsQuiet w e entry d.routes left none_local now _)
      ((request_rebuild_lem now _).0, refl)

flood_all_neighbors_lem :
    (lsa : Lsa) (c : Option ConnectionId) (dw : LsDb × Wire)
    → (flood_all_neighbors lsa c dw).0.db ≡ dw.0.db
unfolding flood_all_neighbors
flood_all_neighbors_lem lsa c dw = refl

withdraw_lem :
    (e : EndpointId) (d : LsDb) (w : Wire) → get (endpoint_key d e) (withdraw e (d, w)).0.db ≡ none
unfolding withdraw
withdraw_lem e d w = elim (Option-cases (get (endpoint_key d e) d.db)) [
  | inl gone ↦ rw (gone, withdraw) gone
  | inr (r, here) ↦
      rw (here, withdraw, flood_all_neighbors_lem _ _ _)
        (ground (
          arith,
          get-remove (endpoint_key d e) (endpoint_key d e) d.db,
          key_beq_iff (endpoint_key d e) (endpoint_key d e),
        ))
]

-- If no route of an endpoint remains once its closed listeners are gone, its removal takes our
-- LSA of it out of the database.
pub remove_endpoint-last :
    (now : ℕ) (e : EndpointId) (d : LsDb) (w : Wire) (entry : LsRouteEntry)
    → get e d.routes ≡ some entry
    → is_empty (kept w entry.routes) ≡ true
    → get (endpoint_key d e) (remove_endpoint now e (d, w)).0.db ≡ none
unfolding remove_endpoint Removal.remove_endpoint remove_closed removed
remove_endpoint-last now e d w entry found gone =
    rw (found, remove_closed, gone, removed)
      (subst (λ n. get (record { origin = n; endpoint_id = e }) (withdraw e (d₁, w)).0.db ≡ none)
        (request_rebuild_lem now (record d { routes = (Removal.remove_endpoint w e d.routes).0 })).1
        (withdraw_lem e d₁ w))
  where
    d₁ : LsDb
    d₁ = request_rebuild now (record d { routes = (Removal.remove_endpoint w e d.routes).0 })
