-- ===== src/LinkState/Forward/Total.antt =====
-- When the forwarding table can be built: `todo!()` is reached exactly for multicast endpoints.
use anybus.Common.{
  ◌≡◌, ◌≢◌, refl, inl, inr, List, [], ◌∷◌, Option, none, some, Memᴰ, Option-cases, ap, sym, ◌∙◌,
}
use anybus.Common.Assoc.{HashMap}
use anybus.Common.Preds.{AllValues}
use anybus.Routing.{EndpointId, RouteKind, unicast, anycast, broadcast, multicast, node}
use anybus.LinkState.{LsRoute, LsRouteEntry}
use anybus.LinkState.Db.{LsDb}
use anybus.LinkState.Forward.{
  FibEntry, ForwardingTable, Built, entry, skipped, panicked, build_entry, built, put_entry,
  build_table, build_from_db, table_of,
}

abbrev pub NotMulticast : LsRouteEntry → Type 0
NotMulticast e = e.kind ≢ multicast

built_ne_panicked : (o : Option FibEntry) → built o ≢ panicked
unfolding built
built_ne_panicked none h = cc
built_ne_panicked (some e) h = cc

build_entry_lem :
    (d : LsDb) (k : RouteKind) (routes : List LsRoute)
    → k ≢ multicast
    → build_entry d k routes ≢ panicked
unfolding build_entry
build_entry_lem d anycast routes ne = built_ne_panicked _
build_entry_lem d unicast routes ne = built_ne_panicked _
build_entry_lem d node routes ne = built_ne_panicked _
build_entry_lem d broadcast routes ne = built_ne_panicked _
build_entry_lem d multicast routes ne = absurd (ne refl)

put_entry-some :
    (k : EndpointId) (b : Built) (table : HashMap EndpointId FibEntry)
    → b ≢ panicked
    → (t : HashMap EndpointId FibEntry) × (put_entry k b table ≡ some t)
unfolding put_entry
put_entry-some k (entry e) table ne = (_, refl)
put_entry-some k skipped table ne = (table, refl)
put_entry-some k panicked table ne = absurd (ne refl)

build_table-some :
    (d : LsDb) (routes : List (EndpointId × LsRouteEntry)) (table : HashMap EndpointId FibEntry)
    → AllValues NotMulticast routes
    → (t : HashMap EndpointId FibEntry) × (build_table d routes table ≡ some t)
unfolding build_table
build_table-some d [] table h = (table, refl)
build_table-some d ((k, e) ∷ routes) table h =
    let b = build_entry d e.kind e.routes in
    let (t', put) = put_entry-some k b table (build_entry_lem d e.kind e.routes h.0) in
    let (t, eq) = build_table-some d routes t' h.1 in (t, rw (put, build_table) eq)

build_table-none :
    (d : LsDb) (routes : List (EndpointId × LsRouteEntry)) (table : HashMap EndpointId FibEntry)
    (k : EndpointId) (e : LsRouteEntry)
    → Memᴰ (k, e) routes
    → e.kind ≡ multicast
    → build_table d routes table ≡ none
unfolding build_table build_entry put_entry
build_table-none d [] table k e m h = elim m [ ]
build_table-none d ((j, x) ∷ routes) table k e (Memᴰ.head p) h =
    let same : x.kind ≡ multicast = sym (ap (λ (q : EndpointId × LsRouteEntry). q.1.kind) p) ∙ h in
    rw (same, build_table, build_entry, put_entry)
build_table-none d ((j, x) ∷ routes) table k e (Memᴰ.tail m) h =
    elim (Option-cases (put_entry j (build_entry d x.kind x.routes) table)) [
      | inl gone ↦ rw (gone, build_table)
      | inr (t, put) ↦ rw (put, build_table) (build_table-none d routes t k e m h)
    ]

-- The table is built if no endpoint is multicast.
pub build_from_db-some :
    (d : LsDb)
    → AllValues NotMulticast d.routes
    → (fib : ForwardingTable) × (build_from_db d ≡ some fib)
unfolding build_from_db
build_from_db-some d h =
    let (t, eq) = build_table-some d d.routes [] h in (table_of d t, rw (eq, build_from_db))

-- One multicast endpoint is enough for the panic.
pub build_from_db-none :
    (d : LsDb) (k : EndpointId) (e : LsRouteEntry)
    → Memᴰ (k, e) d.routes
    → e.kind ≡ multicast
    → build_from_db d ≡ none
unfolding build_from_db
build_from_db-none d k e m h = rw (build_table-none d d.routes [] k e m h, build_from_db)
