-- ===== src/LinkState/Db/Refresh.antt =====
-- The timers of the database: `tick`, `refresh_and_purge_lsas` and `purge_stale_lsas` of db.rs.
use anybus.Common.{
  ℕ, ◌+◌, ◌/◌, Bool, true, false, List, [], ◌∷◌, Option, none, some, ◌==◌, if◌then◌else◌, nat_eq,
  ltb,
}
use anybus.Common.Assoc.{HashMap}
use anybus.LinkState.{Lsa, LsaKey, LsaRecord}
use anybus.LinkState.Wire.{Wire}
use anybus.LinkState.Db.{LsDb, bump, request_rebuild, flood_all_neighbors}
use anybus.LinkState.Db.Lsas.{then_spf}

unfoldable pub when_tick : LsDb → ℕ
when_tick d = d.last_tick + 50

-- `record.updated_at + self.lsa_timeout / 3 < now`.
unfoldable pub is_due : LsDb → ℕ → LsaRecord → Bool
is_due d now r =
    if r.lsa.key.origin == d.self_id then ltb (r.updated_at + d.lsa_timeout / 3) now else false

abbrev pub refreshed : ℕ → LsaRecord → LsaRecord
refreshed now r =
    let lsa = r.lsa in record { lsa = record lsa { seq = bump lsa.seq }; updated_at = now }

-- Our own records that are due, as they are afterwards, and the LSAs to flood.
unfoldable pub refresh_records :
    LsDb → ℕ → HashMap LsaKey LsaRecord → HashMap LsaKey LsaRecord × List Lsa
unfolding is_due
refresh_records d now [] = ([], [])
refresh_records d now ((k, r) ∷ db) =
    let (rest, to_flood) = refresh_records d now db in
    if is_due d now r
    then ((k, refreshed now r) ∷ rest, (refreshed now r).lsa ∷ to_flood)
    else ((k, r) ∷ rest, to_flood)

unfoldable pub flood_all : List Lsa → LsDb × Wire → LsDb × Wire
unfolding flood_all_neighbors
flood_all [] dw = dw
flood_all (lsa ∷ lsas) dw = flood_all lsas (flood_all_neighbors lsa none dw)

unfoldable pub is_stale : LsDb → ℕ → LsaRecord → Bool
is_stale d now r = ltb (r.updated_at + d.lsa_timeout) now

-- `extract_if(..).peekable()` and one `peek`: the first stale record goes. `ExtractIf` keeps what it
-- has not reached.
unfoldable pub extract_first : LsDb → ℕ → HashMap LsaKey LsaRecord → HashMap LsaKey LsaRecord × Bool
unfolding is_stale
extract_first d now [] = ([], false)
extract_first d now ((k, r) ∷ db) =
    let (rest, found) = extract_first d now db in
    if is_stale d now r then (db, true) else ((k, r) ∷ rest, found)

-- `dirty || to_purge.map(..).any(..)`: if the peek found a record the rest is not evaluated, and if
-- it found none the iterator is at its end.
unfoldable pub purge_stale_lsas : ℕ → LsDb → LsDb × Bool
unfolding extract_first
purge_stale_lsas now d = let (db, dirty) = extract_first d now d.db in (record d { db = db }, dirty)

unfoldable pub rebuilt : ℕ → LsDb × Wire → LsDb × Wire
unfolding request_rebuild
rebuilt now (d, w) = (request_rebuild now d, w)

unfoldable pub stamp : ℕ → LsDb × Wire → LsDb × Wire
stamp now (d, w) = (record d { last_refresh = now }, w)

unfoldable pub purge : ℕ → LsDb × Wire → Option (LsDb × Wire)
unfolding purge_stale_lsas then_spf rebuilt
purge now (d, w) =
    let (d', dirty) = purge_stale_lsas now d in
    if dirty
    then elim (then_spf (d', w)) [ none ↦ none | some dw ↦ some (rebuilt now dw) ]
    else some (d', w)

unfoldable pub then_stamp : ℕ → Option (LsDb × Wire) → Option (LsDb × Wire)
unfolding stamp
then_stamp now none = none
then_stamp now (some dw) = some (stamp now dw)

unfoldable pub refresh_and_purge_lsas : ℕ → LsDb × Wire → Option (LsDb × Wire)
unfolding refresh_records flood_all purge then_stamp
refresh_and_purge_lsas now (d, w) =
    let (db, to_flood) = refresh_records d now d.db in
    then_stamp now (purge now (flood_all to_flood (record d { db = db }, w)))

unfoldable pub take_request : LsDb × Wire → LsDb × Wire × Bool
take_request (d, w) = elim d.rebuild_requested [
  | none ↦ (d, w, false)
  | some at ↦ (record d { rebuild_requested = none }, w, true)
]

-- The last part tells the router to rebuild the forwarding table; `none` is a panic.
unfoldable pub tick : ℕ → LsDb × Wire → Option (LsDb × Wire × Bool)
unfolding refresh_and_purge_lsas take_request
tick now (d, w) =
    let d₁ = record d { last_tick = now } in
    if ltb (d.last_refresh + d.lsa_timeout / 3) now
    then elim (refresh_and_purge_lsas now (d₁, w)) [
      | none ↦ none
      | some dw ↦ some (take_request dw)
    ]
    else some (take_request (d₁, w))
