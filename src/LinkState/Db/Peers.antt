-- ===== src/LinkState/Db/Peers.antt =====
-- Peers that come and go: `add_peer`, `add_adjacency` and `remove_peer` of db.rs.
use anybus.Common.{
  ℕ, not, List, retain, length, push, Option, none, some, ◌==◌, if◌then◌else◌, nat_eq, ltb,
}
use anybus.Common.Assoc.{get, insert, remove}
use anybus.Routing.{ConnectionId}
use anybus.LinkState.{Lsa, key_eq, LsaBody, LsaRecord, router, endpoint, Adjacency, Link}
use anybus.LinkState.Wire.{Wire}
use anybus.LinkState.Db.{
  LsDb, own_key, empty_record, bump, request_rebuild, flood_all_neighbors, flood_peer,
}
use anybus.LinkState.Db.Lsas.{then_spf}

abbrev pub adjacency_of : Link → Adjacency
adjacency_of link = record {
  connection_id = link.connection_id;
  peer_id = link.peer_id;
  cost = link.cost;
  realms = link.realms;
}

-- Our own router LSA, made if it is not there.
unfoldable pub root_record : ℕ → LsDb → LsaRecord
root_record now d = elim (get (own_key d.self_id) d.db) [
  | none ↦ empty_record d.self_id now
  | some r ↦ r
]

abbrev pub with_adjacencies : ℕ → LsaRecord → List Adjacency → LsaRecord
with_adjacencies now r adjacencies =
    let lsa = r.lsa in
    record { lsa = record lsa { seq = bump lsa.seq; body = router adjacencies }; updated_at = now }

unfoldable pub push_adjacency : ℕ → Adjacency → LsaRecord → LsaBody → LsDb → LsDb × Option Lsa
push_adjacency now adjacency r (router adjacencies) d =
    let r' = with_adjacencies now r (push adjacencies adjacency) in
    (record d { db = insert (own_key d.self_id) r' d.db }, some r'.lsa)
push_adjacency now adjacency r (endpoint info) d =
    (record d { db = insert (own_key d.self_id) r d.db }, none)

unfoldable pub add_adjacency : ℕ → Link → LsDb → LsDb × Option Lsa
unfolding push_adjacency root_record
add_adjacency now link d =
    let r = root_record now d in push_adjacency now (adjacency_of link) r r.lsa.body d

unfoldable pub connect : ℕ → Link → Wire → LsDb × Option Lsa → LsDb × Wire
unfolding request_rebuild flood_all_neighbors flood_peer
connect now link w (d, none) = (d, w)
connect now link w (d, some lsa) =
    let d' = record d { links = insert link.connection_id link d.links } in
    flood_peer link.connection_id
      (flood_all_neighbors lsa (some link.connection_id) (request_rebuild now d', w))

unfoldable pub add_peer : ℕ → Link → LsDb × Wire → LsDb × Wire
unfolding add_adjacency connect
add_peer now link (d, w) = connect now link w (add_adjacency now link d)

unfoldable pub without : ConnectionId → List Adjacency → List Adjacency
without connection_id adjacencies =
    retain (λ (adj : Adjacency). not (adj.connection_id == connection_id)) adjacencies

unfoldable pub drop_adjacency : ℕ → ConnectionId → LsaRecord → LsaBody → LsDb × Wire → LsDb × Wire
unfolding without flood_all_neighbors
drop_adjacency now connection_id r (endpoint info) dw = dw
drop_adjacency now connection_id r (router adjacencies) (d, w) =
    let rest = without connection_id adjacencies in
    let r' = with_adjacencies now r rest in
    if ltb (length rest) (length adjacencies)
    then flood_all_neighbors r'.lsa none (record d { db = insert (own_key d.self_id) r' d.db }, w)
    else (
      record d {
        db =
            insert (own_key d.self_id)
              (record r { lsa = (let lsa = r.lsa in record lsa { body = router rest }) }) d.db;
      },
      w,
    )

unfoldable pub drop_own_adjacency : ℕ → ConnectionId → LsDb × Wire → LsDb × Wire
unfolding drop_adjacency
drop_own_adjacency now connection_id (d, w) = elim (get (own_key d.self_id) d.db) [
  | none ↦ (d, w)
  | some r ↦ drop_adjacency now connection_id r r.lsa.body (d, w)
]

-- `none` is a panic of `compute_spf`.
unfoldable pub remove_peer : ℕ → ConnectionId → LsDb × Wire → Option (LsDb × Wire)
unfolding drop_own_adjacency
remove_peer now connection_id (d, w) = elim (get connection_id d.links) [
  | none ↦ some (d, w)
  | some link ↦
      then_spf (
        drop_own_adjacency now connection_id (record d { links = remove connection_id d.links }, w))
]
