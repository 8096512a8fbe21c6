-- ===== src/LinkState/Db.antt =====
-- `struct LsDb` of src/routing/linkstate/db.rs, its constructor and what it sends to its neighbours.
-- An operation takes the database and the channels (`Wire`), and gives both as it leaves them; the
-- clock is an argument, read once for each operation.
pub mod Paths
pub mod Anchor
pub mod Keeps
pub mod RemoteSafe
pub mod PeerSafe
pub mod PeerGone
pub mod EndpointSafe
pub mod RefreshSafe
pub mod Purge
pub mod Withdrawal
pub mod Versions
pub mod Authority
pub mod Flooding
pub mod Acks
pub mod RoutesValid
pub mod RoutesKept
pub mod Lsas
pub mod Peers
pub mod Endpoints
pub mod Refresh
use anybus.Common.{
  ℕ, ◌+◌, ◌%◌, Bool, true, false, ◌&&◌, ◌||◌, List, [], ◌∷◌, Option, none, some, PartialEq, ◌==◌,
  ◌≡◌, ◌↔◌, arith, if◌then◌else◌, nat_eq, nat_beq, ltb,
}
use anybus.Common.Assoc.{HashMap, get, insert, remove, values}
use anybus.Routing.{NodeId, ConnectionId, Cost}
use anybus.LinkState.{Lsa, LsaKey, key_beq, key_beq_iff, key_eq, LsaRecord, Link, router}
use anybus.LinkState.Wire.{Wire}
use anybus.LinkState.Links.{SendResult, send_lsa, send_lsa_ack}
use anybus.LinkState.RouteTable.{RouteTable}

-- The key `(ConnectionId, LsaKey)` of a message that waits for its ack.
pub record PendingKey : Type 0 where
  pub connection_id : ConnectionId
  pub key : LsaKey

abbrev pub pending_beq : PendingKey → PendingKey → Bool
pending_beq a b = nat_beq a.connection_id b.connection_id && key_beq a.key b.key

pub pending_beq_iff : (a b : PendingKey) → (pending_beq a b ≡ true) ↔ (a ≡ b)
pending_beq_iff a b = ground (arith, key_beq_iff a.key b.key)

instance abbrev pub pending_eq : PartialEq PendingKey
pending_eq = record { eq = pending_beq; eq_iff = pending_beq_iff }

abbrev pub Pending : Type 0
Pending = HashMap PendingKey ℕ

pub record LsDb : Type 0 where
  pub db : HashMap LsaKey LsaRecord
  pub self_id : NodeId
  pub links : HashMap ConnectionId Link
  pub pending_tx : Pending
  pub next_hop : HashMap NodeId Link
  pub cost : HashMap NodeId Cost
  pub parent : HashMap NodeId NodeId
  pub routes : RouteTable
  pub rebuild_requested : Option ℕ
  pub last_refresh : ℕ
  pub lsa_timeout : ℕ
  pub last_tick : ℕ

abbrev pub own_key : NodeId → LsaKey
own_key self_id = record { origin = self_id; endpoint_id = self_id }

-- Our own router LSA before any peer is known.
abbrev pub empty_record : NodeId → ℕ → LsaRecord
empty_record self_id now = record {
  lsa = record { key = own_key self_id; seq = 0; dead = false; body = router [] };
  updated_at = now;
}

unfoldable pub new : NodeId → ℕ → LsDb
new self_id now = record {
  db = (own_key self_id, empty_record self_id now) ∷ [];
  self_id = self_id;
  links = [];
  pending_tx = [];
  next_hop = [];
  cost = [];
  parent = [];
  routes = [];
  rebuild_requested = none;
  last_refresh = now;
  lsa_timeout = 60000;
  last_tick = now;
}

-- `seq += 1` on a u64.
unfoldable pub bump : ℕ → ℕ
bump seq = (seq + 1) % 18446744073709551616

unfoldable pub request_rebuild : ℕ → LsDb → LsDb
request_rebuild now d = elim d.rebuild_requested [
  | none ↦ record d { rebuild_requested = some now }
  | some at ↦ d
]

-- The three reasons not to flood an LSA over a link.
unfoldable pub skips : Lsa → Option ConnectionId → HashMap NodeId Link → ConnectionId → Link → Bool
skips lsa in_connection_id next_hop out_conn_id out_link =
    elim in_connection_id [ none ↦ false | some c ↦ out_conn_id == c ]
    || (lsa.key.origin == out_link.peer_id || elim (get lsa.key.origin next_hop) [
      | none ↦ false
      | some from_hop ↦ from_hop.peer_id == out_link.peer_id
    ])

-- A message that was sent waits for its ack.
unfoldable pub note_sent : Link → Lsa → Pending → Wire × SendResult → Pending × Wire
note_sent link lsa pending (w, SendResult.sent) =
    (insert (record { connection_id = link.connection_id; key = lsa.key }) lsa.seq pending, w)
note_sent link lsa pending (w, r) = (pending, w)

unfoldable pub flood_link :
    Lsa
    → Option ConnectionId
    → HashMap NodeId Link
    → ConnectionId
    → Link
    → Pending × Wire
    → Pending × Wire
unfolding skips note_sent send_lsa
flood_link lsa in_connection_id next_hop out_conn_id out_link (pending, w) =
    if skips lsa in_connection_id next_hop out_conn_id out_link
    then (pending, w)
    else note_sent out_link lsa pending (send_lsa out_link lsa w)

unfoldable pub flood_links :
    Lsa
    → Option ConnectionId
    → HashMap NodeId Link
    → HashMap ConnectionId Link
    → Pending × Wire
    → Pending × Wire
unfolding flood_link
flood_links lsa in_connection_id next_hop [] pw = pw
flood_links lsa in_connection_id next_hop ((c, link) ∷ links) pw =
    flood_links lsa in_connection_id next_hop links
      (flood_link lsa in_connection_id next_hop c link pw)

unfoldable pub flood_all_neighbors : Lsa → Option ConnectionId → LsDb × Wire → LsDb × Wire
unfolding flood_links
flood_all_neighbors lsa in_connection_id (d, w) =
    let (pending, w') = flood_links lsa in_connection_id d.next_hop d.links (d.pending_tx, w) in
    (record d { pending_tx = pending }, w')

flood_records : Link → List LsaRecord → Pending × Wire → Pending × Wire
unfolding note_sent send_lsa
flood_records link [] pw = pw
flood_records link (r ∷ records) (pending, w) =
    flood_records link records (note_sent link r.lsa pending (send_lsa link r.lsa w))

unfoldable pub flood_peer : ConnectionId → LsDb × Wire → LsDb × Wire
unfolding flood_records
flood_peer connection_id (d, w) = elim (get connection_id d.links) [
  | none ↦ (d, w)
  | some link ↦
      let (pending, w') = flood_records link (values d.db) (d.pending_tx, w) in
      (record d { pending_tx = pending }, w')
]

unfoldable pub send_ack : ConnectionId → LsaKey → ℕ → LsDb → Wire → Wire
unfolding send_lsa_ack
send_ack in_connection_id key seq d w = elim (get in_connection_id d.links) [
  | none ↦ w
  | some in_link ↦ (send_lsa_ack in_link key seq w).0
]

-- An ack of an older version leaves the message waiting.
unfoldable pub handle_ack : ConnectionId → LsaKey → ℕ → LsDb → LsDb
handle_ack from key seq d =
    let waiting : PendingKey = record { connection_id = from; key = key } in
    elim (get waiting d.pending_tx) [
      | none ↦ d
      | some val ↦
          let rest = remove waiting d.pending_tx in
          record d { pending_tx = if ltb seq val then insert waiting val rest else rest }
    ]
