-- ===== src/LinkState.antt =====
-- src/routing/linkstate.rs: LSAs, routes and links; and src/messages.rs, the messages that the
-- router and its peers exchange. The link-state database and the tables are child modules.
pub mod Wire
pub mod Links
pub mod RouteTable
pub mod Spf
pub mod Db
pub mod Forward
use anybus.Common.{
  ℕ, ◌+◌, ◌≡◌, Bool, true, false, ◌&&◌, ◌||◌, not, List, [], ◌∷◌, ◌++◌, Option, none, some,
  PartialEq, ◌==◌, ◌↔◌, arith, if◌then◌else◌, nat_eq, nat_beq, nat_beq_iff, ltb, retain, is_empty,
  map, push,
}
use anybus.Routing.{
  Uuid, NodeId, EndpointId, ConnectionId, Realm, RouteKind, Cost, RealmList, intersection, contains,
  Packet, WirePacket,
}

pub record LsaKey : Type 0 where
  pub origin : NodeId
  pub endpoint_id : Uuid

abbrev pub key_beq : LsaKey → LsaKey → Bool
key_beq a b = nat_beq a.origin b.origin && nat_beq a.endpoint_id b.endpoint_id

pub key_beq_iff : (a b : LsaKey) → (key_beq a b ≡ true) ↔ (a ≡ b)
key_beq_iff a b = ground (arith, nat_beq_iff a.origin b.origin)

instance abbrev pub key_eq : PartialEq LsaKey
key_eq = record { eq = key_beq; eq_iff = key_beq_iff }

pub record EndpointInfo : Type 0 where
  pub kind : RouteKind
  pub realm : Realm
  pub cost : Cost

pub record Adjacency : Type 0 where
  pub connection_id : ConnectionId
  pub peer_id : NodeId
  pub cost : Cost
  pub realms : RealmList

pub data LsaBody : Type 0 where
  router : List Adjacency → LsaBody
  endpoint : EndpointInfo → LsaBody

pub record Lsa : Type 0 where
  pub key : LsaKey
  pub seq : ℕ  -- u64
  pub dead : Bool
  pub body : LsaBody

-- An `Instant` is a number of milliseconds.
pub record LsaRecord : Type 0 where
  pub lsa : Lsa
  pub updated_at : ℕ

-- A `Sender` is named by the channel that it sends to; `same_channel` compares the names.
abbrev pub Sender : Type 0
Sender = ℕ

pub data LsForwardTo : Type 0 where
  local : Sender → LsForwardTo
  remote : NodeId → LsForwardTo

abbrev pub is_local : LsForwardTo → Bool
is_local (local sender) = true
is_local (remote node_id) = false

pub record LsRoute : Type 0 where
  pub via : LsForwardTo
  pub cost : Cost
  pub realm : Realm
  pub kind : RouteKind

pub record LsRouteEntry : Type 0 where
  pub routes : List LsRoute
  pub kind : RouteKind

pub record Link : Type 0 where
  pub tx : Sender
  pub peer_id : NodeId
  pub connection_id : ConnectionId
  pub realms : RealmList
  pub cost : Cost
  pub default_route : Bool
  pub role_stub : Bool

pub data FibForwardTo : Type 0 where
  local : Sender → FibForwardTo
  remote : Link → FibForwardTo

-- `struct Entry(Cost, NodeId)`.
pub record Entry : Type 0 where
  pub cost : Cost
  pub node : NodeId

-- Lower cost wins. Equal cost: the lower node id wins.
unfoldable pub better : Entry → Entry → Bool
better a b = ltb a.cost b.cost || (a.cost == b.cost && ltb a.node b.node)

pub data ClientMessage : Type 0 where
  message : Packet → ClientMessage
  failed_registration : EndpointId → ClientMessage
  successful_registration : EndpointId → ClientMessage
  shutdown : ClientMessage

pub data NodeMessage : Type 0 where
  wire_packet : WirePacket → NodeMessage
  lsa : Lsa → NodeMessage
  lsa_ack : LsaKey → ℕ → NodeMessage

pub data SetAnycastCostError : Type 0 where
  not_anycast not_registered : SetAnycastCostError

pub data SetAnycastCostOutcome : Type 0 where
  unchanged : SetAnycastCostOutcome
  changed : Cost → Cost → Option Cost → SetAnycastCostOutcome
