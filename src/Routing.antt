-- ===== src/Routing.antt =====
-- src/routing.rs, with the "remote" feature on: identifiers, realms, costs, addresses, packets.
-- A `Uuid` is the 128-bit number that it holds, so `==` and `<` on ids are those of numbers.
use anybus.Common.{
  nat_eq, ℕ, ◌+◌, ◌≡◌, ◌%◌, Bool, true, false, List, Option, PartialEq, ◌==◌, ◌↔◌, arith,
  if◌then◌else◌, min, any, retain,
}

abbrev pub Uuid : Type 0
Uuid = ℕ

abbrev pub NodeId : Type 0
NodeId = Uuid

abbrev pub EndpointId : Type 0
EndpointId = Uuid

-- `ConnectionId(u16)`.
abbrev pub ConnectionId : Type 0
ConnectionId = ℕ

pub data Realm : Type 0 where
  process userspace local_net global : Realm

abbrev pub realm_beq : Realm → Realm → Bool
realm_beq process process = true
realm_beq userspace userspace = true
realm_beq local_net local_net = true
realm_beq global global = true
realm_beq _ _ = false

pub realm_beq_iff : (a b : Realm) → (realm_beq a b ≡ true) ↔ (a ≡ b)
realm_beq_iff a b = ground arith

instance abbrev pub realm_eq : PartialEq Realm
realm_eq = record { eq = realm_beq; eq_iff = realm_beq_iff }

pub data RouteKind : Type 0 where
  unicast anycast broadcast multicast node : RouteKind

abbrev pub kind_beq : RouteKind → RouteKind → Bool
kind_beq unicast unicast = true
kind_beq anycast anycast = true
kind_beq broadcast broadcast = true
kind_beq multicast multicast = true
kind_beq node node = true
kind_beq _ _ = false

pub kind_beq_iff : (a b : RouteKind) → (kind_beq a b ≡ true) ↔ (a ≡ b)
kind_beq_iff a b = ground arith

instance abbrev pub kind_eq : PartialEq RouteKind
kind_eq = record { eq = kind_beq; eq_iff = kind_beq_iff }

-- `Cost(u16)`; the sum saturates at `u16::MAX`.
abbrev pub Cost : Type 0
Cost = ℕ

abbrev pub max_cost : Cost
max_cost = 65535

unfoldable pub add : Cost → Cost → Cost
add a b = min (a + b) max_cost

-- `ConnectionIdCounter::next`: `fetch_add` returns the old value and wraps.
unfoldable pub next : ℕ → ConnectionId × ℕ
next current = (current, (current + 1) % 65536)

abbrev pub RealmList : Type 0
RealmList = List Realm

unfoldable pub contains : RealmList → Realm → Bool
contains realms realm = any (λ r. r == realm) realms

unfoldable pub intersection : RealmList → RealmList → RealmList
intersection realms other = retain (λ r. contains other r) realms

pub data Address : Type 0 where
  endpoint : EndpointId → Address
  remote : EndpointId → NodeId → Address

-- The endpoint to look up here; a foreign node's own endpoint carries what is addressed to it.
unfoldable pub get_endpoint : Address → NodeId → EndpointId
get_endpoint (endpoint endpoint_id) local_node_id = endpoint_id
get_endpoint (remote endpoint_id node_id) local_node_id =
    if local_node_id == node_id then endpoint_id else node_id

-- A `Box<dyn BusRider>` is named by a number: what it encodes to is up to the codec.
abbrev pub Rider : Type 0
Rider = ℕ

pub data Payload : Type 0 where
  bus_rider : Rider → Payload
  bytes : List ℕ → Payload

pub record Packet : Type 0 where
  pub to : Address
  pub reply_to : Option Address
  pub from : NodeId
  pub payload : Payload

pub record WirePacket : Type 0 where
  pub to : Address
  pub reply_to : Option Address
  pub from : NodeId
  pub payload : List ℕ

-- `impl From<WirePacket> for Packet`.
unfoldable pub from_wire : WirePacket → Packet
from_wire w = record { to = w.to; reply_to = w.reply_to; from = w.from; payload = bytes w.payload }

-- `encode_payload` is `codec::encode`, which calls bincode.
module _ (encode_payload : Rider → List ℕ) where
  unfoldable pub into_bytes : Payload → List ℕ
  into_bytes (bus_rider br) = encode_payload br
  into_bytes (bytes b) = b

  -- `impl From<Packet> for WirePacket`.
  unfoldable pub to_wire : Packet → WirePacket
  to_wire p = record {
    to = p.to;
    reply_to = p.reply_to;
    from = p.from;
    payload = into_bytes p.payload;
  }
