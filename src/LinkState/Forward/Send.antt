-- ===== src/LinkState/Forward/Send.antt =====
-- `send` and `forward` of forward_table.rs, with the errors of src/errors/mod.rs.
use anybus.Common.{ℕ, Bool, false, List, [], ◌∷◌, Option, none, some, ◌==◌, if◌then◌else◌, nat_eq}
use anybus.Common.Assoc.{get}
use anybus.Routing.{
  NodeId, ConnectionId, Packet, WirePacket, Payload, bytes, Rider, get_endpoint, from_wire, to_wire,
}
use anybus.LinkState.{Link, FibForwardTo, Sender, ClientMessage, NodeMessage}
use anybus.LinkState.Wire.{Wire, TrySend, delivered, full, closed, try_send, try_send_node}
use anybus.LinkState.Forward.{FibEntry, single, multi_cast, ForwardingTable}

pub data SendError : Type 0 where
  no_route full_queue closed_queue : Option Payload → SendError

-- `SendError::payload`.
unfoldable pub payload : SendError → Option Payload
payload (no_route p) = p
payload (full_queue p) = p
payload (closed_queue p) = p

pub data Sent : Type 0 where
  ok : Sent
  err : SendError → Sent

-- `impl From<TrySendError<ClientMessage>> for SendError`, and `send_error_from_node`.
unfoldable pub sent_with : Payload → TrySend → Sent
sent_with p delivered = ok
sent_with p full = err (full_queue (some p))
sent_with p closed = err (closed_queue (some p))

module _ (encode_payload : Rider → List ℕ) where
  unfoldable pub send_single : Packet → FibForwardTo → Wire → Wire × Sent
  unfolding sent_with try_send try_send_node to_wire
  send_single packet (FibForwardTo.local sender) w =
      let (w', r) = try_send sender (ClientMessage.message packet) w in
      (w', sent_with packet.payload r)
  send_single packet (FibForwardTo.remote next_hop) w =
      let wire = to_wire encode_payload packet in
      let (w', r) = try_send_node next_hop.tx (NodeMessage.wire_packet wire) w in
      (w', sent_with (bytes wire.payload) r)

  -- A broadcast goes on after a failure.
  unfoldable pub send_each : Packet → List FibForwardTo → Wire → Wire
  unfolding send_single
  send_each packet [] w = w
  send_each packet (hop ∷ hops) w = send_each packet hops (send_single packet hop w).0

  unfoldable pub send_entry : Packet → FibEntry → Wire → Wire × Sent
  unfolding send_single send_each
  send_entry packet (single hop) w = send_single packet hop w
  send_entry packet (multi_cast hops) w = (send_each packet hops w, ok)

  -- From local clients.
  unfoldable pub send : ForwardingTable → Packet → Wire → Wire × Sent
  unfolding send_entry
  send fib packet w = elim (get (get_endpoint packet.to fib.our_id) fib.table) [
    | none ↦ (w, err (no_route (some packet.payload)))
    | some e ↦ send_entry packet e w
  ]

unfoldable pub hops : FibEntry → List FibForwardTo
hops (single h) = h ∷ []
hops (multi_cast v) = v

unfoldable pub locals : List FibForwardTo → List Sender
locals [] = []
locals (FibForwardTo.local tx ∷ hs) = tx ∷ locals hs
locals (FibForwardTo.remote link ∷ hs) = locals hs

unfoldable pub remotes : List FibForwardTo → List Link
remotes [] = []
remotes (FibForwardTo.local tx ∷ hs) = remotes hs
remotes (FibForwardTo.remote link ∷ hs) = link ∷ remotes hs

unfoldable pub deliver_locals : Packet → List Sender → Wire → Wire
unfolding try_send
deliver_locals packet [] w = w
deliver_locals packet (tx ∷ txs) w =
    deliver_locals packet txs (try_send tx (ClientMessage.message packet) w).0

-- `from_hop.peer_id == link.peer_id`: the link leads back to where the packet came from.
unfoldable pub is_back_path : ForwardingTable → NodeId → Link → Bool
is_back_path fib from link = elim (get from fib.next_hop) [
  | none ↦ false
  | some from_hop ↦ from_hop.peer_id == link.peer_id
]

unfoldable pub tx_remote : ForwardingTable → WirePacket → Link → Wire → Wire
unfolding is_back_path try_send_node
tx_remote fib packet link w =
    if is_back_path fib packet.from link
    then w
    else (try_send_node link.tx (NodeMessage.wire_packet packet) w).0

unfoldable pub deliver_remotes : ForwardingTable → WirePacket → List Link → Wire → Wire
unfolding tx_remote
deliver_remotes fib packet [] w = w
deliver_remotes fib packet (link ∷ links) w =
    deliver_remotes fib packet links (tx_remote fib packet link w)

-- The reverse path check: the connection is the next hop towards the sender.
unfoldable pub is_right_path : ForwardingTable → NodeId → ConnectionId → Bool
is_right_path fib from connection_id = elim (get from fib.next_hop) [
  | none ↦ false
  | some link ↦ link.connection_id == connection_id
]

-- Locals first, then remotes; each list may be empty.
unfoldable pub forward_entry : ForwardingTable → WirePacket → FibEntry → Wire → Wire
unfolding hops locals remotes deliver_locals deliver_remotes from_wire
forward_entry fib packet e w =
    deliver_remotes fib packet (remotes (hops e))
      (deliver_locals (from_wire packet) (locals (hops e)) w)

-- From remote peers.
unfoldable pub forward : ForwardingTable → WirePacket → ConnectionId → Wire → Wire
unfolding is_right_path forward_entry
forward fib packet connection_id w =
    if packet.from == fib.our_id
    then w
    else if is_right_path fib packet.from connection_id
    then elim (get (get_endpoint packet.to fib.our_id) fib.table) [
      | none ↦ w
      | some e ↦ forward_entry fib packet e w
    ]
    else w
