-- ===== src/LinkState/Forward/Unsent.antt =====
-- What `send` of forward_table.rs answers, and what it has delivered then.
use anybus.Common.{ℕ, ◌≡◌, refl, push, List, Option, none, some, nat_eq}
use anybus.Common.Assoc.{get}
use anybus.Routing.{Packet, Payload, bytes, Rider, into_bytes, to_wire, get_endpoint}
use anybus.LinkState.{FibForwardTo, Sender, ClientMessage, NodeMessage}
use anybus.LinkState.Wire.{
  Wire, Delivery, to_client, to_peer, TrySend, delivered, full, closed, deliver, try_send,
  try_send_node,
}
use anybus.LinkState.Forward.{FibEntry, single, multi_cast, ForwardingTable}
use anybus.LinkState.Forward.Send.{
  SendError, no_route, full_queue, closed_queue, Sent, ok, err, sent_with, send_single, send_entry,
  send,
}

-- The error for what a channel answered, with the payload that went to it.
abbrev pub Refused : TrySend → Payload → SendError → Type 0
Refused delivered p e = ⊥
Refused full p e = e ≡ full_queue (some p)
Refused closed p e = e ≡ closed_queue (some p)

-- What holds of the attempt at a delivery with a payload, which the channel answered so.
abbrev pub Attempted : Delivery → Payload → TrySend → Wire → Wire × Sent → Type 0
Attempted d p r w (w', ok) = w'.sent ≡ push w.sent d
Attempted d p r w (w', err e) = (w'.sent ≡ w.sent) × Refused r p e

deliver-Attempted :
    (d : Delivery) (p : Payload) (r : TrySend) (w : Wire)
    → Attempted d p r w (deliver d r w, sent_with p r)
unfolding deliver sent_with
deliver-Attempted d p delivered w = refl
deliver-Attempted d p full w = (refl, refl)
deliver-Attempted d p closed w = (refl, refl)

module _ (encode_payload : Rider → List ℕ) where
  -- The channel of a hop, the payload that it would carry, and the delivery.
  abbrev pub channel : FibForwardTo → Sender
  channel (FibForwardTo.local sender) = sender
  channel (FibForwardTo.remote link) = link.tx

  abbrev pub carried : Packet → FibForwardTo → Payload
  carried packet (FibForwardTo.local sender) = packet.payload
  carried packet (FibForwardTo.remote link) = bytes (into_bytes encode_payload packet.payload)

  abbrev pub arrived : Packet → FibForwardTo → Delivery
  arrived packet (FibForwardTo.local sender) = to_client sender (ClientMessage.message packet)
  arrived packet (FibForwardTo.remote link) =
      to_peer link.tx (NodeMessage.wire_packet (to_wire encode_payload packet))

  -- What holds of a result of `send` for the entry of the packet's endpoint.
  abbrev pub IsHonest : Packet → Option FibEntry → Wire → Wire × Sent → Type 0
  IsHonest packet none w (w', ok) = ⊥
  IsHonest packet none w (w', err e) = (w'.sent ≡ w.sent) × (e ≡ no_route (some packet.payload))
  IsHonest packet (some (single hop)) w result =
      Attempted (arrived packet hop) (carried packet hop) (w.answer w.sent (channel hop)) w result
  IsHonest packet (some (multi_cast hops)) w (w', ok) = Unit {0}
  IsHonest packet (some (multi_cast hops)) w (w', err e) = ⊥

  single-IsHonest :
      (packet : Packet) (hop : FibForwardTo) (w : Wire)
      → IsHonest packet (some (single hop)) w (send_single encode_payload packet hop w)
  unfolding send_single try_send try_send_node to_wire
  single-IsHonest packet (FibForwardTo.local sender) w = deliver-Attempted _ _ _ w
  single-IsHonest packet (FibForwardTo.remote link) w = deliver-Attempted _ _ _ w

  -- If the endpoint of a packet has no entry, `send` returns NoRoute with the packet's payload. If it has
  -- a single hop and `send` returns Ok, the packet was delivered to that hop, encoded if it is a peer.
  -- Every error leaves nothing delivered: for a single hop it is Full or Closed as the hop's channel
  -- answered, with the payload as it was for a listener here, and encoded for a peer. A broadcast
  -- returns Ok.
  pub send-IsHonest :
      (fib : ForwardingTable) (packet : Packet) (w : Wire)
      → IsHonest packet
          (get (get_endpoint packet.to fib.our_id) fib.table)
          w
          (send encode_payload fib packet w)
  unfolding send send_entry
  send-IsHonest fib packet w = go (get (get_endpoint packet.to fib.our_id) fib.table)
    where
      go :
          (found : Option FibEntry)
          → IsHonest packet found w (elim found [
            | none ↦ (w, err (no_route (some packet.payload)))
            | some e ↦ send_entry encode_payload packet e w
          ])
      go none = (refl, refl)
      go (some (single hop)) = single-IsHonest packet hop w
      go (some (multi_cast hops)) = tt
