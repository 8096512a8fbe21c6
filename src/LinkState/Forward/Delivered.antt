-- ===== src/LinkState/Forward/Delivered.antt =====
-- What `forward` of forward_table.rs delivers.
use anybus.Common.{
  ◌≡◌, ◌≢◌, refl, true, false, List, [], ◌∷◌, none, some, Memᴰ, arith, inl, inr, Option-cases,
  nat_eq, nat_beq_iff, ◌==◌, if-cases,
}
use anybus.Common.Assoc.{get}
use anybus.Common.Preds.{All}
use anybus.Routing.{ConnectionId, Packet, WirePacket, get_endpoint, from_wire}
use anybus.LinkState.{Link, Sender, ClientMessage, NodeMessage}
use anybus.LinkState.Wire.{Wire, Delivery, to_client, to_peer, to_caller, try_send, try_send_node}
use anybus.LinkState.Forward.{FibEntry, ForwardingTable}
use anybus.LinkState.Forward.Send.{
  hops, locals, remotes, deliver_locals, deliver_remotes, is_back_path, tx_remote, is_right_path,
  forward_entry, forward,
}
use anybus.LinkState.Wire.Added.{Adds, Adds-refl, Adds-trans, deliver-Adds, All-mem, All-weaken}

module _ (P : Delivery → Type 0) where
  deliver_locals-Adds :
      (packet : Packet) (txs : List Sender) (w : Wire)
      → All (λ tx. P (to_client tx (ClientMessage.message packet))) txs
      → Adds P w (deliver_locals packet txs w)
  unfolding deliver_locals try_send
  deliver_locals-Adds packet [] w h = Adds-refl P w
  deliver_locals-Adds packet (tx ∷ txs) w h =
      let next = (try_send tx (ClientMessage.message packet) w).0 in
      Adds-trans P w next (deliver_locals packet txs next)
        (deliver-Adds P (to_client tx (ClientMessage.message packet)) (w.answer w.sent tx) w h.0)
        (deliver_locals-Adds packet txs next h.1)

  deliver_remotes-Adds :
      (fib : ForwardingTable) (packet : WirePacket) (links : List Link) (w : Wire)
      → All
          (λ (link : Link).
            is_back_path fib packet.from link ≡ false
            → P (to_peer link.tx (NodeMessage.wire_packet packet)))
          links
      → Adds P w (deliver_remotes fib packet links w)
  unfolding deliver_remotes tx_remote try_send_node
  deliver_remotes-Adds fib packet [] w h = Adds-refl P w
  deliver_remotes-Adds fib packet (link ∷ links) w h =
      let next = tx_remote fib packet link w in
      Adds-trans P w next (deliver_remotes fib packet links next)
        (if-cases (Adds P w) (is_back_path fib packet.from link) _ _ (λ back. Adds-refl P w)
          (λ on.
            deliver-Adds P (to_peer link.tx (NodeMessage.wire_packet packet))
              (w.answer w.sent link.tx) w (h.0 on)))
        (deliver_remotes-Adds fib packet links next h.1)

-- The entry that the table has for the packet.
abbrev pub Target : ForwardingTable → WirePacket → FibEntry → Type 0
Target fib packet e = get (get_endpoint packet.to fib.our_id) fib.table ≡ some e

-- The packet itself, over a hop of its entry that does not lead back.
abbrev pub IsHop : ForwardingTable → WirePacket → FibEntry → Delivery → Type 0
IsHop fib packet e (to_client tx m) =
    Memᴰ tx (locals (hops e)) × (m ≡ ClientMessage.message (from_wire packet))
IsHop fib packet e (to_peer tx m) =
    (link : Link) × Memᴰ link (remotes (hops e))
    × (is_back_path fib packet.from link ≡ false)
    × (tx ≡ link.tx)
    × (m ≡ NodeMessage.wire_packet packet)
IsHop fib packet e (to_caller tx r) = ⊥

-- A delivery that `forward` may make for a packet that came in over a connection.
abbrev pub IsForwarded : ForwardingTable → WirePacket → ConnectionId → Delivery → Type 0
IsForwarded fib packet c d =
    (packet.from ≢ fib.our_id)
    × (is_right_path fib packet.from c ≡ true)
    × ((e : FibEntry) × Target fib packet e × IsHop fib packet e d)

-- Whatever the channels answer, what forwarding delivers is the packet itself, only if it is not
-- our own and came in over the next hop towards its sender, and only to hops of the table's entry
-- for it, never over a link that leads to the peer towards the sender.
pub forward-Adds :
    (fib : ForwardingTable) (packet : WirePacket) (c : ConnectionId) (w : Wire)
    → Adds (IsForwarded fib packet c) w (forward fib packet c w)
unfolding forward forward_entry
forward-Adds fib packet c w =
    if-cases (Adds (IsForwarded fib packet c) w) (packet.from == fib.our_id) _ _
      (λ own. Adds-refl _ w)
      λ other.
        if-cases (Adds (IsForwarded fib packet c) w) (is_right_path fib packet.from c) _ _
          (λ right. on_entry (λ p. ground (arith, nat_beq_iff packet.from fib.our_id, p)) right)
          (λ wrong. Adds-refl _ w)
  where
    on_entry :
        packet.from ≢ fib.our_id
        → is_right_path fib packet.from c ≡ true
        → Adds
            (IsForwarded fib packet c)
            w
            (elim (get (get_endpoint packet.to fib.our_id) fib.table) [
              | none ↦ w
              | some e ↦ forward_entry fib packet e w
            ])
    on_entry foreign right =
        elim (Option-cases (get (get_endpoint packet.to fib.our_id) fib.table)) [
          | inl gone ↦ rw gone (Adds-refl _ w)
          | inr (e, found) ↦ rw found (
              Adds-trans _ w (deliver_locals (from_wire packet) (locals (hops e)) w)
                (forward_entry fib packet e w)
                (deliver_locals-Adds _ (from_wire packet) (locals (hops e)) w (
                  All-weaken _ _ _ (λ tx m. (foreign, right, (e, found, (m, refl))))
                    (All-mem (locals (hops e)))))
                (deliver_remotes-Adds _ fib packet (remotes (hops e))
                  (deliver_locals (from_wire packet) (locals (hops e)) w)
                  (All-weaken _ _ _
                    (λ (link : Link) m.
                      λ on. (foreign, right, (e, found, (link, m, on, refl, refl))))
                    (All-mem (remotes (hops e))))))
        ]
