-- ===== src/Peers/Peer.antt =====
-- `struct Peer` of src/peers/common.rs: a task's end of a link to another node. What it sends to the
-- router and what it forwards is collected in order; the sending itself is the handle's.
use anybus.Common.{ℕ, ◌+◌, Bool, true, false, List, [], Option, none, some, length, push}
use anybus.Routing.{NodeId, ConnectionId, Cost, Realm, RealmList, WirePacket}
use anybus.LinkState.{Sender, NodeMessage}
use anybus.Router.{RouterMsg}

pub record PacketByteCounts : Type 0 where
  pub bytes : ℕ
  pub packets : ℕ

pub record PeerStats : Type 0 where
  pub tx : PacketByteCounts
  pub rx : PacketByteCounts

unfoldable pub record_packet : WirePacket → PacketByteCounts → PacketByteCounts
record_packet packet c = record { bytes = c.bytes + length packet.payload; packets = c.packets + 1 }

-- What the peer asks of its handle.
pub data Request : Type 0 where
  broker : RouterMsg → Request
  forward : WirePacket → ConnectionId → Request

-- `is_open` tells whether `rx_node` takes messages.
pub record Peer : Type 0 where
  pub peer_id : NodeId
  pub our_id : NodeId
  pub realm : Realm
  pub connection_id : ConnectionId
  pub cost : Cost
  pub stats : PeerStats
  pub realms : RealmList
  pub is_open : Bool
  pub requests : List Request

abbrev no_counts : PacketByteCounts
no_counts = record { bytes = 0; packets = 0 }

abbrev ask : Request → Peer → Peer
ask r p = record p { requests = push p.requests r }

-- `peer_tx` is the sending end of the channel that is made here.
unfoldable pub register_peer :
    NodeId → NodeId → Realm → ConnectionId → Cost → RealmList → Sender → Peer
register_peer peer_id our_id realm connection_id cost realms peer_tx =
    ask (broker (RouterMsg.register_peer peer_id connection_id peer_tx cost realms)) (record {
      peer_id = peer_id;
      our_id = our_id;
      realm = realm;
      connection_id = connection_id;
      cost = cost;
      stats = record { tx = no_counts; rx = no_counts };
      realms = realms;
      is_open = true;
      requests = [];
    })

abbrev sent_stats : NodeMessage → PeerStats → PeerStats
sent_stats (NodeMessage.wire_packet packet) s = record s { tx = record_packet packet s.tx }
sent_stats _ s = s

-- What the channel delivers, or `none` if it is closed and empty.
unfoldable pub recv : Option NodeMessage → Peer → Peer × Option NodeMessage
unfolding record_packet
recv none p = (p, none)
recv (some msg) p = (record p { stats = sent_stats msg p.stats }, some msg)

unfoldable pub close : Peer → Peer
close p = record p { is_open = false }

unfoldable pub unregister : Peer → Peer
unfolding close
unregister p = close (ask (broker (RouterMsg.unregister_peer p.connection_id)) p)

unfoldable pub forward_packet : WirePacket → ConnectionId → Peer → Peer
unfolding record_packet
forward_packet packet connection_id p =
    ask (forward packet connection_id)
      (record p { stats = record p.stats { rx = record_packet packet p.stats.rx } })

unfoldable pub handle_node_message : NodeMessage → Peer → Peer
unfolding forward_packet
handle_node_message (NodeMessage.wire_packet packet) p = forward_packet packet p.connection_id p
handle_node_message (NodeMessage.lsa l) p = ask (broker (RouterMsg.lsa_inbound p.connection_id l)) p
handle_node_message (NodeMessage.lsa_ack key seq) p =
    ask (broker (RouterMsg.lsa_ack_inbound p.connection_id key seq)) p
