-- ===== src/Peers/Ipc/Session/Held.antt =====
-- What a session's task holds: the link that it has registered.
use anybus.Common.{
  ℕ, ◌+◌, ◌≡◌, arith, Bool, true, false, List, [], ◌∷◌, Option, none, some, push, nat_eq,
}
use anybus.LinkState.{NodeMessage}
use anybus.Router.{RouterMsg}
use anybus.Peers.Peer.{Peer, Request, broker, forward, unregister, handle_node_message, recv}
use anybus.Peers.Ipc.Session.{IpcPeer, State, hello, abort_handshake}
use anybus.Peers.Ipc.Session.Loop.{Next, go, stop, panicked}

abbrev is_unregister : Request → ℕ
is_unregister (broker (RouterMsg.unregister_peer connection_id)) = 1
is_unregister _ = 0

abbrev pub unregisters : List Request → ℕ
unregisters [] = 0
unregisters (r ∷ rs) = is_unregister r + unregisters rs

unregisters-push :
    (rs : List Request) (r : Request) → unregisters (push rs r) ≡ unregisters rs + is_unregister r
unregisters-push [] r = omega arith
unregisters-push (x ∷ rs) r = omega (arith, unregisters-push rs r)

-- The link that is registered, if one is, is open and has not been unregistered.
abbrev pub IsHeld : Option Peer → Type 0
IsHeld none = Unit {0}
IsHeld (some peer) = (peer.is_open ≡ true) × (unregisters peer.requests ≡ 0)

abbrev pub IsReleased : Option Peer → Type 0
IsReleased none = Unit {0}
IsReleased (some peer) = (peer.is_open ≡ false) × (unregisters peer.requests ≡ 1)

abbrev pub has_peer : Option Peer → Bool
has_peer none = false
has_peer (some peer) = true

-- Before the session is accepted the task is in one of these states.
abbrev pub is_early : State → Bool
is_early hello = true
is_early abort_handshake = true
is_early _ = false

-- At the start no link is registered; past the handshake the session is established and has one.
abbrev pub IsSound : State → IpcPeer → Type 0
IsSound hello p = (p.peer ≡ none) × (p.established ≡ false)
IsSound abort_handshake p = IsHeld p.peer
IsSound s p = IsHeld p.peer × (has_peer p.peer ≡ true) × (p.established ≡ true)

abbrev pub NextSound : Next → Type 0
NextSound (go s p) = IsSound s p
NextSound (stop p) = IsReleased p.peer × (p.stream_open ≡ false)
NextSound panicked = ⊥

pub unregister-IsReleased : (peer : Peer) → IsHeld (some peer) → IsReleased (some (unregister peer))
unfolding unregister
unregister-IsReleased peer h = ground (
  arith,
  h.1,
  unregisters-push peer.requests (broker (RouterMsg.unregister_peer peer.connection_id)),
)

pub handle_node_message-IsHeld :
    (m : NodeMessage) (peer : Peer)
    → IsHeld (some peer)
    → IsHeld (some (handle_node_message m peer))
unfolding handle_node_message
handle_node_message-IsHeld (NodeMessage.wire_packet packet) peer h =
    (h.0, omega (arith, h.1, unregisters-push peer.requests (forward packet peer.connection_id)))
handle_node_message-IsHeld (NodeMessage.lsa l) peer h = (
  h.0,
  omega (
    arith,
    h.1,
    unregisters-push peer.requests (broker (RouterMsg.lsa_inbound peer.connection_id l)),
  ),
)
handle_node_message-IsHeld (NodeMessage.lsa_ack key seq) peer h = (
  h.0,
  omega (
    arith,
    h.1,
    unregisters-push peer.requests (broker (RouterMsg.lsa_ack_inbound peer.connection_id key seq)),
  ),
)

pub recv-IsHeld :
    (m : Option NodeMessage) (peer : Peer) → IsHeld (some peer) → IsHeld (some (recv m peer).0)
unfolding recv
recv-IsHeld none peer h = h
recv-IsHeld (some m) peer h = h
