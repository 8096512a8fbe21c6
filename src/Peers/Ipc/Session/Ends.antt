-- ===== src/Peers/Ipc/Session/Ends.antt =====
-- A session unregisters the link that it has registered.
use anybus.Common.{
  ◌≡◌, inl, inr, refl, arith, true, false, not, List, Option, none, some, push, Option-cases,
  if-cases, retain, sym, subst, nat_eq, ◌==◌,
}
use anybus.Routing.{NodeId}
use anybus.Heartbeat.{take_ping_token}
use anybus.Peers.Peer.{Peer, register_peer}
use anybus.Peers.Ipc.{IpcControl, IpcCommand, IpcMessage}
use anybus.Peers.Ipc.Session.{
  IpcPeer, State, hello, abort_handshake, send_peers, wait_for_messages, heartbeat_tick, send_ping,
  handle_error, close_peer, shutdown, node_message_received, ipc_control_received,
  ipc_message_received, Outside, send, tell, run_hello, after_send, known_peers, on_found, run_tick,
  on_control, on_message, Found, Heard, from_stream, from_control, from_peer, deadline, message,
  failed, ended, on_hello, greeted, is_expected, received, handled,
}
use anybus.Peers.Ipc.Session.Loop.{stop, panicked, go_with, next, run_abort, run_close, run_wait}
use anybus.Peers.Ipc.Session.Held.{
  IsHeld, has_peer, is_early, IsSound, NextSound, unregister-IsReleased, handle_node_message-IsHeld,
  recv-IsHeld,
}

abbrev IsLate : IpcPeer → Type 0
IsLate p = IsHeld p.peer × (has_peer p.peer ≡ true) × (p.established ≡ true)

late-IsSound : (s : State) (p : IpcPeer) → is_early s ≡ false → IsLate p → IsSound s p
late-IsSound hello p f h = cc
late-IsSound abort_handshake p f h = cc
late-IsSound _ p f h = h

-- A state and a session as one.
abbrev Sound : State × IpcPeer → Type 0
Sound (s, p) = IsSound s p

send-IsLate : (msg : IpcMessage) (o : Outside) (p : IpcPeer) → IsLate p → IsLate (send msg o p)
send-IsLate msg o p h = if-cases IsLate o.sends _ p (λ t. h) (λ f. h)

tell-IsLate : (c : IpcCommand) (o : Outside) (p : IpcPeer) → IsLate p → IsLate (tell c o p)
tell-IsLate c o p h = if-cases IsLate o.manager_takes _ p (λ t. h) (λ f. h)

after_send-early : (o : Outside) → is_early (after_send o) ≡ false
after_send-early o = ground arith

run_tick-early : (o : Outside) (p : IpcPeer) → is_early (run_tick o p) ≡ false
unfolding run_tick
run_tick-early o p = ground arith

on_found-Sound :
    (f : Found) (o : Outside) (p : IpcPeer) (peer : Peer)
    → p.peer ≡ some peer
    → IsLate p
    → Sound (on_found f o p)
on_found-Sound (from_stream (message m)) o p peer e h = h
on_found-Sound (from_stream failed) o p peer e h = h
on_found-Sound (from_stream ended) o p peer e h = h
on_found-Sound (from_control (some c)) o p peer e h = h
on_found-Sound (from_control none) o p peer e h = h
on_found-Sound (from_peer (some m)) o p peer e h =
    rw (e, received) (recv-IsHeld (some m) peer (subst IsHeld e h.0), refl, h.2)
on_found-Sound (from_peer none) o p peer e h = h
on_found-Sound deadline o p peer e h = h

on_control-Sound :
    (c : IpcControl) (o : Outside) (p : IpcPeer) → IsLate p → Sound (on_control c o p)
on_control-Sound IpcControl.shutdown o p h = h
on_control-Sound IpcControl.accepted o p h = h
on_control-Sound IpcControl.resume o p h = h

on_message-Sound :
    (m : IpcMessage) (o : Outside) (p : IpcPeer) (peer : Peer)
    → p.peer ≡ some peer
    → IsLate p
    → Sound (on_message m o p)
on_message-Sound (IpcMessage.hello id) o p peer e h = h
on_message-Sound (IpcMessage.known_peers ids) o p peer e h =
    tell-IsLate (IpcCommand.learned_peers ids) o p h
on_message-Sound (IpcMessage.neighbor_removed id) o p peer e h = h
on_message-Sound IpcMessage.close_connection o p peer e h = h
on_message-Sound (IpcMessage.ping token) o p peer e h =
    late-IsSound (after_send o) (send (IpcMessage.pong token) o p) (after_send-early o)
      (send-IsLate (IpcMessage.pong token) o p h)
on_message-Sound (IpcMessage.pong token) o p peer e h = h
on_message-Sound (IpcMessage.node_msg m) o p peer e h =
    rw (e, handled) (handle_node_message-IsHeld m peer (subst IsHeld e h.0), refl, h.2)

greeted-Sound : (id : NodeId) (o : Outside) (p : IpcPeer) → IsSound hello p → Sound (greeted id o p)
unfolding register_peer
greeted-Sound id o p h =
    if-cases Sound (not (is_expected p.expected id)) (abort_handshake, p) _
      (λ f. subst IsHeld (sym h.0) tt) (λ t. ground (arith, h.0, h.1))

on_hello-Sound :
    (heard : Heard) (o : Outside) (p : IpcPeer) → IsSound hello p → Sound (on_hello heard o p)
on_hello-Sound (message (IpcMessage.hello id)) o p h = greeted-Sound id o p h
on_hello-Sound _ o p h = subst IsHeld (sym h.0) tt

hello-Sound : (o : Outside) (p : IpcPeer) → IsSound hello p → Sound (run_hello o p)
unfolding run_hello
hello-Sound o p h =
    let p' = send (IpcMessage.hello p.our_nodeid) o p in
    let h' : IsSound hello p' = if-cases (IsSound hello) o.sends _ p (λ t. h) (λ f. h) in
    if-cases Sound o.sends (on_hello o.heard o p') (abort_handshake, p)
      (λ t. on_hello-Sound o.heard o p' h') (λ f. subst IsHeld (sym h.0) tt)

close-NextSound :
    (o : Outside) (p : IpcPeer) (peer : Peer)
    → p.peer ≡ some peer
    → IsLate p
    → NextSound (run_close o p)
close-NextSound o p peer e h =
    let done = unregister-IsReleased peer (subst IsHeld e h.0) in
    ground (arith, e, h.2, done.0, done.1)

abort-Released : (o : Outside) (p : IpcPeer) → IsHeld p.peer → NextSound (stop (run_abort o p))
unfolding run_abort
abort-Released o p h = elim (Option-cases p.peer) [
  | inl e ↦ ground (arith, e)
  | inr (peer, e) ↦
      let done = unregister-IsReleased peer (subst IsHeld e h) in ground (arith, e, done.0, done.1)
]

known_peers-some :
    (o : Outside) (p : IpcPeer) (peer : Peer)
    → p.peer ≡ some peer
    → (ids : List NodeId) × (known_peers o p ≡ some ids)
known_peers-some o p peer e =
    (push (retain (λ u. not (u == peer.peer_id)) o.neighbors) p.our_nodeid, ground (arith, e))

-- Past the handshake there is a link.
late-peer : (p : IpcPeer) → IsLate p → (peer : Peer) × (p.peer ≡ some peer)
late-peer p h = elim (Option-cases p.peer) [
  | inl e ↦ absurd (ground (arith, e, h.1))
  | inr found ↦ found
]

waited :
    (held : Option Peer) (r : State × IpcPeer)
    → has_peer held ≡ true
    → Sound r
    → NextSound (elim held [ none ↦ panicked | some peer ↦ go_with r ])
waited none r h k = cc
waited (some peer) r h k = k

wait-NextSound :
    (o : Outside) (p : IpcPeer) (peer : Peer)
    → p.peer ≡ some peer
    → IsLate p
    → NextSound (run_wait o p)
wait-NextSound o p peer e h =
    waited p.peer (on_found o.found o p) h.1 (on_found-Sound o.found o p peer e h)

-- In each pass of a session's task a link that was registered stays open and is not unregistered as long
-- as the task goes on, past the handshake there always is one, no pass panics, and when the task ends, by
-- whatever path, the stream is closed and the link has been unregistered exactly once.
pub next-NextSound : (o : Outside) (s : State) (p : IpcPeer) → IsSound s p → NextSound (next o s p)
unfolding next
next-NextSound o hello p h = hello-Sound o p h
next-NextSound o abort_handshake p h = abort-Released o p h
next-NextSound o send_peers p h =
    let (peer, e) = late-peer p h in
    let (ids, known) = known_peers-some o p peer e in
    rw known (
      late-IsSound (after_send o) (send (IpcMessage.known_peers ids) o p) (after_send-early o)
        (send-IsLate (IpcMessage.known_peers ids) o p h))
next-NextSound o wait_for_messages p h =
    let (peer, e) = late-peer p h in wait-NextSound o p peer e h
next-NextSound o heartbeat_tick p h = late-IsSound (run_tick o p) p (run_tick-early o p) h
next-NextSound o send_ping p h =
    let p' = record p { hb = (take_ping_token o.now p.hb).0 } in
    let msg = IpcMessage.ping (take_ping_token o.now p.hb).1 in
    late-IsSound (after_send o) (send msg o p') (after_send-early o) (send-IsLate msg o p' h)
next-NextSound o handle_error p h =
    if-cases (λ s. IsSound s p) p.established close_peer abort_handshake (λ t. h) (λ f. h.0)
next-NextSound o (node_message_received m) p h =
    late-IsSound (after_send o) (send (IpcMessage.node_msg m) o p) (after_send-early o)
      (send-IsLate (IpcMessage.node_msg m) o p h)
next-NextSound o (ipc_control_received c) p h = on_control-Sound c o p h
next-NextSound o (ipc_message_received m) p h =
    let (peer, e) = late-peer p h in on_message-Sound m o p peer e h
next-NextSound o close_peer p h = let (peer, e) = late-peer p h in close-NextSound o p peer e h
next-NextSound o shutdown p h = send-IsLate IpcMessage.close_connection o p h
