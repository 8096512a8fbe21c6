-- ===== src/Peers/Ws/Manager/Room.antt =====
-- The abstract view of the queue of disconnected peers: a waiting room, which knows no order.
use mathlib.Core.List.{Perm}
use mathlib.Core.List.Perm
use mathlib.Mathlib.Data.Multiset.Defs.{Multiset, of_list}
use mathlib.Mathlib.Data.Multiset.ZeroCons.{cons}
use anybus.Common.{
  ℕ, zero, suc, ◌≤◌, ◌≡◌, ◌⊎◌, some, inl, inr, Bool, true, false, not, List, [], ◌∷◌, Bool-cases,
  leb, retain, nat_eq, ◌==◌,
}
use anybus.Peers.Ws.Pending.{
  WsPendingPeer, WebSocketPeerConfig, from_config, record_attempt, when_ready, insert_at, all_ready,
  sort_by_ready, insert_sorted,
}
use anybus.Routing.{NodeId}
use anybus.Suspend.{resuming}
use anybus.Peers.Ws.Manager.{
  WebsocketManager, ManagerState, WsCommand, listen, handle_command, connect_remote,
  queue_reconnect, remove_ws_peer,
}
use anybus.Peers.Ws.Manager.Loop.{Next, go, stop, Outside, status}
use anybus.LinkState.{Sender}

abbrev pub Room : Type 0
Room = Multiset WsPendingPeer

-- The states in which a pass may leave the room as it is.
abbrev pub may_stay : ManagerState → Bool
may_stay (queue_reconnect pending) = false
may_stay (remove_ws_peer url respond_to) = false
may_stay _ = true

-- What a pass from one state to another may do to the room. A peer comes in after an attempt, or is
-- refused since another one is ready at the same time; a remote peer comes in whose connection has closed;
-- a peer that is ready is called, and it is the one that is connected to next; all are told to be ready
-- when the machine resumes; the peers with a URL are sent away.
pub data RoomStep (o : Outside) : ManagerState → Room → ManagerState → Room → Type 0 where
  stay : (s s' : ManagerState) (r r' : Room) → may_stay s ≡ true → r' ≡ r → RoomStep o s r s' r'
  arrive :
      (pending : WsPendingPeer) (s' : ManagerState) (r r' : Room)
      → r' ≡ cons (record_attempt (o.clock 0) pending) r
      → RoomStep o (queue_reconnect pending) r s' r'
  refuse :
      (pending q : WsPendingPeer) (s' : ManagerState) (r r' others : Room)
      → r ≡ cons q others
      → when_ready q ≡ when_ready (record_attempt (o.clock 0) pending)
      → r' ≡ r
      → RoomStep o (queue_reconnect pending) r s' r'
  come_back :
      (id : NodeId) (config : WebSocketPeerConfig) (s' : ManagerState) (r r' : Room)
      → r' ≡ cons (from_config (o.clock 0) config) r
      → RoomStep o (handle_command (WsCommand.peer_closed id)) r s' r'
  call :
      (now : ℕ) (p : WsPendingPeer) (r r' : Room)
      → (now ≡ o.clock 0) ⊎ (now ≡ o.found_at)
      → when_ready p ≤ now
      → r ≡ cons p r'
      → RoomStep o listen r (connect_remote p) r'
  hurry :
      (ps : List WsPendingPeer) (r r' : Room)
      → o.found ≡ status (some resuming)
      → r ≡ of_list ps
      → r' ≡ of_list (all_ready o.clock ps)
      → RoomStep o listen r listen r'
  send_away :
      (url : ℕ) (respond_to : Sender) (ps : List WsPendingPeer) (s' : ManagerState) (r r' : Room)
      → r ≡ of_list ps
      → r' ≡ of_list (retain (λ p. not (p.config.url == url)) ps)
      → RoomStep o (remove_ws_peer url respond_to) r s' r'

-- The room of a manager.
abbrev pub room : WebsocketManager → Room
room m = of_list m.disconnected_peers

abbrev pub Refines : Outside → ManagerState → WebsocketManager → Next → Type 0
Refines o s m (go s' m') = RoomStep o s (room m) s' (room m')
Refines o s m (stop m') = room m' ≡ room m

pub insert_at-perm :
    (i : ℕ) (p : WsPendingPeer) (ps : List WsPendingPeer) → Perm (insert_at i p ps) (p ∷ ps)
unfolding insert_at
insert_at-perm zero p ps = Perm.refl (p ∷ ps)
insert_at-perm (suc i) p [] = Perm.refl (p ∷ [])
insert_at-perm (suc i) p (q ∷ ps) =
    Perm.trans (Perm.cons q (insert_at-perm i p ps)) (Perm.swap p q ps)

insert_sorted-perm :
    (p : WsPendingPeer) (ps : List WsPendingPeer) → Perm (insert_sorted p ps) (p ∷ ps)
unfolding insert_sorted
insert_sorted-perm p [] = Perm.refl (p ∷ [])
insert_sorted-perm p (q ∷ ps) = elim (Bool-cases (leb (when_ready p) (when_ready q))) [
  | inl t ↦ rw t (Perm.refl (p ∷ q ∷ ps))
  | inr f ↦ rw f (Perm.trans (Perm.cons q (insert_sorted-perm p ps)) (Perm.swap p q ps))
]

pub sort_by_ready-perm : (ps : List WsPendingPeer) → Perm (sort_by_ready ps) ps
unfolding sort_by_ready
sort_by_ready-perm [] = Perm.refl []
sort_by_ready-perm (p ∷ ps) =
    Perm.trans (insert_sorted-perm p (sort_by_ready ps)) (Perm.cons p (sort_by_ready-perm ps))
