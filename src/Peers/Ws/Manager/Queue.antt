-- ===== src/Peers/Ws/Manager/Queue.antt =====
-- The queue of peers that wait for their next attempt.
use anybus.Common.{
  ℕ, ◌+◌, ◌-◌, ◌≤◌, ◌<◌, ◌≡◌, ◌↔◌, ◌⊎◌, inl, inr, refl, arith, true, false, List, [], ◌∷◌, Option,
  none, some, Bool-cases, leb, subst,
}
use anybus.Common.Preds.{All}
use anybus.Peers.Ws.Pending.{WsPendingPeer, when_ready}
use anybus.Peers.Ws.Pending.Sorted.{IsSorted}
use anybus.Peers.Ws.Manager.{WebsocketManager, get_next_timeout, get_next_ready_peer}
use anybus.Peers.Ws.Manager.Loop.{Next, go, stop}

-- The queue is in order.
abbrev pub HasOrder : WebsocketManager → Type 0
HasOrder m = IsSorted m.disconnected_peers

abbrev pub AllOrdered : Next → Type 0
AllOrdered (go state m) = HasOrder m
AllOrdered (stop m) = HasOrder m

-- The first two operations by what the queue is.
pub ready_empty :
    (now : ℕ) (m : WebsocketManager)
    → m.disconnected_peers ≡ []
    → (get_next_ready_peer now m ≡ (m, none)) × (get_next_timeout now m ≡ none)
unfolding get_next_ready_peer get_next_timeout
ready_empty now m e = ground (arith, e)

pub ready_first :
    (now : ℕ) (m : WebsocketManager) (p : WsPendingPeer) (ps : List WsPendingPeer)
    → m.disconnected_peers ≡ p ∷ ps
    → leb (when_ready p) now ≡ true
    → get_next_ready_peer now m ≡ (record m { disconnected_peers = ps }, some p)
unfolding get_next_ready_peer
ready_first now m p ps e r = ground (arith, e, r)

pub ready_later :
    (now : ℕ) (m : WebsocketManager) (p : WsPendingPeer) (ps : List WsPendingPeer)
    → m.disconnected_peers ≡ p ∷ ps
    → leb (when_ready p) now ≡ false
    → get_next_ready_peer now m ≡ (m, none)
unfolding get_next_ready_peer
ready_later now m p ps e r = ground (arith, e, r)

timeout_lem :
    (now t : ℕ) (m : WebsocketManager) (p : WsPendingPeer) (ps : List WsPendingPeer)
    → m.disconnected_peers ≡ p ∷ ps
    → get_next_timeout now m ≡ some t
    → t ≡ when_ready p - now
unfolding get_next_timeout
timeout_lem now t m p ps e h = ground (arith, e, h)

pub List-cases :
    {A : Type 0} (xs : List A) → (xs ≡ []) ⊎ ((x : A) × (rest : List A) × (xs ≡ x ∷ rest))
List-cases [] = inl refl
List-cases (x ∷ rest) = inr (x, rest, refl)

All-later :
    (now a : ℕ) (ps : List WsPendingPeer)
    → now < a
    → All (λ q. a ≤ when_ready q) ps
    → All (λ q. now < when_ready q) ps
All-later now a [] lt h = tt
All-later now a (p ∷ ps) lt h = (omega arith, All-later now a ps lt h.1)

-- What `get_next_ready_peer` says of an ordered queue.
abbrev pub Earliest : ℕ → WebsocketManager → WebsocketManager × Option WsPendingPeer → Type 0
Earliest now m (m', none) = (m' ≡ m) × All (λ q. now < when_ready q) m.disconnected_peers
Earliest now m (m', some p) =
    (m.disconnected_peers ≡ p ∷ m'.disconnected_peers)
    × (when_ready p ≤ now)
    × All (λ q. when_ready p ≤ when_ready q) m'.disconnected_peers

-- From an ordered queue, `get_next_ready_peer` takes the first peer, if it is ready, and then no peer
-- that stays is ready before it; otherwise it changes nothing, and no peer at all is ready.
pub get_next_ready_peer-Earliest :
    (now : ℕ) (m : WebsocketManager) → HasOrder m → Earliest now m (get_next_ready_peer now m)
get_next_ready_peer-Earliest now m s = elim (List-cases m.disconnected_peers) [
  | inl e ↦ rw (ready_empty now m e).0 (refl, rw e tt)
  | inr (p, ps, e) ↦
      let sorted = subst IsSorted e s in
      elim (Bool-cases (leb (when_ready p) now)) [
        | inl r ↦ rw (ready_first now m p ps e r) (e, ground arith, sorted.0)
        | inr r ↦
            let lt : now < when_ready p = ground arith in
            rw (ready_later now m p ps e r)
              (refl, rw e (lt, All-later now (when_ready p) ps lt sorted.0))
      ]
]

-- The timer that `listen` sets fires exactly when a peer becomes ready: at a later time, a ready peer is
-- found if and only if the time that `get_next_timeout` gave has passed.
pub get_next_timeout_lem :
    (now t passed : ℕ) (m : WebsocketManager)
    → get_next_timeout now m ≡ some t
    → ((get_next_ready_peer (now + passed) m).1 ≡ none) ↔ (passed < t)
get_next_timeout_lem now t passed m h = elim (List-cases m.disconnected_peers) [
  | inl e ↦ absurd (ground (arith, (ready_empty now m e).1, h))
  | inr (p, ps, e) ↦
      let wait = timeout_lem now t m p ps e h in
      elim (Bool-cases (leb (when_ready p) (now + passed))) [
        | inl r ↦ rw (ready_first (now + passed) m p ps e r) (λ x. cc, λ x. absurd (ground arith))
        | inr r ↦ rw (ready_later (now + passed) m p ps e r) (λ x. ground arith, λ x. refl)
      ]
]
