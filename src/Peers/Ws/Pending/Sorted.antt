-- ===== src/Peers/Ws/Pending/Sorted.antt =====
-- The queue of disconnected peers is in the order of their times.
use anybus.Common.{
  ℕ, zero, suc, ◌≤◌, ◌≡◌, inl, inr, arith, Bool, true, false, List, [], ◌∷◌, subst, sym, Bool-cases,
  ltb, leb, retain, nat_eq,
}
use anybus.Common.Preds.{All, All-retain}
use anybus.Peers.Ws.Pending.{
  WsPendingPeer, when_ready, place_of, is_taken, insert_at, enqueue, insert_sorted, sort_by_ready,
}

abbrev pub IsSorted : List WsPendingPeer → Type 0
IsSorted [] = Unit {0}
IsSorted (p ∷ ps) = All (λ q. when_ready p ≤ when_ready q) ps × IsSorted ps

All-weaken :
    (a b : ℕ) (ps : List WsPendingPeer)
    → a ≤ b
    → All (λ q. b ≤ when_ready q) ps
    → All (λ q. a ≤ when_ready q) ps
All-weaken a b [] le h = tt
All-weaken a b (p ∷ ps) le h = (omega arith, All-weaken a b ps le h.1)

All-insert_at :
    (a i : ℕ) (p : WsPendingPeer) (ps : List WsPendingPeer)
    → a ≤ when_ready p
    → All (λ q. a ≤ when_ready q) ps
    → All (λ q. a ≤ when_ready q) (insert_at i p ps)
unfolding insert_at
All-insert_at a zero p ps h k = (h, k)
All-insert_at a (suc i) p [] h k = (h, tt)
All-insert_at a (suc i) p (q ∷ ps) h k = (k.0, All-insert_at a i p ps h k.1)

insert_at-IsSorted :
    (p : WsPendingPeer) (ps : List WsPendingPeer)
    → IsSorted ps
    → IsSorted (insert_at (place_of (when_ready p) ps) p ps)
unfolding insert_at place_of
insert_at-IsSorted p [] s = (tt, tt)
insert_at-IsSorted p (q ∷ ps) s = elim (Bool-cases (ltb (when_ready q) (when_ready p))) [
  | inl before ↦ rw before (
    All-insert_at (when_ready q) (place_of (when_ready p) ps) p ps (ground arith) s.0,
    insert_at-IsSorted p ps s.1,
  )
  | inr after ↦
      let le : when_ready p ≤ when_ready q = ground arith in
      rw after ((le, All-weaken (when_ready p) (when_ready q) ps le s.0), s)
]

-- A peer whose time is taken is dropped.
pub enqueue_taken :
    (p : WsPendingPeer) (ps : List WsPendingPeer)
    → is_taken (when_ready p) ps ≡ true
    → enqueue p ps ≡ ps
unfolding enqueue
enqueue_taken p ps taken = ground (arith, taken)

pub enqueue_free :
    (p : WsPendingPeer) (ps : List WsPendingPeer)
    → is_taken (when_ready p) ps ≡ false
    → enqueue p ps ≡ insert_at (place_of (when_ready p) ps) p ps
unfolding enqueue
enqueue_free p ps free = ground (arith, free)

pub enqueue-IsSorted :
    (p : WsPendingPeer) (ps : List WsPendingPeer) → IsSorted ps → IsSorted (enqueue p ps)
enqueue-IsSorted p ps s = elim (Bool-cases (is_taken (when_ready p) ps)) [
  | inl taken ↦ subst IsSorted (sym (enqueue_taken p ps taken)) s
  | inr free ↦ subst IsSorted (sym (enqueue_free p ps free)) (insert_at-IsSorted p ps s)
]

pub retain-IsSorted :
    (f : WsPendingPeer → Bool) (ps : List WsPendingPeer) → IsSorted ps → IsSorted (retain f ps)
retain-IsSorted f [] s = tt
retain-IsSorted f (p ∷ ps) s = elim (Bool-cases (f p)) [
  | inl t ↦ rw t (All-retain (λ q. when_ready p ≤ when_ready q) f ps s.0, retain-IsSorted f ps s.1)
  | inr n ↦ rw n (retain-IsSorted f ps s.1)
]

All-insert_sorted :
    (a : ℕ) (p : WsPendingPeer) (ps : List WsPendingPeer)
    → a ≤ when_ready p
    → All (λ q. a ≤ when_ready q) ps
    → All (λ q. a ≤ when_ready q) (insert_sorted p ps)
unfolding insert_sorted
All-insert_sorted a p [] h k = (h, tt)
All-insert_sorted a p (q ∷ ps) h k = elim (Bool-cases (leb (when_ready p) (when_ready q))) [
  | inl t ↦ rw t (h, k)
  | inr f ↦ rw f (k.0, All-insert_sorted a p ps h k.1)
]

insert_sorted-IsSorted :
    (p : WsPendingPeer) (ps : List WsPendingPeer) → IsSorted ps → IsSorted (insert_sorted p ps)
unfolding insert_sorted
insert_sorted-IsSorted p [] s = (tt, tt)
insert_sorted-IsSorted p (q ∷ ps) s = elim (Bool-cases (leb (when_ready p) (when_ready q))) [
  | inl t ↦
      let le : when_ready p ≤ when_ready q = ground arith in
      rw t ((le, All-weaken (when_ready p) (when_ready q) ps le s.0), s)
  | inr f ↦
      rw f
        (All-insert_sorted (when_ready q) p ps (ground arith) s.0, insert_sorted-IsSorted p ps s.1)
]

pub sort_by_ready-IsSorted : (ps : List WsPendingPeer) → IsSorted (sort_by_ready ps)
unfolding sort_by_ready
sort_by_ready-IsSorted [] = tt
sort_by_ready-IsSorted (p ∷ ps) =
    insert_sorted-IsSorted p (sort_by_ready ps) (sort_by_ready-IsSorted ps)
