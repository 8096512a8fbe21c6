-- ===== src/LinkState/Spf/Queue.antt =====
-- The queue of `compute_spf`: what moving an entry keeps, and why `partition_point` may be used.
use anybus.Common.{
  ◌+◌, ◌≤◌, ◌≡◌, ◌≢◌, refl, sym, subst, inl, inr, true, false, List, [], ◌∷◌, length, ◌==◌, nat_eq,
  nat_beq_iff, arith, Bool-cases, Memᴰ,
}
use anybus.Common.Preds.{All}
use anybus.Routing.{NodeId}
use anybus.LinkState.{Entry, better}
use anybus.LinkState.Spf.{dequeue, enqueue}

pub mem-enqueue_self : (e : Entry) (q : List Entry) → Memᴰ e (enqueue e q)
unfolding enqueue
mem-enqueue_self e [] = Memᴰ.head refl
mem-enqueue_self e (x ∷ q) = elim (Bool-cases (better x e)) [
  | inl t ↦ rw t (Memᴰ.tail (mem-enqueue_self e q))
  | inr f ↦ rw f (Memᴰ.head refl)
]

pub mem-enqueue : (e y : Entry) (q : List Entry) → Memᴰ y q → Memᴰ y (enqueue e q)
unfolding enqueue
mem-enqueue e y [] m = Memᴰ.tail m
mem-enqueue e y (x ∷ q) (Memᴰ.head h) = elim (Bool-cases (better x e)) [
  | inl t ↦ rw t (Memᴰ.head h)
  | inr f ↦ rw f (Memᴰ.tail (Memᴰ.head h))
]
mem-enqueue e y (x ∷ q) (Memᴰ.tail m) = elim (Bool-cases (better x e)) [
  | inl t ↦ rw t (Memᴰ.tail (mem-enqueue e y q m))
  | inr f ↦ rw f (Memᴰ.tail (Memᴰ.tail m))
]

pub mem-dequeue :
    (n : NodeId) (y : Entry) (q : List Entry) → y.node ≢ n → Memᴰ y q → Memᴰ y (dequeue n q)
unfolding dequeue
mem-dequeue n y [] ne m = m
mem-dequeue n y (x ∷ q) ne (Memᴰ.head h) = elim (Bool-cases (x.node == n)) [
  | inl t ↦ absurd (ne (subst (λ (z : Entry). z.node ≡ n) (sym h) ((nat_beq_iff x.node n).0 t)))
  | inr f ↦ rw f (Memᴰ.head h)
]
mem-dequeue n y (x ∷ q) ne (Memᴰ.tail m) = elim (Bool-cases (x.node == n)) [
  | inl t ↦ rw t m
  | inr f ↦ rw f (Memᴰ.tail (mem-dequeue n y q ne m))
]

module _ {ℓ} (P : Entry → Type ℓ) where
  pub All-enqueue : (e : Entry) (q : List Entry) → P e → All P q → All P (enqueue e q)
  unfolding enqueue
  All-enqueue e [] h a = (h, tt)
  All-enqueue e (x ∷ q) h a = elim (Bool-cases (better x e)) [
    | inl t ↦ rw t (a.0, All-enqueue e q h a.1)
    | inr f ↦ rw f (h, a)
  ]

  pub All-dequeue : (n : NodeId) (q : List Entry) → All P q → All P (dequeue n q)
  unfolding dequeue
  All-dequeue n [] a = tt
  All-dequeue n (x ∷ q) a = elim (Bool-cases (x.node == n)) [
    | inl t ↦ rw t a.1
    | inr f ↦ rw f (a.0, All-dequeue n q a.1)
  ]

pub length-enqueue : (e : Entry) (q : List Entry) → length (enqueue e q) ≡ length q + 1
unfolding enqueue
length-enqueue e [] = omega arith
length-enqueue e (x ∷ q) = ground (arith, length-enqueue e q)

pub length-dequeue-le : (n : NodeId) (q : List Entry) → length (dequeue n q) ≤ length q
unfolding dequeue
length-dequeue-le n [] = omega arith
length-dequeue-le n (x ∷ q) = ground (arith, length-dequeue-le n q)

-- No entry is better than one before it.
abbrev pub NotBetter : Entry → Entry → Type 0
NotBetter e x = better x e ≡ false

abbrev pub Sorted : List Entry → Type 0
Sorted [] = Unit {0}
Sorted (e ∷ q) = All (NotBetter e) q × Sorted q

pub better_asym : (a b : Entry) → better a b ≡ true → better b a ≡ false
unfolding better
better_asym a b h = ground arith

pub not_better_trans :
    (a b c : Entry) → better b a ≡ false → better c b ≡ false → better c a ≡ false
unfolding better
not_better_trans a b c h k = ground arith

All-NotBetter_trans :
    (a b : Entry) (q : List Entry) → better b a ≡ false → All (NotBetter b) q → All (NotBetter a) q
All-NotBetter_trans a b [] h k = tt
All-NotBetter_trans a b (c ∷ q) h k =
    (not_better_trans a b c h k.0, All-NotBetter_trans a b q h k.1)

-- Inserting behind the better entries keeps the queue sorted.
pub enqueue-Sorted : (e : Entry) (q : List Entry) → Sorted q → Sorted (enqueue e q)
unfolding enqueue
enqueue-Sorted e [] s = (tt, tt)
enqueue-Sorted e (x ∷ q) s = elim (Bool-cases (better x e)) [
  | inl t ↦ rw t (All-enqueue (NotBetter x) e q (better_asym x e t) s.0, enqueue-Sorted e q s.1)
  | inr f ↦ rw f ((f, All-NotBetter_trans e x q f s.0), s)
]

pub dequeue-Sorted : (n : NodeId) (q : List Entry) → Sorted q → Sorted (dequeue n q)
unfolding dequeue
dequeue-Sorted n [] s = tt
dequeue-Sorted n (x ∷ q) s = elim (Bool-cases (x.node == n)) [
  | inl t ↦ rw t s.1
  | inr f ↦ rw f (All-dequeue (NotBetter x) n q s.0, dequeue-Sorted n q s.1)
]
