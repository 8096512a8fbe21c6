-- ===== src/Common/Preds.antt =====
-- Predicates on all elements of a list and on all values of a map.
use mathlib.Core.Path.{◌≡◌}
use mathlib.Core.Bool.{Bool, true}
use mathlib.Core.Option.{some}
use mathlib.Core.List.{List, [], ◌∷◌, ◌++◌, Memᴰ, map}
use mathlib.Core.Logic.{inl, inr}
use mathlib.Core.Path.{subst, sym, ap}
use native.Mathlib.Omega.{arith}
use anybus.Common.Tests.{PartialEq, ◌==◌, Bool-cases}
use anybus.Common.Lists.{retain, update_first, push, find}
use anybus.Common.Assoc.{HashMap, get, insert, remove}

abbrev pub All {ℓ κ} : {A : Type ℓ} → (A → Type κ) → List A → Type κ
All P [] = Unit
All P (x ∷ xs) = P x × All P xs

module _ {ℓ κ} {A : Type ℓ} (P : A → Type κ) where
  pub All-append : (xs ys : List A) → All P xs → All P ys → All P (xs ++ ys)
  All-append [] ys h k = k
  All-append (x ∷ xs) ys h k = (h.0, All-append xs ys h.1 k)

  pub All-push : (xs : List A) (y : A) → All P xs → P y → All P (push xs y)
  All-push xs y h k = All-append xs (y ∷ []) h (k, tt)

  pub All-retain : (p : A → Bool) (xs : List A) → All P xs → All P (retain p xs)
  All-retain p [] h = tt
  All-retain p (x ∷ xs) h = elim (Bool-cases (p x)) [
    | inl e ↦ rw e (h.0, All-retain p xs h.1)
    | inr e ↦ rw e (All-retain p xs h.1)
  ]

  pub All-update_first :
      (p : A → Bool) (f : A → A) (xs : List A)
      → ((x : A) → P x → P (f x))
      → All P xs
      → All P (update_first p f xs)
  All-update_first p f [] k h = tt
  All-update_first p f (x ∷ xs) k h = elim (Bool-cases (p x)) [
    | inl e ↦ rw e (k x h.0, h.1)
    | inr e ↦ rw e (h.0, All-update_first p f xs k h.1)
  ]

  pub All-get : (xs : List A) (x : A) → All P xs → Memᴰ x xs → P x
  All-get [] x h m = elim m [ ]
  All-get (y ∷ xs) x h (Memᴰ.head e) = subst P (sym e) h.0
  All-get (y ∷ xs) x h (Memᴰ.tail m) = All-get xs x h.1 m

  pub find-All :
      (p : A → Bool) (xs : List A) (x : A) → All P xs → find p xs ≡ some x → P x × (p x ≡ true)
  find-All p [] x h e = cc
  find-All p (y ∷ xs) x h e = elim (Bool-cases (p y)) [
    | inl t ↦ let same : y ≡ x = ground arith in (subst P same h.0, subst (λ z. p z ≡ true) same t)
    | inr f ↦ find-All p xs x h.1 (ground arith)
  ]

abbrev pub AllValues {ℓ κ ν} : {K : Type ℓ} {V : Type κ} → (V → Type ν) → HashMap K V → Type ν
AllValues P m = All (λ kv. P kv.1) m

module _ {ℓ κ ν} {K : Type ℓ} {V : Type κ} ⦃e : PartialEq K⦄ (P : V → Type ν) where
  pub AllValues-insert :
      (k : K) (v : V) (m : HashMap K V) → P v → AllValues P m → AllValues P (insert k v m)
  unfolding insert
  AllValues-insert k v [] h a = (h, tt)
  AllValues-insert k v ((j, w) ∷ m) h a = elim (Bool-cases (j == k)) [
    | inl t ↦ rw t (h, a.1)
    | inr f ↦ rw f (a.0, AllValues-insert k v m h a.1)
  ]

  pub AllValues-remove : (k : K) (m : HashMap K V) → AllValues P m → AllValues P (remove k m)
  unfolding remove
  AllValues-remove k [] a = tt
  AllValues-remove k ((j, w) ∷ m) a = elim (Bool-cases (j == k)) [
    | inl t ↦ rw t (AllValues-remove k m a.1)
    | inr f ↦ rw f (a.0, AllValues-remove k m a.1)
  ]

  pub AllValues-get : (k : K) (m : HashMap K V) (v : V) → AllValues P m → get k m ≡ some v → P v
  unfolding get
  AllValues-get k [] v a h = cc
  AllValues-get k ((j, w) ∷ m) v a h = elim (Bool-cases (j == k)) [
    | inl t ↦ let same : w ≡ v = ground arith in subst P same a.0
    | inr f ↦ AllValues-get k m v a.1 (ground arith)
  ]

module _ {ℓ} {A : Type ℓ} where
  pub find-mem : (p : A → Bool) (xs : List A) (x : A) → find p xs ≡ some x → Memᴰ x xs
  find-mem p [] x e = cc
  find-mem p (y ∷ xs) x e = elim (Bool-cases (p y)) [
    | inl t ↦ Memᴰ.head (ground arith)
    | inr f ↦ Memᴰ.tail (find-mem p xs x (ground arith))
  ]

  pub mem-append_left : (x : A) (xs ys : List A) → Memᴰ x xs → Memᴰ x (xs ++ ys)
  mem-append_left x [] ys m = elim m [ ]
  mem-append_left x (y ∷ xs) ys (Memᴰ.head e) = Memᴰ.head e
  mem-append_left x (y ∷ xs) ys (Memᴰ.tail m) = Memᴰ.tail (mem-append_left x xs ys m)

  pub mem-append_right : (x : A) (xs ys : List A) → Memᴰ x ys → Memᴰ x (xs ++ ys)
  mem-append_right x [] ys m = m
  mem-append_right x (y ∷ xs) ys m = Memᴰ.tail (mem-append_right x xs ys m)

pub mem-map {ℓ κ} :
    {A : Type ℓ} {B : Type κ} (f : A → B) (x : A) (xs : List A) → Memᴰ x xs → Memᴰ (f x) (map f xs)
mem-map f x [] m = elim m [ ]
mem-map f x (y ∷ xs) (Memᴰ.head e) = Memᴰ.head (ap f e)
mem-map f x (y ∷ xs) (Memᴰ.tail m) = Memᴰ.tail (mem-map f x xs m)
