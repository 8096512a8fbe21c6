-- ===== src/Common/Unique.antt =====
-- Maps without two entries for one key, as every `HashMap` is.
use mathlib.Core.Path.{◌≡◌, refl, sym, ap, subst}
use mathlib.Core.Logic.{inl, inr}
use mathlib.Core.Bool.{Bool, true}
use mathlib.Core.Option.{none, some}
use mathlib.Core.List.{[], ◌∷◌, Memᴰ}
use native.Mathlib.Omega.{arith}
use anybus.Common.Tests.{if◌then◌else◌, PartialEq, ◌==◌, Bool-cases}
use anybus.Common.Lists.{retain, find}
use anybus.Common.Assoc.{HashMap, get, insert, remove, get-insert, get-remove, values}

module _ {ℓ κ} {K : Type ℓ} {V : Type κ} ⦃e : PartialEq K⦄ where
  abbrev pub UniqueKeys : HashMap K V → Type κ
  UniqueKeys [] = Unit
  UniqueKeys ((k, v) ∷ m) = (get k m ≡ none) × UniqueKeys m

  pub get-mem : (k : K) (v : V) (m : HashMap K V) → UniqueKeys m → Memᴰ (k, v) m → get k m ≡ some v
  unfolding get
  get-mem k v [] u h = elim h [ ]
  get-mem k v ((j, w) ∷ m) u (Memᴰ.head h) =
      let same : k ≡ j = ap (λ (p : K × V). p.0) h in
      let value : v ≡ w = ap (λ (p : K × V). p.1) h in ground (arith, e.eq_iff j k)
  get-mem k v ((j, w) ∷ m) u (Memᴰ.tail h) =
      let below = get-mem k v m u.1 h in
      elim (Bool-cases (j == k)) [
        | inl t ↦
            let gone = subst (λ i. get i m ≡ none) ((e.eq_iff j k).0 t) u.0 in absurd (ground arith)
        | inr f ↦ rw f below
      ]

  pub mem-get : (k : K) (v : V) (m : HashMap K V) → get k m ≡ some v → Memᴰ (k, v) m
  unfolding get
  mem-get k v [] h = cc
  mem-get k v ((j, w) ∷ m) h = elim (Bool-cases (j == k)) [
    | inl t ↦
        let same : j ≡ k = (e.eq_iff j k).0 t in
        let value : w ≡ v = ground arith in Memᴰ.head (sym (λ i. (same i, value i)))
    | inr f ↦ Memᴰ.tail (mem-get k v m (ground arith))
  ]

  pub insert-UniqueKeys :
      (k : K) (v : V) (m : HashMap K V) → UniqueKeys m → UniqueKeys (insert k v m)
  unfolding insert
  insert-UniqueKeys k v [] u = (unfold get in refl, tt)
  insert-UniqueKeys k v ((j, w) ∷ m) u = elim (Bool-cases (j == k)) [
    | inl t ↦ rw t (subst (λ i. get i m ≡ none) ((e.eq_iff j k).0 t) u.0, u.1)
    | inr f ↦ rw f (
      ground (arith, get-insert k j v m, e.eq_iff j k, e.eq_iff k j, u.0),
      insert-UniqueKeys k v m u.1,
    )
  ]

  pub remove-UniqueKeys : (k : K) (m : HashMap K V) → UniqueKeys m → UniqueKeys (remove k m)
  unfolding remove
  remove-UniqueKeys k [] u = tt
  remove-UniqueKeys k ((j, w) ∷ m) u = elim (Bool-cases (j == k)) [
    | inl t ↦ rw t (remove-UniqueKeys k m u.1)
    | inr f ↦ rw f (ground (arith, get-remove k j m, u.0), remove-UniqueKeys k m u.1)
  ]

  -- A filter by keys.
  pub get-retain :
      (p : K → Bool) (k : K) (m : HashMap K V)
      → get k (retain (λ kv. p kv.0) m) ≡ (if p k then get k m else none)
  unfolding get
  get-retain p k [] = ground arith
  get-retain p k ((j, w) ∷ m) = elim (Bool-cases (j == k)) [
    | inl t ↦ let same : p j ≡ p k = ap p ((e.eq_iff j k).0 t) in ground (arith, get-retain p k m)
    | inr f ↦ ground (arith, get-retain p k m)
  ]

  pub retain-UniqueKeys :
      (p : K → Bool) (m : HashMap K V) → UniqueKeys m → UniqueKeys (retain (λ kv. p kv.0) m)
  retain-UniqueKeys p [] u = tt
  retain-UniqueKeys p ((j, w) ∷ m) u = elim (Bool-cases (p j)) [
    | inl t ↦ rw t (ground (arith, get-retain p j m, u.0), retain-UniqueKeys p m u.1)
    | inr f ↦ rw f (retain-UniqueKeys p m u.1)
  ]

  -- What is in the map is found among its values.
  pub find-values :
      (p : V → Bool) (k : K) (v : V) (m : HashMap K V)
      → get k m ≡ some v
      → p v ≡ true
      → (w : V) × (find p (values m) ≡ some w)
  unfolding get
  find-values p k v [] h t = cc
  find-values p k v ((j, w) ∷ m) h t = elim (Bool-cases (p w)) [
    | inl here ↦ (w, rw here)
    | inr no_match ↦ let (x, found) = find-values p k v m (ground arith) t in (x, rw no_match found)
  ]
