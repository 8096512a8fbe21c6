-- ===== src/LinkState/Wire/Added.antt =====
-- What an operation delivers to the channels, as a predicate on each delivery.
use anybus.Common.{◌≡◌, refl, ◌∙◌, ap, List, [], ◌∷◌, ◌++◌, Memᴰ, nat_eq}
use anybus.Common.Preds.{All, All-append}
use anybus.LinkState.Wire.{Wire, Delivery, TrySend, delivered, full, closed, deliver}

-- What is delivered in between satisfies a predicate.
abbrev pub Adds : (Delivery → Type 0) → Wire → Wire → Type 0
Adds P w w' = (ds : List Delivery) × (w'.sent ≡ w.sent ++ ds) × All P ds

module _ (P : Delivery → Type 0) where
  append-nil : (xs : List Delivery) → xs ≡ xs ++ []
  append-nil [] = refl
  append-nil (x ∷ xs) = ap (λ ys. x ∷ ys) (append-nil xs)

  append_assoc : (xs ys zs : List Delivery) → (xs ++ ys) ++ zs ≡ xs ++ (ys ++ zs)
  append_assoc [] ys zs = refl
  append_assoc (x ∷ xs) ys zs = ap (λ rest. x ∷ rest) (append_assoc xs ys zs)

  pub Adds-refl : (w : Wire) → Adds P w w
  Adds-refl w = ([], append-nil w.sent, tt)

  pub Adds-trans : (u v w : Wire) → Adds P u v → Adds P v w → Adds P u w
  Adds-trans u v w (ds, e, h) (es, f, k) =
      (ds ++ es, f ∙ ap (λ xs. xs ++ es) e ∙ append_assoc u.sent ds es, All-append P ds es h k)

  pub deliver-Adds : (d : Delivery) (r : TrySend) (w : Wire) → P d → Adds P w (deliver d r w)
  unfolding deliver
  deliver-Adds d delivered w p = (d ∷ [], refl, (p, tt))
  deliver-Adds d full w p = Adds-refl w
  deliver-Adds d closed w p = Adds-refl w

pub All-mem : {A : Type 0} (xs : List A) → All (λ x. Memᴰ x xs) xs
All-mem xs = go xs xs (λ x m. m)
  where
    go : {A : Type 0} (ys xs : List A) → ((x : A) → Memᴰ x ys → Memᴰ x xs) → All (λ x. Memᴰ x xs) ys
    go [] xs sub = tt
    go (y ∷ ys) xs sub = (sub y (Memᴰ.head refl), go ys xs (λ x m. sub x (Memᴰ.tail m)))

pub All-weaken :
    {A : Type 0} (P Q : A → Type 0) (xs : List A) → ((x : A) → P x → Q x) → All P xs → All Q xs
All-weaken P Q [] f h = tt
All-weaken P Q (x ∷ xs) f h = (f x h.0, All-weaken P Q xs f h.1)
