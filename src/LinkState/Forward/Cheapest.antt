-- ===== src/LinkState/Forward/Cheapest.antt =====
-- Which route the forwarding table takes: `min_by_key` in `build_from_db` of forward_table.rs.
use anybus.Common.{
  ◌≢◌, ◌+◌, min, ◌≤◌, ◌≡◌, refl, sym, subst, ◌∙◌, List, [], ◌∷◌, Option, none, some, nat_eq, Memᴰ,
  arith, inl, inr, Option-cases, Bool-cases, ltb,
}
use anybus.Common.Assoc.{get}
use anybus.Routing.{NodeId, Cost, add}
use anybus.LinkState.{Link, LsForwardTo, LsRoute, FibForwardTo, Sender}
use anybus.LinkState.Db.{LsDb}
use anybus.LinkState.Forward.{
  single, anycast_total, fib_forward, forward_via, via_total, path_total, min_by_key, better_of,
  best, build_entry, built, Built, entry, skipped,
}
use anybus.Routing.{anycast}

-- A route of the list with the least key.
pub record IsLeast (key : LsRoute → Option Cost) (routes : List LsRoute) (c : Cost) (r : LsRoute)
    : Type 0 where
  pub member : Memᴰ r routes
  pub its_key : key r ≡ some c
  pub least : (q : LsRoute) (d : Cost) → Memᴰ q routes → key q ≡ some d → c ≤ d

-- What `min_by_key` has found in a list.
abbrev pub Found : (LsRoute → Option Cost) → List LsRoute → Option (Cost × LsRoute) → Type 0
Found key routes none = (q : LsRoute) → Memᴰ q routes → key q ≡ none
Found key routes (some (c, r)) = IsLeast key routes c r

module _ (key : LsRoute → Option Cost) where
  IsLeast-cons :
      (r : LsRoute) (routes : List LsRoute) (c : Cost) (q : LsRoute)
      → ((d : Cost) → key r ≡ some d → c ≤ d)
      → IsLeast key routes c q
      → IsLeast key (r ∷ routes) c q
  IsLeast-cons r routes c q front l = record {
    member = Memᴰ.tail l.member;
    its_key = l.its_key;
    least = go;
  }
    where
      go : (x : LsRoute) (d : Cost) → Memᴰ x (r ∷ routes) → key x ≡ some d → c ≤ d
      go x d (Memᴰ.head e) k = front d (subst (λ y. key y ≡ some d) e k)
      go x d (Memᴰ.tail m) k = l.least x d m k

  head-IsLeast :
      (r : LsRoute) (routes : List LsRoute) (c : Cost)
      → key r ≡ some c
      → ((q : LsRoute) (d : Cost) → Memᴰ q routes → key q ≡ some d → c ≤ d)
      → IsLeast key (r ∷ routes) c r
  head-IsLeast r routes c k rest = record { member = Memᴰ.head refl; its_key = k; least = go }
    where
      go : (x : LsRoute) (d : Cost) → Memᴰ x (r ∷ routes) → key x ≡ some d → c ≤ d
      go x d (Memᴰ.head e) h =
          let same : some c ≡ some d = sym k ∙ subst (λ y. key y ≡ some d) e h in ground arith
      go x d (Memᴰ.tail m) h = rest x d m h

  better_of-Found :
      (r : LsRoute) (routes : List LsRoute) (c : Cost) (rest : Option (Cost × LsRoute))
      → key r ≡ some c
      → Found key routes rest
      → Found key (r ∷ routes) (better_of (c, r) rest)
  unfolding better_of
  better_of-Found r routes c none k h =
      head-IsLeast r routes c k
        (λ q d m e. let no : ◌≡◌ {A = Option Cost} none (some d) = sym (h q m) ∙ e in ground arith)
  better_of-Found r routes c (some (d, q)) k h = elim (Bool-cases (ltb d c)) [
    | inl t ↦ rw t (
        IsLeast-cons r routes d q (λ x e. let same : some c ≡ some x = sym k ∙ e in ground arith) h)
    | inr f ↦ rw f (head-IsLeast r routes c k (λ x y m e. let b = h.least x y m e in ground arith))
  ]

  pub min_by_key-Found : (routes : List LsRoute) → Found key routes (min_by_key key routes)
  unfolding min_by_key
  min_by_key-Found [] = λ q m. elim m [ ]
  min_by_key-Found (r ∷ routes) = at_key (min_by_key-Found routes) (key r) refl
    where
      skip :
          (rest : Option (Cost × LsRoute))
          → key r ≡ none
          → Found key routes rest
          → Found key (r ∷ routes) rest
      skip none gone h = go
        where
          go : (q : LsRoute) → Memᴰ q (r ∷ routes) → key q ≡ none
          go q (Memᴰ.head e) = subst (λ y. key y ≡ none) (sym e) gone
          go q (Memᴰ.tail m) = h q m
      skip (some (c, q)) gone h =
          IsLeast-cons r routes c q
            (λ d e. let no : ◌≡◌ {A = Option Cost} none (some d) = sym gone ∙ e in ground arith) h

      at_key :
          Found key routes (min_by_key key routes)
          → (k : Option Cost) → key r ≡ k
          → Found key (r ∷ routes) (elim k [
            | none ↦ min_by_key key routes
            | some c ↦ better_of (c, r) (min_by_key key routes)
          ])
      at_key h none gone = skip (min_by_key key routes) gone h
      at_key h (some c) here = better_of-Found r routes c _ here h

-- A route can be used at a total cost and over a hop: to a listener here at its own cost, or to a
-- node with a path and a next hop at the sum with the path's cost, which saturates.
pub data Usable (d : LsDb) (r : LsRoute) (c : Cost) (hop : FibForwardTo) : Type 0 where
  here :
      (s : Sender)
      → r.via ≡ LsForwardTo.local s
      → c ≡ r.cost
      → hop ≡ FibForwardTo.local s
      → Usable d r c hop
  there :
      (n : NodeId) (path : Cost) (link : Link)
      → r.via ≡ LsForwardTo.remote n
      → get n d.cost ≡ some path
      → path ≢ 65535
      → get n d.next_hop ≡ some link
      → c ≡ min (r.cost + path) 65535
      → hop ≡ FibForwardTo.remote link
      → Usable d r c hop

-- The key of `min_by_key` is the total cost of a route that can be used, and its hop the one taken.
anycast_total-Usable :
    (d : LsDb) (r : LsRoute) (c : Cost)
    → anycast_total d r ≡ some c
    → (hop : FibForwardTo) × Usable d r c hop × (fib_forward d r ≡ some hop)
unfolding anycast_total fib_forward via_total path_total forward_via add
anycast_total-Usable d r c h = go r.via refl h
  where
    go :
        (v : LsForwardTo)
        → r.via ≡ v
        → via_total d r.cost v ≡ some c
        → (hop : FibForwardTo) × Usable d r c hop × (forward_via d v ≡ some hop)
    go (LsForwardTo.local s) e t = (_, here s e (ground arith) refl, refl)
    go (LsForwardTo.remote n) e t = elim (Option-cases (get n d.cost)) [
      | inl far ↦ absurd (ground arith)
      | inr (path, known) ↦ elim (Option-cases (get n d.next_hop)) [
        | inl gone ↦ absurd (ground arith)
        | inr (l, hop) ↦ (
          FibForwardTo.remote l,
          there n path l e known (ground arith) hop (ground arith) refl,
          rw (hop, forward_via),
        )
      ]
    ]

Usable-anycast_total :
    (d : LsDb) (r : LsRoute) (c : Cost) (hop : FibForwardTo)
    → Usable d r c hop
    → anycast_total d r ≡ some c
unfolding anycast_total via_total path_total add
Usable-anycast_total d r c hop (here s e t h) = ground arith
Usable-anycast_total d r c hop (there n path link e known near next t h) = ground arith

-- The entry of an anycast endpoint: none exactly if no route is usable, and otherwise the hop of a
-- route with the least total cost.
abbrev pub IsCheapest : LsDb → List LsRoute → Built → Type 0
IsCheapest d routes skipped =
    (q : LsRoute) (c : Cost) (hop : FibForwardTo) → Memᴰ q routes → ¬ Usable d q c hop
IsCheapest d routes Built.panicked = ⊥
IsCheapest d routes (entry e) =
    (c : Cost) × (r : LsRoute) × (hop : FibForwardTo) × Memᴰ r routes
    × Usable d r c hop
    × ((q : LsRoute) (c' : Cost) (hop' : FibForwardTo)
        → Memᴰ q routes
        → Usable d q c' hop'
        → c ≤ c')
    × (e ≡ single hop)

-- The entry of an anycast endpoint is left out only if none of its routes can be used. Otherwise it is a
-- single hop, that of a usable route with the least total cost among them. A route to a listener here
-- can be used at its own cost; one to another node if the node has a path whose cost is below the
-- maximum and a next hop, at the sum of the two costs or the maximum if that is less.
pub build_entry-IsCheapest :
    (d : LsDb) (routes : List LsRoute) → IsCheapest d routes (build_entry d anycast routes)
unfolding build_entry best built
build_entry-IsCheapest d routes =
    go (min_by_key (anycast_total d) routes) (min_by_key-Found (anycast_total d) routes)
  where
    go :
        (found : Option (Cost × LsRoute))
        → Found (anycast_total d) routes found
        → IsCheapest d routes (
            built (elim found [
              | none ↦ none
              | some (c, r) ↦ elim (fib_forward d r) [ none ↦ none | some hop ↦ some (single hop) ]
            ]))
    go none h = λ q c hop m u.
        let no : ◌≡◌ {A = Option Cost} none (some c) =
          sym (h q m) ∙ Usable-anycast_total d q c hop u in
        ground arith
    go (some (c, r)) h =
        let (hop, u, e) = anycast_total-Usable d r c h.its_key in
        rw e (
          c,
          r,
          hop,
          h.member,
          u,
          λ q c' hop' m v. h.least q c' m (Usable-anycast_total d q c' hop' v),
          refl,
        )
