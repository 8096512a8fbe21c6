-- ===== src/LinkState/RouteTable/Validity.antt =====
-- The invariant of the route table, and that every operation of it keeps it.
use anybus.Common.{
  ◌≤◌, ◌≡◌, refl, sym, Bool, false, inl, inr, List, [], ◌∷◌, retain, any, length, update_first,
  push, nat_eq, arith, Bool-cases, subst,
}
use anybus.Common.Preds.{All, All-retain, All-update_first, AllValues}
use anybus.Routing.{NodeId, RouteKind, unicast, kind_eq}
use anybus.LinkState.{LsForwardTo, LsRoute, LsRouteEntry}
use anybus.LinkState.RouteTable.{RouteTable}
use anybus.LinkState.RouteTable.Remote.{learned_from}

abbrev pub from_origin : NodeId → List LsRoute → Bool
from_origin o routes = any (λ (r : LsRoute). learned_from o r.via) routes

abbrev pub Unheard : LsForwardTo → List LsRoute → Type 0
Unheard (LsForwardTo.local sender) routes = Unit {0}
Unheard (LsForwardTo.remote o) routes = from_origin o routes ≡ false

-- No two remote routes of an entry have one origin.
abbrev pub Distinct : List LsRoute → Type 0
Distinct [] = Unit {0}
Distinct (r ∷ routes) = Unheard r.via routes × Distinct routes

abbrev pub OfKind : RouteKind → LsRoute → Type 0
OfKind k r = r.kind ≡ k

pub record EntryIsValid (entry : LsRouteEntry) : Type 0 where
  pub same_kind : All (OfKind entry.kind) entry.routes
  pub single : entry.kind ≡ unicast → length entry.routes ≤ 1
  pub distinct : Distinct entry.routes

abbrev pub IsValid : RouteTable → Type 0
IsValid table = AllValues EntryIsValid table

length-retain-le : (p : LsRoute → Bool) (rs : List LsRoute) → length (retain p rs) ≤ length rs
length-retain-le p [] = omega arith
length-retain-le p (r ∷ rs) = ground (arith, length-retain-le p rs)

from_origin-retain :
    (o : NodeId) (p : LsRoute → Bool) (rs : List LsRoute)
    → from_origin o rs ≡ false
    → from_origin o (retain p rs) ≡ false
from_origin-retain o p [] h = refl
from_origin-retain o p (r ∷ rs) h = ground (arith, from_origin-retain o p rs)

Unheard-retain :
    (v : LsForwardTo) (p : LsRoute → Bool) (rs : List LsRoute)
    → Unheard v rs
    → Unheard v (retain p rs)
Unheard-retain (LsForwardTo.local s) p rs h = tt
Unheard-retain (LsForwardTo.remote o) p rs h = from_origin-retain o p rs h

Distinct-retain : (p : LsRoute → Bool) (rs : List LsRoute) → Distinct rs → Distinct (retain p rs)
Distinct-retain p [] d = tt
Distinct-retain p (r ∷ rs) d = elim (Bool-cases (p r)) [
  | inl e ↦ rw e (Unheard-retain r.via p rs d.0, Distinct-retain p rs d.1)
  | inr e ↦ rw e (Distinct-retain p rs d.1)
]

pub EntryIsValid-retain :
    (entry : LsRouteEntry) (p : LsRoute → Bool)
    → EntryIsValid entry
    → EntryIsValid (record entry { routes = retain p entry.routes })
EntryIsValid-retain entry p v = record {
  same_kind = All-retain (OfKind entry.kind) p entry.routes v.same_kind;
  single = λ e. omega (arith, v.single e, length-retain-le p entry.routes);
  distinct = Distinct-retain p entry.routes v.distinct;
}

-- A change of a route that leaves its kind and where it leads.
pub record Same (f : LsRoute → LsRoute) : Type 0 where
  pub same_via : (r : LsRoute) → (f r).via ≡ r.via
  pub same_kind : (r : LsRoute) → (f r).kind ≡ r.kind

module _ (p : LsRoute → Bool) (f : LsRoute → LsRoute) (s : Same f) where
  length-update_first : (rs : List LsRoute) → length (update_first p f rs) ≡ length rs
  length-update_first [] = refl
  length-update_first (r ∷ rs) = ground (arith, length-update_first rs)

  from_origin-update_first :
      (o : NodeId) (rs : List LsRoute) → from_origin o (update_first p f rs) ≡ from_origin o rs
  from_origin-update_first o [] = refl
  from_origin-update_first o (r ∷ rs) = ground (arith, from_origin-update_first o rs, s.same_via r)

  Unheard-update_first :
      (v : LsForwardTo) (rs : List LsRoute) → Unheard v rs → Unheard v (update_first p f rs)
  Unheard-update_first (LsForwardTo.local x) rs h = tt
  Unheard-update_first (LsForwardTo.remote o) rs h = rw (from_origin-update_first o rs) h

  Distinct-update_first : (rs : List LsRoute) → Distinct rs → Distinct (update_first p f rs)
  Distinct-update_first [] d = tt
  Distinct-update_first (r ∷ rs) d = elim (Bool-cases (p r)) [
    | inl e ↦ rw e (subst (λ v. Unheard v rs) (sym (s.same_via r)) d.0, d.1)
    | inr e ↦ rw e (Unheard-update_first r.via rs d.0, Distinct-update_first rs d.1)
  ]

  pub EntryIsValid-update_first :
      (entry : LsRouteEntry)
      → EntryIsValid entry
      → EntryIsValid (record entry { routes = update_first p f entry.routes })
  EntryIsValid-update_first entry v = record {
    same_kind =
        All-update_first (OfKind entry.kind) p f entry.routes (λ r h. ground (arith, s.same_kind r))
          v.same_kind;
    single = λ e. omega (arith, v.single e, length-update_first entry.routes);
    distinct = Distinct-update_first entry.routes v.distinct;
  }

from_origin-push :
    (o : NodeId) (rs : List LsRoute) (r : LsRoute)
    → from_origin o rs ≡ false
    → learned_from o r.via ≡ false
    → from_origin o (push rs r) ≡ false
from_origin-push o [] r h k = ground arith
from_origin-push o (x ∷ rs) r h k = ground (arith, from_origin-push o rs r)

abbrev pub Apart : LsForwardTo → LsForwardTo → Type 0
Apart (LsForwardTo.local s) v = Unit {0}
Apart (LsForwardTo.remote o) v = learned_from o v ≡ false

pub Distinct-push :
    (rs : List LsRoute) (r : LsRoute)
    → All (λ (x : LsRoute). Apart x.via r.via) rs
    → Unheard r.via []
    → Distinct rs
    → Distinct (push rs r)
Distinct-push [] r a u d = (u, tt)
Distinct-push (x ∷ rs) r a u d = (go x.via a.0 d.0, Distinct-push rs r a.1 u d.1)
  where
    go : (v : LsForwardTo) → Apart v r.via → Unheard v rs → Unheard v (push rs r)
    go (LsForwardTo.local s) b h = tt
    go (LsForwardTo.remote o) b h = from_origin-push o rs r h b
