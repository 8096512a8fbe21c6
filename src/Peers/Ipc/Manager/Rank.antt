-- ===== src/Peers/Ipc/Manager/Rank.antt =====
-- The rank of a node among the nodes that it has sessions with.
use anybus.Common.{
  ℕ, ◌+◌, ◌≤◌, ◌≡◌, inl, inr, refl, arith, true, List, [], ◌∷◌, ◌++◌, some, if◌then◌else◌,
  Bool-cases, nat_eq, ◌==◌, leb, ltb, ap, ◌∙◌,
}
use anybus.Common.Preds.{All}
use anybus.Routing.{NodeId}
use anybus.Peers.Ipc.{contains}
use anybus.Peers.Ipc.Manager.{IpcManager, insert_id, sorted, find_position, rank, peer_ids}

-- How many ids are smaller.
abbrev pub older : NodeId → List NodeId → ℕ
older id [] = 0
older id (other ∷ ids) = (if ltb other id then 1 else 0) + older id ids

abbrev IsSorted : List NodeId → Type 0
IsSorted [] = Unit {0}
IsSorted (id ∷ ids) = All (λ other. id ≤ other) ids × IsSorted ids

older-insert_id :
    (id x : NodeId) (ids : List NodeId) → older id (insert_id x ids) ≡ older id (x ∷ ids)
unfolding insert_id
older-insert_id id x [] = refl
older-insert_id id x (y ∷ ids) = ground (arith, older-insert_id id x ids)

older-sorted : (id : NodeId) (ids : List NodeId) → older id (sorted ids) ≡ older id ids
unfolding sorted
older-sorted id [] = refl
older-sorted id (x ∷ ids) = omega (arith, older-insert_id id x (sorted ids), older-sorted id ids)

older-append :
    (id : NodeId) (ids others : List NodeId)
    → older id (ids ++ others) ≡ older id ids + older id others
older-append id [] others = omega arith
older-append id (x ∷ ids) others = omega (arith, older-append id ids others)

contains-insert_id :
    (id x : NodeId) (ids : List NodeId) → contains (insert_id x ids) id ≡ contains (x ∷ ids) id
unfolding insert_id
contains-insert_id id x [] = refl
contains-insert_id id x (y ∷ ids) = ground (arith, contains-insert_id id x ids)

contains-sorted : (id : NodeId) (ids : List NodeId) → contains (sorted ids) id ≡ contains ids id
unfolding sorted
contains-sorted id [] = refl
contains-sorted id (x ∷ ids) =
    ground (arith, contains-insert_id id x (sorted ids), contains-sorted id ids)

contains-last : (id : NodeId) (ids : List NodeId) → contains (ids ++ id ∷ []) id ≡ true
contains-last id [] = ground arith
contains-last id (x ∷ ids) = ground (arith, contains-last id ids)

All-weaken :
    (a b : NodeId) (ids : List NodeId) → a ≤ b → All (λ x. b ≤ x) ids → All (λ x. a ≤ x) ids
All-weaken a b [] le h = tt
All-weaken a b (x ∷ ids) le h = (omega arith, All-weaken a b ids le h.1)

All-insert_id :
    (a x : NodeId) (ids : List NodeId)
    → a ≤ x
    → All (λ y. a ≤ y) ids
    → All (λ y. a ≤ y) (insert_id x ids)
unfolding insert_id
All-insert_id a x [] le h = (le, tt)
All-insert_id a x (y ∷ ids) le h = elim (Bool-cases (leb x y)) [
  | inl t ↦ rw t (le, h)
  | inr f ↦ rw f (h.0, All-insert_id a x ids le h.1)
]

insert_id-IsSorted : (x : NodeId) (ids : List NodeId) → IsSorted ids → IsSorted (insert_id x ids)
unfolding insert_id
insert_id-IsSorted x [] s = (tt, tt)
insert_id-IsSorted x (y ∷ ids) s = elim (Bool-cases (leb x y)) [
  | inl t ↦ let le : x ≤ y = ground arith in rw t ((le, All-weaken x y ids le s.0), s)
  | inr f ↦ rw f (All-insert_id y x ids (ground arith) s.0, insert_id-IsSorted x ids s.1)
]

sorted-IsSorted : (ids : List NodeId) → IsSorted (sorted ids)
unfolding sorted
sorted-IsSorted [] = tt
sorted-IsSorted (x ∷ ids) = insert_id-IsSorted x (sorted ids) (sorted-IsSorted ids)

-- Among ids that are not smaller, none is.
older_zero : (id a : NodeId) (ids : List NodeId) → id ≤ a → All (λ x. a ≤ x) ids → older id ids ≡ 0
older_zero id a [] le h = refl
older_zero id a (x ∷ ids) le h = ground (arith, older_zero id a ids le h.1)

le-contains :
    (a id : NodeId) (ids : List NodeId) → contains ids id ≡ true → All (λ x. a ≤ x) ids → a ≤ id
le-contains a id [] h k = cc
le-contains a id (x ∷ ids) h k = elim (Bool-cases (x == id)) [
  | inl t ↦ ground (arith, t, k.0)
  | inr f ↦ le-contains a id ids (ground (arith, h, f)) k.1
]

find_position-sorted :
    (id : NodeId) (ids : List NodeId)
    → IsSorted ids
    → contains ids id ≡ true
    → find_position id ids ≡ some (older id ids)
unfolding find_position
find_position-sorted id [] s h = cc
find_position-sorted id (x ∷ ids) s h = elim (Bool-cases (x == id)) [
  | inl here ↦ rw here (ground (arith, older_zero id x ids (ground arith) s.0))
  | inr there ↦
      let inside : contains ids id ≡ true = ground (arith, h, there) in
      ground (arith, le-contains x id ids inside s.0, find_position-sorted id ids s.1 inside, there)
]

-- The rank is always found, and is the number of nodes with a session whose ids are smaller than ours.
pub rank_lem : (m : IpcManager) → rank m ≡ some (older m.our_nodeid (peer_ids m.peers))
unfolding rank
rank_lem m =
    let ids = peer_ids m.peers ++ m.our_nodeid ∷ [] in
    find_position-sorted m.our_nodeid (sorted ids) (sorted-IsSorted ids)
      (contains-sorted m.our_nodeid ids ∙ contains-last m.our_nodeid (peer_ids m.peers))
    ∙ ap some (
        grind (
          arith,
          older-sorted m.our_nodeid ids,
          older-append m.our_nodeid (peer_ids m.peers) (m.our_nodeid ∷ []),
        ))
