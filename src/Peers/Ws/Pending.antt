-- ===== src/Peers/Ws/Pending.antt =====
-- `WsPendingPeer` of src/peers/ws.rs and its queue in src/peers/ws/ws_manager.rs: remote peers that wait
-- for their next attempt. Times and durations are numbers of milliseconds. A URL and a name are named by
-- numbers, since they are only compared.
pub mod Sorted
pub mod Backoff
use Prim.Native.Nat.{◌^◌}
use anybus.Common.{
  ℕ, zero, suc, ◌+◌, ◌-◌, ◌*◌, ◌%◌, min, ◌≡◌, ◌↔◌, Bool, true, false, ◌&&◌, List, [], ◌∷◌, Option,
  none, some, any, if◌then◌else◌, nat_beq, nat_beq_iff, PartialEq, nat_eq, ◌==◌, ltb, leb, arith,
}

-- `struct WebSocketPeerConfig` of src/anybus/config.rs.
pub record WebSocketPeerConfig : Type 0 where
  pub url : ℕ
  pub name : ℕ

abbrev pub config_beq : WebSocketPeerConfig → WebSocketPeerConfig → Bool
config_beq a b = nat_beq a.url b.url && nat_beq a.name b.name

pub config_beq_iff : (a b : WebSocketPeerConfig) → (config_beq a b ≡ true) ↔ (a ≡ b)
config_beq_iff a b = ground (arith, nat_beq_iff a.url b.url)

instance abbrev pub config_eq : PartialEq WebSocketPeerConfig
config_eq = record { eq = config_beq; eq_iff = config_beq_iff }

pub record WsPendingPeer : Type 0 where
  pub config : WebSocketPeerConfig
  pub last_attempt : ℕ
  pub backoff : ℕ
  pub num_attempts : ℕ

-- `From<WebSocketPeerConfig>` and `From<&WebSocketPeerConfig>`.
unfoldable pub from_config : ℕ → WebSocketPeerConfig → WsPendingPeer
from_config now config = record {
  config = config;
  last_attempt = now;
  backoff = 1000;
  num_attempts = 0;
}

unfoldable pub when_ready : WsPendingPeer → ℕ
when_ready p = p.last_attempt + p.backoff

-- The sum on a u32 wraps.
unfoldable pub record_attempt : ℕ → WsPendingPeer → WsPendingPeer
record_attempt now p =
    let attempts = (p.num_attempts + 1) % 4294967296 in
    record p { last_attempt = now; num_attempts = attempts; backoff = 2 ^ min attempts 8 * 1000 }

unfoldable pub ready_now : ℕ → WsPendingPeer → WsPendingPeer
ready_now now p = record p { last_attempt = now; backoff = 0; num_attempts = 0 }

-- `binary_search_by_key` by the time at which a peer is ready, as it is documented for a list in that
-- order: `none` is `Ok`, there is a peer that is ready at this time, and `some` is `Err` with the place
-- where one belongs.
unfoldable pub place_of : ℕ → List WsPendingPeer → ℕ
unfolding when_ready
place_of key [] = 0
place_of key (p ∷ ps) = let rest = place_of key ps in if ltb (when_ready p) key then suc rest else 0

unfoldable pub is_taken : ℕ → List WsPendingPeer → Bool
unfolding when_ready
is_taken key ps = any (λ p. when_ready p == key) ps

unfoldable pub binary_search : ℕ → List WsPendingPeer → Option ℕ
unfolding place_of is_taken
binary_search key ps = if is_taken key ps then none else some (place_of key ps)

-- `Vec::insert`.
unfoldable pub insert_at : ℕ → WsPendingPeer → List WsPendingPeer → List WsPendingPeer
insert_at zero p ps = p ∷ ps
insert_at (suc i) p [] = p ∷ []
insert_at (suc i) p (q ∷ ps) = q ∷ insert_at i p ps

-- The peer goes into the queue where the search returns `Err`.
unfoldable pub enqueue : WsPendingPeer → List WsPendingPeer → List WsPendingPeer
unfolding binary_search insert_at when_ready
enqueue p ps = elim (binary_search (when_ready p) ps) [ none ↦ ps | some pos ↦ insert_at pos p ps ]

-- `sort_by_key`, which keeps the order of peers that are ready at the same time.
unfoldable pub insert_sorted : WsPendingPeer → List WsPendingPeer → List WsPendingPeer
unfolding when_ready
insert_sorted p [] = p ∷ []
insert_sorted p (q ∷ ps) =
    let rest = insert_sorted p ps in
    if leb (when_ready p) (when_ready q) then p ∷ q ∷ ps else q ∷ rest

unfoldable pub sort_by_ready : List WsPendingPeer → List WsPendingPeer
unfolding insert_sorted
sort_by_ready [] = []
sort_by_ready (p ∷ ps) = insert_sorted p (sort_by_ready ps)

-- `ready_now` on all; `clock i` is what the clock shows at its i-th reading.
unfoldable pub all_ready : (ℕ → ℕ) → List WsPendingPeer → List WsPendingPeer
unfolding ready_now
all_ready clock [] = []
all_ready clock (p ∷ ps) = ready_now (clock 0) p ∷ all_ready (λ i. clock (suc i)) ps
