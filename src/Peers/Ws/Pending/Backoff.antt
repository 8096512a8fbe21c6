-- ===== src/Peers/Ws/Pending/Backoff.antt =====
-- How long a peer waits between attempts.
use Prim.Native.Nat.{◌^◌}
use anybus.Common.{
  ℕ, zero, suc, ◌+◌, ◌*◌, ◌%◌, ◌≤◌, ◌<◌, min, ◌≡◌, refl, arith, List, [], ◌∷◌, length,
}
use anybus.Peers.Ws.Pending.{
  WebSocketPeerConfig, WsPendingPeer, from_config, when_ready, record_attempt,
}

-- An attempt at each of the given times, the first of them first.
abbrev pub attempts : List ℕ → WsPendingPeer → WsPendingPeer
attempts [] p = p
attempts (now ∷ later) p = attempts later (record_attempt now p)

num_attempts_lem :
    (times : List ℕ) (p : WsPendingPeer)
    → p.num_attempts + length times < 4294967296
    → (attempts times p).num_attempts ≡ p.num_attempts + length times
unfolding record_attempt
num_attempts_lem [] p h = omega arith
num_attempts_lem (now ∷ later) p h =
    omega (arith, num_attempts_lem later (record_attempt now p) (omega arith))

pow_bounds : (k : ℕ) → k ≤ 7 → (2 ≤ 2 ^ suc k) × (2 ^ suc k ≤ 256)
pow_bounds zero h = (omega arith, omega arith)
pow_bounds (suc zero) h = (omega arith, omega arith)
pow_bounds (suc (suc zero)) h = (omega arith, omega arith)
pow_bounds (suc (suc (suc zero))) h = (omega arith, omega arith)
pow_bounds (suc (suc (suc (suc zero)))) h = (omega arith, omega arith)
pow_bounds (suc (suc (suc (suc (suc zero))))) h = (omega arith, omega arith)
pow_bounds (suc (suc (suc (suc (suc (suc zero)))))) h = (omega arith, omega arith)
pow_bounds (suc (suc (suc (suc (suc (suc (suc zero))))))) h = (omega arith, omega arith)
pow_bounds (suc (suc (suc (suc (suc (suc (suc (suc k)))))))) h = absurd (omega arith)

-- A peer that is new at some time, and that was tried at some times and then at a last one, fewer than
-- 2^32 times in all, is ready again after two to the number of attempts seconds, but no more than 256
-- and no fewer than two.
pub attempts_bounds :
    (now last : ℕ) (times : List ℕ) (config : WebSocketPeerConfig)
    → length times + 1 < 4294967296
    → let p = record_attempt last (attempts times (from_config now config)) in
      (when_ready p ≡ last + 2 ^ min (length times + 1) 8 * 1000)
      × (last + 2000 ≤ when_ready p)
      × (when_ready p ≤ last + 256000)
unfolding record_attempt when_ready from_config
attempts_bounds now last times config h =
    let count = num_attempts_lem times (from_config now config) (omega arith) in
    let exponent : min (length times + 1) 8 ≡ suc (min (length times) 7) = ground arith in
    let bounds = pow_bounds (min (length times) 7) (ground arith) in
    let small : ((attempts times (from_config now config)).num_attempts + 1) % 4294967296
        ≡ length times + 1 =
      omega (arith, count) in
    (
      rw small refl,
      rw (small, exponent) (omega (arith, bounds.0)),
      rw (small, exponent) (omega (arith, bounds.1)),
    )
