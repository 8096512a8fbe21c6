-- ===== src/Heartbeat.antt =====
-- `struct Heartbeat` of src/peers/common.rs. Times and durations are numbers of milliseconds.
use anybus.Common.{
  ℕ, ◌+◌, ◌-◌, ◌%◌, ◌≤◌, ◌≡◌, Bool, false, ◌||◌, Option, none, some, arith, inl, inr, Option-cases,
  min, leb,
}

pub record Heartbeat : Type 0 where
  pub interval : ℕ
  pub timeout : ℕ
  pub last_rx : ℕ
  pub last_ping : Option ℕ
  pub outstanding : Option ℕ
  pub next_token : ℕ

unfoldable pub new : ℕ → ℕ → ℕ → Heartbeat
new now interval timeout = record {
  interval = interval;
  timeout = timeout;
  last_rx = now;
  last_ping = none;
  outstanding = none;
  next_token = 1;
}

unfoldable pub on_rx : ℕ → Heartbeat → Heartbeat
on_rx now h = record h { last_rx = now; last_ping = none; outstanding = none }

unfoldable pub note_resume : ℕ → Heartbeat → Heartbeat
unfolding on_rx
note_resume now h = on_rx now h

abbrev pub poke_at : Heartbeat → ℕ
poke_at h = elim h.last_ping [ none ↦ h.last_rx + h.interval | some sent ↦ sent + h.interval ]

unfoldable pub next_deadline : Heartbeat → ℕ
next_deadline h = min (poke_at h) (h.last_rx + h.timeout)

-- `saturating_duration_since` is subtraction that stops at 0.
unfoldable pub timed_out : Heartbeat → ℕ → Bool
timed_out h now = leb h.timeout (now - h.last_rx)

unfoldable pub ping_due : Heartbeat → ℕ → Bool
ping_due h now = leb (poke_at h) now

-- The token, and `wrapping_add` on a u64.
unfoldable pub take_ping_token : ℕ → Heartbeat → Heartbeat × ℕ
take_ping_token now h = (
  record h {
    next_token = (h.next_token + 1) % 18446744073709551616;
    last_ping = some now;
    outstanding = some h.next_token;
  },
  h.next_token,
)

-- At a time that is not before the last message, the deadline has come exactly if the peer has timed
-- out or a ping is due.
pub next_deadline_lem :
    (h : Heartbeat) (now : ℕ)
    → h.last_rx ≤ now
    → leb (next_deadline h) now ≡ (timed_out h now || ping_due h now)
unfolding next_deadline timed_out ping_due
next_deadline_lem h now since = elim (Option-cases h.last_ping) [
  | inl e ↦ ground (arith, e)
  | inr (sent, e) ↦ ground (arith, e)
]

-- With a positive interval and a positive timeout, at the time of a message the peer has not timed
-- out and no ping is due, and none is due at the time at which one is taken.
pub timed_out-on_rx :
    (h : Heartbeat) (now : ℕ)
    → 1 ≤ h.interval
    → 1 ≤ h.timeout
    → (timed_out (on_rx now h) now ≡ false)
      × (ping_due (on_rx now h) now ≡ false)
      × (ping_due (take_ping_token now h).0 now ≡ false)
unfolding timed_out ping_due on_rx take_ping_token
timed_out-on_rx h now i t = (ground arith, ground arith, ground arith)
