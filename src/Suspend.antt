-- ===== src/Suspend.antt =====
-- src/anybus/suspend.rs: signals of suspend and resume, and the debounce that drops repeated ones.
-- A time is a number of milliseconds.
use anybus.Common.{
  ◌≢◌, ◌⊎◌, ℕ, ◌+◌, ◌-◌, ◌%◌, ◌≤◌, ◌≡◌, Bool, true, false, ◌&&◌, List, [], ◌∷◌, Option, none, some,
  arith, inl, inr, Bool-cases, ltb, leb, if◌then◌else◌, ◌↔◌,
}

-- `enum AnyBusStatusMsg` of src/messages.rs.
pub data AnyBusStatusMsg : Type 0 where
  shutting_down resuming suspending network_changed : AnyBusStatusMsg

abbrev pub msg_beq : AnyBusStatusMsg → AnyBusStatusMsg → Bool
msg_beq shutting_down shutting_down = true
msg_beq resuming resuming = true
msg_beq suspending suspending = true
msg_beq network_changed network_changed = true
msg_beq _ _ = false

msg_beq_iff : (a b : AnyBusStatusMsg) → (msg_beq a b ≡ true) ↔ (a ≡ b)
msg_beq_iff a b = ground arith

-- What `LifecycleDebounce` holds: the last message that it let through, and when.
abbrev pub Last : Type 0
Last = Option (AnyBusStatusMsg × ℕ)

-- The same message came less than `DEBOUNCE` ago.
abbrev pub is_repeated : Last → AnyBusStatusMsg → ℕ → Bool
is_repeated none msg now = false
is_repeated (some (prev, at)) msg now = msg_beq prev msg && ltb (now - at) 3000

unfoldable pub allow : Last → AnyBusStatusMsg → ℕ → Last × Bool
allow last msg now = if is_repeated last msg now then (last, false) else (some (msg, now), true)

abbrev pub is_lifecycle : AnyBusStatusMsg → Bool
is_lifecycle suspending = true
is_lifecycle resuming = true
is_lifecycle _ = false

-- The last part tells whether the handle is asked to send the message.
unfoldable pub emit : Last → AnyBusStatusMsg → ℕ → Last × Bool
unfolding allow
emit last msg now = if is_lifecycle msg then allow last msg now else (last, false)

-- A pass of `stall_loop` after its sleep: the wall clock tells of a gap of `STALL_GAP` or more. The
-- first part is `last` of the next pass.
unfoldable pub stall_step : ℕ → ℕ → ℕ → Last → ℕ × Last × Bool
unfolding emit
stall_step wall_last wall_now now last =
    let gap = (wall_now - wall_last) % 18446744073709551616 in
    let (last', ok) = if leb 10000 gap then emit last resuming now else (last, false) in
    (wall_now, last', ok)

-- The messages that are sent of a sequence of signals, with their times.
unfoldable pub emitted : Last → List (AnyBusStatusMsg × ℕ) → List (AnyBusStatusMsg × ℕ)
unfolding emit
emitted last [] = []
emitted last ((msg, now) ∷ signals) =
    let (last', ok) = emit last msg now in
    let rest = emitted last' signals in if ok then (msg, now) ∷ rest else rest

-- A message is not sent within three seconds of the one before it if they are the same.
abbrev pub IsApart : Last → AnyBusStatusMsg → ℕ → Type 0
IsApart none msg now = Unit {0}
IsApart (some (prev, at)) msg now = (prev ≢ msg) ⊎ (at + 3000 ≤ now)

abbrev pub Spaced : Last → List (AnyBusStatusMsg × ℕ) → Type 0
Spaced last [] = Unit {0}
Spaced last ((msg, now) ∷ rest) =
    (is_lifecycle msg ≡ true) × IsApart last msg now × Spaced (some (msg, now)) rest

is_repeated-IsApart :
    (last : Last) (msg : AnyBusStatusMsg) (now : ℕ)
    → is_repeated last msg now ≡ false
    → IsApart last msg now
is_repeated-IsApart none msg now e = tt
is_repeated-IsApart (some (prev, at)) msg now e = elim (Bool-cases (msg_beq prev msg)) [
  | inl same ↦ inr (ground arith)
  | inr other ↦ inl (λ p. ground (arith, msg_beq_iff prev msg, p))
]

-- Of whatever signals at whatever times, only suspending and resuming are sent, and of two messages
-- that are sent one after the other and are the same, the second is sent three seconds after the
-- first or later.
pub emitted-Spaced :
    (last : Last) (signals : List (AnyBusStatusMsg × ℕ)) → Spaced last (emitted last signals)
unfolding emitted
emitted-Spaced last [] = tt
emitted-Spaced last ((msg, now) ∷ signals) = elim (Bool-cases (is_lifecycle msg)) [
  | inr f ↦ unfold emit in rw f (emitted-Spaced last signals)
  | inl t ↦
      unfold emit in
      unfold allow in
      elim (Bool-cases (is_repeated last msg now)) [
        | inl old ↦ rw (t, old) (emitted-Spaced last signals)
        | inr new ↦
            rw (t, new)
              (t, is_repeated-IsApart last msg now new, emitted-Spaced (some (msg, now)) signals)
      ]
]
