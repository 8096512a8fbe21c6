-- ===== src/Examples/Signals.antt =====
-- The theorem on suspend signals at a concrete input.
use anybus.Common.{ℕ, none, List, [], ◌∷◌}
use anybus.Suspend.{
  AnyBusStatusMsg, resuming, suspending, network_changed, emitted, Spaced, emitted-Spaced,
}

-- The second and third are dropped.
abbrev four_signals : List (AnyBusStatusMsg × ℕ)
four_signals =
    (resuming, 1000) ∷ (resuming, 2000) ∷ (network_changed, 2500) ∷ (suspending, 3000) ∷ []

emitted-Spaced_example : Spaced none (emitted none four_signals)
emitted-Spaced_example = emitted-Spaced none four_signals
