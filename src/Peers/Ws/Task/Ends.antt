-- ===== src/Peers/Ws/Task/Ends.antt =====
-- How a run of the task of a websocket peer ends.
use anybus.Common.{
  ℕ, zero, suc, ◌+◌, ◌≤◌, ◌≡◌, ◌⊎◌, inl, inr, refl, arith, true, false, List, [], ◌∷◌, length,
  Bool-cases,
}
use anybus.Peers.Ws.WsPeer.{
  WsPeer, open_phase, closing, closed, Event, transport_dead, Effect, step,
}
use anybus.Peers.Ws.Task.{
  World, Exit, finished, waiting, out_of_fuel, run_ws_peer, apply_effects, apply_effect,
}

-- A task that has ended has a closed machine, one that waits an open one; neither has effects left.
abbrev pub Settled : Exit → Type 0
Settled (finished p w) = (p.phase ≡ closed) × (p.effects ≡ [])
Settled (waiting p w) = (p.phase ≡ open_phase) × (p.effects ≡ [])
Settled out_of_fuel = ⊥

pub rest-apply_effects :
    (es : List Effect) (w : World) → (apply_effects es w).2 ≡ false → (apply_effects es w).0 ≡ []
unfolding apply_effects
rest-apply_effects [] w e = refl
rest-apply_effects (x ∷ es) w e = elim (Bool-cases (apply_effect x w).1) [
  | inl ok ↦ rw ok (rest-apply_effects es (apply_effect x w).0 (rw ok at e))
  | inr no_ok ↦ absurd (ground arith)
]

module _ (fuel now : ℕ) (events : List (ℕ × Event)) (p : WsPeer) (w : World) where
  pub run-closed :
      p.phase ≡ closed → p.effects ≡ [] → run_ws_peer (suc fuel) now events p w ≡ finished p w
  unfolding run_ws_peer
  run-closed c e = ground (arith, c, e)

  pub run-failed :
      (apply_effects p.effects w).2 ≡ true
      → p.phase ≡ closing
      → run_ws_peer (suc fuel) now events p w
        ≡ run_ws_peer fuel now events
            (record p { phase = closed; effects = [] })
            (apply_effects p.effects w).1
  unfolding run_ws_peer
  run-failed e c = ground (arith, c, e)

  pub run-flushed :
      (apply_effects p.effects w).2 ≡ false
      → p.phase ≡ closing
      → run_ws_peer (suc fuel) now events p w
        ≡ finished (record p { phase = closed; effects = [] }) (apply_effects p.effects w).1
  unfolding run_ws_peer
  run-flushed e c = ground (arith, c, e, rest-apply_effects p.effects w)

pub step_open_phase :
    (now : ℕ) (event : Event) (p : WsPeer)
    → p.phase ≡ open_phase
    → ((step now event p).phase ≡ open_phase) ⊎ ((step now event p).phase ≡ closing)
unfolding step
step_open_phase now event p o = ground arith

module _ (fuel now : ℕ) (p : WsPeer) (w : World) where
  pub run-open_failed :
      (events : List (ℕ × Event))
      → (apply_effects p.effects w).2 ≡ true
      → p.phase ≡ open_phase
      → run_ws_peer (suc fuel) now events p w
        ≡ run_ws_peer fuel now events
            (step now transport_dead (record p { effects = (apply_effects p.effects w).0 }))
            (apply_effects p.effects w).1
  unfolding run_ws_peer
  run-open_failed events e o = ground (arith, o, e)

  pub run-open_idle :
      (apply_effects p.effects w).2 ≡ false
      → p.phase ≡ open_phase
      → run_ws_peer (suc fuel) now [] p w
        ≡ waiting (record p { effects = [] }) (apply_effects p.effects w).1
  unfolding run_ws_peer
  run-open_idle e o = ground (arith, o, e, rest-apply_effects p.effects w)

  pub run-open_next :
      (at : ℕ) (event : Event) (more : List (ℕ × Event))
      → (apply_effects p.effects w).2 ≡ false
      → p.phase ≡ open_phase
      → run_ws_peer (suc fuel) now ((at, event) ∷ more) p w
        ≡ run_ws_peer fuel at more
            (step at event (record p { effects = [] }))
            (apply_effects p.effects w).1
  unfolding run_ws_peer
  run-open_next at event more e o = ground (arith, o, e, rest-apply_effects p.effects w)

  closing-Settled :
      (events : List (ℕ × Event))
      → p.phase ≡ closing
      → Settled (run_ws_peer (suc (suc fuel)) now events p w)
  closing-Settled events c = elim (Bool-cases (apply_effects p.effects w).2) [
    | inl e ↦
        let next = record p { phase = closed; effects = [] } in
        rw (run-failed (suc fuel) now events p w e c) (
          rw (run-closed fuel now events next (apply_effects p.effects w).1 refl refl) (refl, refl))
    | inr e ↦ rw (run-flushed (suc fuel) now events p w e c) (refl, refl)
  ]

transport_dead-Settled :
    (fuel now : ℕ) (events : List (ℕ × Event)) (p : WsPeer) (w : World)
    → p.phase ≡ open_phase
    → Settled (run_ws_peer (suc (suc fuel)) now events (step now transport_dead p) w)
unfolding step
transport_dead-Settled fuel now events p w o =
    closing-Settled fuel now (step now transport_dead p) w events (ground (arith, o))

-- With three passes more than there are events, a run whose machine starts open comes to an end: the
-- task has ended with a closed machine, or it has handled all events and waits with an open machine,
-- and in both cases no effect is left. This holds whatever sends or notifications fail.
pub run_ws_peer-Settled :
    (fuel now : ℕ) (events : List (ℕ × Event)) (p : WsPeer) (w : World)
    → length events + 3 ≤ fuel
    → p.phase ≡ open_phase
    → Settled (run_ws_peer fuel now events p w)
run_ws_peer-Settled zero now events p w h o = absurd (omega arith)
run_ws_peer-Settled (suc zero) now events p w h o = absurd (omega arith)
run_ws_peer-Settled (suc (suc zero)) now events p w h o = absurd (omega arith)
run_ws_peer-Settled (suc (suc (suc f))) now [] p w h o =
    elim (Bool-cases (apply_effects p.effects w).2) [
      | inl e ↦ rw (run-open_failed (suc (suc f)) now p w [] e o) (
          transport_dead-Settled f now [] (record p { effects = (apply_effects p.effects w).0 })
            (apply_effects p.effects w).1 o)
      | inr e ↦ rw (run-open_idle (suc (suc f)) now p w e o) (o, refl)
    ]
run_ws_peer-Settled (suc (suc (suc f))) now ((at, event) ∷ more) p w h o =
    elim (Bool-cases (apply_effects p.effects w).2) [
      | inl e ↦ rw (run-open_failed (suc (suc f)) now p w ((at, event) ∷ more) e o) (
          transport_dead-Settled f now ((at, event) ∷ more)
            (record p { effects = (apply_effects p.effects w).0 }) (apply_effects p.effects w).1 o)
      | inr e ↦
          let next = step at event (record p { effects = [] }) in
          rw (run-open_next (suc (suc f)) now p w at event more e o)
            (elim (step_open_phase at event (record p { effects = [] }) o) [
              | inl stays ↦
                  run_ws_peer-Settled (suc (suc f)) at more next (apply_effects p.effects w).1
                    (omega arith) stays
              | inr closes ↦ closing-Settled f at next (apply_effects p.effects w).1 more closes
            ])
    ]
