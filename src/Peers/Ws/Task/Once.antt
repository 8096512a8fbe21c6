-- ===== src/Peers/Ws/Task/Once.antt =====
-- How often the task of a websocket peer unregisters its link.
use anybus.Common.{
  ℕ, zero, suc, ◌+◌, ◌≤◌, ◌≡◌, ◌⊎◌, inl, inr, refl, arith, Bool, true, false, List, [], ◌∷◌, push,
  Bool-cases, if-cases,
}
use anybus.Peers.Ws.{WsMessage}
use anybus.Peers.Ws.WsPeer.{
  WsPeer, open_phase, closing, closed, Event, transport_dead, Effect, send, unregister,
  notify_peer_closed, step,
}
use anybus.Peers.Ws.Task.{
  World, Exit, finished, waiting, out_of_fuel, run_ws_peer, apply_effects, apply_effect, succeeds,
}
use anybus.Peers.Ws.Task.Ends.{
  run-closed, run-failed, run-flushed, run-open_failed, run-open_idle, run-open_next,
}

abbrev is_unregister : Effect → ℕ
is_unregister unregister = 1
is_unregister _ = 0

abbrev pub unregisters : List Effect → ℕ
unregisters [] = 0
unregisters (x ∷ xs) = is_unregister x + unregisters xs

unregisters-push :
    (xs : List Effect) (x : Effect) → unregisters (push xs x) ≡ unregisters xs + is_unregister x
unregisters-push [] x = omega arith
unregisters-push (y ∷ xs) x = omega (arith, unregisters-push xs x)

-- Nothing that the environment decides goes wrong.
pub record NothingFails (w : World) : Type 0 where
  pub sends : (done : List Effect) (msg : WsMessage) → w.sends done msg ≡ true
  pub notifies : (done : List Effect) → w.notifies done ≡ true

apply_effect-unregisters :
    (x : Effect) (w : World)
    → unregisters (apply_effect x w).0.applied ≤ is_unregister x + unregisters w.applied
unfolding apply_effect
apply_effect-unregisters x w =
    if-cases
      (λ (r : World × Bool). unregisters r.0.applied ≤ is_unregister x + unregisters w.applied)
      (succeeds x w) _ _ (λ t. omega (arith, unregisters-push w.applied x)) (λ f. omega arith)

-- An unregistration that took place is one that was asked for.
apply_effects-unregisters :
    (es : List Effect) (w : World)
    → unregisters (apply_effects es w).0 + unregisters (apply_effects es w).1.applied
      ≤ unregisters es + unregisters w.applied
unfolding apply_effects
apply_effects-unregisters [] w = omega arith
apply_effects-unregisters (x ∷ es) w = elim (Bool-cases (apply_effect x w).1) [
  | inl ok ↦ rw ok (
      omega
        (arith, apply_effects-unregisters es (apply_effect x w).0, apply_effect-unregisters x w))
  | inr no_ok ↦ rw no_ok (omega (arith, apply_effect-unregisters x w))
]

apply_effect-NothingFails :
    (x : Effect) (w : World)
    → NothingFails w
    → apply_effect x w ≡ (record w { applied = push w.applied x }, true)
unfolding apply_effect
apply_effect-NothingFails (send msg) w k = rw (k.sends w.applied msg) refl
apply_effect-NothingFails notify_peer_closed w k = rw (k.notifies w.applied) refl
apply_effect-NothingFails _ w k = refl

-- Without a failure, all effects take place.
apply_effects-NothingFails :
    (es : List Effect) (w : World)
    → NothingFails w
    → ((apply_effects es w).2 ≡ false)
      × (unregisters (apply_effects es w).1.applied ≡ unregisters es + unregisters w.applied)
      × NothingFails (apply_effects es w).1
unfolding apply_effects
apply_effects-NothingFails [] w k = (refl, omega arith, k)
apply_effects-NothingFails (x ∷ es) w k =
    let next : World = record w { applied = push w.applied x } in
    let k' : NothingFails next = record { sends = k.sends; notifies = k.notifies } in
    let (ok, count, still) = apply_effects-NothingFails es next k' in
    rw (apply_effect-NothingFails x w k)
      (ok, omega (arith, count, unregisters-push w.applied x), still)

step-unregisters :
    (now : ℕ) (event : Event) (p : WsPeer)
    → p.phase ≡ open_phase
    → p.effects ≡ []
    → (((step now event p).phase ≡ open_phase) × (unregisters (step now event p).effects ≡ 0))
      ⊎ (((step now event p).phase ≡ closing) × (unregisters (step now event p).effects ≡ 1))
unfolding step
step-unregisters now event p o e = ground (arith, o, e)

-- The runs that have unregistered at most once, and not at all while they wait.
abbrev pub AtMostOnce : Exit → Type 0
AtMostOnce (finished p w) = unregisters w.applied ≤ 1
AtMostOnce (waiting p w) = unregisters w.applied ≡ 0
AtMostOnce out_of_fuel = Unit {0}

abbrev pub ExactlyOnce : Exit → Type 0
ExactlyOnce (finished p w) = unregisters w.applied ≡ 1
ExactlyOnce (waiting p w) = unregisters w.applied ≡ 0
ExactlyOnce out_of_fuel = Unit {0}

closed-AtMostOnce :
    (fuel now : ℕ) (events : List (ℕ × Event)) (p : WsPeer) (w : World)
    → p.phase ≡ closed
    → p.effects ≡ []
    → unregisters w.applied ≤ 1
    → AtMostOnce (run_ws_peer fuel now events p w)
unfolding run_ws_peer
closed-AtMostOnce zero now events p w c n h = tt
closed-AtMostOnce (suc fuel) now events p w c n h = rw (run-closed fuel now events p w c n) h

closing-AtMostOnce :
    (fuel now : ℕ) (events : List (ℕ × Event)) (p : WsPeer) (w : World)
    → p.phase ≡ closing
    → unregisters p.effects + unregisters w.applied ≤ 1
    → AtMostOnce (run_ws_peer fuel now events p w)
unfolding run_ws_peer
closing-AtMostOnce zero now events p w c h = tt
closing-AtMostOnce (suc fuel) now events p w c h =
    let few = apply_effects-unregisters p.effects w in
    elim (Bool-cases (apply_effects p.effects w).2) [
      | inl e ↦ rw (run-failed fuel now events p w e c) (
          closed-AtMostOnce fuel now events (record p { phase = closed; effects = [] })
            (apply_effects p.effects w).1 refl refl (omega (arith, few)))
      | inr e ↦ rw (run-flushed fuel now events p w e c) (omega (arith, few))
    ]

step-transport_dead :
    (now : ℕ) (p : WsPeer)
    → p.phase ≡ open_phase
    → ((step now transport_dead p).phase ≡ closing)
      × (unregisters (step now transport_dead p).effects ≡ unregisters p.effects + 1)
unfolding step
step-transport_dead now p o = rw o (
  refl,
  omega (
    arith,
    unregisters-push (push p.effects notify_peer_closed) unregister,
    unregisters-push p.effects notify_peer_closed,
  ),
)

failed-AtMostOnce :
    (fuel now : ℕ) (events : List (ℕ × Event)) (p : WsPeer) (w : World)
    → p.phase ≡ open_phase
    → (apply_effects p.effects w).2 ≡ true
    → unregisters p.effects + unregisters w.applied ≡ 0
    → AtMostOnce (run_ws_peer (suc fuel) now events p w)
failed-AtMostOnce fuel now events p w o e h =
    let left = record p { effects = (apply_effects p.effects w).0 } in
    let (dead, asked) = step-transport_dead now left o in
    rw (run-open_failed fuel now p w events e o) (
      closing-AtMostOnce fuel now events (step now transport_dead left)
        (apply_effects p.effects w).1 dead
        (omega (arith, asked, apply_effects-unregisters p.effects w)))

-- A run whose machine starts open, and with nothing unregistered, unregisters its link at most once,
-- and not as long as it waits for events, whatever the events are and whatever fails.
pub run_ws_peer-AtMostOnce :
    (fuel now : ℕ) (events : List (ℕ × Event)) (p : WsPeer) (w : World)
    → p.phase ≡ open_phase
    → unregisters p.effects ≡ 0
    → unregisters w.applied ≡ 0
    → AtMostOnce (run_ws_peer fuel now events p w)
unfolding run_ws_peer
run_ws_peer-AtMostOnce zero now events p w o n h = tt
run_ws_peer-AtMostOnce (suc fuel) now [] p w o n h =
    elim (Bool-cases (apply_effects p.effects w).2) [
      | inl e ↦ failed-AtMostOnce fuel now [] p w o e (omega arith)
      | inr e ↦
          rw (run-open_idle fuel now p w e o) (omega (arith, apply_effects-unregisters p.effects w))
    ]
run_ws_peer-AtMostOnce (suc fuel) now ((at, event) ∷ more) p w o n h =
    elim (Bool-cases (apply_effects p.effects w).2) [
      | inl e ↦ failed-AtMostOnce fuel now ((at, event) ∷ more) p w o e (omega arith)
      | inr e ↦
          let next = step at event (record p { effects = [] }) in
          let v = (apply_effects p.effects w).1 in
          let few = apply_effects-unregisters p.effects w in
          rw (run-open_next fuel now p w at event more e o)
            (elim (step-unregisters at event (record p { effects = [] }) o refl) [
              | inl (stays, none_asked) ↦
                  run_ws_peer-AtMostOnce fuel at more next v stays none_asked (omega (arith, few))
              | inr (closes, one_asked) ↦
                  closing-AtMostOnce fuel at more next v closes (omega (arith, few, one_asked))
            ])
    ]

closing-ExactlyOnce :
    (fuel now : ℕ) (events : List (ℕ × Event)) (p : WsPeer) (w : World)
    → NothingFails w
    → p.phase ≡ closing
    → unregisters p.effects + unregisters w.applied ≡ 1
    → ExactlyOnce (run_ws_peer fuel now events p w)
unfolding run_ws_peer
closing-ExactlyOnce zero now events p w k c h = tt
closing-ExactlyOnce (suc fuel) now events p w k c h =
    let (ok, all, _) = apply_effects-NothingFails p.effects w k in
    rw (run-flushed fuel now events p w ok c) (omega (arith, all))

-- If every message can be sent and the manager can be told, a run whose machine starts open with
-- nothing unregistered, and that ends, has unregistered its link exactly once.
pub run_ws_peer-ExactlyOnce :
    (fuel now : ℕ) (events : List (ℕ × Event)) (p : WsPeer) (w : World)
    → NothingFails w
    → p.phase ≡ open_phase
    → unregisters p.effects ≡ 0
    → unregisters w.applied ≡ 0
    → ExactlyOnce (run_ws_peer fuel now events p w)
unfolding run_ws_peer
run_ws_peer-ExactlyOnce zero now events p w k o n h = tt
run_ws_peer-ExactlyOnce (suc fuel) now [] p w k o n h =
    let (ok, all, _) = apply_effects-NothingFails p.effects w k in
    rw (run-open_idle fuel now p w ok o) (omega (arith, all))
run_ws_peer-ExactlyOnce (suc fuel) now ((at, event) ∷ more) p w k o n h =
    let (ok, all, still) = apply_effects-NothingFails p.effects w k in
    let next = step at event (record p { effects = [] }) in
    let v = (apply_effects p.effects w).1 in
    rw (run-open_next fuel now p w at event more ok o)
      (elim (step-unregisters at event (record p { effects = [] }) o refl) [
        | inl (stays, none_asked) ↦
            run_ws_peer-ExactlyOnce fuel at more next v still stays none_asked (omega (arith, all))
        | inr (closes, one_asked) ↦
            closing-ExactlyOnce fuel at more next v still closes (omega (arith, all, one_asked))
      ])
