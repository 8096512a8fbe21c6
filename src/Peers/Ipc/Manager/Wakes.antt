-- ===== src/Peers/Ipc/Manager/Wakes.antt =====
-- When the manager wakes up to look after the directory.
use anybus.Common.{
  ℕ, ◌+◌, ◌≡◌, refl, arith, Bool, true, false, Option, none, some, min, ◌⊎◌, inl, inr, Option-cases,
  Bool-cases, ◌∙◌,
}
use anybus.Peers.Ipc.Manager.{
  IpcManager, schedule_directory_wake, schedule_directory_health, spawn_directory_probe,
  directory_health_interval,
}
use anybus.Peers.Ipc.Manager.States.{State, Outside, wake, listen}
use anybus.Peers.Ipc.Manager.Loop.{before_wait, on_found, run_wake}

-- The earlier of what is scheduled and a new time.
abbrev pub earlier : Option ℕ → ℕ → ℕ
earlier none at = at
earlier (some existing) at = min existing at

-- Scheduling a wake-up never puts one off: it comes at the earlier of the time asked for and the time
-- scheduled before, and if a probe of the primary is asked for, the wake-up makes one.
pub schedule_directory_wake_lem :
    (now delay : ℕ) (probe : Bool) (m : IpcManager)
    → ((schedule_directory_wake now delay probe m).directory_wake_at
        ≡ some (earlier m.directory_wake_at (now + delay)))
      × (probe ≡ true → (schedule_directory_wake now delay probe m).directory_wake_probe ≡ true)
unfolding schedule_directory_wake
schedule_directory_wake_lem now delay probe m = (ground arith, λ t. ground (arith, t))

run_wake_lem :
    (o : Outside) (m : IpcManager)
    → m.shutting_down ≡ false
    → ((run_wake false o m).0 ≡ State.reconcile_directory)
      ⊎ (((run_wake false o m).0 ≡ listen false) × ((run_wake false o m).1.probe_in_flight ≡ true))
unfolding schedule_directory_health schedule_directory_wake spawn_directory_probe
run_wake_lem o m f = elim (Bool-cases m.directory_wake_probe) [
  | inl t ↦ elim (Bool-cases m.probe_in_flight) [
    | inl g ↦ inr (ground (arith, f, t, g), ground (arith, f, t, g))
    | inr g ↦ inr (ground (arith, f, t, g), ground (arith, f, t, g))
  ]
  | inr n ↦ inl (ground (arith, f, n))
]

before_wait-shutting_down :
    (o : Outside) (m : IpcManager) → (before_wait false o m).shutting_down ≡ m.shutting_down
unfolding before_wait
before_wait-shutting_down o m = ground arith

wake-found :
    (o : Outside) (m : IpcManager) (at : ℕ)
    → m.directory_wake_at ≡ some at
    → on_found false wake o m ≡ some (run_wake false o m)
wake-found o m at e = ground (arith, e)

before_wait_lem :
    (o : Outside) (m : IpcManager)
    → m.shutting_down ≡ false
    → (at : ℕ) × ((before_wait false o m).directory_wake_at ≡ some at)
      × (m.directory_wake_at ≡ none → at ≡ o.now + directory_health_interval)
unfolding before_wait
before_wait_lem o m f = elim (Option-cases m.directory_wake_at) [
  | inl e ↦ (o.now + directory_health_interval, ground (arith, e, f), λ x. refl)
  | inr (at, e) ↦ (at, ground (arith, e, f), λ x. absurd (ground (arith, e, x)))
]

-- While it is not shutting down, a manager that listens always has a wake-up ahead, at most a health
-- interval away if none was scheduled before, so its timer can fire however long nothing else happens;
-- and when it fires, the manager goes on to reconcile its names, or listens on with a probe under way.
pub before_wait-wakes :
    (o : Outside) (m : IpcManager)
    → m.shutting_down ≡ false
    → (at : ℕ) × (r : State × IpcManager) × ((before_wait false o m).directory_wake_at ≡ some at)
      × (m.directory_wake_at ≡ none → at ≡ o.now + directory_health_interval)
      × (on_found false wake o (before_wait false o m) ≡ some r)
      × ((r.0 ≡ State.reconcile_directory) ⊎ ((r.0 ≡ listen false) × (r.1.probe_in_flight ≡ true)))
before_wait-wakes o m f =
    let (at, e, fresh) = before_wait_lem o m f in
    let m' = before_wait false o m in
    (
      at,
      run_wake false o m',
      e,
      fresh,
      wake-found o m' at e,
      run_wake_lem o m' (before_wait-shutting_down o m ∙ f),
    )
