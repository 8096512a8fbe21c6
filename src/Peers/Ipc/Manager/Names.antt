-- ===== src/Peers/Ipc/Manager/Names.antt =====
-- Which names of the directory a node holds.
use anybus.Common.{
  ℕ, ◌≡◌, arith, Bool, true, false, ◌&&◌, ◌||◌, List, [], ◌∷◌, Option, some, if◌then◌else◌,
  if-cases,
}
use anybus.Routing.{NodeId}
use anybus.Peers.Ipc.Manager.{
  IpcManager, schedule_directory_wake, schedule_directory_health, spawn_directory_probe, spawn_peer,
}
use anybus.Peers.Ipc.Manager.States.{
  State, creation, start_peer_listener, bind_primary, bind_backup, Outside, run_start_peer_listener,
  run_bind_primary, run_bind_backup, dial,
}
use anybus.Peers.Ipc.Manager.Loop.{Next, go, stop, panicked}

-- What does not touch the listeners, nor the flag of the shutdown.
pub record SameNames (m m' : IpcManager) : Type 0 where
  pub primary : m'.primary_listener ≡ m.primary_listener
  pub backup : m'.backup_listener ≡ m.backup_listener
  pub peer : m'.peer_listener ≡ m.peer_listener
  pub quiet : m'.shutting_down ≡ m.shutting_down

pub schedule_directory_wake-SameNames :
    (now delay : ℕ) (probe : Bool) (m : IpcManager)
    → SameNames m (schedule_directory_wake now delay probe m)
unfolding schedule_directory_wake
schedule_directory_wake-SameNames now delay probe m = ground arith

pub schedule_directory_health-SameNames :
    (now : ℕ) (m : IpcManager) → SameNames m (schedule_directory_health now m)
unfolding schedule_directory_health
schedule_directory_health-SameNames now m = ground arith

pub spawn_directory_probe-SameNames : (m : IpcManager) → SameNames m (spawn_directory_probe m)
unfolding spawn_directory_probe
spawn_directory_probe-SameNames m = ground arith

pub spawn_peer-SameNames : (id : Option NodeId) (m : IpcManager) → SameNames m (spawn_peer id m)
unfolding spawn_peer
spawn_peer-SameNames id m = ground arith

pub dial-SameNames :
    (connects : NodeId → Bool) (ids : List NodeId) (m : IpcManager)
    → SameNames m (dial connects ids m)
dial-SameNames connects [] m = ground arith
dial-SameNames connects (id ∷ ids) m =
    let m' = if connects id then spawn_peer (some id) m else m in
    let first : SameNames m m' =
      if-cases (λ x. SameNames m x) (connects id) (spawn_peer (some id) m) m
        (λ _. spawn_peer-SameNames (some id) m) (λ _. ground arith) in
    let rest : SameNames m' (dial connects ids m') = dial-SameNames connects ids m' in
    ground (
      arith, first.primary, first.backup, first.peer, first.quiet, rest.primary, rest.backup,
      rest.peer, rest.quiet,
    )

-- The states that bind the listener for peers.
abbrev pub starts : State → Bool
starts creation = true
starts (start_peer_listener query) = true
starts _ = false

-- A manager never holds both names of the directory. Once it shuts down, it holds none, has no listener
-- for peers, and is in no state that would bind one.
abbrev pub IsProper : State → IpcManager → Type 0
IsProper s m =
    (m.primary_listener && m.backup_listener ≡ false)
    × (m.shutting_down && (m.primary_listener || m.backup_listener || m.peer_listener || starts s)
        ≡ false)

abbrev pub NextIsProper : Next → Type 0
NextIsProper (go s m) = IsProper s m
NextIsProper (stop m) = m.primary_listener || m.backup_listener || m.peer_listener ≡ false
NextIsProper panicked = ⊥

pub same-IsProper :
    (s s' : State) (m m' : IpcManager)
    → SameNames m m'
    → starts s' ≡ false
    → IsProper s m
    → IsProper s' m'
same-IsProper s s' m m' same f h =
    ground (arith, same.primary, same.backup, same.peer, same.quiet, f, h.0, h.1)

pub bind_primary-IsProper :
    (o : Outside) (m : IpcManager)
    → IsProper bind_primary m
    → IsProper (run_bind_primary o m).0 (run_bind_primary o m).1
unfolding run_bind_primary
bind_primary-IsProper o m h = ground (arith, h.0, h.1)

pub bind_backup-IsProper :
    (o : Outside) (m : IpcManager)
    → IsProper bind_backup m
    → IsProper (run_bind_backup o m).0 (run_bind_backup o m).1
unfolding run_bind_backup
bind_backup-IsProper o m h = ground (arith, h.0, h.1)

pub start_peer_listener-IsProper :
    (query : Bool) (o : Outside) (m : IpcManager)
    → IsProper (start_peer_listener query) m
    → IsProper (run_start_peer_listener query o m).0 (run_start_peer_listener query o m).1
unfolding run_start_peer_listener
start_peer_listener-IsProper query o m h = ground (arith, h.0, h.1)
