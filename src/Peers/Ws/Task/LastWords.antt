-- ===== src/Peers/Ws/Task/LastWords.antt =====
-- What the task of a websocket peer does before it ends.
use anybus.Common.{
  ℕ, suc, ◌≡◌, inl, inr, refl, arith, List, [], ◌∷◌, ◌++◌, Option, none, some, push, if◌then◌else◌,
  Bool-cases, ap, ◌∙◌,
}
use mathlib.Core.List.{append-nil, append_assoc}
use anybus.Heartbeat
use anybus.Heartbeat.{Heartbeat}
use anybus.Peers.Ws.{WsControl, WsMessage}
use anybus.Peers.Ws.WsPeer.{
  WsPeer, open_phase, closing, closed, CloseReason, local, remote, transport, Event, control,
  from_wire, transport_dead, tick, Effect, send, close_socket, unregister, notify_peer_closed, step,
}
use anybus.Peers.Ws.Task.{World, finished, run_ws_peer, apply_effects}
use anybus.Peers.Ws.Task.Ends.{run-closed, run-failed, run-flushed, run-open_next}

-- Why a machine that is open gives up at an event, if it does.
abbrev pub gives_up : Event → Heartbeat → Option CloseReason
gives_up (control WsControl.shutdown) hb = some local
gives_up (from_wire (WsMessage.hello id)) hb = some local
gives_up (from_wire WsMessage.close_connection) hb = some remote
gives_up transport_dead hb = some transport
gives_up (tick at) hb = if Heartbeat.timed_out hb at then some local else none
gives_up _ hb = none

-- What takes place after that, by what the environment lets through.
abbrev pub last_words : CloseReason → World → List Effect
last_words local w =
    if w.sends w.applied WsMessage.close_connection
    then send WsMessage.close_connection ∷ close_socket ∷ unregister ∷ []
    else []
last_words remote w =
    close_socket
    ∷ (if w.notifies (push w.applied close_socket)
        then notify_peer_closed ∷ unregister ∷ []
        else [])
last_words transport w = if w.notifies w.applied then notify_peer_closed ∷ unregister ∷ [] else []

abbrev farewell : CloseReason → List Effect
farewell local = send WsMessage.close_connection ∷ close_socket ∷ unregister ∷ []
farewell remote = close_socket ∷ notify_peer_closed ∷ unregister ∷ []
farewell transport = notify_peer_closed ∷ unregister ∷ []

step-gives_up :
    (now : ℕ) (event : Event) (reason : CloseReason) (p : WsPeer)
    → p.phase ≡ open_phase
    → p.effects ≡ []
    → gives_up event p.hb ≡ some reason
    → ((step now event p).phase ≡ closing) × ((step now event p).effects ≡ farewell reason)
unfolding step
step-gives_up now event reason p o n e = ground (arith, o, n, e)

applied-farewell :
    (reason : CloseReason) (w : World)
    → (apply_effects (farewell reason) w).1.applied ≡ w.applied ++ last_words reason w
unfolding apply_effects
applied-farewell local w = elim (Bool-cases (w.sends w.applied WsMessage.close_connection)) [
  | inl t ↦ rw t (simp (append_assoc))
  | inr f ↦ rw f (simp (append-nil))
]
applied-farewell remote w = elim (Bool-cases (w.notifies (push w.applied close_socket))) [
  | inl t ↦ rw t (simp (append_assoc))
  | inr f ↦ rw f refl
]
applied-farewell transport w = elim (Bool-cases (w.notifies w.applied)) [
  | inl t ↦ rw t (simp (append_assoc))
  | inr f ↦ rw f (simp (append-nil))
]

-- A closing machine: the task ends with what was let through.
closing-applied :
    (fuel now : ℕ) (events : List (ℕ × Event)) (p : WsPeer) (w : World)
    → p.phase ≡ closing
    → (q : WsPeer) × (v : World) × (run_ws_peer (suc (suc fuel)) now events p w ≡ finished q v)
      × (q.phase ≡ closed)
      × (v.applied ≡ (apply_effects p.effects w).1.applied)
closing-applied fuel now events p w c =
    let done = record p { phase = closed; effects = [] } in
    let v = (apply_effects p.effects w).1 in
    elim (Bool-cases (apply_effects p.effects w).2) [
      | inl e ↦ (
        done,
        v,
        run-failed (suc fuel) now events p w e c ∙ run-closed fuel now events done v refl refl,
        refl,
        refl,
      )
      | inr e ↦ (done, v, run-flushed (suc fuel) now events p w e c, refl, refl)
    ]

-- An open machine with no effect left ends with its next event if that is a shutdown, a hello or a
-- close message, the death of the transport, or a tick at which the heartbeat has timed out, and reads
-- no event after it. What it does before is said by the reason alone: a local close sends a close
-- message, closes the socket and unregisters, and if the message cannot be sent it does nothing at all;
-- a remote close closes the socket, tells the manager and unregisters; with a dead transport the socket
-- is left alone; and if the manager cannot be told the link is not unregistered.
pub run_ws_peer-gives_up :
    (fuel now at : ℕ) (event : Event) (reason : CloseReason) (more : List (ℕ × Event)) (p : WsPeer)
    (w : World)
    → p.phase ≡ open_phase
    → p.effects ≡ []
    → gives_up event p.hb ≡ some reason
    → (q : WsPeer) × (v : World) × (run_ws_peer (suc (suc (suc fuel))) now ((at, event) ∷ more) p w
        ≡ finished q v)
      × (q.phase ≡ closed)
      × (v.applied ≡ w.applied ++ last_words reason w)
unfolding apply_effects
run_ws_peer-gives_up fuel now at event reason more p w o n e =
    let next = step at event (record p { effects = [] }) in
    let drained = ap (λ es. (apply_effects es w).2) n in
    let (c, said) = step-gives_up at event reason (record p { effects = [] }) o refl e in
    let (q, v, ran, shut, did) =
      closing-applied fuel at more next (apply_effects p.effects w).1 c in
    (
      q,
      v,
      run-open_next (suc (suc fuel)) now p w at event more drained o ∙ ran,
      shut,
      did
          ∙ ap (λ es. (apply_effects es (apply_effects p.effects w).1).1.applied) said
          ∙ ap (λ es. (apply_effects (farewell reason) (apply_effects es w).1).1.applied) n
          ∙ applied-farewell reason w,
    )
