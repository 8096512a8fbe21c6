-- ===== src/Peers/Ws/Task.antt =====
-- `run_ws_peer` and `apply_effect` of src/peers/ws/ws_peer.rs: the task around the state machine.
-- Whether a frame can be sent and whether the manager can be told is up to the environment, which may
-- go by all that was applied so far.
pub mod Ends
pub mod LastWords
pub mod Once
use anybus.Common.{ℕ, zero, suc, Bool, true, false, List, [], ◌∷◌, push, if◌then◌else◌}
use anybus.Peers.Ws.{WsMessage}
use anybus.Peers.Ws.WsPeer.{
  WsPeer, Event, transport_dead, Effect, send, close_socket, handle_node_message, unregister,
  notify_peer_closed, effects_flushed, is_done, step,
}

-- `applied` holds the effects that took place, oldest first.
pub record World : Type 0 where
  pub sends : List Effect → WsMessage → Bool
  pub notifies : List Effect → Bool
  pub applied : List Effect

-- Whether the effect takes place.
abbrev pub succeeds : Effect → World → Bool
succeeds (send msg) w = w.sends w.applied msg
succeeds notify_peer_closed w = w.notifies w.applied
succeeds close_socket w = true
succeeds unregister w = true
succeeds (handle_node_message m) w = true

-- The last part tells whether the result is `Ok`.
unfoldable pub apply_effect : Effect → World → World × Bool
apply_effect effect w =
    if succeeds effect w then (record w { applied = push w.applied effect }, true) else (w, false)

-- The inner loop: the effects that are left, and whether one failed.
unfoldable pub apply_effects : List Effect → World → List Effect × World × Bool
unfolding apply_effect
apply_effects [] w = ([], w, false)
apply_effects (effect ∷ rest) w =
    let (w', ok) = apply_effect effect w in
    let later = apply_effects rest w' in if ok then later else (rest, w', true)

-- Where a run stands at the end: the loop was left, it waits for an event, or the fuel ran out.
pub data Exit : Type 0 where
  finished : WsPeer → World → Exit
  waiting : WsPeer → World → Exit
  out_of_fuel : Exit

-- One pass of the loop, with the events that `select!` will deliver and the times at which they are
-- handled. The follow-up of a failed effect comes before them, at the time `now` of the last.
unfoldable pub run_ws_peer : ℕ → ℕ → List (ℕ × Event) → WsPeer → World → Exit
unfolding apply_effects effects_flushed is_done step
run_ws_peer zero now events fsm w = out_of_fuel
run_ws_peer (suc fuel) now events fsm w =
    let (rest, w', failed) = apply_effects fsm.effects w in
    let drained : WsPeer = record fsm { effects = rest } in
    let flushed = if failed then drained else effects_flushed drained in
    let follow_up = run_ws_peer fuel now events (step now transport_dead flushed) w' in
    if is_done flushed then finished flushed w' else if failed then follow_up else elim events [
      | [] ↦ waiting flushed w'
      | (at, event) ∷ more ↦ run_ws_peer fuel at more (step at event flushed) w'
    ]
