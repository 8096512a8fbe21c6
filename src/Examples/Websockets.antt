-- ===== src/Examples/Websockets.antt =====
-- The theorems on websocket peers and their manager at concrete inputs.
use Prim.Native.Nat.{◌^◌}
use anybus.Common.{
  ◌<◌, ◌↔◌, ℕ, ◌+◌, ◌*◌, ◌≤◌, ◌≡◌, refl, arith, true, false, List, [], ◌∷◌, ◌++◌, none, some, min,
  length,
}
use anybus.Heartbeat.{timed_out}
use anybus.Peers.Ws.{WsControl, WsMessage}
use anybus.Peers.Ws.WsPeer.{WsPeer, new, Event, control, from_wire, tick, closed, local}
use anybus.Peers.Ws.Task.{World, run_ws_peer, finished}
use anybus.Peers.Ws.Task.Ends.{Settled, run_ws_peer-Settled}
use anybus.Peers.Ws.Task.LastWords.{last_words, run_ws_peer-gives_up}
use anybus.Peers.Ws.Task.Once.{ExactlyOnce, run_ws_peer-ExactlyOnce}
use anybus.Peers.Ws.Pending.{
  WebSocketPeerConfig, WsPendingPeer, when_ready, record_attempt, from_config, is_taken, enqueue,
  binary_search, place_of, insert_at,
}
use anybus.Peers.Ws.Pending.Backoff.{attempts, attempts_bounds}
use anybus.Peers.Ws.Manager.{
  listen, WebsocketManager, listen, queue_reconnect, get_next_ready_peer, get_next_timeout, inbound,
  respond, WsCommand,
}
use anybus.Peers.Ws.Manager.Handlers.{reconnect_later, add_config, remove_url}
use anybus.Peers.Ws.Manager.Loop.{Outside, next, connected, timeout}
use anybus.Peers.Ws.Manager.Queue.{get_next_timeout_lem, Earliest, get_next_ready_peer-Earliest}
use anybus.Peers.Ws.Manager.Passes.{Keeps}
use anybus.Peers.Ws.Pending.Sorted.{IsSorted}
use anybus.Peers.Ws.Manager.Order.{next-AllOrdered}
use anybus.Peers.Ws.Manager.Configs.{remove_url-add_config}
use anybus.Peers.Ws.Manager.Room.{Refines}
use anybus.Peers.Ws.Manager.Refinement.{next-Refines}
use anybus.Peers.Ws.Manager.Attempts.{connected-KnowsConfig, KnowsConfig, handled}

abbrev all_well : World
all_well = record { sends = λ done msg. true; notifies = λ done. true; applied = [] }

-- No frame can be sent.
abbrev dead_line : World
dead_line = record { sends = λ done msg. false; notifies = λ done. true; applied = [] }

-- A message that is answered, a tick at which nothing is due, and a shutdown.
abbrev some_events : List (ℕ × Event)
some_events =
    (1000, from_wire (WsMessage.ping 7))
    ∷ (2000, tick 2000)
    ∷ (3000, control WsControl.shutdown)
    ∷ []

run_ws_peer-Settled_example : Settled (run_ws_peer 6 0 some_events (new 0 5) dead_line)
unfolding new
run_ws_peer-Settled_example =
    run_ws_peer-Settled 6 0 some_events (new 0 5) dead_line (omega arith) refl

-- A heartbeat that has timed out closes locally; on the dead line nothing takes place.
run_ws_peer-gives_up_example :
    (q : WsPeer) × (v : World) × (run_ws_peer 3 0 ((60000, tick 60000) ∷ []) (new 0 5) dead_line
      ≡ finished q v)
    × (q.phase ≡ closed)
    × (v.applied ≡ [] ++ last_words local dead_line)
unfolding new timed_out
run_ws_peer-gives_up_example =
    run_ws_peer-gives_up 0 0 60000 (tick 60000) local [] (new 0 5) dead_line refl refl refl

run_ws_peer-ExactlyOnce_example : ExactlyOnce (run_ws_peer 6 0 some_events (new 0 5) all_well)
unfolding new
run_ws_peer-ExactlyOnce_example =
    run_ws_peer-ExactlyOnce 6 0 some_events (new 0 5) all_well
      (record { sends = λ done msg. refl; notifies = λ done. refl }) refl refl refl

abbrev first_config : WebSocketPeerConfig
first_config = record { url = 1; name = 10 }

abbrev second_config : WebSocketPeerConfig
second_config = record { url = 2; name = 20 }

abbrev waits : WsPendingPeer
waits = record { config = first_config; last_attempt = 1000; backoff = 4000; num_attempts = 2 }

abbrev waits_longer : WsPendingPeer
waits_longer = record {
  config = second_config;
  last_attempt = 2000;
  backoff = 8000;
  num_attempts = 3;
}

abbrev tries : List ℕ
tries = 3000 ∷ 5000 ∷ []

attempts_bounds_example :
    (when_ready (record_attempt 9000 (attempts tries (from_config 0 first_config)))
      ≡ 9000 + 2 ^ min (length tries + 1) 8 * 1000)
    × (9000 + 2000 ≤ when_ready (record_attempt 9000 (attempts tries (from_config 0 first_config))))
    × (when_ready (record_attempt 9000 (attempts tries (from_config 0 first_config)))
        ≤ 9000 + 256000)
attempts_bounds_example = attempts_bounds 0 9000 tries first_config (omega arith)

-- Two peers wait, for 5000 and for 10000, and one came from outside.
abbrev manager : WebsocketManager
manager = record {
  current_peers = record { direction = inbound; peer_id = 3; ws_control = 30 } ∷ [];
  node_id = 9;
  has_listener_options = true;
  pending_peers = [];
  disconnected_peers = waits ∷ waits_longer ∷ [];
  connection_counter = 2;
  asked = [];
}

abbrev outside : Outside
outside = record {
  clock = λ i. 6000;
  found = timeout;
  found_at = 6000;
  listener_ok = true;
  peer_tx = 40;
  ws_tx = 41;
}

abbrev third : WsPendingPeer
third = record {
  config = record { url = 3; name = 30 };
  last_attempt = 3000;
  backoff = 1000;
  num_attempts = 0;
}

next-AllOrdered_example : Keeps IsSorted (next outside (queue_reconnect third) manager)
unfolding when_ready
next-AllOrdered_example =
    next-AllOrdered outside (queue_reconnect third) manager ((omega arith, tt), (tt, tt))

get_next_timeout_lem_example :
    ((get_next_ready_peer (3000 + 1500) manager).1 ≡ none) ↔ (1500 < 2000)
unfolding get_next_timeout when_ready
get_next_timeout_lem_example = get_next_timeout_lem 3000 2000 1500 manager refl

get_next_ready_peer-Earliest_example : Earliest 6000 manager (get_next_ready_peer 6000 manager)
unfolding when_ready
get_next_ready_peer-Earliest_example =
    get_next_ready_peer-Earliest 6000 manager ((omega arith, tt), (tt, tt))

remove_url-add_config_example :
    remove_url 3 51 (add_config 6000 third.config 50 manager)
    ≡ record manager { asked = [] ++ respond 50 true ∷ respond 51 true ∷ [] }
remove_url-add_config_example = remove_url-add_config 6000 third.config 50 51 manager refl

connected-KnowsConfig_example :
    (c : WsCommand) × (connected (some 77) none third ≡ some c)
    × KnowsConfig third.config (handled outside outside c manager)
unfolding is_taken record_attempt
connected-KnowsConfig_example =
    connected-KnowsConfig (some 77) none third outside outside manager (ground arith)

-- The first of the two peers that wait is called.
next-Refines_example : Refines outside listen manager (next outside listen manager)
next-Refines_example = next-Refines outside listen manager

abbrev fourth : WsPendingPeer
fourth = record third { config = record { url = 4; name = 40 } }

-- The fourth peer would be ready when the third one is, and is dropped.
reconnect_later_tie :
    reconnect_later 9000 fourth (reconnect_later 9000 third manager)
    ≡ reconnect_later 9000 third manager
unfolding reconnect_later when_ready record_attempt is_taken enqueue binary_search place_of
    insert_at
reconnect_later_tie = refl
