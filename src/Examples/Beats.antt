-- ===== src/Examples/Beats.antt =====
-- The theorems on the heartbeat at concrete inputs.
use anybus.Common.{◌≡◌, ◌||◌, leb, arith, some}
use anybus.Heartbeat.{Heartbeat, next_deadline, timed_out, ping_due, next_deadline_lem}

abbrev pinged : Heartbeat
pinged = record {
  interval = 5000;
  timeout = 15000;
  last_rx = 1000;
  last_ping = some 12000;
  outstanding = some 3;
  next_token = 4;
}

next_deadline_lem_example :
    leb (next_deadline pinged) 16000 ≡ (timed_out pinged 16000 || ping_due pinged 16000)
next_deadline_lem_example = next_deadline_lem pinged 16000 (omega arith)
