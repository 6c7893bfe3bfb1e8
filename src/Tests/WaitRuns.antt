-- ===== src/Tests/WaitRuns.antt =====
-- A run of the loops of sanlight_mesh/mesh_watchdog.py with a clock that only sleeping moves.
use sanlight_mesh_mqtt_gatew.Base.{ℕ, ◌+◌, ◌≤◌, pos, true, false, none, some, List, [], ◌∷◌, arith}
use sanlight_mesh_mqtt_gatew.Value.{null}
use sanlight_mesh_mqtt_gatew.Watchdog.Run.{
  gateway_service, completed, Call, slept, Environment, wait_service_state, wait_sender_exit,
}
use sanlight_mesh_mqtt_gatew.Watchdog.Run.Probe.{wait_for_new_success}
use sanlight_mesh_mqtt_gatew.Watchdog.Run.Safe.{idle}
use sanlight_mesh_mqtt_gatew.Watchdog.Run.Waits.{Ended, waits_end}

abbrev duration : Call → ℕ
duration (slept n) = n
duration _ = 0

abbrev elapsed : List Call → ℕ
elapsed [] = 0
elapsed (c ∷ log) = elapsed log + duration c

-- Every process succeeds: the gateway stays active and a sender goes on.
abbrev environment : Environment
environment = record {
  fromisoformat = λ s. none;
  isoformat = λ t. "";
  process = λ log c t. completed (pos 0) "";
  document = λ log f. some null;
  can_write = λ log d. true;
  lock_is_free = λ log. true;
  utc_now = λ log. 0;
  monotonic = elapsed;
  uart_tx = λ log. none;
  sanlight_nodes = λ log. none;
}

goes_forward : (log : List Call) (c : Call) → elapsed log ≤ elapsed (c ∷ log)
goes_forward log c = omega arith

lasts : (log : List Call) (n : ℕ) → elapsed log + n ≤ elapsed (slept n ∷ log)
lasts log n = omega arith

waits_end_example :
    Ended (wait_service_state environment gateway_service false 10 idle)
    × Ended (wait_sender_exit environment idle)
    × Ended (wait_for_new_success environment 5 10 idle)
waits_end_example = waits_end environment goes_forward lasts gateway_service false 10 5 idle
