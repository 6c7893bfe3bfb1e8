-- ===== src/Tests/WatchdogLog.antt =====
-- A run of the model of `run_watchdog` of sanlight_mesh/mesh_watchdog.py, in which a stall is confirmed and the
-- transport is recovered.
use sanlight_mesh_mqtt_gatew.Base.{
  ℕ, ◌*◌, pos, Bool, if◌then◌else◌, ◌≡◌, refl, true, some, List, [], ◌∷◌,
}
use sanlight_mesh_mqtt_gatew.Value.{Value, text, integer, object, Fields, end, field}
use sanlight_mesh_mqtt_gatew.GatewayProtocol.{aware, second}
use sanlight_mesh_mqtt_gatew.Watchdog.Run.{
  Command, is_active, stop_gateway, start_gateway, find_sender, recover_mesh, get_live, Answer,
  completed, File, gateway_state, watchdog_state, Call, Environment,
}
use sanlight_mesh_mqtt_gatew.Value.{checked_int}
use sanlight_mesh_mqtt_gatew.GatewayProtocol.{to_utc, add_seconds, replace_z}
use sanlight_mesh_mqtt_gatew.GatewayStore.Dict.{put}
use sanlight_mesh_mqtt_gatew.Service.Report.{address_text}
use sanlight_mesh_mqtt_gatew.Stateful.{◌>>=◌, return, finally}
use sanlight_mesh_mqtt_gatew.Watchdog.{
  load_watchdog_config, table_config, only_allowed, strict_bool, strict_int, assess_probe, occurs,
  tx_delta,
}
use sanlight_mesh_mqtt_gatew.Watchdog.Incident.{
  eligible_incident, parse_time, recovery_history, sub_seconds, recent, in_window, sorted, insert,
}
use sanlight_mesh_mqtt_gatew.Watchdog.Run.{
  utc_now, read_document, run_command, service_active, set_stopped, get_stopped, wait_service_state,
  is_in_state, poll_for, poll, read_monotonic, sender_is_gone, wait_sender_exit, read_uart_tx,
  write_document,
}
use sanlight_mesh_mqtt_gatew.Watchdog.Run.Probe.{
  run_watchdog, run_enabled, investigate, probe_if_free, probe, assess, run_probe, conclude,
  probed_state, recover, recovering_state, verify, new_success, wait_for_new_success,
  verified_state, restart,
}
use sanlight_mesh_mqtt_gatew.Watchdog.Run.Guard.{some_call, has_stopped, has_recovered}
use sanlight_mesh_mqtt_gatew.Watchdog.Run.Safe.{idle, Finished, run_watchdog-Ends}

abbrev moment : ℕ
moment = 63926798400 * second

-- A read of all lamps failed an hour after the last response.
abbrev health : Fields
health = field "consecutiveCompleteNoResponseCommands" (integer (pos 2)) (
    field "lastCompleteNoResponseCommand"
      (object (field "target" (text "all") (field "action" (text "refresh") end)))
      (field "lastCompleteNoResponseAt" (text "at")
        (field "lastSuccessfulResponseAt" (text "at") end)))

abbrev stopped : List Call → Bool
stopped log = some_call has_stopped log

-- The gateway is active until it is stopped; the probe says that it was accepted and
-- that nothing was observed.
abbrev answers : List Call → Command → ℕ → Answer
answers log (is_active s) t = completed (pos (if stopped log then 3 else 0)) ""
answers log stop_gateway t = completed (pos 0) ""
answers log start_gateway t = completed (pos 0) ""
answers log find_sender t = completed (pos 1) ""
answers log recover_mesh t = completed (pos 0) ""
answers log (get_live a) t =
    completed (pos 0)
      "accepted for Mesh transmission. GET-LIVE COMPLETE. No SANlight 0x0D status was observed"

abbrev stored : File → Value
stored gateway_state = object (field "meshHealth" (object health) end)
stored watchdog_state = object end

abbrev environment : Environment
environment = record {
  fromisoformat = λ s. some (aware (pos moment));
  isoformat = λ t. "2026-10-05T12:00:00+00:00";
  process = answers;
  document = λ log f. some (stored f);
  can_write = λ log d. true;
  lock_is_free = λ log. true;
  utc_now = λ log. moment;
  monotonic = λ log. 0;
  uart_tx = λ log. some 7;
  sanlight_nodes = λ log. some (195 ∷ []);
}

run_recovery : some_call has_recovered (run_watchdog environment end idle).0.log ≡ true
unfolding run_watchdog load_watchdog_config table_config only_allowed strict_bool strict_int
    checked_int run_enabled ◌>>=◌ return finally utc_now read_document eligible_incident parse_time
    to_utc add_seconds recovery_history sub_seconds recent in_window sorted insert run_command
    service_active investigate probe_if_free set_stopped get_stopped wait_service_state is_in_state
    poll_for poll read_monotonic sender_is_gone wait_sender_exit read_uart_tx probe assess run_probe
    assess_probe occurs tx_delta conclude probed_state write_document recover recovering_state
    verify new_success wait_for_new_success verified_state restart put replace_z address_text
run_recovery = refl

run_watchdog-Ends_example : Finished (run_watchdog environment end idle)
run_watchdog-Ends_example = run_watchdog-Ends environment end
