-- ===== src/Executor/Execute.antt =====
-- `execute` and `sender_sequence_state` of sanlight_mesh/gateway_executor.py.
use Prim.Native.String.{◌++◌ as concat}
use sanlight_mesh_mqtt_gatew.Base.{
  ℕ, pos, true, false, String, Option, none, some, List, [], ◌∷◌, ltb, if◌then◌else◌, Result, ok,
  err,
}
use sanlight_mesh_mqtt_gatew.Value.{text, integer, Fields, end, field}
use sanlight_mesh_mqtt_gatew.GatewayProtocol.{
  Action, set_max, refresh, read_daylight, blackout, restore_blackout, sync_clock, set_clock,
  refresh_gateway_info, Target, GatewayCommand,
}
use sanlight_mesh_mqtt_gatew.Protocol.Live.{LiveStatus}
use sanlight_mesh_mqtt_gatew.Service.{ExecutionResult}
use sanlight_mesh_mqtt_gatew.Service.Report.{target_text}
use sanlight_mesh_mqtt_gatew.Service.Worker.Reported.{expected_nodes}
use sanlight_mesh_mqtt_gatew.Stateful.{◌>>=◌, return, raise, lift}
use sanlight_mesh_mqtt_gatew.Executor.{
  sequence_re, ProcessResult, Exec, no_argument, Fault, Environment, Executor, succeeded,
  is_unconfirmed, run_process,
}
use sanlight_mesh_mqtt_gatew.Executor.Parse.{summary, digits, parse_get_live, parse_reported_values}
use sanlight_mesh_mqtt_gatew.Executor.Read.{
  matched, if_succeeded, add_entry, run, refresh as refresh_nodes_of,
  read_daylight as read_daylight_of,
}
use sanlight_mesh_mqtt_gatew.Executor.Clock.{clock_command}

abbrev pub exit_details : ProcessResult → Fields → Fields
exit_details p rest = field "exitCode" (integer p.exit_code) rest

abbrev pub live_error : Result String LiveStatus → Fields
live_error (ok s) = end
live_error (err message) = field "liveError" (text message) end

-- `{address: 0 for address in expected}`
unfoldable pub all_off : List String → List (String × ℕ)
all_off [] = []
all_off (a ∷ r) = (a, 0) ∷ all_off r

abbrev gateway_info_result : ExecutionResult
gateway_info_result = record {
  is_ok = true;
  status = "verified";
  message = "Gateway information refreshed without a Mesh operation.";
  reported = [];
  details = field "meshMessagesSent" (integer (pos 0)) end;
  live_reported = [];
  daylight_reported = [];
}

abbrev pub verified_result :
    String → List (String × ℕ) → Fields → List (String × LiveStatus) → ExecutionResult
verified_result message reported details live = record {
  is_ok = true;
  status = "verified";
  message = message;
  reported = reported;
  details = details;
  live_reported = live;
  daylight_reported = [];
}

module _ (env : Environment) (executor : Executor) where
  -- The result of a process that did not exit with 0.
  unfoldable pub failed_result : ProcessResult → ExecutionResult
  failed_result p = record {
    is_ok = false;
    status = if is_unconfirmed p then "unconfirmed" else "failed";
    message = summary env p;
    reported = [];
    details = exit_details p end;
    live_reported = [];
    daylight_reported = [];
  }

  abbrev at_least : ℕ → ℕ
  at_least n =
      if ltb executor.command_timeout_seconds n then n else executor.command_timeout_seconds

  abbrev set_max_message : String → ℕ → String
  set_max_message target value = concat "Node " (
      concat target
        (concat " reports MaxBrightness " (concat (env.number_text value) "% as requested.")))

  -- The live reading after a set-max that was verified.
  unfoldable pub after_set_max : String → ℕ → ProcessResult → Exec ExecutionResult
  after_set_max target value p = do
    live_result ← run env executor ("get-live" ∷ target ∷ [])
    let live =
        if_succeeded (succeeded live_result) (matched target (parse_get_live env live_result))
          (summary env live_result)
    return (
        verified_result (set_max_message target value) ((target, value) ∷ [])
          (exit_details p (live_error live)) (add_entry target live []))

  unfoldable pub set_max_command : String → Option ℕ → Exec ExecutionResult
  set_max_command target none = raise no_argument
  set_max_command target (some value) = do
    p ← run env executor ("set-max" ∷ target ∷ env.number_text value ∷ [])
    if succeeded p then after_set_max target value p else return (failed_result p)

  unfoldable pub blackout_result : Target → ProcessResult → ExecutionResult
  blackout_result target p =
      if succeeded p
      then verified_result "All selected nodes report 0% (off)."
          (all_off (expected_nodes executor.node_addresses target)) (exit_details p end) []
      else failed_result p

  unfoldable pub blackout_command : Target → Exec ExecutionResult
  blackout_command target = do
    p ← run_process env ("blackout" ∷ target_text target ∷ "--confirm-blackout" ∷ []) (at_least 120)
    return (blackout_result target p)

  unfoldable pub restored_result : ProcessResult → Exec ExecutionResult
  restored_result p = do
    reported ← lift (parse_reported_values env p)
    return (
        verified_result
          "Latest blackout snapshot restored and verified by the CLI transaction engine." reported
          (exit_details p end) [])

  unfoldable pub restore_command : Exec ExecutionResult
  restore_command = do
    p ← run_process env ("restore-blackout" ∷ "latest" ∷ "--confirm-restore" ∷ []) (at_least 180)
    if succeeded p then restored_result p else return (failed_result p)

  unfoldable pub execute_action : Action → GatewayCommand → Exec ExecutionResult
  execute_action refresh_gateway_info c = return gateway_info_result
  execute_action sync_clock c = clock_command env executor c
  execute_action set_clock c = clock_command env executor c
  execute_action read_daylight c = read_daylight_of env executor c.target
  execute_action refresh c = refresh_nodes_of env executor c.target
  execute_action set_max c = set_max_command (target_text c.target) c.value
  execute_action blackout c = blackout_command c.target
  execute_action restore_blackout c = restore_command

  -- `execute`: every action that is decoded is supported.
  unfoldable pub execute : GatewayCommand → Exec ExecutionResult
  unfolding execute_action
  execute c = execute_action c.action c

  unfoldable pub sequence_of : List (List String) → Result Fault (Option Fields)
  sequence_of ((number ∷ remaining ∷ []) ∷ r) = elim (digits env number) [
    | err e ↦ err e
    | ok n ↦ elim (digits env remaining) [
      | err e ↦ err e
      | ok k ↦ ok (
          some (
            field "sequenceNumber" (integer (pos n))
              (field "sequenceRemaining" (integer (pos k)) end)))
    ]
  ]
  sequence_of _ = ok none

  -- `sender_sequence_state`: the first match.
  unfoldable pub sender_sequence_state : Exec (Option Fields)
  sender_sequence_state = do
    p ← run env executor ("show-sender-state" ∷ [])
    if succeeded p then lift (sequence_of (env.findall sequence_re p.stdout)) else return none
