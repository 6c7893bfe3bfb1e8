-- ===== src/Watchdog/Run/Probe.antt =====
-- `run_watchdog` of sanlight_mesh/mesh_watchdog.py: the checks, the probe, and the recovery.
use sanlight_mesh_mqtt_gatew.Base.{
  ℕ, pos, Bool, true, false, String, Option, none, some, List, [], ◌∷◌, ◌++◌, leb, if◌then◌else◌,
  codes, Result, ok, err,
}
use sanlight_mesh_mqtt_gatew.Value.{
  Value, null, boolean, integer, text, array, object, Items, nil, cons, Fields, end, get, value_or,
}
use sanlight_mesh_mqtt_gatew.GatewayStore.Dict.{put}
use sanlight_mesh_mqtt_gatew.GatewayProtocol.{Raised}
use sanlight_mesh_mqtt_gatew.Service.Report.{address_text}
use sanlight_mesh_mqtt_gatew.Stateful.{◌>>=◌, ◌>>◌, return, raise, finally}
use sanlight_mesh_mqtt_gatew.Watchdog.{
  WatchdogConfig, ConfigError, load_watchdog_config, ProbeAssessment, assess_probe,
}
use sanlight_mesh_mqtt_gatew.Watchdog.Incident.{
  Stop, skipped, raised, as_mapping, parse_time, recovery_history, eligible_incident, sorted,
}
use sanlight_mesh_mqtt_gatew.Watchdog.Run.{
  gateway_service, mesh_service, stop_gateway, start_gateway, recover_mesh, get_live, Answer,
  completed, expired, failed, gateway_state, watchdog_state, ran, lock_tried, bad_config, os_error,
  bad_cdb, Fault, raised_by_time, Environment, Exec, has_exited_0, log_call, outcome_text,
  number_or_null, text_of, run_command, read_document, write_document, utc_now, read_uart_tx,
  set_stopped, get_stopped, service_active, poll_for, wait_service_state, wait_sender_exit,
  is_given,
}

-- What raises of the times.
abbrev pub of_times : {A : Type 0} → Result Raised A → Exec A
of_times (ok a) = return a
of_times (err e) = raise (raised_by_time e)

-- `document.get("meshHealth", {})`
abbrev pub mesh_health_of : Fields → Option Fields
mesh_health_of document = as_mapping (value_or (get document "meshHealth") (object end))

-- The output of the probe: nothing at a timeout.
abbrev pub probe_text : Answer → Result Fault String
probe_text (completed code output) = ok output
probe_text expired = ok ""
probe_text failed = err os_error

module _ (env : Environment) where
  abbrev pub times : List ℕ → Items
  times [] = nil
  times (t ∷ ts) = cons (text (env.isoformat t)) (times ts)

  -- `watchdog_state.update(...)` after the probe.
  unfoldable pub probed_state : Fields → ℕ → String → String → ProbeAssessment → List ℕ → Fields
  probed_state state probe_at failed_at address a history =
      let s₁ = put state "version" (integer (pos 1)) in
      let s₂ = put s₁ "lastProbeAt" (text (env.isoformat probe_at)) in
      let s₃ = put s₂ "lastProbeFailureAt" (text failed_at) in
      let s₄ = put s₃ "lastProbeNode" (text address) in
      let s₅ = put s₄ "lastProbeOutcome" (text (outcome_text a.outcome)) in
      let s₆ = put s₅ "lastProbeTransmissionAccepted" (boolean a.transmission_accepted) in
      let s₇ = put s₆ "lastProbeResponseObserved" (boolean a.response_observed) in
      let s₈ = put s₇ "lastProbeUartTxBefore" (number_or_null a.uart_tx_before) in
      let s₉ = put s₈ "lastProbeUartTxAfter" (number_or_null a.uart_tx_after) in
      let s₁₀ = put s₉ "lastProbeUartTxDelta" (number_or_null a.uart_tx_delta) in
      put s₁₀ "recoveryHistory" (array (times history))

  -- The same before the recovery.
  unfoldable pub recovering_state : Fields → ℕ → List ℕ → Fields
  recovering_state state started history =
      let s₁ = put state "lastRecoveryAt" (text (env.isoformat started)) in
      let s₂ = put s₁ "lastRecoveryReason" (text "accepted read-only probe with zero UART TX") in
      let s₃ = put s₂ "lastRecoveryOk" (boolean false) in
      put s₃ "recoveryHistory" (array (times history))

  abbrev pub time_or_null : Option ℕ → Value
  time_or_null none = null
  time_or_null (some t) = text (env.isoformat t)

  -- And after it.
  unfoldable pub verified_state : Fields → Option ℕ → Fields
  verified_state state verified_at =
      put (put state "lastRecoveryOk" (boolean (is_given verified_at))) "lastRecoveryVerifiedAt"
        (time_or_null verified_at)

  abbrev pub success_time : Option Fields → Exec (Option ℕ)
  success_time none = return none
  success_time (some health) =
      of_times
        (parse_time env.fromisoformat (value_or (get health "lastSuccessfulResponseAt") null))

  abbrev pub if_after : ℕ → Option ℕ → Option ℕ
  if_after after none = none
  if_after after (some t) = if leb after t then some t else none

  -- A round of `_wait_for_new_success`, with `_last_success`.
  unfoldable pub new_success : ℕ → Exec (Option ℕ)
  new_success after = do
    document ← read_document env gateway_state
    observed ← success_time (mesh_health_of document)
    return (if_after after observed)

  unfoldable pub wait_for_new_success : ℕ → ℕ → Exec (Option ℕ)
  wait_for_new_success after seconds = poll_for env seconds 1 1000000 (new_success after)

  unfoldable pub verify : WatchdogConfig → Fields → ℕ → Exec ℕ
  verify settings state started = do
    set_stopped env false
    verified_at ← wait_for_new_success started settings.verification_timeout_seconds
    write_document env (verified_state state verified_at)
    return (if is_given verified_at then 0 else 1)

  unfoldable pub recover : WatchdogConfig → Fields → List ℕ → Exec ℕ
  recover settings state history = do
    started ← utc_now env
    let state' = recovering_state state started (history ++ (started ∷ []))
    write_document env state'
    result ← run_command env recover_mesh 120
    if has_exited_0 result.0 then verify settings state' started else return 1

  unfoldable pub conclude : WatchdogConfig → Fields → String → String → ProbeAssessment → Exec ℕ
  conclude settings state failed_at address a = do
    probe_at ← utc_now env
    history ←
        of_times
          (recovery_history env.fromisoformat state probe_at settings.recovery_window_seconds)
    let state' = probed_state state probe_at failed_at address a history
    write_document env state'
    if a.confirmed_stall then recover settings state' history else return 0

  unfoldable pub run_probe : String → ℕ → Exec String
  run_probe address seconds = λ w.
      let a = env.process w.log (get_live address) seconds in
      (log_call (ran (get_live address) seconds a) w, probe_text a)

  unfoldable pub assess : String → ℕ → Option ℕ → Exec ProbeAssessment
  assess address seconds none = return (assess_probe [] none none)
  assess address seconds (some before) = do
    output ← run_probe address seconds
    after ← read_uart_tx env
    return (assess_probe (codes output) (some before) after)

  unfoldable pub probe : WatchdogConfig → Fields → String → String → Exec ℕ
  probe settings state failed_at address = do
    before ← read_uart_tx env
    a ← assess address settings.probe_timeout_seconds before
    conclude settings state failed_at address a

  unfoldable pub probe_if_free : WatchdogConfig → Fields → String → String → Exec ℕ
  probe_if_free settings state failed_at address = do
    set_stopped env true
    free ← wait_sender_exit env
    if free then probe settings state failed_at address else return 1

  abbrev pub wait_if_stopped : Bool → Exec Bool
  wait_if_stopped false = return false
  wait_if_stopped true = wait_service_state env gateway_service false 10

  -- The `try` block.
  unfoldable pub investigate : WatchdogConfig → Fields → String → String → Exec ℕ
  investigate settings state failed_at address = do
    stop ← run_command env stop_gateway 30
    inactive ← wait_if_stopped (has_exited_0 stop.0)
    if inactive then probe_if_free settings state failed_at address else return 1

  abbrev pub start_unless : Bool → Exec (Unit {0})
  start_unless true = return tt
  start_unless false = run_command env start_gateway 30 >>= λ result. return tt

  abbrev pub restart_if : Bool → Exec (Unit {0})
  restart_if false = return tt
  restart_if true = service_active env gateway_service >>= start_unless

  -- The `finally` block.
  unfoldable pub restart : Exec (Unit {0})
  restart = get_stopped env >>= restart_if

  abbrev pub investigate_first : WatchdogConfig → Fields → String → Option (List ℕ) → Exec ℕ
  investigate_first settings state failed_at none = raise bad_cdb
  investigate_first settings state failed_at (some []) = return 0
  investigate_first settings state failed_at (some (n ∷ ns)) =
      finally (investigate settings state failed_at (address_text n)) restart

  abbrev pub sorted_nodes : Option (List ℕ) → Option (List ℕ)
  sorted_nodes none = none
  sorted_nodes (some ns) = some (sorted ns)

  abbrev pub load_nodes : Exec (Option (List ℕ))
  load_nodes = λ w. (w, ok (sorted_nodes (env.sanlight_nodes w.log)))

  abbrev pub if_mesh_active : WatchdogConfig → Fields → String → Bool → Exec ℕ
  if_mesh_active settings state failed_at false = return 0
  if_mesh_active settings state failed_at true =
      load_nodes >>= investigate_first settings state failed_at

  abbrev pub if_gateway_active : WatchdogConfig → Fields → String → Bool → Exec ℕ
  if_gateway_active settings state failed_at false = return 0
  if_gateway_active settings state failed_at true =
      service_active env mesh_service >>= if_mesh_active settings state failed_at

  abbrev pub if_eligible : WatchdogConfig → Fields → String → Result Stop (Unit {0}) → Exec ℕ
  if_eligible settings state failed_at (err (skipped reason)) = return 0
  if_eligible settings state failed_at (err (raised e)) = raise (raised_by_time e)
  if_eligible settings state failed_at (ok u) =
      service_active env gateway_service >>= if_gateway_active settings state failed_at

  abbrev pub failure_time : Fields → String
  failure_time health = text_of (value_or (get health "lastCompleteNoResponseAt") (text ""))

  abbrev pub check_incident : WatchdogConfig → ℕ → Option Fields → Exec ℕ
  check_incident settings now none = return 0
  check_incident settings now (some health) = do
    state ← read_document env watchdog_state
    if_eligible settings state (failure_time health)
        (eligible_incident env.fromisoformat health state settings now)

  abbrev pub if_locked : WatchdogConfig → Bool → Exec ℕ
  if_locked settings false = return 0
  if_locked settings true = do
    now ← utc_now env
    document ← read_document env gateway_state
    check_incident settings now (mesh_health_of document)

  abbrev pub try_lock : Exec Bool
  try_lock = λ w. (log_call lock_tried w, ok (env.lock_is_free w.log))

  unfoldable pub run_enabled : WatchdogConfig → Exec ℕ
  run_enabled settings = if settings.enabled then (try_lock >>= if_locked settings) else return 0

  abbrev pub if_loaded : Result ConfigError WatchdogConfig → Exec ℕ
  if_loaded (err e) = raise (bad_config e)
  if_loaded (ok settings) = run_enabled settings

  -- `run_watchdog`, on the document that the TOML reader returns.
  unfoldable pub run_watchdog : Fields → Exec ℕ
  run_watchdog root = if_loaded (load_watchdog_config root)
