-- ===== src/Service/Worker.antt =====
-- One command in the worker thread of sanlight_mesh/gateway_service.py: the body of `_worker_loop` after
-- the command was taken from the queue.
pub mod Reported
use sanlight_mesh_mqtt_gatew.Base.{
  ℕ, ◌-◌, ◌+◌, ◌*◌, pos, Bool, true, false, not, ◌&&◌, ◌||◌, String, Option, none, some, List, [],
  ◌∷◌, if◌then◌else◌, Result, ok, err, ltb, leb, ◌==◌, str_eq,
}
use Prim.Native.String.{◌++◌}
use sanlight_mesh_mqtt_gatew.Value.{Value, integer, text, object, Fields, end, field, get, value_or}
use sanlight_mesh_mqtt_gatew.GatewayProtocol.{
  Action, set_max, refresh, read_daylight, blackout, restore_blackout, sync_clock, set_clock,
  refresh_gateway_info, GatewayCommand, is_write, expired,
}
use sanlight_mesh_mqtt_gatew.CommandQueue.{
  CommandQueue, SupersededCommand, coalesce_set_max, done, is_set_max,
}
use sanlight_mesh_mqtt_gatew.GatewayStore.{GatewayStore, mark_inflight, record_mesh_outcome}
use sanlight_mesh_mqtt_gatew.GatewayStore.Node.{CachedNodeState, get_node, node_is_fresh}
use sanlight_mesh_mqtt_gatew.Service.{
  Config, ExecutionResult, waited, marked, executed, store_saved, sequence_read, info_published,
  Fault, execution_error, World, Environment,
}
use sanlight_mesh_mqtt_gatew.Service.Run.{
  Run, ◌>>=◌, ◌>>◌, return, raise, lift, try, get_world, log_effect, set_store, for_each,
  read_clock, read_monotonic, save, publish,
}
use sanlight_mesh_mqtt_gatew.Service.Report.{
  action_text, target_text, put_number, no_messages_sent, respond,
}
use sanlight_mesh_mqtt_gatew.Service.Worker.Reported.{
  is_mesh_no_response, record_states, publish_states, result_details,
}

-- BRIGHTNESS_WRITE_MIN_INTERVAL_SECONDS of sanlight_mesh/traffic_safety.py
abbrev pub write_min_interval : ℕ
write_min_interval = 10000000

module _ (env : Environment) where
  -- The rest of `_wait_for_write_slot`, when some of the interval remains.
  unfoldable pub wait_remaining : GatewayCommand → ℕ → Run Bool
  wait_remaining c remaining = do
    now ← read_clock env
    λ w.
        if leb c.expires_at (now + remaining)
        then (w, ok false)
        else (record w { log = waited remaining ∷ w.log }, ok (not (env.stopped w.log remaining)))

  -- `_wait_for_write_slot`
  unfoldable pub wait_for_write_slot : GatewayCommand → Run Bool
  unfolding wait_remaining
  wait_for_write_slot c = do
    now ← read_monotonic env
    λ w.
        if leb (w.last_write_monotonic + write_min_interval) now
        then (w, ok true)
        else wait_remaining c (w.last_write_monotonic + write_min_interval - now) w

  -- `_handle_superseded`
  unfoldable pub handle_superseded : SupersededCommand → Run (Unit {0})
  handle_superseded item =
      respond env item.command false "superseded"
        ("A newer queued set-max command for node "
          ++ target_text item.command.target
          ++ " replaced this command before Bluetooth transmission.")
        (field "replacementId" (text item.replacement_id) no_messages_sent)

  -- What `mark_inflight` is given.
  abbrev pub inflight_document : GatewayCommand → Fields
  inflight_document c = put_number "requestedSecondsSinceMidnight" c.seconds_since_midnight (
      put_number "requested" c.value (
        field "action" (text (action_text c.action))
          (field "target" (text (target_text c.target)) end)))

  unfoldable pub mark : GatewayCommand → Run (Unit {0})
  mark c = do
    now ← read_clock env
    w ← get_world
    set_store (mark_inflight env.isoformat w.store c.command_id (inflight_document c) now)
    save env (marked c)

  -- What the executor returns or raises.
  abbrev pub answer : Option ExecutionResult → Run ExecutionResult
  answer none = λ w. (w, err execution_error)
  answer (some execution) = λ w. (w, ok execution)

  -- `self.executor.execute(command)`
  unfoldable pub call_executor : GatewayCommand → Run ExecutionResult
  call_executor c = λ w. answer (env.execute w.log c) (record w { log = executed c ∷ w.log })

  unfoldable pub note_write : GatewayCommand → Run (Unit {0})
  note_write c =
      if is_write c
      then (read_monotonic env >>= λ now w. (record w { last_write_monotonic = now }, ok tt))
      else return tt

  abbrev pub is_gateway_info : Action → Bool
  is_gateway_info refresh_gateway_info = true
  is_gateway_info set_max = false
  is_gateway_info refresh = false
  is_gateway_info read_daylight = false
  is_gateway_info blackout = false
  is_gateway_info restore_blackout = false
  is_gateway_info sync_clock = false
  is_gateway_info set_clock = false

  abbrev is_empty_list : {A : Type 0} → List A → Bool
  is_empty_list [] = true
  is_empty_list (x ∷ xs) = false

  -- Saved only when there was an outcome.
  unfoldable pub record_outcome : GatewayCommand → ExecutionResult → Run (Unit {0})
  record_outcome c execution =
      let response_observed =
        not (is_empty_list execution.reported)
        || not (is_empty_list execution.live_reported)
        || not (is_empty_list execution.daylight_reported) in
      let complete_no_response = is_mesh_no_response execution.details in
      if is_gateway_info c.action || not (response_observed || complete_no_response)
      then return tt
      else (do
        now ← read_clock env
        w ← get_world
        set_store (
            record_mesh_outcome env.isoformat w.store c.command_id (action_text c.action)
              (target_text c.target) response_observed complete_no_response now)
        save env store_saved)

  unfoldable pub read_sequence : GatewayCommand → Run (Unit {0})
  read_sequence c = if is_gateway_info c.action then return tt else (λ w.
      elim (env.sender_sequence_state w.log) [
        | none ↦ (record w { log = sequence_read ∷ w.log }, ok tt)
        | some s ↦ (record w { log = sequence_read ∷ w.log; sequence_state = s }, ok tt)
      ])

  -- `publish_gateway_info`, with what it takes from the state.
  unfoldable pub publish_gateway_info : Run (Unit {0})
  publish_gateway_info = λ w. publish env (info_published w.store.mesh_health w.sequence_state) w

  -- The body after the call of the executor.
  unfoldable pub finish_execution : Config → GatewayCommand → ExecutionResult → Run (Unit {0})
  finish_execution config c execution = do
    note_write c
    record_outcome c execution
    addresses ← record_states env config c execution
    publish_states env addresses
    respond env c execution.is_ok execution.status execution.message (result_details env execution)
    read_sequence c
    try publish_gateway_info (λ e. return tt)

  -- The body from `mark_inflight` on.
  unfoldable pub execute : Config → GatewayCommand → Run (Unit {0})
  execute config c = do mark c; execution ← call_executor c; finish_execution config c execution

  abbrev reports : Option CachedNodeState → ℕ → Bool
  reports none value = false
  reports (some state) value = state.max_brightness == value

  abbrev pub stored_node : World → GatewayCommand → Option CachedNodeState
  stored_node w c = get_node env.fromisoformat env.utf8 env.fromhex w.store (target_text c.target)

  abbrev pub may_be_noop : Config → GatewayCommand → ℕ → World → Bool
  may_be_noop config c value w =
      is_set_max c.action && reports (stored_node w c) value && ltb 0 config.state_fresh_seconds

  -- Whether a set-max has nothing to do.
  unfoldable pub is_noop : Config → GatewayCommand → Option ℕ → Run Bool
  is_noop config c none = return false
  is_noop config c (some value) = λ w.
      if may_be_noop config c value w
      then (read_clock env >>= λ now v. (
        v,
        ok (
            node_is_fresh env.fromisoformat env.utf8 env.fromhex v.store (target_text c.target)
              config.state_fresh_seconds now),
      ))
          w
      else (w, ok false)

  abbrev noop_message : Option ℕ → String
  noop_message none = "Fresh verified state already reports None%; no Mesh message was sent."
  noop_message (some value) =
      "Fresh verified state already reports "
      ++ env.number_text value
      ++ "%; no Mesh message was sent."

  -- The result of a command that has nothing to do.
  abbrev noop_details : GatewayCommand → Option ℕ → Fields
  noop_details c value =
      field "reported" (object (put_number (target_text c.target) value end)) no_messages_sent

  unfoldable pub execute_in_slot : Config → GatewayCommand → Bool → Run (Unit {0})
  unfolding execute
  execute_in_slot config c true = execute config c
  execute_in_slot config c false =
      respond env c false "expired"
        "Command expired while waiting for the Mesh-write safety interval; no Mesh write was sent."
        no_messages_sent

  unfoldable pub execute_or_noop : Config → GatewayCommand → Bool → Run (Unit {0})
  unfolding execute_in_slot
  execute_or_noop config c true =
      respond env c true "no-op" (noop_message c.value) (noop_details c c.value)
  execute_or_noop config c false = do
    slot ← (if is_write c then wait_for_write_slot c else return true)
    execute_in_slot config c slot

  unfoldable pub execute_unless_expired : Config → GatewayCommand → Bool → Run (Unit {0})
  unfolding execute_or_noop
  execute_unless_expired config c true =
      respond env c false "expired" "Command expired before execution; no Mesh message was sent."
        no_messages_sent
  execute_unless_expired config c false = do
    noop ← is_noop config c c.value
    execute_or_noop config c noop

  -- The body of `try` from the superseded commands on.
  unfoldable pub process : Config → GatewayCommand → List SupersededCommand → Run (Unit {0})
  unfolding execute_unless_expired
  process config c superseded = do
    for_each superseded handle_superseded
    now ← read_clock env
    execute_unless_expired config c (expired c now)

  -- The body of `except`.
  unfoldable pub handle_error : GatewayCommand → Fault → Run (Unit {0})
  handle_error c e =
      try (respond env c false "gateway-error" (env.fault_text e) end) (λ e. return tt)

  -- The body of `finally`.
  unfoldable pub release : GatewayCommand → GatewayCommand → World → World
  release original c w =
      if str_eq c.command_id original.command_id
      then record w { queue = done w.queue original }
      else record w { queue = done (done w.queue original) c }

  -- What follows `coalesce_set_max`.
  unfoldable pub after_coalescing :
      Config → GatewayCommand → Option (GatewayCommand × List SupersededCommand) → World → World
  unfolding process handle_error release
  after_coalescing config original none w =
      release original original (handle_error original Fault.queue_full w).0
  after_coalescing config original (some (c, superseded)) w =
      release original c (try (process config c superseded) (handle_error c) w).0

  -- What `_worker_loop` does with a command from the queue.
  unfoldable pub process_next : Config → GatewayCommand → World → World
  unfolding after_coalescing
  process_next config original w =
      let coalesced =
        coalesce_set_max w.queue original config.coalesce_window (env.meanwhile w.log) in
      after_coalescing config original coalesced.1 (record w { queue = coalesced.0 })
