-- ===== src/Runtime/Receive.antt =====
-- The methods of sanlight_mesh/bluez_runtime.py that the main loop calls: replies, timers, and the
-- statuses that lamps send.
use sanlight_mesh_mqtt_gatew.Base.{
  ℕ, Bool, true, false, not, ◌&&◌, ◌||◌, Option, none, some, List, [], ◌∷◌, ◌++◌, contains, leb,
  ltb, ◌==◌, if◌then◌else◌, Result, ok, err,
}
use sanlight_mesh_mqtt_gatew.Protocol.Opcode.{ValueError}
use sanlight_mesh_mqtt_gatew.Protocol.Brightness.{get_max_brightness_status_value}
use sanlight_mesh_mqtt_gatew.MaxBrightnessPolicy.{
  Received, Rejection, set_max_status_rejection_reason, unicast_status_rejection_reason,
}
use sanlight_mesh_mqtt_gatew.Runtime.{
  Command, get_max, set_max, blackout, restore_blackout, other, Setup, Purpose, query, verification,
  blackout_preflight, restore_preflight, value_read, write_recorded, set_max_timer, get_max_timer,
  set_max_retry_timer, get_max_retry_timer, Transaction, do_effect, is_finished, finish,
  cancel_get_max_transaction, set_max_group_complete, get_max_complete, blackout_aborted,
  set_max_verified, verification_mismatch, get_max_unconfirmed, preflight_aborted, write_unverified,
}
use sanlight_mesh_mqtt_gatew.Runtime.Send.{
  send_max_brightness, send_get_max_brightness, start_get_max_readback,
  start_next_batch_brightness_write, start_next_blackout_preflight_query,
  start_next_restore_preflight_query, lookup,
}

-- GET_MAX_MAX_ATTEMPTS of sanlight_mesh/max_brightness_policy.py
abbrev pub get_max_max_attempts : ℕ
get_max_max_attempts = 2

unfoldable pub on_set_max_send_accepted : Setup → ℕ → ℕ → Transaction → Transaction
on_set_max_send_accepted c generation attempt t =
    if is_finished t || not (generation == t.set_max_generation)
    then t
    else do_effect (set_max_timer generation attempt) (
        if t.brightness_write_recorded
        then t
        else record t { brightness_write_recorded = true; log = write_recorded ∷ t.log })

-- `set.add`
abbrev pub add_source : ℕ → List ℕ → List ℕ
add_source source sources = if contains sources source then sources else source ∷ sources

unfoldable pub on_set_max_status : Setup → ℕ → Transaction → Transaction
on_set_max_status c source t =
    if is_finished t
    then t
    else (let u = record t {
      set_max_status_sources = add_source source t.set_max_status_sources;
    } in
        if contains c.sanlight_nodes t.current_brightness_destination
        then start_get_max_readback c verification u
        else u)

abbrev pub is_empty : List ℕ → Bool
is_empty [] = true
is_empty (x ∷ r) = false

unfoldable pub finish_or_retry_set_max : Setup → ℕ → ℕ → Transaction → Transaction
finish_or_retry_set_max c generation attempt t =
    if is_finished t
      || not (generation == t.set_max_generation)
      || not (attempt == t.set_max_attempt)
      || t.get_max_started
    then t
    else if contains c.groups t.current_brightness_destination
    then finish (set_max_group_complete t.set_max_status_sources) 0 t
    else if not (is_empty t.set_max_status_sources)
    then start_get_max_readback c verification t
    else if ltb t.set_max_attempt t.set_max_max_attempts
    then do_effect set_max_retry_timer t
    else start_get_max_readback c verification t

unfoldable pub retry_set_max : Setup → Transaction → Transaction
retry_set_max c t =
    if is_finished t || not (is_empty t.set_max_status_sources) || t.get_max_started
    then t
    else send_max_brightness c t

unfoldable pub on_get_max_send_accepted : Setup → ℕ → ℕ → Transaction → Transaction
on_get_max_send_accepted c generation attempt t =
    if is_finished t || not (generation == t.get_max_generation)
    then t
    else do_effect (get_max_timer generation attempt) t

unfoldable pub schedule_get_max_retry : Transaction → Transaction
schedule_get_max_retry t =
    if is_finished t || t.get_max_retry_pending
    then t
    else record t { get_max_retry_pending = true; log = get_max_retry_timer ∷ t.log }

unfoldable pub retry_get_max : Setup → Transaction → Transaction
retry_get_max c t =
    if is_finished t
    then t
    else send_get_max_brightness c
        (record t { get_max_retry_pending = false; get_max_status = none })

abbrev pub requested : Option ℕ → ℕ → Bool
requested none value = false
requested (some percent) value = value == percent

abbrev pub append_result : ℕ → ℕ → Transaction → Transaction
append_result source value t = record t {
  batch_write_results = t.batch_write_results ++ (source, value) ∷ [];
}

-- A status in a preflight of a restore; a missing key raises `KeyError`.
unfoldable pub on_restore_value : Setup → ℕ → ℕ → Option ℕ → Transaction → Transaction
on_restore_value c source value none t = t
on_restore_value c source value (some desired) t = start_next_restore_preflight_query c (
    cancel_get_max_transaction (
      if value == desired
      then append_result source value t
      else record t { batch_write_queue = t.batch_write_queue ++ (source, desired) ∷ [] }))

-- The value that was asked for: the command is finished, or the next write starts.
unfoldable pub on_verified : Setup → Command → ℕ → ℕ → Transaction → Transaction
on_verified c set_max source value t = finish (set_max_verified source value) 0 t
on_verified c blackout source value t =
    start_next_batch_brightness_write c (cancel_get_max_transaction (append_result source value t))
on_verified c restore_blackout source value t =
    start_next_batch_brightness_write c (cancel_get_max_transaction (append_result source value t))
on_verified c get_max source value t =
    start_next_batch_brightness_write c (cancel_get_max_transaction (append_result source value t))
on_verified c other source value t =
    start_next_batch_brightness_write c (cancel_get_max_transaction (append_result source value t))

-- A status in a verification.
unfoldable pub on_readback : Setup → ℕ → ℕ → Transaction → Transaction
on_readback c source value t =
    if requested t.current_brightness_percent value
    then on_verified c c.command source value t
    else if ltb t.get_max_attempt get_max_max_attempts
    then schedule_get_max_retry (record t { get_max_status = none })
    else finish (verification_mismatch source value) 4 t

-- A status, by the purpose of the readback.
unfoldable pub on_value : Setup → Option Purpose → ℕ → ℕ → Transaction → Transaction
on_value c (some query) source value t = finish (get_max_complete source value) 0 t
on_value c (some blackout_preflight) source value t =
    if leb 1 value && leb value 19
    then finish (blackout_aborted source value) 2 t
    else start_next_blackout_preflight_query c (
        cancel_get_max_transaction
          (record t { blackout_original_values = (source, value) ∷ t.blackout_original_values }))
on_value c (some restore_preflight) source value t =
    on_restore_value c source value (lookup t.restore_desired source) t
on_value c (some verification) source value t = on_readback c source value t
on_value c none source value t = on_readback c source value t

unfoldable pub on_get_max_status : Setup → ℕ → ℕ → Transaction → Transaction
on_get_max_status c source value t =
    if is_finished t
    then t
    else on_value c t.get_max_purpose source value
        (record t { get_max_status = some (source, value); log = value_read source value ∷ t.log })

abbrev pub is_none : Option (ℕ × ℕ) → Bool
is_none none = true
is_none (some p) = false

-- No status was received after the last attempt.
unfoldable pub finish_unread : Option Purpose → Transaction → Transaction
finish_unread (some query) t = finish get_max_unconfirmed 3 t
finish_unread (some blackout_preflight) t = finish preflight_aborted 3 t
finish_unread (some restore_preflight) t = finish preflight_aborted 3 t
finish_unread (some verification) t = finish write_unverified 3 t
finish_unread none t = finish write_unverified 3 t

unfoldable pub finish_or_retry_get_max : Setup → ℕ → ℕ → Transaction → Transaction
finish_or_retry_get_max c generation attempt t =
    if is_finished t
      || not (generation == t.get_max_generation)
      || not (attempt == t.get_max_attempt)
    then t
    else if not (is_none t.get_max_status)
    then t
    else if ltb t.get_max_attempt get_max_max_attempts
    then schedule_get_max_retry t
    else finish_unread t.get_max_purpose t

-- `command in ("set-max", "blackout", "restore-blackout")`, and with "get-max".
abbrev pub writes_brightness : Command → Bool
writes_brightness get_max = false
writes_brightness set_max = true
writes_brightness blackout = true
writes_brightness restore_blackout = true
writes_brightness other = false

abbrev pub reads_brightness : Command → Bool
reads_brightness get_max = true
reads_brightness set_max = true
reads_brightness blackout = true
reads_brightness restore_blackout = true
reads_brightness other = false

abbrev pub is_accepted : Option Rejection → Bool
is_accepted none = true
is_accepted (some r) = false

-- The branch of `MessageReceived` for a 0x07 status.
unfoldable pub receive_set_max_status : Setup → Received → Transaction → Transaction
receive_set_max_status c status t =
    if writes_brightness c.command
      && is_accepted (
          set_max_status_rejection_reason status t.current_brightness_destination c.app_index
            c.sender_unicast c.sanlight_nodes c.groups)
    then on_set_max_status c status.source t
    else t

abbrev pub on_decoded : Setup → ℕ → Result ValueError ℕ → Transaction → Transaction
on_decoded c source (ok value) t = on_get_max_status c source value t
on_decoded c source (err e) t = record t { get_max_malformed_status_seen = true }

-- The branch of `MessageReceived` for a 0x09 status.
unfoldable pub receive_get_max_status : Setup → Received → List ℕ → Transaction → Transaction
receive_get_max_status c status payload t =
    if reads_brightness c.command
      && t.get_max_started
      && is_accepted (
          unicast_status_rejection_reason status t.current_brightness_destination c.app_index
            c.sender_unicast c.sanlight_nodes)
    then on_decoded c status.source (get_max_brightness_status_value payload) t
    else t
