-- ===== src/Tests/RuntimeRuns.antt =====
-- Tests of the model of sanlight_mesh/bluez_runtime.py.
use sanlight_mesh_mqtt_gatew.Base.{ℕ, ◌≡◌, refl, inl, true, none, some, [], ◌∷◌}
use sanlight_mesh_mqtt_gatew.Value.{checked_int}
use sanlight_mesh_mqtt_gatew.Protocol.Bytes.{bytes_eq}
use sanlight_mesh_mqtt_gatew.Protocol.Opcode.{opcode_bytes, vendor_opcode, starts_with_opcode}
use sanlight_mesh_mqtt_gatew.Protocol.Brightness.{
  build_blackout_pdu, get_max_brightness_status_value, get_max_brightness_status_parameters,
  validate_reported_max_brightness,
}
use sanlight_mesh_mqtt_gatew.MaxBrightnessPolicy.{
  Received, set_max_status_rejection_reason, unicast_status_rejection_reason,
  common_vendor_status_rejection_reason, max_attempts_for_destination,
}
use sanlight_mesh_mqtt_gatew.Runtime.{
  blackout_preflight, Command, Setup, Transaction, read_sent, initial, is_finished,
  blackout_verified, cancel_get_max_transaction, reset_brightness_write_transaction,
  validate_destination, finish,
}
use sanlight_mesh_mqtt_gatew.Runtime.Send.{
  start_blackout_preflight, start_next_blackout_preflight_query, next_blackout_query,
  start_get_max_readback, send_get_max_brightness, create_and_write, next_write,
  start_next_batch_brightness_write, finish_batch, changing_entries, already_off, with_zero,
  send_max_brightness, send_percent, send_pdu,
}
use sanlight_mesh_mqtt_gatew.Runtime.Receive.{
  receive_get_max_status, receive_set_max_status, on_set_max_status, on_get_max_status, on_value,
  on_readback, on_verified, retry_get_max, finish_or_retry_get_max,
}
use sanlight_mesh_mqtt_gatew.Runtime.System.{
  step, Reach, start, later, set_max_status, get_max_status, set_max_accepted,
}
use sanlight_mesh_mqtt_gatew.Runtime.Quiet.{IsQuiet, step-IsQuiet}
use sanlight_mesh_mqtt_gatew.Runtime.Stale.{next_readback, retry_get_max-cancelled}
use sanlight_mesh_mqtt_gatew.Runtime.Blackout.{Guarded, IsOff}
use sanlight_mesh_mqtt_gatew.Runtime.Blackout.Safe.{
  started, blackout_writes-Guarded, blackout_verified-IsOff,
}

-- Lamps 0x00C2 and 0x00C3; the sender is 0x0005.
abbrev setup : Setup
setup = record {
  command = Command.blackout;
  destination = some 195;
  sanlight_nodes = 194 ∷ 195 ∷ [];
  node_names = 5 ∷ 194 ∷ 195 ∷ [];
  groups = 49152 ∷ [];
  app_index = 0;
  sender_unicast = 5;
  sender_node = true;
  restore_entries = [];
  can_create = λ entries. true;
  can_mark = true;
}

abbrev from_lamp : Received
from_lamp = record { source = 195; key_index = 0; response_destination = some 5 }

-- The lamp is read at 40, written, acknowledges the write, and is read at 0.
abbrev before : Transaction
before = started setup 195

abbrev write : Transaction
write = step setup (get_max_status from_lamp (201 ∷ 139 ∷ 10 ∷ 40 ∷ [])) before

abbrev acknowledged : Transaction
acknowledged = step setup (set_max_status from_lamp) write

abbrev ended : Transaction
ended = step setup (get_max_status from_lamp (201 ∷ 139 ∷ 10 ∷ 0 ∷ [])) acknowledged

reached : Reach setup before ended
reached = later (later (later start _) _) (get_max_status from_lamp (201 ∷ 139 ∷ 10 ∷ 0 ∷ []))

blackout_writes-Guarded_example : Guarded ended.log
blackout_writes-Guarded_example = blackout_writes-Guarded setup refl 195 reached

run_blackout :
    ended.finished ≡ some (record { message = blackout_verified ((195, 0) ∷ []); code = 0 })
unfolding step receive_get_max_status receive_set_max_status set_max_status_rejection_reason
    unicast_status_rejection_reason common_vendor_status_rejection_reason started
    start_blackout_preflight start_next_blackout_preflight_query next_blackout_query
    start_get_max_readback send_get_max_brightness validate_destination on_set_max_status
    on_get_max_status on_value on_readback on_verified cancel_get_max_transaction
    reset_brightness_write_transaction max_attempts_for_destination create_and_write next_write
    start_next_batch_brightness_write finish_batch finish changing_entries already_off with_zero
    send_max_brightness send_percent send_pdu build_blackout_pdu vendor_opcode
    get_max_brightness_status_value get_max_brightness_status_parameters starts_with_opcode
    validate_reported_max_brightness checked_int opcode_bytes bytes_eq
run_blackout = refl

blackout_verified-IsOff_example : IsOff ((195, 0) ∷ []) ended.log 195
blackout_verified-IsOff_example =
    blackout_verified-IsOff setup refl 195 reached ((195, 0) ∷ []) 0 run_blackout 195 (inl refl)

run_end : is_finished ended ≡ true
run_end = rw run_blackout

step-IsQuiet_example : IsQuiet ended (step setup (set_max_accepted 1 1) ended)
step-IsQuiet_example = step-IsQuiet setup ended (run_end) (set_max_accepted 1 1)

-- The retry of the first query to 0x00C3 is waiting.
abbrev waiting : Transaction
waiting = record (initial 195 none) {
  get_max_started = true;
  get_max_attempt = 1;
  get_max_retry_pending = true;
}

retry_get_max-cancelled_example :
    ((attempt : ℕ)
      → finish_or_retry_get_max setup 0 attempt (cancel_get_max_transaction waiting)
        ≡ cancel_get_max_transaction waiting)
    × ((retry_get_max setup (next_readback setup blackout_preflight waiting)).log
        ≡ read_sent 2 2 195 ∷ read_sent 2 1 195 ∷ [])
    × ((retry_get_max setup (next_readback setup blackout_preflight waiting)).get_max_attempt ≡ 2)
unfolding validate_destination
retry_get_max-cancelled_example =
    retry_get_max-cancelled setup blackout_preflight waiting refl refl refl refl
