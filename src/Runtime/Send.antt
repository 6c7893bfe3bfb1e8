-- ===== src/Runtime/Send.antt =====
-- The methods of sanlight_mesh/bluez_runtime.py that send brightness messages. A method that raises
-- leaves what it had done before.
use sanlight_mesh_mqtt_gatew.Base.{
  ℕ, ◌+◌, Bool, true, false, not, Option, none, some, List, [], ◌∷◌, contains, ◌==◌, if◌then◌else◌,
  Result, ok, err, pos, all,
}
use sanlight_mesh_mqtt_gatew.Value.{integer}
use sanlight_mesh_mqtt_gatew.Protocol.Opcode.{ValueError}
use sanlight_mesh_mqtt_gatew.Protocol.Brightness.{build_set_max_brightness_pdu, build_blackout_pdu}
use sanlight_mesh_mqtt_gatew.Watchdog.Incident.{sorted}
use sanlight_mesh_mqtt_gatew.Runtime.{
  Command, get_max, set_max, blackout, restore_blackout, other, Setup, Purpose, blackout_preflight,
  restore_preflight, Finish, write_sent, read_sent, snapshot_created, snapshot_restored,
  Transaction, do_effect, is_finished, finish, fail, validate_destination,
  reset_brightness_write_transaction, blackout_not_needed, restore_not_needed, blackout_verified,
  restore_verified,
}

-- The PDU of a percentage.
abbrev pub brightness_pdu : ℕ → Result ValueError (List ℕ)
brightness_pdu percent =
    if percent == 0
    then build_blackout_pdu
    else build_set_max_brightness_pdu (integer (pos percent))

-- The end of `send_max_brightness`: the PDU is built, the destination is looked up, and it is sent.
unfoldable pub send_pdu : Setup → Result ValueError (List ℕ) → Transaction → Transaction
send_pdu c (err e) t = t
send_pdu c (ok payload) t =
    if validate_destination c t.current_brightness_destination
    then do_effect
        (write_sent t.set_max_generation t.set_max_attempt t.current_brightness_destination payload)
        t
    else t

-- `send_max_brightness` from the percentage on.
unfoldable pub send_percent : Setup → Option ℕ → Transaction → Transaction
unfolding send_pdu fail finish
send_percent c none t = fail t
send_percent c (some percent) t =
    send_pdu c (brightness_pdu percent) (record t { set_max_attempt = t.set_max_attempt + 1 })

unfoldable pub send_max_brightness : Setup → Transaction → Transaction
unfolding send_percent fail finish
send_max_brightness c t =
    if c.sender_node then send_percent c t.current_brightness_percent t else fail t

unfoldable pub send_get_max_brightness : Setup → Transaction → Transaction
unfolding fail finish
send_get_max_brightness c t =
    if is_finished t
    then t
    else if not c.sender_node
    then fail t
    else (let u = record t { get_max_attempt = t.get_max_attempt + 1 } in
        if validate_destination c t.current_brightness_destination
        then do_effect
            (read_sent u.get_max_generation u.get_max_attempt u.current_brightness_destination) u
        else u)

unfoldable pub start_get_max_readback : Setup → Purpose → Transaction → Transaction
unfolding fail finish
start_get_max_readback c purpose t =
    if is_finished t
    then t
    else if t.get_max_started
    then t
    else if not c.sender_node
    then fail t
    else if not (contains c.sanlight_nodes t.current_brightness_destination)
    then fail t
    else send_get_max_brightness c (record t {
      get_max_generation = t.get_max_generation + 1;
      get_max_started = true;
      get_max_purpose = some purpose;
      get_max_attempt = 0;
      get_max_status = none;
      get_max_malformed_status_seen = false;
      get_max_retry_pending = false;
    })

-- The end of a restore: the snapshot is marked, or the command fails.
unfoldable pub complete_restore : Setup → Finish → Transaction → Transaction
unfolding fail finish
complete_restore c f t =
    if c.can_mark then finish f.message f.code (do_effect snapshot_restored t) else fail t

-- `start_next_batch_brightness_write` when the queue is empty.
unfoldable pub finish_batch : Setup → Command → Transaction → Transaction
unfolding complete_restore finish
finish_batch c blackout t = finish (blackout_verified t.batch_write_results) 0 t
finish_batch c get_max t =
    complete_restore c (record { message = restore_verified t.batch_write_results; code = 0 }) t
finish_batch c set_max t =
    complete_restore c (record { message = restore_verified t.batch_write_results; code = 0 }) t
finish_batch c restore_blackout t =
    complete_restore c (record { message = restore_verified t.batch_write_results; code = 0 }) t
finish_batch c other t =
    complete_restore c (record { message = restore_verified t.batch_write_results; code = 0 }) t

-- The same after the test of `finished`.
unfoldable pub next_write : Setup → List (ℕ × ℕ) → Transaction → Transaction
unfolding finish_batch complete_restore finish
next_write c [] t = finish_batch c c.command t
next_write c ((destination, percent) ∷ queue) t = send_max_brightness c (
    reset_brightness_write_transaction c (record t {
      batch_write_queue = queue;
      current_brightness_destination = destination;
      current_brightness_percent = some percent;
    }))

unfoldable pub start_next_batch_brightness_write : Setup → Transaction → Transaction
unfolding next_write finish_batch complete_restore finish
start_next_batch_brightness_write c t =
    if is_finished t then t else next_write c t.batch_write_queue t

-- `values[address]` of a dictionary, the latest first.
abbrev pub lookup : List (ℕ × ℕ) → ℕ → Option ℕ
lookup [] a = none
lookup ((b, v) ∷ r) a = if b == a then some v else lookup r a

abbrev pub is_some : Option ℕ → Bool
is_some none = false
is_some (some v) = true

abbrev pub is_zero : Option ℕ → Bool
is_zero none = false
is_zero (some v) = v == 0

abbrev pub value_of : Option ℕ → ℕ
value_of none = 0
value_of (some v) = v

-- The targets that are not off, with their values, and those that are off.
unfoldable pub changing_entries : List (ℕ × ℕ) → List ℕ → List (ℕ × ℕ)
changing_entries values [] = []
changing_entries values (a ∷ targets) =
    let rest = changing_entries values targets in
    if is_zero (lookup values a) then rest else (a, value_of (lookup values a)) ∷ rest

unfoldable pub already_off : List (ℕ × ℕ) → List ℕ → List (ℕ × ℕ)
already_off values [] = []
already_off values (a ∷ targets) =
    let rest = already_off values targets in
    if is_zero (lookup values a) then (a, 0) ∷ rest else rest

unfoldable pub with_zero : List (ℕ × ℕ) → List (ℕ × ℕ)
with_zero [] = []
with_zero ((a, v) ∷ r) = (a, 0) ∷ with_zero r

-- The end of the preflight of a blackout: nothing to do, or a snapshot and the writes.
unfoldable pub create_and_write : Setup → List (ℕ × ℕ) → Transaction → Transaction
unfolding finish
create_and_write c [] t = finish blackout_not_needed 0 t
create_and_write c (e ∷ entries) t =
    if c.can_create (e ∷ entries)
    then start_next_batch_brightness_write c (record t {
      batch_write_queue = with_zero (e ∷ entries);
      log = snapshot_created (e ∷ entries) ∷ t.log;
    })
    else t

-- `_start_next_blackout_preflight_query`; it raises `KeyError` if a value has not been read.
unfoldable pub next_blackout_query : Setup → List ℕ → Transaction → Transaction
unfolding create_and_write finish
next_blackout_query c (a ∷ queue) t =
    start_get_max_readback c blackout_preflight
      (record t { preflight_queue = queue; current_brightness_destination = a })
next_blackout_query c [] t =
    if all (λ a. is_some (lookup t.blackout_original_values a)) t.blackout_targets
    then create_and_write c (changing_entries t.blackout_original_values t.blackout_targets)
        (record t {
          batch_write_results = already_off t.blackout_original_values t.blackout_targets;
        })
    else t

unfoldable pub start_next_blackout_preflight_query : Setup → Transaction → Transaction
unfolding next_blackout_query create_and_write finish
start_next_blackout_preflight_query c t = next_blackout_query c t.preflight_queue t

abbrev pub targets_of : Setup → Option ℕ → List ℕ
targets_of c none = sorted c.sanlight_nodes
targets_of c (some destination) = destination ∷ []

unfoldable pub start_blackout_preflight : Setup → Transaction → Transaction
unfolding start_next_blackout_preflight_query next_blackout_query create_and_write finish
start_blackout_preflight c t = start_next_blackout_preflight_query c (record t {
  blackout_targets = targets_of c c.destination;
  blackout_original_values = [];
  preflight_queue = targets_of c c.destination;
})

unfoldable pub next_restore_query : Setup → List ℕ → List (ℕ × ℕ) → Transaction → Transaction
unfolding complete_restore finish fail
next_restore_query c (a ∷ queue) writes t =
    start_get_max_readback c restore_preflight
      (record t { preflight_queue = queue; current_brightness_destination = a })
next_restore_query c [] [] t =
    complete_restore c (record { message = restore_not_needed; code = 0 }) t
next_restore_query c [] (w ∷ writes) t = start_next_batch_brightness_write c t

unfoldable pub start_next_restore_preflight_query : Setup → Transaction → Transaction
unfolding next_restore_query complete_restore finish fail
start_next_restore_preflight_query c t =
    next_restore_query c t.preflight_queue t.batch_write_queue t

abbrev addresses : List (ℕ × ℕ) → List ℕ
addresses [] = []
addresses ((a, v) ∷ r) = a ∷ addresses r

unfoldable pub start_restore_preflight : Setup → Transaction → Transaction
unfolding start_next_restore_preflight_query next_restore_query complete_restore finish fail
start_restore_preflight c t = start_next_restore_preflight_query c (record t {
  restore_desired = c.restore_entries;
  preflight_queue = addresses c.restore_entries;
  batch_write_queue = [];
  batch_write_results = [];
})

unfoldable pub prepare_single_brightness_write : Setup → ℕ → ℕ → Transaction → Transaction
prepare_single_brightness_write c destination percent t = send_max_brightness c (
    reset_brightness_write_transaction c (record t {
      current_brightness_destination = destination;
      current_brightness_percent = some percent;
      batch_write_queue = [];
      batch_write_results = [];
    }))
