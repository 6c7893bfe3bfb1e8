-- ===== src/SequenceRecovery.antt =====
-- The recovery of the sender's sequence number, sanlight_mesh/sequence_recovery.py. The `Machine` is the
-- file of the BlueZ node and what has been done; the outside answers from what has been done.
pub mod Advance
pub mod Restart
use sanlight_mesh_mqtt_gatew.Base.{
  ℕ, ℤ, pos, negsuc, Bool, true, false, not, String, Option, none, some, List, [], ◌∷◌, ltb, leb,
  ◌==◌, between, pos_part, if◌then◌else◌, Result, ok, err, ◌>>=◌, ◌>>◌, require,
}
use sanlight_mesh_mqtt_gatew.Value.{
  Value, null, boolean, integer, float, text, array, object, Fields, end, field, get, value_or,
}
use sanlight_mesh_mqtt_gatew.GatewayStore.Dict.{put}

abbrev pub mesh_sequence_max : ℕ
mesh_sequence_max = 0xFFFFFF

abbrev pub recovery_target_max : ℕ
recovery_target_max = 0xBFFFFF

pub data Error : Type 0 where
  target_below_1 target_above_24_bits target_above_ceiling : Error
  not_found unreadable not_json not_an_object : Error
  invalid_unicast invalid_sequence sequence_out_of_range identity_mismatch : Error
  -- an exception of `int` that is not caught
  overflow : Error
  backup_failed write_failed : Error
  not_root not_active stop_failed not_stopped start_failed not_started not_ready : Error

pub data File : Type 0 where
  missing cannot_read no_json : File
  holds : Value → File

pub data Effect : Type 0 where
  backed_up written : Fields → Effect
  stop_requested start_requested : Effect

pub record Machine : Type 0 where
  pub file : File
  pub log : List Effect

pub record RecoveryResult : Type 0 where
  pub previous : ℕ
  pub current : ℕ
  pub changed : Bool

-- What `_atomic_write_json` does: it raises before or after the file is replaced, or it returns.
pub data Write : Type 0 where
  not_replaced replaced_and_failed replaced : Write

-- What `int` raises: an error that is caught, or another.
pub data Conversion : Type 0 where
  type_or_value_error overflow_error : Conversion

-- `hex_int` is `int(str(value).removeprefix("0x"), 16)`, `to_int` is `int(value)`.
pub record Environment : Type 0 where
  pub hex_int : Value → Result Conversion ℤ
  pub to_int : Value → Result Conversion ℤ
  pub can_backup : List Effect → Bool
  pub write : List Effect → Write
  pub is_root : Bool
  pub systemctl_succeeds : List Effect → Bool
  pub is_active : List Effect → Bool
  pub becomes_ready : List Effect → Bool

unfoldable pub validate_recovery_target : ℤ → Result Error ℕ
validate_recovery_target (negsuc n) = err target_below_1
validate_recovery_target (pos n) = do
  require (leb 1 n) target_below_1
  require (leb n mesh_sequence_max) target_above_24_bits
  require (leb n recovery_target_max) target_above_ceiling
  ok n

-- `_load_node`
abbrev as_node : Value → Result Error Fields
as_node (object fs) = ok fs
as_node null = err not_an_object
as_node (boolean b) = err not_an_object
as_node (integer n) = err not_an_object
as_node (float s) = err not_an_object
as_node (text s) = err not_an_object
as_node (array xs) = err not_an_object

unfoldable pub load_node : File → Result Error Fields
load_node missing = err not_found
load_node cannot_read = err unreadable
load_node no_json = err not_json
load_node (holds v) = as_node v

abbrev pub caught : {A : Type 0} → Error → Result Conversion A → Result Error A
caught e (ok a) = ok a
caught e (err type_or_value_error) = err e
caught e (err overflow_error) = err overflow

abbrev pub equals : ℤ → ℕ → Bool
equals (pos n) m = n == m
equals (negsuc n) m = false

module _ (env : Environment) where
  -- `_parse_unicast`
  unfoldable pub parse_unicast : Value → Result Error ℤ
  parse_unicast v = caught invalid_unicast (env.hex_int v)

  -- `_parse_sequence`
  unfoldable pub parse_sequence : Value → Result Error ℕ
  parse_sequence v = do
    parsed ← caught invalid_sequence (env.to_int v)
    require (between 0 mesh_sequence_max parsed) sequence_out_of_range
    ok (pos_part parsed)

  -- The checks of the node that was loaded; with its sequence number.
  unfoldable pub check_loaded : Fields → ℕ → ℕ → Result Error (Fields × ℕ × ℕ)
  unfolding parse_unicast parse_sequence
  check_loaded node expected_unicast target = do
    actual_unicast ← parse_unicast (value_or (get node "unicastAddress") null)
    require (equals actual_unicast expected_unicast) identity_mismatch
    previous ← parse_sequence (value_or (get node "sequenceNumber") (integer (pos 0)))
    ok (node, previous, target)

  -- What `advance_node_sequence` checks before it changes anything: the node, the sequence number in
  -- it, and the minimum.
  unfoldable pub check_node : File → ℕ → ℤ → Result Error (Fields × ℕ × ℕ)
  unfolding check_loaded
  check_node file expected_unicast minimum = do
    target ← validate_recovery_target minimum
    node ← load_node file
    check_loaded node expected_unicast target

  abbrev pub with_sequence : Fields → ℕ → Fields
  with_sequence node n = put node "sequenceNumber" (integer (pos n))

  abbrev pub write_to : Fields → Machine → Machine
  write_to after m = record { file = holds (object after); log = written after ∷ m.log }

  -- `_atomic_write_json`, and the result.
  abbrev pub atomic_write : Fields → ℕ → ℕ → Machine → Write → Machine × Result Error RecoveryResult
  atomic_write node previous target m not_replaced = (m, err write_failed)
  atomic_write node previous target m replaced_and_failed =
      (write_to (with_sequence node target) m, err write_failed)
  atomic_write node previous target m replaced = (
    write_to (with_sequence node target) m,
    ok (record { previous = previous; current = target; changed = true }),
  )

  -- The backup and the write.
  unfoldable pub write_node : Fields → ℕ → ℕ → Machine → Machine × Result Error RecoveryResult
  write_node node previous target m =
      if env.can_backup m.log
      then atomic_write node previous target (record m { log = backed_up node ∷ m.log })
          (env.write (backed_up node ∷ m.log))
      else (m, err backup_failed)

  unfoldable pub advance_checked :
      Result Error (Fields × ℕ × ℕ) → Machine → Machine × Result Error RecoveryResult
  unfolding write_node
  advance_checked (err e) m = (m, err e)
  advance_checked (ok (node, previous, target)) m =
      if leb target previous
      then (m, ok (record { previous = previous; current = previous; changed = false }))
      else write_node node previous target m

  unfoldable pub advance_node_sequence : ℕ → ℤ → Machine → Machine × Result Error RecoveryResult
  unfolding advance_checked
  advance_node_sequence expected_unicast minimum m =
      advance_checked (check_node m.file expected_unicast minimum) m

  -- The `finally` block: what it raises replaces what the body returned or raised.
  unfoldable pub restart :
      Machine × Result Error RecoveryResult → Machine × Result Error RecoveryResult
  restart (m, r) =
      let n = record m { log = start_requested ∷ m.log } in
      if not (env.systemctl_succeeds m.log)
      then (n, err start_failed)
      else if not (env.is_active n.log)
      then (n, err not_started)
      else if not (env.becomes_ready n.log)
      then (n, err not_ready)
      else (n, r)

  unfoldable pub while_stopped : ℕ → ℤ → Machine → Machine × Result Error RecoveryResult
  while_stopped expected_unicast minimum m =
      if env.is_active m.log
      then (m, err not_stopped)
      else advance_node_sequence expected_unicast minimum m

  -- After the checks: the service is told to stop; a failure of that call is not followed by a start.
  unfoldable pub stop_and_advance : ℕ → ℤ → Machine → Machine × Result Error RecoveryResult
  unfolding restart while_stopped
  stop_and_advance expected_unicast minimum m =
      if env.systemctl_succeeds m.log
      then restart
          (while_stopped expected_unicast minimum (record m { log = stop_requested ∷ m.log }))
      else (record m { log = stop_requested ∷ m.log }, err stop_failed)

  abbrev is_file : File → Bool
  is_file missing = false
  is_file cannot_read = true
  is_file no_json = true
  is_file (holds v) = true

  unfoldable pub may_recover : ℤ → Machine → Result Error (Unit {0})
  may_recover minimum m = do
    require env.is_root not_root
    target ← validate_recovery_target minimum
    require (is_file m.file) not_found
    require (env.is_active m.log) not_active

  unfoldable pub recover_if :
      Result Error (Unit {0}) → ℕ → ℤ → Machine → Machine × Result Error RecoveryResult
  unfolding stop_and_advance
  recover_if (err e) expected_unicast minimum m = (m, err e)
  recover_if (ok u) expected_unicast minimum m = stop_and_advance expected_unicast minimum m

  unfoldable pub recover_sender_sequence : ℕ → ℤ → Machine → Machine × Result Error RecoveryResult
  unfolding recover_if may_recover
  recover_sender_sequence expected_unicast minimum m =
      recover_if (may_recover minimum m) expected_unicast minimum m
