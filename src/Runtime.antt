-- ===== src/Runtime.antt =====
-- The brightness transactions of sanlight_mesh/bluez_runtime.py: set-max, get-max, blackout and
-- restore-blackout. Its children are Send, the handlers that send; Receive, those that the main loop
-- calls; System, the events in any order; and the proofs.
pub mod Send
pub mod Receive
pub mod System
pub mod Quiet
pub mod Stale
pub mod Blackout
use sanlight_mesh_mqtt_gatew.Base.{
  ℕ, ◌+◌, Bool, true, false, ◌||◌, ◌&&◌, not, Option, none, some, List, [], ◌∷◌, contains, ◌==◌,
  if◌then◌else◌,
}
use sanlight_mesh_mqtt_gatew.MaxBrightnessPolicy.{max_attempts_for_destination}

pub data Command : Type 0 where
  get_max set_max blackout restore_blackout other : Command

-- The arguments and the CDB material, and what the calls of sanlight_mesh/blackout_state.py do:
-- whether a snapshot of the given entries can be written, and whether the chosen one can be marked.
-- The names of nodes and groups are left out.
pub record Setup : Type 0 where
  pub command : Command
  pub destination : Option ℕ
  pub sanlight_nodes : List ℕ
  pub node_names : List ℕ
  pub groups : List ℕ
  pub app_index : ℕ
  pub sender_unicast : ℕ
  pub sender_node : Bool
  pub restore_entries : List (ℕ × ℕ)
  pub can_create : List (ℕ × ℕ) → Bool
  pub can_mark : Bool

pub data Purpose : Type 0 where
  query verification blackout_preflight restore_preflight : Purpose

-- What is printed at the end, with the numbers in it.
pub data Message : Type 0 where
  blackout_not_needed restore_not_needed get_max_unconfirmed preflight_aborted : Message
  write_unverified error : Message
  blackout_verified restore_verified : List (ℕ × ℕ) → Message
  set_max_group_complete : List ℕ → Message
  get_max_complete blackout_aborted set_max_verified verification_mismatch : ℕ → ℕ → Message

pub record Finish : Type 0 where
  pub message : Message
  pub code : ℕ

-- What the program does to the outside, the latest first. A write holds its PDU.
pub data Effect : Type 0 where
  write_sent : ℕ → ℕ → ℕ → List ℕ → Effect
  read_sent : ℕ → ℕ → ℕ → Effect
  value_read : ℕ → ℕ → Effect
  snapshot_created : List (ℕ × ℕ) → Effect
  snapshot_restored write_recorded : Effect
  -- timers of 4 seconds, and of 1 second
  set_max_timer get_max_timer : ℕ → ℕ → Effect
  set_max_retry_timer get_max_retry_timer : Effect

-- The fields of `BluezRuntime` that the transactions use.
pub record Transaction : Type 0 where
  pub finished : Option Finish
  pub set_max_generation : ℕ
  pub set_max_attempt : ℕ
  pub set_max_max_attempts : ℕ
  pub set_max_status_sources : List ℕ
  pub get_max_started : Bool
  pub get_max_generation : ℕ
  pub get_max_attempt : ℕ
  pub get_max_status : Option (ℕ × ℕ)
  pub get_max_malformed_status_seen : Bool
  pub get_max_retry_pending : Bool
  pub get_max_purpose : Option Purpose
  pub current_brightness_destination : ℕ
  pub current_brightness_percent : Option ℕ
  pub brightness_write_recorded : Bool
  pub blackout_original_values : List (ℕ × ℕ)
  pub blackout_targets : List ℕ
  pub preflight_queue : List ℕ
  pub restore_desired : List (ℕ × ℕ)
  pub batch_write_queue : List (ℕ × ℕ)
  pub batch_write_results : List (ℕ × ℕ)
  pub log : List Effect

-- `BluezRuntime.__init__`, at a destination and a percentage.
abbrev pub initial : ℕ → Option ℕ → Transaction
initial destination percent = record {
  finished = none;
  set_max_generation = 0;
  set_max_attempt = 0;
  set_max_max_attempts = 0;
  set_max_status_sources = [];
  get_max_started = false;
  get_max_generation = 0;
  get_max_attempt = 0;
  get_max_status = none;
  get_max_malformed_status_seen = false;
  get_max_retry_pending = false;
  get_max_purpose = none;
  current_brightness_destination = destination;
  current_brightness_percent = percent;
  brightness_write_recorded = false;
  blackout_original_values = [];
  blackout_targets = [];
  preflight_queue = [];
  restore_desired = [];
  batch_write_queue = [];
  batch_write_results = [];
  log = [];
}

abbrev pub do_effect : Effect → Transaction → Transaction
do_effect e t = record t { log = e ∷ t.log }

abbrev pub has_finished : Option Finish → Bool
has_finished none = false
has_finished (some f) = true

abbrev pub is_finished : Transaction → Bool
is_finished t = has_finished t.finished

unfoldable pub finish : Message → ℕ → Transaction → Transaction
finish message code t =
    if is_finished t
    then t
    else record t { finished = some (record { message = message; code = code }) }

unfoldable pub fail : Transaction → Transaction
unfolding finish
fail t = finish error 1 t

-- `validate_destination` of sanlight_mesh/cdb.py, as whether it returns.
unfoldable pub validate_destination : Setup → ℕ → Bool
validate_destination c destination =
    not (destination == 0xFFFF)
    && (contains c.groups destination || contains c.node_names destination)

-- `_cancel_get_max_transaction`
unfoldable pub cancel_get_max_transaction : Transaction → Transaction
cancel_get_max_transaction t = record t {
  get_max_generation = t.get_max_generation + 1;
  get_max_started = false;
  get_max_status = none;
  get_max_retry_pending = false;
  get_max_purpose = none;
}

-- `_reset_brightness_write_transaction`
unfoldable pub reset_brightness_write_transaction : Setup → Transaction → Transaction
unfolding cancel_get_max_transaction
reset_brightness_write_transaction c t = cancel_get_max_transaction (record t {
  set_max_generation = t.set_max_generation + 1;
  set_max_attempt = 0;
  set_max_max_attempts =
      max_attempts_for_destination t.current_brightness_destination c.sanlight_nodes;
  set_max_status_sources = [];
})
