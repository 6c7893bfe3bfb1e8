-- ===== src/GatewayProtocol.antt =====
-- The MQTT command contract of sanlight_mesh/gateway_protocol.py: commands, timestamps and
-- `decode_command`. A datetime is the number of microseconds since 0001-01-01T00:00:00Z, so the
-- datetimes that Python can hold are those below `time_limit`. `json.loads` after the UTF-8
-- decoding, and `datetime.fromisoformat`, are Python's: the parameters `loads` and `fromisoformat`.
pub mod Names
pub mod Decode
pub mod Accepts
pub mod Valid
pub mod Uncaught
use sanlight_mesh_mqtt_gatew.Base.{
  ℕ, ◌+◌, ◌*◌, ℤ, pos, negsuc, Bool, true, false, String, Option, none, some, List, [], ◌∷◌, ltb,
  leb, if◌then◌else◌, Result, ok, err, str_eq, ◌==◌, codes,
}

pub data Action : Type 0 where
  set_max refresh read_daylight blackout restore_blackout : Action
  sync_clock set_clock refresh_gateway_info : Action

-- A target text: `node a` is the address `a` as four upper-case hexadecimal digits.
pub data Target : Type 0 where
  all_nodes latest gateway : Target
  node : ℕ → Target

pub record GatewayCommand : Type 0 where
  pub command_id : String
  pub action : Action
  pub target : Target
  pub created_at : ℕ
  pub expires_at : ℕ
  pub value : Option ℕ
  pub seconds_since_midnight : Option ℕ
  pub confirmed : Bool

-- The property `is_write`.
abbrev pub is_write_action : Action → Bool
is_write_action set_max = true
is_write_action blackout = true
is_write_action restore_blackout = true
is_write_action sync_clock = true
is_write_action set_clock = true
is_write_action refresh = false
is_write_action read_daylight = false
is_write_action refresh_gateway_info = false

abbrev pub is_write : GatewayCommand → Bool
is_write c = is_write_action c.action

-- The method `expired` at the time `now`.
abbrev pub expired : GatewayCommand → ℕ → Bool
expired c now = leb c.expires_at now

-- The messages of `GatewayProtocolError`.
pub data ProtocolError : Type 0 where
  payload_too_long not_utf8 not_json not_an_object unknown_field : ProtocolError
  bad_id unsupported_action bad_timestamp bad_ttl created_in_future : ProtocolError
  confirmed_not_boolean bad_target target_not_unicast : ProtocolError
  value_not_int value_out_of_range not_confirmed only_latest only_gateway : ProtocolError
  seconds_not_int seconds_out_of_range field_not_accepted : ProtocolError
  -- raised by `on_message`
  retained_command unknown_node : ProtocolError

-- What a call can raise: the error of this module, or one that it does not name.
pub data Raised : Type 0 where
  protocol : ProtocolError → Raised
  -- `TypeError: unhashable type`
  type_error : Raised
  -- `OverflowError: date value out of range`
  overflow_error : Raised
  -- `RecursionError`, or the `ValueError` of an integer with too many digits, from `json.loads`
  loads_error : Raised

abbrev pub max_command_bytes : ℕ
max_command_bytes = 16384

abbrev pub second : ℕ
second = 1000000

-- The first microsecond after `datetime.max`: 3652059 days after `datetime.min`.
abbrev pub time_limit : ℕ
time_limit = 3652059 * 86400 * 1000000

-- `time + timedelta(seconds=s)`
unfoldable pub add_seconds : ℕ → ℕ → Result Raised ℕ
add_seconds time s =
    let later = time + s * second in if ltb later time_limit then ok later else err overflow_error

-- What `datetime.fromisoformat` returns: no timezone, or the time in microseconds of UTC, which
-- another offset can bring before `datetime.min` or after `datetime.max`.
pub data Stamp : Type 0 where
  naive : Stamp
  aware : ℤ → Stamp

-- `parsed.astimezone(timezone.utc)`
unfoldable pub to_utc : ℤ → Result Raised ℕ
to_utc (pos t) = if ltb t time_limit then ok t else err overflow_error
to_utc (negsuc t) = err overflow_error

-- `value[:-1] + "+00:00" if value.endswith("Z") else value`
unfoldable pub replace_z : List ℕ → List ℕ
replace_z [] = []
replace_z (c ∷ []) = if c == b'Z' then codes "+00:00" else c ∷ []
replace_z (c ∷ d ∷ r) = c ∷ replace_z (d ∷ r)
