-- ===== src/Protocol/Daylight.antt =====
-- The stored daylight curve of sanlight_mesh/protocol.py: values, configuration, and the decoder of
-- the two status PDUs. UTF-8 decoding is Python's: it is the parameter `utf8`, which returns the
-- code points of a text, or nothing for bytes that are no UTF-8.
pub mod Layout
pub mod Values
pub mod Wire
pub mod Sound
pub mod Exact
pub mod Status
use sanlight_mesh_mqtt_gatew.Base.{
  contains, ℕ, zero, suc, ◌+◌, ◌*◌, ◌-◌, ℤ, pos, negsuc, Bool, true, false, not, ◌||◌, String,
  Option, none, some, List, [], ◌∷◌, length, take, drop, slice, get_or, all, leb, ltb, ◌==◌,
  if◌then◌else◌, Result, ok, err, ◌>>=◌, ◌>>◌, require, raise_if,
}
use sanlight_mesh_mqtt_gatew.Value.{Value, integer, checked_int}
use sanlight_mesh_mqtt_gatew.Protocol.Bytes.{from_bytes_le, find_nul}
use sanlight_mesh_mqtt_gatew.Protocol.Opcode.{
  ValueError, daylight_time_not_int, daylight_time_out_of_range, daylight_brightness_not_int,
  daylight_brightness_out_of_range, configuration_id_not_uint32, too_many_values,
  values_not_ordered, invalid_offset, payload_too_short, count_exceeds, truncated,
  name_not_terminated, name_not_utf8, name_control_character, unsupported_trailing_length,
  unsupported_request, not_daylight_status, status_mismatch, combined_too_short,
  get_daylight_configuration_opcode, get_daylight_configuration_status_opcode,
  get_combined_daylight_data_opcode, get_combined_daylight_data_status_opcode,
  is_get_daylight_configuration_status, is_get_combined_daylight_data_status,
}
use sanlight_mesh_mqtt_gatew.Protocol.Live.{LiveStatus, decode_uptime_brightness_status_parameters}
use sanlight_mesh_mqtt_gatew.Protocol.Brightness.{validate_reported_max_brightness}

abbrev pub max_daylight_values : ℕ
max_daylight_values = 96

pub record DaylightValue : Type 0 where
  pub time_in_minutes : ℕ
  pub brightness : ℕ

-- The constructor call `DaylightValue(time, brightness)` with its `__post_init__`.
unfoldable pub daylight_value : Value → Value → Result ValueError DaylightValue
unfolding checked_int
daylight_value time brightness = do
  t ← checked_int time 0 1440 daylight_time_not_int daylight_time_out_of_range
  b ← checked_int brightness 0 100 daylight_brightness_not_int daylight_brightness_out_of_range
  ok (record { time_in_minutes = t; brightness = b })

-- The name is its code points.
pub record DaylightConfiguration : Type 0 where
  pub configuration_id : ℕ
  pub name : List ℕ
  pub values : List DaylightValue

-- `time < previous`, where `previous` starts at -1.
abbrev pub earlier : ℕ → ℤ → Bool
earlier time (pos previous) = ltb time previous
earlier time (negsuc previous) = false

-- The loop of `DaylightConfiguration.__post_init__`.
unfoldable pub check_order : ℤ → List DaylightValue → Result ValueError (Unit {0})
check_order previous [] = ok tt
check_order previous (v ∷ vs) = do
  raise_if (earlier v.time_in_minutes previous) values_not_ordered
  check_order (pos v.time_in_minutes) vs

-- The constructor call `DaylightConfiguration(id, name, values)` with its `__post_init__`. Its
-- arguments are an integer, a text and a tuple wherever the program calls it.
unfoldable pub daylight_configuration :
    ℕ → List ℕ → List DaylightValue → Result ValueError DaylightConfiguration
unfolding check_order
daylight_configuration configuration_id name values = do
  require (leb configuration_id 0xFFFFFFFF) configuration_id_not_uint32
  raise_if (ltb max_daylight_values (length values)) too_many_values
  check_order (negsuc 0) values
  ok (record { configuration_id = configuration_id; name = name; values = values })

-- The loop over `range(count)`: `index` is the loop's variable, the next argument the rounds left.
unfoldable pub decode_values : List ℕ → ℕ → ℕ → ℕ → ℤ → Result ValueError (List DaylightValue)
unfolding daylight_value
decode_values parameters values_start index zero previous = ok []
decode_values parameters values_start index (suc left) previous = do
  let item_offset = values_start + index * 3
  let minute = from_bytes_le (slice parameters item_offset (item_offset + 2))
  let brightness = get_or parameters (item_offset + 2) 0
  value ← daylight_value (integer (pos minute)) (integer (pos brightness))
  raise_if (earlier value.time_in_minutes previous) values_not_ordered
  rest ← decode_values parameters values_start (index + 1) left (pos value.time_in_minutes)
  ok (value ∷ rest)

-- A character below U+0020.
abbrev pub is_control : ℕ → Bool
is_control c = ltb c 0x20

-- `value is None` raises.
abbrev pub or_raise {ℓ} : {A : Type ℓ} → Option A → ValueError → Result ValueError A
or_raise none e = err e
or_raise (some a) e = ok a

pub record DaylightStatus : Type 0 where
  pub request_opcode : ℤ
  pub status_opcode : ℕ
  pub raw_pdu : List ℕ
  pub configuration : Option DaylightConfiguration
  pub parser_layout : Option String
  pub lamp_time_ms : Option ℕ
  pub live_brightness_raw : Option ℕ
  pub max_brightness : Option ℕ
  pub parse_error : Option ValueError

-- The property `parsed`.
abbrev pub parsed : DaylightStatus → Bool
parsed s = elim s.configuration [ none ↦ false | some c ↦ true ]

-- A status without a configuration, as the end of `decode_daylight_status_pdu` builds it.
abbrev pub raw_status : ℤ → ℕ → List ℕ → ValueError → DaylightStatus
raw_status request_opcode status_opcode pdu e = record {
  request_opcode = request_opcode;
  status_opcode = status_opcode;
  raw_pdu = pdu;
  configuration = none;
  parser_layout = none;
  lamp_time_ms = none;
  live_brightness_raw = none;
  max_brightness = none;
  parse_error = some e;
}

-- `n == k` of an integer and an opcode.
abbrev pub is_opcode : ℤ → ℕ → Bool
is_opcode (pos n) k = n == k
is_opcode (negsuc n) k = false

-- The opcode that the dictionary `expected_status_opcode` has for a supported request.
abbrev pub expected_status_opcode : ℤ → ℕ
expected_status_opcode request =
    if is_opcode request get_daylight_configuration_opcode
    then get_daylight_configuration_status_opcode
    else get_combined_daylight_data_status_opcode

-- The first two tests of the decoder: which status PDU it is.
unfoldable pub status_opcode_of : List ℕ → Result ValueError ℕ
status_opcode_of pdu =
    if is_get_daylight_configuration_status pdu
    then ok get_daylight_configuration_status_opcode
    else if is_get_combined_daylight_data_status pdu
    then ok get_combined_daylight_data_status_opcode
    else err not_daylight_status

module _ (utf8 : List ℕ → Option (List ℕ)) where
  unfoldable pub decode_daylight_configuration_at :
      List ℕ → ℕ → List ℕ → Result ValueError (DaylightConfiguration × ℕ)
  decode_daylight_configuration_at parameters offset allowed_trailing_lengths = do
    raise_if (ltb (length parameters) offset) invalid_offset
    let available = length parameters - offset
    raise_if (ltb available 6) payload_too_short
    let configuration_id = from_bytes_le (slice parameters offset (offset + 4))
    let count = get_or parameters (offset + 4) 0
    raise_if (ltb max_daylight_values count) count_exceeds
    let values_start = offset + 5
    let values_end = values_start + count * 3
    raise_if (leb (length parameters) values_end) truncated
    values ← decode_values parameters values_start 0 count (negsuc 0)
    nul ← or_raise (find_nul (drop values_end parameters)) name_not_terminated
    let name_end = values_end + nul
    name ← or_raise (utf8 (slice parameters values_end name_end)) name_not_utf8
    require (all (λ c. not (is_control c)) name) name_control_character
    let consumed = name_end + 1
    let trailing_length = length parameters - consumed
    require (contains allowed_trailing_lengths trailing_length) unsupported_trailing_length
    configuration ← daylight_configuration configuration_id name values
    ok (configuration, consumed)

  -- The body of the first `try`: a 0x04 status.
  unfoldable pub parse_configuration : ℤ → ℕ → List ℕ → Result ValueError DaylightStatus
  parse_configuration request_opcode status_opcode pdu = do
    (configuration, consumed) ← decode_daylight_configuration_at (drop 3 pdu) 0 (0 ∷ [])
    ok (record {
      request_opcode = request_opcode;
      status_opcode = status_opcode;
      raw_pdu = pdu;
      configuration = some configuration;
      parser_layout = some "configuration-v1";
      lamp_time_ms = none;
      live_brightness_raw = none;
      max_brightness = none;
      parse_error = none;
    })

  -- The body of the second `try`: a 0x0F status.
  unfoldable pub parse_combined : ℤ → ℕ → List ℕ → Result ValueError DaylightStatus
  parse_combined request_opcode status_opcode pdu = do
    let parameters = drop 3 pdu
    raise_if (ltb (length parameters) 7) combined_too_short
    live ← decode_uptime_brightness_status_parameters (take 6 parameters)
    max_brightness ← validate_reported_max_brightness (integer (pos (get_or parameters 6 0)))
    (configuration, consumed) ← decode_daylight_configuration_at parameters 7 (0 ∷ [])
    ok (record {
      request_opcode = request_opcode;
      status_opcode = status_opcode;
      raw_pdu = pdu;
      configuration = some configuration;
      parser_layout = some "combined-live-max-prefix-v1";
      lamp_time_ms = some live.lamp_time_ms;
      live_brightness_raw = some live.brightness_raw;
      max_brightness = some max_brightness;
      parse_error = none;
    })

  -- `try` with the handler that keeps the message, and the raw status that follows.
  unfoldable pub or_raw : ℤ → ℕ → List ℕ → Result ValueError DaylightStatus → DaylightStatus
  or_raw request_opcode status_opcode pdu (ok s) = s
  or_raw request_opcode status_opcode pdu (err e) = raw_status request_opcode status_opcode pdu e

  unfoldable pub decode_daylight_status_pdu : List ℕ → ℤ → Result ValueError DaylightStatus
  unfolding status_opcode_of
  decode_daylight_status_pdu pdu request_opcode = do
    require
        (is_opcode request_opcode get_daylight_configuration_opcode
          || is_opcode request_opcode get_combined_daylight_data_opcode)
        unsupported_request
    status_opcode ← status_opcode_of pdu
    require (status_opcode == expected_status_opcode request_opcode) status_mismatch
    ok (
        or_raw request_opcode status_opcode pdu (
          if status_opcode == get_daylight_configuration_status_opcode
          then parse_configuration request_opcode status_opcode pdu
          else parse_combined request_opcode status_opcode pdu))
