-- ===== src/Protocol/Live.antt =====
-- Live status of sanlight_mesh/protocol.py: lamp time and effective brightness.
use sanlight_mesh_mqtt_gatew.Base.{
  ℕ, List, pos, length, take, slice, drop, ◌==◌, Result, ok, ◌>>=◌, ◌>>◌, require,
}
use sanlight_mesh_mqtt_gatew.Value.{Value, integer, checked_int}
use sanlight_mesh_mqtt_gatew.Protocol.Bytes.{from_bytes_le}
use sanlight_mesh_mqtt_gatew.Protocol.Opcode.{
  ValueError, vendor_opcode, get_uptime_brightness_opcode, is_get_uptime_brightness_status,
  lamp_time_not_int, lamp_time_not_uint32, live_raw_not_int, live_raw_not_uint16,
  not_six_parameter_bytes, not_uptime_status,
}

pub record LiveStatus : Type 0 where
  pub lamp_time_ms : ℕ
  pub brightness_raw : ℕ

-- The constructor call `LiveStatus(lamp_time_ms, brightness_raw)` with its `__post_init__`.
unfoldable pub live_status : Value → Value → Result ValueError LiveStatus
unfolding checked_int
live_status lamp_time_ms brightness_raw = do
  time ← checked_int lamp_time_ms 0 0xFFFFFFFF lamp_time_not_int lamp_time_not_uint32
  raw ← checked_int brightness_raw 0 0xFFFF live_raw_not_int live_raw_not_uint16
  ok (record { lamp_time_ms = time; brightness_raw = raw })

unfoldable pub decode_uptime_brightness_status_parameters : List ℕ → Result ValueError LiveStatus
unfolding live_status
decode_uptime_brightness_status_parameters parameters = do
  require (length parameters == 6) not_six_parameter_bytes
  live_status (integer (pos (from_bytes_le (take 4 parameters))))
      (integer (pos (from_bytes_le (slice parameters 4 6))))

pub build_get_uptime_brightness_pdu : Result ValueError (List ℕ)
build_get_uptime_brightness_pdu = vendor_opcode get_uptime_brightness_opcode

unfoldable pub get_uptime_brightness_status_parameters : List ℕ → Result ValueError (List ℕ)
get_uptime_brightness_status_parameters pdu = do
  require (is_get_uptime_brightness_status pdu) not_uptime_status
  ok (drop 3 pdu)

unfoldable pub get_uptime_brightness_status_value : List ℕ → Result ValueError LiveStatus
unfolding get_uptime_brightness_status_parameters decode_uptime_brightness_status_parameters
get_uptime_brightness_status_value pdu = do
  parameters ← get_uptime_brightness_status_parameters pdu
  decode_uptime_brightness_status_parameters parameters
