-- ===== src/Protocol/Brightness.antt =====
-- MaxBrightness PDUs of sanlight_mesh/protocol.py: the ordinary write, the explicit blackout, the
-- status of a read.
pub mod Policy
use sanlight_mesh_mqtt_gatew.Base.{
  ℕ, ℤ, Bool, not, List, [], ◌∷◌, ◌++◌, pos, length, drop, get_or, ◌==◌, Result, ok, err, ◌>>=◌,
  ◌>>◌, require,
}
use sanlight_mesh_mqtt_gatew.Value.{Value, integer, checked_int}
use sanlight_mesh_mqtt_gatew.Protocol.Opcode.{
  ValueError, vendor_opcode, set_max_brightness_opcode, get_max_brightness_opcode,
  is_get_max_brightness_status, max_brightness_not_int, max_brightness_out_of_range,
  not_get_max_status, reported_not_int, reported_out_of_range, not_one_value_byte,
}

pub validate_max_brightness : Value → Result ValueError ℕ
unfolding checked_int
validate_max_brightness percent =
    checked_int percent 20 100 max_brightness_not_int max_brightness_out_of_range

pub build_set_max_brightness_pdu : Value → Result ValueError (List ℕ)
unfolding validate_max_brightness
build_set_max_brightness_pdu percent = do
  prefix ← vendor_opcode set_max_brightness_opcode
  value ← validate_max_brightness percent
  ok (prefix ++ value ∷ [])

unfoldable pub build_blackout_pdu : Result ValueError (List ℕ)
build_blackout_pdu = do prefix ← vendor_opcode set_max_brightness_opcode; ok (prefix ++ 0 ∷ [])

pub build_get_max_brightness_pdu : Result ValueError (List ℕ)
build_get_max_brightness_pdu = vendor_opcode get_max_brightness_opcode

unfoldable pub get_max_brightness_status_parameters : List ℕ → Result ValueError (List ℕ)
get_max_brightness_status_parameters pdu = do
  require (is_get_max_brightness_status pdu) not_get_max_status
  ok (drop 3 pdu)

unfoldable pub validate_reported_max_brightness : Value → Result ValueError ℕ
unfolding checked_int
validate_reported_max_brightness percent =
    checked_int percent 0 100 reported_not_int reported_out_of_range

unfoldable pub get_max_brightness_status_value : List ℕ → Result ValueError ℕ
unfolding get_max_brightness_status_parameters validate_reported_max_brightness
get_max_brightness_status_value pdu = do
  parameters ← get_max_brightness_status_parameters pdu
  require (length parameters == 1) not_one_value_byte
  validate_reported_max_brightness (integer (pos (get_or parameters 0 0)))
