-- ===== src/Tests/RateRuns.antt =====
-- Tests of the model of sanlight_mesh/traffic_safety.py.
use sanlight_mesh_mqtt_gatew.Base.{ℕ, ℤ, pos, refl, false, some}
use sanlight_mesh_mqtt_gatew.Value.{Value, integer}
use sanlight_mesh_mqtt_gatew.WriteRate.{
  Guarded, check_brightness_write_rate, record_brightness_write,
  check_brightness_write_rate-Guarded,
}

abbrev as_integer : ℕ → Value
as_integer n = integer (pos n)

abbrev number : Value → ℤ
number (integer n) = n
number _ = pos 0

check_brightness_write_rate-Guarded_example : Guarded 20000000 24000000 (
    check_brightness_write_rate number
      (some (record_brightness_write as_integer "set-max" "0x00C3" 20000000))
      false
      24000000)
check_brightness_write_rate-Guarded_example =
    check_brightness_write_rate-Guarded number as_integer "set-max" "0x00C3" 20000000 24000000 refl
      refl
