-- ===== src/Tests/ClockRuns.antt =====
-- Tests of the model of `_clock_write` of sanlight_mesh/gateway_executor.py.
use sanlight_mesh_mqtt_gatew.Base.{◌≡◌, ◌↔◌, refl, true, some, List, [], ◌∷◌, All, arith}
use sanlight_mesh_mqtt_gatew.ClockWrite.{
  Lamp, clock_write, verified, IsVerified, clock_write_iff, clock_verified, verified_count,
  circular_clock_difference,
}

-- The lamp is two seconds before midnight, and one second after it is expected.
abbrev lamps : List Lamp
lamps =
    record {
      address = "00C3";
      write_succeeded = true;
      read_succeeded = true;
      parsed_live = some ("00C3", 86398000);
      expected_seconds = 1;
    }
    ∷ []

run_clock_write : clock_write lamps ≡ (true, verified)
unfolding clock_write verified_count clock_verified circular_clock_difference
run_clock_write = refl

clock_write_iff_example : (clock_write lamps ≡ (true, verified)) ↔ All IsVerified lamps
clock_write_iff_example = clock_write_iff lamps (omega arith, tt)
