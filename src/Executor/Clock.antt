-- ===== src/Executor/Clock.antt =====
-- `_clock_write` of sanlight_mesh/gateway_executor.py: the clocks are written and read back one lamp
-- after the other. ClockWrite has the test of one lamp and the count.
use Prim.Native.String.{◌++◌ as concat}
use sanlight_mesh_mqtt_gatew.Base.{
  ℕ, ◌+◌, ◌-◌, ◌/◌, ◌%◌, pos, Bool, true, false, String, Option, none, some, List, [], ◌∷◌, length,
  if◌then◌else◌,
}
use sanlight_mesh_mqtt_gatew.Value.{text, integer, object, Fields, end, field}
use sanlight_mesh_mqtt_gatew.GatewayProtocol.{
  Action, set_max, refresh, read_daylight, blackout, restore_blackout, sync_clock, set_clock,
  refresh_gateway_info, Target, GatewayCommand,
}
use sanlight_mesh_mqtt_gatew.Protocol.Live.{LiveStatus}
use sanlight_mesh_mqtt_gatew.Protocol.Clock.{clock_text}
use sanlight_mesh_mqtt_gatew.ClockWrite.{
  Lamp, Status, verified, partial, unconfirmed, seconds_per_day, tolerance, reported_seconds,
  circular_clock_difference, clock_verified, clock_write, verified_count,
}
use sanlight_mesh_mqtt_gatew.Service.{ExecutionResult}
use sanlight_mesh_mqtt_gatew.Service.Worker.Reported.{expected_nodes}
use sanlight_mesh_mqtt_gatew.Stateful.{◌>>=◌, return, raise}
use sanlight_mesh_mqtt_gatew.Executor.{
  ProcessResult, Exec, no_argument, Environment, Executor, succeeded, read_monotonic,
  read_local_clock,
}
use sanlight_mesh_mqtt_gatew.Executor.Parse.{summary, parse_get_live}
use sanlight_mesh_mqtt_gatew.Executor.Read.{is_all, matched, run}

-- What one lamp gave: for the test, for the result's details, and the reading.
pub record ClockReading : Type 0 where
  pub lamp : Lamp
  pub details : Fields
  pub live : Option LiveStatus

abbrev pub is_sync : Action → Bool
is_sync sync_clock = true
is_sync set_max = false
is_sync refresh = false
is_sync read_daylight = false
is_sync blackout = false
is_sync restore_blackout = false
is_sync set_clock = false
is_sync refresh_gateway_info = false

-- `_clock_text`
abbrev pub clock_of : ℕ → String
clock_of seconds = clock_text (seconds % seconds_per_day) ""

abbrev second : ℕ
second = 1000000

unfoldable pub lamps_of : List ClockReading → List Lamp
lamps_of [] = []
lamps_of (r ∷ rs) = r.lamp ∷ lamps_of rs

abbrev node_details : List ClockReading → Fields
node_details [] = end
node_details (r ∷ rs) = field r.lamp.address (object r.details) (node_details rs)

abbrev pub add_live :
    String → Option LiveStatus → List (String × LiveStatus) → List (String × LiveStatus)
add_live address none r = r
add_live address (some s) r = (address, s) ∷ r

unfoldable pub clock_live : List ClockReading → List (String × LiveStatus)
clock_live [] = []
clock_live (r ∷ rs) = add_live r.lamp.address r.live (clock_live rs)

abbrev status_text : Status → String
status_text verified = "verified"
status_text partial = "partial"
status_text unconfirmed = "unconfirmed"

module _ (env : Environment) (executor : Executor) where
  abbrev clock_message : Bool → Target → Status → ℕ → ℕ → String
  clock_message sync target verified count total =
      if sync
      then (if is_all target
          then "Lamp clocks synchronized with the gateway local clock and verified."
          else "Lamp clock synchronized with the gateway local clock and verified.")
      else (if is_all target
          then "Requested lamp clocks applied and verified."
          else "Requested lamp clock applied and verified.")
  clock_message sync target partial count total = concat "Clock write verified for " (
      concat (env.number_text count)
        (concat " of " (concat (env.number_text total) " selected lamps.")))
  clock_message sync target unconfirmed count total =
      "Clock write could not be verified on any selected lamp."

  -- The end of `_clock_write`.
  unfoldable pub clock_result : GatewayCommand → List ClockReading → ExecutionResult
  clock_result c readings =
      let (is_ok, status) = clock_write (lamps_of readings) in
      record {
        is_ok = is_ok;
        status = status_text status;
        message =
            clock_message (is_sync c.action) c.target status (verified_count (lamps_of readings))
              (length (lamps_of readings));
        reported = [];
        details =
            field "nodes" (object (node_details readings))
              (field "verificationToleranceSeconds" (integer (pos tolerance)) end);
        live_reported = clock_live readings;
        daylight_reported = [];
      }

  -- The seconds that are written: the local time, or the base with the seconds since the start.
  unfoldable pub written_seconds : GatewayCommand → ℕ → Exec ℕ
  written_seconds c batch_started =
      if is_sync c.action then read_local_clock env else elim c.seconds_since_midnight [
        | none ↦ raise no_argument
        | some base ↦ read_monotonic env >>= λ now.
            return ((base + (now - batch_started) / second) % seconds_per_day)
      ]

  unfoldable pub expected_seconds : GatewayCommand → ℕ → ℕ → Exec ℕ
  expected_seconds c written write_started =
      if is_sync c.action
      then read_local_clock env
      else (read_monotonic env >>= λ now.
          return ((written + (now - write_started) / second) % seconds_per_day))

  abbrev write_error : ProcessResult → Fields → Fields
  write_error p fields =
      if succeeded p then fields else field "writeError" (text (summary env p)) fields

  abbrev written_details : ℕ → ProcessResult → Fields → Fields
  written_details written write_result rest =
      field "writtenSecondsSinceMidnight" (integer (pos written)) (
        field "writtenClock" (text (clock_of written))
          (field "writeExitCode" (integer write_result.exit_code) rest))

  abbrev unread_lamp : String → ProcessResult → ProcessResult → Lamp
  unread_lamp address write_result read_result = record {
    address = address;
    write_succeeded = succeeded write_result;
    read_succeeded = succeeded read_result;
    parsed_live = none;
    expected_seconds = 0;
  }

  -- The reading of a lamp without a status that counts.
  abbrev pub unread : String → ℕ → ProcessResult → ProcessResult → ClockReading
  unread address written write_result read_result = record {
    lamp = unread_lamp address write_result read_result;
    details = written_details written write_result (
        field "status" (text "unconfirmed")
          (field "readbackError" (text (summary env read_result)) (write_error write_result end)));
    live = none;
  }

  abbrev read_lamp : String → ProcessResult → LiveStatus → ℕ → Lamp
  read_lamp address write_result s expected = record {
    address = address;
    write_succeeded = succeeded write_result;
    read_succeeded = true;
    parsed_live = some (address, s.lamp_time_ms);
    expected_seconds = expected;
  }

  -- The reading of a lamp with one.
  abbrev pub read_back : String → ℕ → ProcessResult → LiveStatus → ℕ → ClockReading
  read_back address written write_result s expected =
      let reported = reported_seconds s.lamp_time_ms in
      record {
        lamp = read_lamp address write_result s expected;
        details = written_details written write_result (
            field "reportedSecondsSinceMidnight" (integer (pos reported)) (
              field "reportedClock" (text (clock_of reported)) (
                field "expectedSecondsSinceMidnight" (integer (pos expected)) (
                  field "verificationDifferenceSeconds"
                    (integer (circular_clock_difference reported expected))
                    (if clock_verified (read_lamp address write_result s expected)
                      then field "status" (text "verified") end
                      else field "status" (text "unconfirmed") (write_error write_result end))))));
        live = some s;
      }

  unfoldable pub check_clock :
      GatewayCommand
      → String
      → ℕ
      → ℕ
      → ProcessResult
      → ProcessResult
      → Option LiveStatus
      → Exec ClockReading
  check_clock c address written write_started write_result read_result none =
      return (unread address written write_result read_result)
  check_clock c address written write_started write_result read_result (some s) = do
    expected ← expected_seconds c written write_started
    return (read_back address written write_result s expected)

  abbrev pub if_read : {A : Type 0} → Bool → Option A → Option A
  if_read true a = a
  if_read false a = none

  unfoldable pub write_clock : GatewayCommand → ℕ → String → Exec ClockReading
  write_clock c batch_started address = do
    written ← written_seconds c batch_started
    write_started ← read_monotonic env
    write_result ← run env executor ("set-uptime" ∷ address ∷ env.number_text written ∷ [])
    read_result ← run env executor ("get-live" ∷ address ∷ [])
    check_clock c address written write_started write_result read_result
        (if_read (succeeded read_result) (matched address (parse_get_live env read_result)))

  unfoldable pub write_clocks : GatewayCommand → ℕ → List String → Exec (List ClockReading)
  write_clocks c batch_started [] = return []
  write_clocks c batch_started (address ∷ r) = do
    reading ← write_clock c batch_started address
    rest ← write_clocks c batch_started r
    return (reading ∷ rest)

  unfoldable pub clock_command : GatewayCommand → Exec ExecutionResult
  clock_command c = do
    batch_started ← read_monotonic env
    readings ← write_clocks c batch_started (expected_nodes executor.node_addresses c.target)
    return (clock_result c readings)
