-- ===== src/Executor/Read.antt =====
-- The read-only commands of sanlight_mesh/gateway_executor.py: `refresh` and `read_daylight`. The source
-- fills dictionaries by address; the addresses are different, so the model lists one outcome for each.
use Prim.Native.String.{◌++◌ as concat}
use sanlight_mesh_mqtt_gatew.Base.{
  ℕ, ◌+◌, Bool, true, false, not, ◌&&◌, ◌||◌, String, Option, none, some, List, [], ◌∷◌, length,
  ltb, ◌==◌, if◌then◌else◌, Result, ok, err, str_eq,
}
use sanlight_mesh_mqtt_gatew.Value.{text, object, Fields, end, field}
use sanlight_mesh_mqtt_gatew.GatewayProtocol.{Target, all_nodes, latest, gateway, node}
use sanlight_mesh_mqtt_gatew.Protocol.Live.{LiveStatus}
use sanlight_mesh_mqtt_gatew.Protocol.Daylight.{DaylightStatus, parsed}
use sanlight_mesh_mqtt_gatew.Service.{ExecutionResult}
use sanlight_mesh_mqtt_gatew.Service.Worker.Reported.{expected_nodes}
use sanlight_mesh_mqtt_gatew.Stateful.{◌>>=◌, return, lift}
use sanlight_mesh_mqtt_gatew.Executor.{
  ProcessResult, Exec, Environment, Executor, succeeded, run_process,
}
use sanlight_mesh_mqtt_gatew.Executor.Parse.{
  summary, parse_get_max, parse_get_live, parse_get_daylight,
}
use sanlight_mesh_mqtt_gatew.Executor.Errors.{
  all_errors_are_mesh_no_response, mesh_no_response_details, error_details, has_errors,
}

abbrev pub is_all : Target → Bool
is_all all_nodes = true
is_all latest = false
is_all gateway = false
is_all (node a) = false

-- The value of a match for the address, if there is one.
abbrev pub matched : {A : Type 0} → String → Option (String × A) → Option A
matched address none = none
matched address (some (a, v)) = if str_eq a address then some v else none

abbrev pub if_succeeded : {A : Type 0} → Bool → Option A → String → Result String A
if_succeeded true (some v) message = ok v
if_succeeded true none message = err message
if_succeeded false v message = err message

-- What `refresh` reads of a lamp, or the errors.
pub record NodeReading : Type 0 where
  pub address : String
  pub max_brightness : Result String ℕ
  pub live : Result String LiveStatus

abbrev pub add_entry :
    {A : Type 0} → String → Result String A → List (String × A) → List (String × A)
add_entry address (ok v) r = (address, v) ∷ r
add_entry address (err e) r = r

unfoldable pub reported_of : List NodeReading → List (String × ℕ)
reported_of [] = []
reported_of (n ∷ r) = add_entry n.address n.max_brightness (reported_of r)

unfoldable pub live_of : List NodeReading → List (String × LiveStatus)
live_of [] = []
live_of (n ∷ r) = add_entry n.address n.live (live_of r)

abbrev pub node_errors : Result String ℕ → Result String LiveStatus → Fields
node_errors (ok v) (ok s) = end
node_errors (ok v) (err l) = field "liveBrightness" (text l) end
node_errors (err m) (ok s) = field "maxBrightness" (text m) end
node_errors (err m) (err l) = field "maxBrightness" (text m) (field "liveBrightness" (text l) end)

abbrev pub add_errors : String → Fields → Fields → Fields
add_errors address end errors = errors
add_errors address (field k v fs) errors = field address (object (field k v fs)) errors

unfoldable pub errors_of : List NodeReading → Fields
errors_of [] = end
errors_of (n ∷ r) = add_errors n.address (node_errors n.max_brightness n.live) (errors_of r)

abbrev pub is_empty_list : {A : Type 0} → List A → Bool
is_empty_list [] = true
is_empty_list (x ∷ xs) = false

abbrev refreshed_message : Target → String
refreshed_message target =
    if is_all target
    then "MaxBrightness, live lamp output, and lamp clocks refreshed and verified."
    else "MaxBrightness, live lamp output, and lamp clock refreshed and verified."

-- The end of `refresh`.
unfoldable pub refresh_result : Target → List NodeReading → ExecutionResult
refresh_result target readings =
    let errors = errors_of readings in
    let reported = reported_of readings in
    let live_reported = live_of readings in
    let any_reported = not (is_empty_list reported) || not (is_empty_list live_reported) in
    if not (has_errors errors)
    then record {
      is_ok = true;
      status = "verified";
      message = refreshed_message target;
      reported = reported;
      details = end;
      live_reported = live_reported;
      daylight_reported = [];
    }
    else if not any_reported && (has_errors errors && all_errors_are_mesh_no_response errors)
    then record {
      is_ok = false;
      status = "mesh-no-response";
      message =
          "BlueZ accepted the read-only Mesh requests, but no selected lamp returned a status response. The local Bluetooth Mesh transport may be stale. Capture diagnostics before recovery.";
      reported = reported;
      details = mesh_no_response_details errors;
      live_reported = live_reported;
      daylight_reported = [];
    }
    else record {
      is_ok = false;
      status = if any_reported then "partial" else "failed";
      message = "One or more read-only lamp status requests failed.";
      reported = reported;
      details = error_details errors;
      live_reported = live_reported;
      daylight_reported = [];
    }

-- What `read_daylight` reads of a lamp, or the error.
pub record DaylightReading : Type 0 where
  pub address : String
  pub daylight : Result String DaylightStatus

unfoldable pub daylight_of : List DaylightReading → List (String × DaylightStatus)
daylight_of [] = []
daylight_of (n ∷ r) = add_entry n.address n.daylight (daylight_of r)

abbrev pub is_verified : Result String DaylightStatus → Bool
is_verified (ok s) = parsed s
is_verified (err e) = false

unfoldable pub verified_daylight : List DaylightReading → ℕ
verified_daylight [] = 0
verified_daylight (n ∷ r) =
    let rest = verified_daylight r in if is_verified n.daylight then rest + 1 else rest

module _ (env : Environment) (executor : Executor) where
  abbrev pub run : List String → Exec ProcessResult
  run arguments = run_process env arguments executor.command_timeout_seconds

  unfoldable pub refresh_node : String → Exec NodeReading
  refresh_node address = do
    max_result ← run ("get-max" ∷ address ∷ [])
    parsed_max ← lift (parse_get_max env max_result)
    live_result ← run ("get-live" ∷ address ∷ [])
    return (record {
      address = address;
      max_brightness =
          if_succeeded (succeeded max_result) (matched address parsed_max) (summary env max_result);
      live =
          if_succeeded (succeeded live_result) (matched address (parse_get_live env live_result))
            (summary env live_result);
    })

  unfoldable pub refresh_nodes : List String → Exec (List NodeReading)
  refresh_nodes [] = return []
  refresh_nodes (address ∷ r) = do
    reading ← refresh_node address
    rest ← refresh_nodes r
    return (reading ∷ rest)

  unfoldable pub refresh : Target → Exec ExecutionResult
  refresh target = do
    readings ← refresh_nodes (expected_nodes executor.node_addresses target)
    return (refresh_result target readings)

  -- The limit is at least 30 seconds; the exit code is not looked at.
  unfoldable pub read_daylight_node : String → Exec DaylightReading
  read_daylight_node address = do
    p ←
        run_process env ("get-daylight" ∷ address ∷ [])
          (if ltb executor.command_timeout_seconds 30 then 30 else executor.command_timeout_seconds)
    parsed ← lift (parse_get_daylight env p)
    return (record {
      address = address;
      daylight = if_succeeded true (matched address parsed) (summary env p);
    })

  unfoldable pub read_daylight_nodes : List String → Exec (List DaylightReading)
  read_daylight_nodes [] = return []
  read_daylight_nodes (address ∷ r) = do
    reading ← read_daylight_node address
    rest ← read_daylight_nodes r
    return (reading ∷ rest)

  -- The error of a status that was not parsed.
  abbrev parse_message : DaylightStatus → String
  parse_message s = elim s.parse_error [
    | none ↦ "daylight response was raw-only"
    | some e ↦ env.parse_error_text e
  ]

  unfoldable pub daylight_errors : List DaylightReading → Fields
  daylight_errors [] = end
  daylight_errors (n ∷ r) =
      let rest = daylight_errors r in
      elim n.daylight [
        | err message ↦ field n.address (text message) rest
        | ok s ↦ if parsed s then rest else field n.address (text (parse_message s)) rest
      ]

  -- The end of `read_daylight`.
  unfoldable pub daylight_result : Target → List DaylightReading → ExecutionResult
  daylight_result target readings =
      let errors = daylight_errors readings in
      let count = verified_daylight readings in
      let total = length readings in
      let result : ExecutionResult = record {
        is_ok = false;
        status = "partial";
        message = concat "Daylight configuration verified for " (
            concat (env.number_text count) (
              concat " of " (
                concat (env.number_text total)
                  " selected lamps; raw responses were retained where available.")));
        reported = [];
        details = error_details errors;
        live_reported = [];
        daylight_reported = daylight_of readings;
      } in
      if count == total
      then record result {
        is_ok = true;
        status = "verified";
        message =
            if is_all target
            then "Stored daylight configurations read and verified for all selected lamps."
            else "Stored daylight configuration read and verified.";
        details = end;
      }
      else if not (is_empty_list (daylight_of readings))
      then result
      else if has_errors errors && all_errors_are_mesh_no_response errors
      then record result {
        status = "mesh-no-response";
        message =
            "BlueZ accepted the read-only daylight requests, but no selected lamp returned a status response. The local Bluetooth Mesh transport may be stale. Capture diagnostics before recovery.";
        details = mesh_no_response_details errors;
      }
      else record result {
        status = "failed";
        message = "No daylight configuration response could be read.";
      }

  unfoldable pub read_daylight : Target → Exec ExecutionResult
  read_daylight target = do
    readings ← read_daylight_nodes (expected_nodes executor.node_addresses target)
    return (daylight_result target readings)
