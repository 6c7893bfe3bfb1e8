-- ===== src/Tests/CommandRuns.antt =====
-- Tests of the model of sanlight_mesh/gateway_protocol.py.
use sanlight_mesh_mqtt_gatew.Base.{
  ℕ, ◌+◌, ◌*◌, ◌≡◌, refl, pos, true, false, Option, none, some, List, arith, ok, err, ltb,
}
use sanlight_mesh_mqtt_gatew.Value.{
  Value, null, value_or, integer, boolean, text, object, Fields, end, field, get,
}
use sanlight_mesh_mqtt_gatew.GatewayProtocol.{
  GatewayCommand, set_max, node, overflow_error, Stamp, aware, time_limit, second,
}
use sanlight_mesh_mqtt_gatew.GatewayProtocol.Names.{decode_action, matches_id, action_named}
use sanlight_mesh_mqtt_gatew.GatewayProtocol.Decode.{
  Loads, loaded, decode_document, decode_id, parse_timestamp, decode_confirmed, only_common_keys,
}
use sanlight_mesh_mqtt_gatew.GatewayProtocol.Uncaught.{decode_document-overflow}

-- A calendar on which every text is the same moment.
abbrev clock_at : ℕ → List ℕ → Option Stamp
clock_at t s = some (aware (pos t))

abbrev command_document : Value → Fields
command_document action = field "id" (text "a-1") (
    field "action" action (
      field "target" (text "00c3") (
        field "value" (integer (pos 40)) (
          field "createdAt" (text "2026-10-05T12:00:00Z")
            (field "ttlSeconds" (integer (pos 30)) end)))))

abbrev moment : ℕ
moment = 63926798400 * second

abbrev loads : List ℕ → Loads
loads payload = loaded (object (command_document (text "set-max")))

abbrev decoded : GatewayCommand
decoded = record {
  command_id = "a-1";
  action = set_max;
  target = node 195;
  created_at = moment;
  expires_at = moment + 30 * second;
  value = some 40;
  seconds_since_midnight = none;
  confirmed = false;
}

known_keys : (v : Value) → only_common_keys (command_document v) ≡ true
unfolding only_common_keys
known_keys v = refl

identified : (v : Value) → decode_id (value_or (get (command_document v) "id") null) ≡ ok "a-1"
unfolding decode_id matches_id
identified v = refl

-- The last second of the calendar, 9999-12-31T23:59:59Z.
abbrev last_moment : ℕ
last_moment = 315537897599 * second

acts : decode_action (text "set-max") ≡ ok set_max
unfolding decode_action action_named
acts = refl

stamped :
    (t : ℕ)
    → ltb t time_limit ≡ true
    → parse_timestamp (clock_at t) (text "2026-10-05T12:00:00Z") ≡ ok t
unfolding parse_timestamp
stamped t h = rw h

decode_document-overflow_example :
    decode_document (clock_at last_moment) (command_document (text "set-max")) moment
    ≡ err overflow_error
decode_document-overflow_example =
    decode_document-overflow (clock_at last_moment) (command_document (text "set-max")) moment "a-1"
      (known_keys (text "set-max")) (identified (text "set-max")) set_max last_moment 30 acts
      (stamped last_moment refl) refl (omega arith) (omega arith) (omega arith)

unconfirmed : decode_confirmed (boolean false) ≡ ok false
unfolding decode_confirmed
unconfirmed = refl
