-- ===== src/Tests/ProtocolRuns.antt =====
-- Tests of the model of sanlight_mesh/protocol.py.
use sanlight_mesh_mqtt_gatew.Base.{ℕ, ◌≡◌, refl, pos, Option, some, List, [], ◌∷◌, arith, ok, All}
use sanlight_mesh_mqtt_gatew.Value.{integer}
use sanlight_mesh_mqtt_gatew.Protocol.Bytes.{IsByte}
use sanlight_mesh_mqtt_gatew.Protocol.Brightness.{
  build_set_max_brightness_pdu, get_max_brightness_status_value,
}
use sanlight_mesh_mqtt_gatew.Protocol.Brightness.Policy.{
  build_set_max_brightness_pdu_iff, get_max_brightness_status_value_iff,
}
use sanlight_mesh_mqtt_gatew.Protocol.Daylight.{
  DaylightConfiguration, DaylightStatus, decode_daylight_configuration_at,
  decode_daylight_status_pdu, or_raw, parse_configuration,
}
use sanlight_mesh_mqtt_gatew.Protocol.Daylight.Exact.{decode_daylight_configuration_at_iff}
use sanlight_mesh_mqtt_gatew.Protocol.Daylight.Status.{
  IsFaithful, Answers, status_opcode_of-configuration, decode_daylight_status_pdu-IsFaithful,
}

build_set_max_brightness_pdu_iff_example :
    build_set_max_brightness_pdu (integer (pos 55)) ≡ ok (198 ∷ 139 ∷ 10 ∷ 55 ∷ [])
build_set_max_brightness_pdu_iff_example =
    (build_set_max_brightness_pdu_iff (integer (pos 55)) (198 ∷ 139 ∷ 10 ∷ 55 ∷ [])).1
      (55, refl, omega arith, omega arith, refl)

get_max_brightness_status_value_iff_example :
    get_max_brightness_status_value (201 ∷ 139 ∷ 10 ∷ 0 ∷ []) ≡ ok 0
get_max_brightness_status_value_iff_example =
    (get_max_brightness_status_value_iff (201 ∷ 139 ∷ 10 ∷ 0 ∷ []) 0).1 (refl, omega arith)

-- A text of ASCII characters is its bytes.
abbrev ascii : List ℕ → Option (List ℕ)
ascii bytes = some bytes

-- One value, 50 % at 08:00, and the name "A".
abbrev curve : DaylightConfiguration
curve = record {
  configuration_id = 7;
  name = 65 ∷ [];
  values = record { time_in_minutes = 480; brightness = 50 } ∷ [];
}

abbrev payload : List ℕ
payload = 7 ∷ 0 ∷ 0 ∷ 0 ∷ 1 ∷ 224 ∷ 1 ∷ 50 ∷ 65 ∷ 0 ∷ []

payload_bytes : All IsByte payload
payload_bytes = omega arith

decode_daylight_configuration_at_iff_example :
    decode_daylight_configuration_at ascii payload 0 (0 ∷ []) ≡ ok (curve, 10)
decode_daylight_configuration_at_iff_example =
    (decode_daylight_configuration_at_iff ascii payload 0 (0 ∷ []) curve 10 payload_bytes).1
      (record {
        name_bytes = 65 ∷ [];
        tail = [];
        offset_within = omega arith;
        layout = refl;
        ends = refl;
        tail_allowed = refl;
        encodable = record {
          id_fits = omega arith;
          count_fits = omega arith;
          values_ordered = (omega arith, omega arith, refl, tt);
          name_printable = (refl, tt);
        };
        name_no_nul = omega arith;
        name_decoded = refl;
      })

abbrev refused : List ℕ
refused = 196 ∷ 139 ∷ 10 ∷ 1 ∷ []

-- The payload is too short for a configuration.
abbrev refused_status : DaylightStatus
refused_status = or_raw ascii (pos 3) 4 refused (parse_configuration ascii (pos 3) 4 refused)

refused_status_lem : decode_daylight_status_pdu ascii refused (pos 3) ≡ ok refused_status
unfolding decode_daylight_status_pdu
refused_status_lem = rw (status_opcode_of-configuration refused refl)

decode_daylight_status_pdu-IsFaithful_example :
    IsFaithful refused (pos 3) refused_status × Answers refused (pos 3)
decode_daylight_status_pdu-IsFaithful_example =
    decode_daylight_status_pdu-IsFaithful ascii refused (pos 3) refused_status refused_status_lem
