-- ===== src/Executor/Parse.antt =====
-- The outputs of the processes, `_parse_get_max` and its likes of sanlight_mesh/gateway_executor.py.
use sanlight_mesh_mqtt_gatew.Base.{
  ℕ, zero, suc, ◌%◌, pos, Bool, true, false, not, ◌&&◌, ◌||◌, String, Option, none, some, List, [],
  ◌∷◌, leb, ◌==◌, if◌then◌else◌, Result, ok, err, ◌>>=◌, str_eq, codes, length, all,
}
use Prim.Native.String.{◌++◌ as concat}
use sanlight_mesh_mqtt_gatew.Value.{
  Value, null, boolean, integer, float, text, array, object, Fields, get, value_or,
}
use sanlight_mesh_mqtt_gatew.GatewayProtocol.Decode.{Loads, loaded, other_error}
use sanlight_mesh_mqtt_gatew.Protocol.Opcode.{ValueError}
use sanlight_mesh_mqtt_gatew.Protocol.Live.{LiveStatus, live_status}
use sanlight_mesh_mqtt_gatew.Protocol.Clock.{format_milliseconds_as_clock}
use sanlight_mesh_mqtt_gatew.Protocol.Daylight.{DaylightStatus, decode_daylight_status_pdu, parsed}
use sanlight_mesh_mqtt_gatew.Executor.{
  get_max_re, get_live_re, get_daylight_re, status_value_re, node_value_re, final_value_re,
  ProcessResult, Fault, too_many_digits, loads_failed, Environment,
}

-- `matches[-1]`
abbrev pub last : {A : Type 0} → List A → Option A
last [] = none
last (x ∷ []) = some x
last (x ∷ (y ∷ r)) = last (y ∷ r)

-- `value in [0-9A-F]{4}` and `[0-9a-f]+`
abbrev between_codes : ℕ → ℕ → ℕ → Bool
between_codes a b c = leb a c && leb c b

unfoldable pub is_address : List ℕ → Bool
is_address cs =
    length cs == 4 && all (λ c. between_codes b'0' b'9' c || between_codes b'A' b'F' c) cs

unfoldable pub is_lower_hex : List ℕ → Bool
is_lower_hex [] = false
is_lower_hex (c ∷ cs) = all (λ c. between_codes b'0' b'9' c || between_codes b'a' b'f' c) (c ∷ cs)

-- `text[:n]`
abbrev pub take_text : ℕ → String → String
take_text zero s = ""
take_text (suc n) String.[] = ""
take_text (suc n) (String.◌∷◌ c s) = String.◌∷◌ c (take_text n s)

abbrev not_empty : List String → List String
not_empty [] = []
not_empty (s ∷ r) = if str_eq s "" then not_empty r else s ∷ not_empty r

module _ (env : Environment) where
  -- The property `summary`.
  unfoldable pub summary : ProcessResult → String
  summary p =
      elim (last (not_empty (env.stripped_lines (concat p.stdout (concat "\n" p.stderr))))) [
        | none ↦ concat "process exited " (env.exit_code_text p.exit_code)
        | some line ↦ take_text 500 line
      ]

  -- `int` of digits, where a `ValueError` is not caught.
  abbrev pub digits : String → Result Fault ℕ
  digits s = elim (env.int_of s) [ none ↦ err too_many_digits | some n ↦ ok n ]

  unfoldable pub max_of_match : Option (List String) → Result Fault (Option (String × ℕ))
  max_of_match (some (address ∷ value ∷ [])) =
      digits value >>= λ parsed. ok (if leb parsed 100 then some (address, parsed) else none)
  max_of_match _ = ok none

  unfoldable pub parse_get_max : ProcessResult → Result Fault (Option (String × ℕ))
  unfolding max_of_match
  parse_get_max p = max_of_match (last (env.findall get_max_re p.stdout))

  -- `LiveStatus(int(lamp_time_ms), int(brightness_raw))`, or nothing at a `ValueError`.
  abbrev built : Option ℕ → Option ℕ → Option LiveStatus
  built (some time) (some raw) = elim (live_status (integer (pos time)) (integer (pos raw))) [
    | ok s ↦ some s
    | err e ↦ none
  ]
  built (some time) none = none
  built none raw = none

  -- The property `lamp_clock`.
  unfoldable pub has_clock : LiveStatus → String → Bool
  has_clock s clock = elim (format_milliseconds_as_clock (integer (pos s.lamp_time_ms))) [
    | ok t ↦ str_eq t clock
    | err e ↦ false
  ]

  abbrev checked_live : String → String → String → Option LiveStatus → Option (String × LiveStatus)
  checked_live address clock percent none = none
  checked_live address clock percent (some s) =
      if not (has_clock s clock)
      then none
      else if env.estimate_differs s.brightness_raw percent
      then none
      else some (address, s)

  unfoldable pub live_of_match : Option (List String) → Option (String × LiveStatus)
  live_of_match (some (address ∷ time ∷ clock ∷ raw ∷ percent ∷ [])) =
      checked_live address clock percent (built (env.int_of time) (env.int_of raw))
  live_of_match _ = none

  unfoldable pub parse_get_live : ProcessResult → Option (String × LiveStatus)
  unfolding live_of_match
  parse_get_live p = live_of_match (last (env.findall get_live_re p.stdout))

  -- `document.get("verified") is not status.parsed`
  abbrev is_parsed : Value → DaylightStatus → Bool
  is_parsed (boolean true) s = parsed s
  is_parsed (boolean false) s = not (parsed s)
  is_parsed null s = false
  is_parsed (integer n) s = false
  is_parsed (float f) s = false
  is_parsed (text t) s = false
  is_parsed (array xs) s = false
  is_parsed (object fs) s = false

  abbrev checked_daylight :
      String → Value → Result ValueError DaylightStatus → Option (String × DaylightStatus)
  checked_daylight address verified (err e) = none
  checked_daylight address verified (ok s) =
      if is_parsed verified s then some (address, s) else none

  -- The checks of the three fields; the texts are those of bytes after them.
  unfoldable pub daylight_of_fields :
      Value → Value → Value → Value → Option (String × DaylightStatus)
  daylight_of_fields (text address) (integer opcode) (text hex) verified =
      if not
        (is_address (codes address) && (length (codes hex) % 2 == 0 && is_lower_hex (codes hex)))
      then none
      else elim (env.fromhex hex) [
        | none ↦ none
        | some pdu ↦
            checked_daylight address verified (decode_daylight_status_pdu env.utf8 pdu opcode)
      ]
  daylight_of_fields _ _ _ verified = none

  abbrev document_field : Fields → String → Value
  document_field document key = value_or (get document key) null

  unfoldable pub daylight_of_document : Loads → Result Fault (Option (String × DaylightStatus))
  unfolding daylight_of_fields
  daylight_of_document (loaded (object d)) = ok (
      daylight_of_fields (document_field d "address") (document_field d "requestOpcode")
        (document_field d "rawPduHex") (document_field d "verified"))
  daylight_of_document other_error = err loads_failed
  daylight_of_document _ = ok none

  unfoldable pub daylight_of_match :
      Option (List String) → Result Fault (Option (String × DaylightStatus))
  unfolding daylight_of_document
  daylight_of_match (some (document ∷ [])) = daylight_of_document (env.loads document)
  daylight_of_match _ = ok none

  unfoldable pub parse_get_daylight :
      ProcessResult → Result Fault (Option (String × DaylightStatus))
  unfolding daylight_of_match
  parse_get_daylight p = daylight_of_match (last (env.findall get_daylight_re p.stdout))

  -- `reported[address] = parsed`
  unfoldable pub set_entry : {A : Type 0} → List (String × A) → String → A → List (String × A)
  set_entry [] address value = (address, value) ∷ []
  set_entry ((a, v) ∷ r) address value =
      let rest = set_entry r address value in
      if str_eq a address then (a, value) ∷ r else (a, v) ∷ rest

  abbrev add_value : List (String × ℕ) → String → ℕ → List (String × ℕ)
  add_value reported address parsed =
      if leb parsed 100 then set_entry reported address parsed else reported

  unfoldable pub add_values :
      List (List String) → List (String × ℕ) → Result Fault (List (String × ℕ))
  add_values [] reported = ok reported
  add_values ((address ∷ value ∷ []) ∷ r) reported =
      digits value >>= λ parsed. add_values r (add_value reported address parsed)
  add_values (_ ∷ r) reported = add_values r reported

  -- `_parse_reported_values`
  unfoldable pub parse_reported_values : ProcessResult → Result Fault (List (String × ℕ))
  parse_reported_values p = do
    by_status ← add_values (env.findall status_value_re p.stdout) []
    by_node ← add_values (env.findall node_value_re p.stdout) by_status
    add_values (env.findall final_value_re p.stdout) by_node
