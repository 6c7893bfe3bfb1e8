-- ===== src/GatewayProtocol/Decode.antt =====
-- `decode_command` of sanlight_mesh/gateway_protocol.py.
use sanlight_mesh_mqtt_gatew.Base.{
  ℕ, Bool, true, false, ◌&&◌, ◌||◌, String, Option, none, some, List, [], ◌∷◌, length, ltb,
  if◌then◌else◌, Result, ok, err, ◌>>=◌, ◌>>◌, require, raise_if, str_eq, codes,
}
use sanlight_mesh_mqtt_gatew.Value.{
  Value, null, boolean, integer, float, text, array, object, Fields, end, field, get, value_or,
  checked_int,
}
use sanlight_mesh_mqtt_gatew.GatewayProtocol.{
  Action, set_max, refresh, read_daylight, blackout, restore_blackout, sync_clock, set_clock,
  refresh_gateway_info, Target, latest, gateway, GatewayCommand, Raised, protocol, loads_error,
  payload_too_long, not_utf8, not_json, not_an_object, unknown_field, bad_id, bad_timestamp,
  bad_ttl, created_in_future, confirmed_not_boolean, value_not_int, value_out_of_range,
  not_confirmed, only_latest, only_gateway, seconds_not_int, seconds_out_of_range,
  field_not_accepted, max_command_bytes, add_seconds, Stamp, naive, aware, to_utc, replace_z,
}
use sanlight_mesh_mqtt_gatew.GatewayProtocol.Names.{decode_action, matches_id, normalize_node}

-- `json.loads(payload.decode("utf-8"))`: the value, or what was raised.
pub data Loads : Type 0 where
  loaded : Value → Loads
  unicode_error json_error other_error : Loads

abbrev pub has : Fields → String → Bool
has fs k = elim (get fs k) [ none ↦ false | some v ↦ true ]

-- `_forbid`
unfoldable pub forbid : Fields → List String → Result Raised (Unit {0})
forbid fs [] = ok tt
forbid fs (k ∷ ks) =
    let rest = forbid fs ks in if has fs k then err (protocol field_not_accepted) else rest

abbrev pub member : String → List String → Bool
member s [] = false
member s (t ∷ ts) = str_eq s t || member s ts

abbrev common_keys : List String
common_keys =
    "id" ∷ "action" ∷ "target" ∷ "value" ∷ "secondsSinceMidnight" ∷ "confirmed" ∷ "createdAt"
    ∷ "ttlSeconds" ∷ []

-- `not set(document) - common_keys`
unfoldable pub only_common_keys : Fields → Bool
only_common_keys end = true
only_common_keys (field k v fs) = member k common_keys && only_common_keys fs

unfoldable pub decode_id : Value → Result Raised String
decode_id (text s) = if matches_id (codes s) then ok s else err (protocol bad_id)
decode_id null = err (protocol bad_id)
decode_id (boolean b) = err (protocol bad_id)
decode_id (integer n) = err (protocol bad_id)
decode_id (float f) = err (protocol bad_id)
decode_id (array xs) = err (protocol bad_id)
decode_id (object fs) = err (protocol bad_id)

unfoldable pub decode_confirmed : Value → Result Raised Bool
decode_confirmed (boolean b) = ok b
decode_confirmed null = err (protocol confirmed_not_boolean)
decode_confirmed (integer n) = err (protocol confirmed_not_boolean)
decode_confirmed (float f) = err (protocol confirmed_not_boolean)
decode_confirmed (text s) = err (protocol confirmed_not_boolean)
decode_confirmed (array xs) = err (protocol confirmed_not_boolean)
decode_confirmed (object fs) = err (protocol confirmed_not_boolean)

-- `value != s` for a text `s`.
abbrev pub is_text : Value → String → Bool
is_text (text s) t = str_eq s t
is_text null t = false
is_text (boolean b) t = false
is_text (integer n) t = false
is_text (float f) t = false
is_text (array xs) t = false
is_text (object fs) t = false

-- What the branches on the action set: `target`, `value` and `seconds_since_midnight`.
pub record Arguments : Type 0 where
  pub target : Target
  pub value : Option ℕ
  pub seconds : Option ℕ

abbrev pub only_target : Target → Arguments
only_target t = record { target = t; value = none; seconds = none }

unfoldable pub decode_arguments : Action → Fields → Bool → Result Raised Arguments
unfolding checked_int
decode_arguments set_max document confirmed = do
  target ← normalize_node (value_or (get document "target") null) false
  value ←
      checked_int (value_or (get document "value") null) 20 100 (protocol value_not_int)
        (protocol value_out_of_range)
  forbid document ("confirmed" ∷ "secondsSinceMidnight" ∷ [])
  ok (record { target = target; value = some value; seconds = none })
decode_arguments refresh document confirmed = do
  target ← normalize_node (value_or (get document "target") (text "all")) true
  forbid document ("value" ∷ "confirmed" ∷ "secondsSinceMidnight" ∷ [])
  ok (only_target target)
decode_arguments read_daylight document confirmed = do
  target ← normalize_node (value_or (get document "target") (text "all")) true
  forbid document ("value" ∷ "confirmed" ∷ "secondsSinceMidnight" ∷ [])
  ok (only_target target)
decode_arguments blackout document confirmed = do
  target ← normalize_node (value_or (get document "target") null) true
  require confirmed (protocol not_confirmed)
  forbid document ("value" ∷ "secondsSinceMidnight" ∷ [])
  ok (only_target target)
decode_arguments restore_blackout document confirmed = do
  require (is_text (value_or (get document "target") (text "latest")) "latest")
      (protocol only_latest)
  require confirmed (protocol not_confirmed)
  forbid document ("value" ∷ "secondsSinceMidnight" ∷ [])
  ok (only_target latest)
decode_arguments sync_clock document confirmed = do
  target ← normalize_node (value_or (get document "target") null) true
  forbid document ("value" ∷ "confirmed" ∷ "secondsSinceMidnight" ∷ [])
  ok (only_target target)
decode_arguments set_clock document confirmed = do
  target ← normalize_node (value_or (get document "target") null) true
  seconds ←
      checked_int (value_or (get document "secondsSinceMidnight") null) 0 86399
        (protocol seconds_not_int) (protocol seconds_out_of_range)
  forbid document ("value" ∷ "confirmed" ∷ [])
  ok (record { target = target; value = none; seconds = some seconds })
decode_arguments refresh_gateway_info document confirmed = do
  require (is_text (value_or (get document "target") (text "gateway")) "gateway")
      (protocol only_gateway)
  forbid document ("value" ∷ "confirmed" ∷ "secondsSinceMidnight" ∷ [])
  ok (only_target gateway)

-- The payload as a JSON object.
unfoldable pub load_document : Loads → Result Raised Fields
load_document (loaded (object fs)) = ok fs
load_document (loaded null) = err (protocol not_an_object)
load_document (loaded (boolean b)) = err (protocol not_an_object)
load_document (loaded (integer n)) = err (protocol not_an_object)
load_document (loaded (float f)) = err (protocol not_an_object)
load_document (loaded (text s)) = err (protocol not_an_object)
load_document (loaded (array xs)) = err (protocol not_an_object)
load_document unicode_error = err (protocol not_utf8)
load_document json_error = err (protocol not_json)
load_document other_error = err loads_error

-- The timezone of a stamp.
stamp_to_utc : Option Stamp → Result Raised ℕ
stamp_to_utc none = err (protocol bad_timestamp)
stamp_to_utc (some naive) = err (protocol bad_timestamp)
stamp_to_utc (some (aware t)) = to_utc t

module _ (fromisoformat : List ℕ → Option Stamp) where
  unfoldable pub parse_timestamp : Value → Result Raised ℕ
  unfolding stamp_to_utc to_utc replace_z
  parse_timestamp (text s) =
      if str_eq s ""
      then err (protocol bad_timestamp)
      else stamp_to_utc (fromisoformat (replace_z (codes s)))
  parse_timestamp null = err (protocol bad_timestamp)
  parse_timestamp (boolean b) = err (protocol bad_timestamp)
  parse_timestamp (integer n) = err (protocol bad_timestamp)
  parse_timestamp (float f) = err (protocol bad_timestamp)
  parse_timestamp (array xs) = err (protocol bad_timestamp)
  parse_timestamp (object fs) = err (protocol bad_timestamp)

  -- `decode_command` from the document on.
  unfoldable pub decode_document : Fields → ℕ → Result Raised GatewayCommand
  decode_document document now = do
    require (only_common_keys document) (protocol unknown_field)
    command_id ← decode_id (value_or (get document "id") null)
    action ← decode_action (value_or (get document "action") null)
    created_at ← parse_timestamp (value_or (get document "createdAt") null)
    ttl ←
        checked_int (value_or (get document "ttlSeconds") null) 1 300 (protocol bad_ttl)
          (protocol bad_ttl)
    expires_at ← add_seconds created_at ttl
    horizon ← add_seconds now 60
    raise_if (ltb horizon created_at) (protocol created_in_future)
    confirmed ← decode_confirmed (value_or (get document "confirmed") (boolean false))
    arguments ← decode_arguments action document confirmed
    ok (record {
      command_id = command_id;
      action = action;
      target = arguments.target;
      created_at = created_at;
      expires_at = expires_at;
      value = arguments.value;
      seconds_since_midnight = arguments.seconds;
      confirmed = confirmed;
    })

  module _ (loads : List ℕ → Loads) where
    unfoldable pub decode_command : List ℕ → ℕ → Result Raised GatewayCommand
    decode_command payload now = do
      raise_if (ltb max_command_bytes (length payload)) (protocol payload_too_long)
      document ← load_document (loads payload)
      decode_document document now
