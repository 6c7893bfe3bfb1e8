-- ===== src/GatewayStore/Node.antt =====
-- The cached state of a lamp in sanlight_mesh/gateway_store.py. Texts of bytes in hexadecimal are
-- written by `bytes.hex` and read by `bytes.fromhex`, which may refuse.
pub mod Kept
pub mod Fresh
use sanlight_mesh_mqtt_gatew.Base.{
  ℕ, ◌+◌, ◌*◌, ℤ, pos, Bool, true, false, String, Option, none, some, List, [], ◌∷◌, leb, between,
  pos_part, if◌then◌else◌, Result, ok, err, ◌>>=◌, ◌>>◌, require,
}
use sanlight_mesh_mqtt_gatew.Value.{
  Value, null, boolean, integer, float, text, array, object, Fields, end, field, get, value_or,
  as_int,
}
use sanlight_mesh_mqtt_gatew.Protocol.Opcode.{ValueError}
use sanlight_mesh_mqtt_gatew.Protocol.Live.{LiveStatus}
use sanlight_mesh_mqtt_gatew.Protocol.Daylight.{DaylightStatus, parsed, decode_daylight_status_pdu}
use sanlight_mesh_mqtt_gatew.GatewayProtocol.{Stamp, Raised, second}
use sanlight_mesh_mqtt_gatew.GatewayProtocol.Decode.{parse_timestamp}
use sanlight_mesh_mqtt_gatew.Watchdog.Incident.{as_mapping}
use sanlight_mesh_mqtt_gatew.GatewayStore.{GatewayStore, isoformat_utc}
use sanlight_mesh_mqtt_gatew.GatewayStore.Dict.{put, pop}

pub record CachedNodeState : Type 0 where
  pub max_brightness : ℕ
  pub verified_at : ℕ
  pub live_status : Option LiveStatus
  pub live_verified_at : Option ℕ
  pub daylight_status : Option DaylightStatus
  pub daylight_verified_at : Option ℕ
  pub daylight_last_observation : Option DaylightStatus
  pub daylight_last_read_at : Option ℕ
  pub daylight_last_read_ok : Option Bool
  pub daylight_last_error : Option String

-- `dict(existing) if isinstance(existing, dict) else {}`
abbrev pub fields_or_empty : Option Fields → Fields
fields_or_empty none = end
fields_or_empty (some fs) = fs

abbrev pub node_record : GatewayStore → String → Option Fields
node_record store address = as_mapping (value_or (get store.nodes address) null)

abbrev pub existing : GatewayStore → String → Fields
existing store address = fields_or_empty (node_record store address)

abbrev pub with_node : GatewayStore → String → Fields → GatewayStore
with_node store address node = record store { nodes = put store.nodes address (object node) }

-- `ValueError` of `update_node`.
pub data OutOfRange : Type 0 where
  out_of_range : OutOfRange

module _ (isoformat : ℕ → String) where
  unfoldable pub update_node : GatewayStore → String → ℤ → ℕ → Result OutOfRange GatewayStore
  update_node store address max_brightness current = do
    require (between 0 100 max_brightness) out_of_range
    ok (
        with_node store address (
          put (put (existing store address) "maxBrightness" (integer max_brightness)) "verifiedAt"
            (text (isoformat_utc isoformat current))))

  unfoldable pub update_live : GatewayStore → String → LiveStatus → ℕ → GatewayStore
  update_live store address status current = with_node store address (
      put
        (put (put (existing store address) "lampTimeMs" (integer (pos status.lamp_time_ms)))
          "liveBrightnessRaw" (integer (pos status.brightness_raw)))
        "liveVerifiedAt" (text (isoformat_utc isoformat current)))

  -- The update that every reading makes.
  unfoldable pub observed : (List ℕ → String) → Fields → DaylightStatus → ℕ → Fields
  observed hex node status current =
      put
        (put
          (put (put node "daylightLastReadAt" (text (isoformat_utc isoformat current)))
            "daylightLastReadOk" (boolean (parsed status)))
          "daylightObservationRequestOpcode" (integer status.request_opcode))
        "daylightObservationRawPduHex" (text (hex status.raw_pdu))

  -- The update of a reading with a configuration.
  unfoldable pub verified : (List ℕ → String) → Fields → DaylightStatus → ℕ → Fields
  verified hex node status current =
      pop
        (put
          (put (put node "daylightVerifiedAt" (text (isoformat_utc isoformat current)))
            "daylightVerifiedRequestOpcode" (integer status.request_opcode))
          "daylightVerifiedRawPduHex" (text (hex status.raw_pdu)))
        "daylightLastError"

  -- `message` is the text of the error, or the one for none, cut to 1000 characters.
  unfoldable pub update_daylight :
      (List ℕ → String)
      → (Option ValueError → String)
      → GatewayStore
      → String
      → DaylightStatus
      → ℕ
      → GatewayStore
  update_daylight hex message store address status current =
      let node = observed hex (existing store address) status current in
      with_node store address (
        if parsed status
        then verified hex node status current
        else put node "daylightLastError" (text (message status.parse_error)))

  unfoldable pub record_daylight_failure : GatewayStore → String → String → ℕ → GatewayStore
  record_daylight_failure store address error current = with_node store address (
      pop
        (pop
          (put
            (put
              (put (existing store address) "daylightLastReadAt"
                (text (isoformat_utc isoformat current)))
              "daylightLastReadOk" (boolean false))
            "daylightLastError" (text error))
          "daylightObservationRequestOpcode")
        "daylightObservationRawPduHex")

-- `clear_live`: the three keys go; the source writes the record only if it had one of them.
unfoldable pub clear_live : GatewayStore → String → GatewayStore
clear_live store address = elim (node_record store address) [
  | none ↦ store
  | some node ↦
      with_node store address
        (pop (pop (pop node "lampTimeMs") "liveBrightnessRaw") "liveVerifiedAt")
]

abbrev pub as_text : Value → Option String
as_text (text s) = some s
as_text null = none
as_text (boolean b) = none
as_text (integer n) = none
as_text (float f) = none
as_text (array xs) = none
as_text (object fs) = none

abbrev pub as_bool : Value → Option Bool
as_bool (boolean b) = some b
as_bool null = none
as_bool (text s) = none
as_bool (integer n) = none
as_bool (float f) = none
as_bool (array xs) = none
as_bool (object fs) = none

-- `try` with a handler that returns `None`.
abbrev pub or_none {ℓ} : {E : Type 0} {A : Type ℓ} → Result E A → Option A
or_none (ok a) = some a
or_none (err e) = none

-- An integer between 0 and `limit`, or nothing.
abbrev pub within : Option ℤ → ℕ → Option ℕ
within none limit = none
within (some n) limit = if between 0 limit n then some (pos_part n) else none

abbrev pub bind {ℓ κ} : {A : Type ℓ} {B : Type κ} → Option A → (A → Option B) → Option B
bind none f = none
bind (some a) f = f a

module _ (fromisoformat : List ℕ → Option Stamp) (utf8 : List ℕ → Option (List ℕ))
    (fromhex : String → Option (List ℕ)) where
  -- `_decode_stored_daylight`
  unfoldable pub decode_stored_daylight : Fields → String → String → Option DaylightStatus
  decode_stored_daylight node request_key raw_key =
      bind (as_int (value_or (get node request_key) null)) (λ request_opcode.
        bind (as_text (value_or (get node raw_key) null)) (λ raw_pdu_hex.
          bind (fromhex raw_pdu_hex)
            (λ raw_pdu. or_none (decode_daylight_status_pdu utf8 raw_pdu request_opcode))))

  abbrev pub time_of : Fields → String → Option ℕ
  time_of node key = or_none (parse_timestamp fromisoformat (value_or (get node key) null))

  -- The time of the last live reading, if the two numbers of one are there.
  unfoldable pub live_of : Fields → Option (LiveStatus × ℕ)
  live_of node =
      bind (within (as_int (value_or (get node "lampTimeMs") null)) 0xFFFFFFFF) (λ lamp_time_ms.
        bind (within (as_int (value_or (get node "liveBrightnessRaw") null)) 0xFFFF) (λ raw.
          bind (time_of node "liveVerifiedAt")
            (λ t. some (record { lamp_time_ms = lamp_time_ms; brightness_raw = raw }, t))))

  -- The last configuration that was read, with its time.
  unfoldable pub daylight_of : Fields → Option (DaylightStatus × ℕ)
  daylight_of node =
      bind (decode_stored_daylight node "daylightVerifiedRequestOpcode" "daylightVerifiedRawPduHex")
        (λ status.
          if parsed status
          then bind (time_of node "daylightVerifiedAt") (λ t. some (status, t))
          else none)

  abbrev pub first {ℓ} : {A : Type ℓ} → Option (A × ℕ) → Option A
  first none = none
  first (some p) = some p.0

  abbrev pub second_of {ℓ} : {A : Type ℓ} → Option (A × ℕ) → Option ℕ
  second_of none = none
  second_of (some p) = some p.1

  -- `get_node` from the record on.
  unfoldable pub cached : Fields → Option CachedNodeState
  cached node =
      bind (within (as_int (value_or (get node "maxBrightness") null)) 100) (λ max_brightness.
        bind (time_of node "verifiedAt") (λ verified_at. some (record {
          max_brightness = max_brightness;
          verified_at = verified_at;
          live_status = first (live_of node);
          live_verified_at = second_of (live_of node);
          daylight_status = first (daylight_of node);
          daylight_verified_at = second_of (daylight_of node);
          daylight_last_observation =
              decode_stored_daylight node "daylightObservationRequestOpcode"
                "daylightObservationRawPduHex";
          daylight_last_read_at = time_of node "daylightLastReadAt";
          daylight_last_read_ok = as_bool (value_or (get node "daylightLastReadOk") null);
          daylight_last_error = as_text (value_or (get node "daylightLastError") null);
        })))

  unfoldable pub get_node : GatewayStore → String → Option CachedNodeState
  get_node store address = bind (node_record store address) cached

  unfoldable pub node_is_fresh : GatewayStore → String → ℕ → ℕ → Bool
  node_is_fresh store address fresh_seconds current = elim (get_node store address) [
    | none ↦ false
    | some state ↦ leb current (state.verified_at + fresh_seconds * second)
  ]
