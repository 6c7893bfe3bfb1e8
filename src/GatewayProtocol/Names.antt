-- ===== src/GatewayProtocol/Names.antt =====
-- The spelling of actions, identifiers and node addresses in sanlight_mesh/gateway_protocol.py.
use sanlight_mesh_mqtt_gatew.Base.{
  ℕ, ◌+◌, ◌*◌, ◌-◌, Bool, false, ◌&&◌, ◌||◌, String, Option, none, some, List, [], ◌∷◌, all, length,
  leb, ◌==◌, if◌then◌else◌, Result, ok, err, str_eq, codes,
}
use sanlight_mesh_mqtt_gatew.Value.{Value, null, boolean, integer, float, text, array, object}
use sanlight_mesh_mqtt_gatew.GatewayProtocol.{
  Action, set_max, refresh, read_daylight, blackout, restore_blackout, sync_clock, set_clock,
  refresh_gateway_info, Target, all_nodes, node, Raised, protocol, type_error, unsupported_action,
  bad_target, target_not_unicast,
}

-- The member of `actions` with this spelling.
unfoldable pub action_named : String → Option Action
action_named s =
    if str_eq s "set-max"
    then some set_max
    else if str_eq s "refresh"
    then some refresh
    else if str_eq s "read-daylight"
    then some read_daylight
    else if str_eq s "blackout"
    then some blackout
    else if str_eq s "restore-blackout"
    then some restore_blackout
    else if str_eq s "sync-clock"
    then some sync_clock
    else if str_eq s "set-clock"
    then some set_clock
    else if str_eq s "refresh-gateway-info"
    then some refresh_gateway_info
    else none

-- `if action not in actions: raise`: a list or an object is not hashable, so the test raises.
unfoldable pub decode_action : Value → Result Raised Action
decode_action (text s) = elim (action_named s) [
  | some a ↦ ok a
  | none ↦ err (protocol unsupported_action)
]
decode_action (array xs) = err type_error
decode_action (object fs) = err type_error
decode_action null = err (protocol unsupported_action)
decode_action (boolean b) = err (protocol unsupported_action)
decode_action (integer n) = err (protocol unsupported_action)
decode_action (float f) = err (protocol unsupported_action)

abbrev pub within : ℕ → ℕ → ℕ → Bool
within lo hi c = leb lo c && leb c hi

-- `[A-Za-z0-9]`
unfoldable pub is_alphanumeric : ℕ → Bool
is_alphanumeric c = within b'A' b'Z' c || within b'a' b'z' c || within b'0' b'9' c

-- `[A-Za-z0-9._:-]`
unfoldable pub is_id_character : ℕ → Bool
unfolding is_alphanumeric
is_id_character c = is_alphanumeric c || c == b'.' || c == b'_' || c == b':' || c == b'-'

-- `_COMMAND_ID_RE.fullmatch`
unfoldable pub matches_id : List ℕ → Bool
unfolding is_id_character
matches_id [] = false
matches_id (c ∷ cs) = is_alphanumeric c && (all is_id_character cs && leb (length cs) 127)

-- The value of one digit of `[0-9A-Fa-f]`.
unfoldable pub hex_digit : ℕ → Option ℕ
hex_digit c =
    if within b'0' b'9' c
    then some (c - b'0')
    else if within b'A' b'F' c
    then some (c - b'A' + 10)
    else if within b'a' b'f' c
    then some (c - b'a' + 10)
    else none

-- `_NODE_RE.fullmatch(value)`, with `int(value, 16)`.
unfoldable pub four_hex : List ℕ → Option ℕ
unfolding hex_digit
four_hex (a ∷ b ∷ c ∷ d ∷ []) = elim (hex_digit a) [
  | none ↦ none
  | some x ↦ elim (hex_digit b) [
    | none ↦ none
    | some y ↦ elim (hex_digit c) [
      | none ↦ none
      | some z ↦ elim (hex_digit d) [
        | none ↦ none
        | some w ↦ some (x * 4096 + y * 256 + z * 16 + w)
      ]
    ]
  ]
]
four_hex _ = none

-- The part of `normalize_node` for a text that is not "all".
unfoldable pub node_named : String → Result Raised Target
node_named s = elim (four_hex (codes s)) [
  | none ↦ err (protocol bad_target)
  | some n ↦ if within 1 0x7FFF n then ok (node n) else err (protocol target_not_unicast)
]

unfoldable pub normalize_node : Value → Bool → Result Raised Target
normalize_node (text s) allow_all =
    if str_eq s "all" && allow_all then ok all_nodes else node_named s
normalize_node null allow_all = err (protocol bad_target)
normalize_node (boolean b) allow_all = err (protocol bad_target)
normalize_node (integer n) allow_all = err (protocol bad_target)
normalize_node (float f) allow_all = err (protocol bad_target)
normalize_node (array xs) allow_all = err (protocol bad_target)
normalize_node (object fs) allow_all = err (protocol bad_target)
