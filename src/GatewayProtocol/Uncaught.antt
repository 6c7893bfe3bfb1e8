-- ===== src/GatewayProtocol/Uncaught.antt =====
-- Documents on which `decode_command` raises an exception that is
-- no `GatewayProtocolError`: its caller `on_message` handles only that one.
use sanlight_mesh_mqtt_gatew.Base.{
  ℕ, ◌+◌, ◌*◌, ◌≤◌, ◌≡◌, true, String, Option, some, List, arith, ok, err, pos,
}
use sanlight_mesh_mqtt_gatew.Value.{null, integer, Fields, get, value_or}
use sanlight_mesh_mqtt_gatew.GatewayProtocol.{
  Action, overflow_error, second, time_limit, add_seconds, Stamp,
}
use sanlight_mesh_mqtt_gatew.GatewayProtocol.Names.{decode_action}
use sanlight_mesh_mqtt_gatew.GatewayProtocol.Decode.{
  only_common_keys, decode_id, parse_timestamp, decode_document,
}
use sanlight_mesh_mqtt_gatew.GatewayProtocol.Accepts.{checked_int_complete}

past_limit : (t n : ℕ) → time_limit ≤ t + n * second → add_seconds t n ≡ err overflow_error
unfolding add_seconds
past_limit t n h = ground arith

module _ (fromisoformat : List ℕ → Option Stamp) (document : Fields) (now : ℕ) (id : String)
    (keys : only_common_keys document ≡ true)
    (identified : decode_id (value_or (get document "id") null) ≡ ok id) where
  module _ (action : Action) (created ttl : ℕ)
      (acts : decode_action (value_or (get document "action") null) ≡ ok action)
      (stamped : parse_timestamp fromisoformat (value_or (get document "createdAt") null)
        ≡ ok created)
      (lives : get document "ttlSeconds" ≡ some (integer (pos ttl))) (positive : 1 ≤ ttl)
      (short : ttl ≤ 300) where
    -- With a known action too, a creation so near the end of the calendar that the lifetime
    -- passes it raises `OverflowError`, before the creation is compared with the clock.
    pub decode_document-overflow :
        time_limit ≤ created + ttl * second
        → decode_document fromisoformat document now ≡ err overflow_error
    unfolding decode_document
    decode_document-overflow late =
        rw
          (
            keys,
            identified,
            acts,
            stamped,
            lives,
            checked_int_complete 1 300 _ _ ttl positive short,
          )
          (rw (past_limit created ttl late))
