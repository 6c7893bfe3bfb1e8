-- ===== src/GatewayStore/Node/Fresh.antt =====
-- That a stored MaxBrightness is found again, and for how long it is fresh.
use sanlight_mesh_mqtt_gatew.Base.{
  ℕ, ◌+◌, ◌*◌, ◌≡◌, ◌≤◌, ◌∙◌, refl, ap, true, Option, some, List, String, ok, pos, leb, arith,
  between,
}
use sanlight_mesh_mqtt_gatew.Value.{Fields, get, text, integer, object, value_or, null, as_int}
use sanlight_mesh_mqtt_gatew.GatewayProtocol.{Stamp, second}
use sanlight_mesh_mqtt_gatew.GatewayProtocol.Decode.{parse_timestamp}
use sanlight_mesh_mqtt_gatew.GatewayStore.{GatewayStore, isoformat_utc}
use sanlight_mesh_mqtt_gatew.GatewayStore.Dict.{put, get-put_same, get-put_other}
use sanlight_mesh_mqtt_gatew.GatewayStore.Node.{
  CachedNodeState, existing, with_node, update_node, within, time_of, cached, get_node,
  node_is_fresh, first, second_of, live_of, daylight_of, decode_stored_daylight, as_bool, as_text,
}

within_100 : (n : ℕ) → n ≤ 100 → within (some (pos n)) 100 ≡ some n
within_100 n h = ground arith

between_100 : (n : ℕ) → n ≤ 100 → between 0 100 (pos n) ≡ true
between_100 n h = ground arith

module _ (fromisoformat : List ℕ → Option Stamp) (utf8 : List ℕ → Option (List ℕ))
    (fromhex : String → Option (List ℕ)) (isoformat : ℕ → String) where
  -- The state that is read from a record with these two values.
  cached_state :
      (node : Fields) (n t : ℕ)
      → within (as_int (value_or (get node "maxBrightness") null)) 100 ≡ some n
      → time_of fromisoformat utf8 fromhex node "verifiedAt" ≡ some t
      → (s : CachedNodeState) × (cached fromisoformat utf8 fromhex node ≡ some s)
        × (s.max_brightness ≡ n)
        × (s.verified_at ≡ t)
  unfolding cached
  cached_state node n t h k = (
    record {
      max_brightness = n;
      verified_at = t;
      live_status = first fromisoformat utf8 fromhex (live_of fromisoformat utf8 fromhex node);
      live_verified_at =
          second_of fromisoformat utf8 fromhex (live_of fromisoformat utf8 fromhex node);
      daylight_status =
          first fromisoformat utf8 fromhex (daylight_of fromisoformat utf8 fromhex node);
      daylight_verified_at =
          second_of fromisoformat utf8 fromhex (daylight_of fromisoformat utf8 fromhex node);
      daylight_last_observation =
          decode_stored_daylight fromisoformat utf8 fromhex node "daylightObservationRequestOpcode"
            "daylightObservationRawPduHex";
      daylight_last_read_at = time_of fromisoformat utf8 fromhex node "daylightLastReadAt";
      daylight_last_read_ok = as_bool (value_or (get node "daylightLastReadOk") null);
      daylight_last_error = as_text (value_or (get node "daylightLastError") null);
    },
    rw (h, k),
    refl,
    refl,
  )

  node_is_fresh-found :
      (store : GatewayStore) (address : String) (s : CachedNodeState) (f now : ℕ)
      → get_node fromisoformat utf8 fromhex store address ≡ some s
      → node_is_fresh fromisoformat utf8 fromhex store address f now
        ≡ leb now (s.verified_at + f * second)
  unfolding node_is_fresh
  node_is_fresh-found store address s f now h = rw (h, node_is_fresh)

  -- What a lamp's state says after an update.
  pub record IsStored (store : GatewayStore) (address : String) (n t fresh_seconds now : ℕ)
      : Type 0 where
    pub state : CachedNodeState
    pub found : get_node fromisoformat utf8 fromhex store address ≡ some state
    pub same_brightness : state.max_brightness ≡ n
    pub same_time : state.verified_at ≡ t
    pub fresh :
        node_is_fresh fromisoformat utf8 fromhex store address fresh_seconds now
        ≡ leb now (t + fresh_seconds * second)

  -- A MaxBrightness of at most 100 is stored, and then found with the time that was written, and it
  -- is fresh for the given number of seconds from that time on. The hypothesis says that the time
  -- which the interpreter writes is read as `t`.
  pub update_node-IsStored :
      (store : GatewayStore) (address : String) (n t current fresh_seconds now : ℕ)
      → n ≤ 100
      → parse_timestamp fromisoformat (text (isoformat_utc isoformat current)) ≡ ok t
      → (after : GatewayStore) × (update_node isoformat store address (pos n) current ≡ ok after)
        × IsStored after address n t fresh_seconds now
  unfolding update_node get_node
  update_node-IsStored store address n t current f now h p =
      let at = text (isoformat_utc isoformat current) in
      let one = put (existing store address) "maxBrightness" (integer (pos n)) in
      let node = put one "verifiedAt" at in
      let brightness : get node "maxBrightness" ≡ some (integer (pos n)) =
        get-put_other one "verifiedAt" "maxBrightness" at refl
        ∙ get-put_same (existing store address) "maxBrightness" (integer (pos n)) in
      let time : get node "verifiedAt" ≡ some at = get-put_same one "verifiedAt" at in
      let (s, e, m, v) = cached_state node n t (rw brightness (within_100 n h)) (rw (time, p)) in
      let found : get_node fromisoformat utf8 fromhex (with_node store address node) address
          ≡ some s =
        rw (get-put_same store.nodes address (object node)) e in
      (
        with_node store address node,
        rw (between_100 n h),
        record {
          state = s;
          found = found;
          same_brightness = m;
          same_time = v;
          fresh =
              node_is_fresh-found (with_node store address node) address s f now found
              ∙ ap (λ x. leb now (x + f * second)) v;
        },
      )
