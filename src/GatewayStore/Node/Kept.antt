-- ===== src/GatewayStore/Node/Kept.antt =====
-- What a reading that failed, or that could not be parsed, leaves of the cached state of a lamp.
use sanlight_mesh_mqtt_gatew.Base.{
  ℕ, ◌≡◌, ◌∙◌, refl, ap, Bool, true, false, not, &&-split, Option, none, some, List, [], ◌∷◌,
  String, All, all, str_eq, Option-cases, inl, inr,
}
use sanlight_mesh_mqtt_gatew.Value.{as_int, Value, Fields, end, get, object, value_or, null}
use sanlight_mesh_mqtt_gatew.Protocol.Opcode.{ValueError}
use sanlight_mesh_mqtt_gatew.Protocol.Live.{LiveStatus}
use sanlight_mesh_mqtt_gatew.Protocol.Daylight.{DaylightStatus, parsed}
use sanlight_mesh_mqtt_gatew.GatewayProtocol.{Stamp}
use sanlight_mesh_mqtt_gatew.GatewayStore.{GatewayStore}
use sanlight_mesh_mqtt_gatew.GatewayStore.Dict.{
  put, pop, get-put_same, get-put_other, get-pop_other,
}
use sanlight_mesh_mqtt_gatew.GatewayStore.Node.{
  CachedNodeState, node_record, existing, with_node, observed, update_daylight,
  record_daylight_failure, within, live_of, daylight_of, decode_stored_daylight, cached, get_node,
  time_of,
}

-- Two records with the same values of some keys.
abbrev Agree : Fields → Fields → List String → Type 0
Agree a b keys = All (λ k. get a k ≡ get b k) keys

Agree-self : (a : Fields) (keys : List String) → Agree a a keys
Agree-self a [] = tt
Agree-self a (k ∷ keys) = (refl, Agree-self a keys)

not-true : (b : Bool) → not b ≡ true → b ≡ false
not-true false h = refl
not-true true h = cc

Agree-put :
    (a b : Fields) (k : String) (v : Value) (keys : List String)
    → all (λ j. not (str_eq k j)) keys ≡ true
    → Agree a b keys
    → Agree (put a k v) b keys
Agree-put a b k v [] d h = tt
Agree-put a b k v (j ∷ keys) d h =
    let w = &&-split (not (str_eq k j)) _ d in
    (get-put_other a k j v (not-true _ w.0) ∙ h.0, Agree-put a b k v keys w.1 h.1)

Agree-pop :
    (a b : Fields) (k : String) (keys : List String)
    → all (λ j. not (str_eq k j)) keys ≡ true
    → Agree a b keys
    → Agree (pop a k) b keys
Agree-pop a b k [] d h = tt
Agree-pop a b k (j ∷ keys) d h =
    let w = &&-split (not (str_eq k j)) _ d in
    (get-pop_other a k j (not-true _ w.0) ∙ h.0, Agree-pop a b k keys w.1 h.1)

-- The keys of what was read and verified.
abbrev keys : List String
keys =
    "maxBrightness" ∷ "verifiedAt" ∷ "lampTimeMs" ∷ "liveBrightnessRaw" ∷ "liveVerifiedAt"
    ∷ "daylightVerifiedRequestOpcode" ∷ "daylightVerifiedRawPduHex" ∷ "daylightVerifiedAt" ∷ []

-- What was read and verified, with the times.
pub record Verified : Type 0 where
  pub max_brightness : ℕ
  pub verified_at : ℕ
  pub live_status : Option LiveStatus
  pub live_verified_at : Option ℕ
  pub daylight_status : Option DaylightStatus
  pub daylight_verified_at : Option ℕ

unfoldable pub verified_part : Option CachedNodeState → Option Verified
verified_part none = none
verified_part (some s) = some (record {
  max_brightness = s.max_brightness;
  verified_at = s.verified_at;
  live_status = s.live_status;
  live_verified_at = s.live_verified_at;
  daylight_status = s.daylight_status;
  daylight_verified_at = s.daylight_verified_at;
})

node_record-with_node :
    (store : GatewayStore) (address : String) (node : Fields)
    → node_record (with_node store address node) address ≡ some node
node_record-with_node store address node = rw (get-put_same store.nodes address (object node))

module _ (fromisoformat : List ℕ → Option Stamp) (utf8 : List ℕ → Option (List ℕ))
    (fromhex : String → Option (List ℕ)) where
  live_of-Agree :
      (a b : Fields)
      → Agree a b keys
      → live_of fromisoformat utf8 fromhex a ≡ live_of fromisoformat utf8 fromhex b
  unfolding live_of
  live_of-Agree a b h =
      let (max, (verified, (time, (raw, (live, (opcode, (pdu, (at, u)))))))) = h in
      rw (time, raw, live)

  daylight_of-Agree :
      (a b : Fields)
      → Agree a b keys
      → daylight_of fromisoformat utf8 fromhex a ≡ daylight_of fromisoformat utf8 fromhex b
  unfolding daylight_of decode_stored_daylight
  daylight_of-Agree a b h =
      let (max, (verified, (time, (raw, (live, (opcode, (pdu, (at, u)))))))) = h in
      rw (opcode, pdu, at)

  cached-Agree :
      (a b : Fields)
      → Agree a b keys
      → verified_part (cached fromisoformat utf8 fromhex a)
        ≡ verified_part (cached fromisoformat utf8 fromhex b)
  unfolding cached verified_part
  cached-Agree a b h =
      let brightness : within (as_int (value_or (get a "maxBrightness") null)) 100
          ≡ within (as_int (value_or (get b "maxBrightness") null)) 100 =
        rw h.0 in
      let at : time_of fromisoformat utf8 fromhex a "verifiedAt"
          ≡ time_of fromisoformat utf8 fromhex b "verifiedAt" =
        rw h.1.0 in
      elim (Option-cases (within (as_int (value_or (get b "maxBrightness") null)) 100)) [
        | inl n ↦ rw (brightness, n)
        | inr (m, e) ↦ elim (Option-cases (time_of fromisoformat utf8 fromhex b "verifiedAt")) [
          | inl n ↦ rw (brightness, e, at, n)
          | inr (t, f) ↦ rw (brightness, e, at, f, live_of-Agree a b h, daylight_of-Agree a b h)
        ]
      ]

  cached_end : cached fromisoformat utf8 fromhex end ≡ none
  unfolding cached
  cached_end = refl

  get_node-Agree :
      (store : GatewayStore) (address : String) (node : Fields)
      → Agree node (existing store address) keys
      → verified_part (get_node fromisoformat utf8 fromhex (with_node store address node) address)
        ≡ verified_part (get_node fromisoformat utf8 fromhex store address)
  unfolding get_node
  get_node-Agree store address node h =
      rw (node_record-with_node store address node)
        (elim (Option-cases (node_record store address)) [
          | inr (r, e) ↦ rw e (cached-Agree node r (rw e at h))
          | inl n ↦ rw n (cached-Agree node end (rw n at h) ∙ ap verified_part cached_end)
        ])

  module _ (isoformat : ℕ → String) (store : GatewayStore) (address : String) (current : ℕ) where
    -- A daylight reading that could not be parsed leaves the cached MaxBrightness, the live status,
    -- the last configuration that was read, and their times, as they were.
    pub update_daylight-keeps :
        (hex : List ℕ → String) (message : Option ValueError → String) (status : DaylightStatus)
        → parsed status ≡ false
        → verified_part (
            get_node fromisoformat utf8 fromhex
              (update_daylight isoformat hex message store address status current)
              address)
          ≡ verified_part (get_node fromisoformat utf8 fromhex store address)
    unfolding update_daylight observed
    update_daylight-keeps hex message status h =
        let node = existing store address in
        rw h (
          get_node-Agree store address _ (
            Agree-put _ node "daylightLastError" _ keys refl (
              Agree-put _ node "daylightObservationRawPduHex" _ keys refl (
                Agree-put _ node "daylightObservationRequestOpcode" _ keys refl (
                  Agree-put _ node "daylightLastReadOk" _ keys refl (
                    Agree-put node node "daylightLastReadAt" _ keys refl
                      (Agree-self node keys)))))))

    -- A daylight reading that failed leaves them as they were too.
    pub record_daylight_failure-keeps :
        (error : String)
        → verified_part (
            get_node fromisoformat utf8 fromhex
              (record_daylight_failure isoformat store address error current)
              address)
          ≡ verified_part (get_node fromisoformat utf8 fromhex store address)
    unfolding record_daylight_failure
    record_daylight_failure-keeps error =
        let node = existing store address in
        get_node-Agree store address _ (
          Agree-pop _ node "daylightObservationRawPduHex" keys refl (
            Agree-pop _ node "daylightObservationRequestOpcode" keys refl (
              Agree-put _ node "daylightLastError" _ keys refl (
                Agree-put _ node "daylightLastReadOk" _ keys refl
                  (Agree-put node node "daylightLastReadAt" _ keys refl (Agree-self node keys))))))
