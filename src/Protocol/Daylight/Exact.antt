-- ===== src/Protocol/Daylight/Exact.antt =====
-- The decoder of a daylight configuration against the wire layout, in both directions.
use sanlight_mesh_mqtt_gatew.Base.{
  contains, ℕ, Result, sym, ◌+◌, ◌*◌, ◌-◌, ◌≡◌, ◌∙◌, ap, ◌↔◌, negsuc, not, Option, none, some, List,
  length, drop, slice, get_or, All, all, ok, arith, leb, ltb, raise_if-eq-ok, require-eq-ok,
  >>=-eq-ok,
}
use sanlight_mesh_mqtt_gatew.Protocol.Bytes.{IsByte, from_bytes_le, find_nul}
use sanlight_mesh_mqtt_gatew.Protocol.Opcode.{ValueError}
use sanlight_mesh_mqtt_gatew.Protocol.Daylight.{
  DaylightConfiguration, decode_values, daylight_configuration, is_control, or_raise,
  max_daylight_values, decode_daylight_configuration_at,
}
use sanlight_mesh_mqtt_gatew.Protocol.Daylight.Wire.{IsWire, decode_complete}
use sanlight_mesh_mqtt_gatew.Protocol.Daylight.Sound.{wire, daylight_configuration_sound}

or_raise-eq-ok {ℓ} :
    {A : Type ℓ} (o : Option A) (e : ValueError) {a : A} → or_raise o e ≡ ok a → o ≡ some a
or_raise-eq-ok none e h = cc
or_raise-eq-ok (some x) e h = cc

ok_pair :
    (c' c : DaylightConfiguration) (k' k : ℕ)
    → ◌≡◌ {A = Result ValueError (DaylightConfiguration × ℕ)} (ok (c', k')) (ok (c, k))
    → (c' ≡ c) × (k' ≡ k)
ok_pair c' c k' k h = (cc, cc)

module _ (utf8 : List ℕ → Option (List ℕ)) (p : List ℕ) (offset : ℕ) (allowed : List ℕ)
    (c : DaylightConfiguration) (consumed : ℕ) (bytes : All IsByte p) where
  decode_sound :
      decode_daylight_configuration_at utf8 p offset allowed ≡ ok (c, consumed)
      → IsWire utf8 p offset allowed c consumed
  unfolding decode_daylight_configuration_at
  decode_sound h₀ =
      let count = get_or p (offset + 4) 0 in
      let values_end = offset + 5 + count * 3 in
      let (t1, h₁) = raise_if-eq-ok (ltb (length p) offset) _ _ h₀ in
      let (t2, h₂) = raise_if-eq-ok (ltb (length p - offset) 6) _ _ h₁ in
      let (t3, h₃) = raise_if-eq-ok (ltb max_daylight_values count) _ _ h₂ in
      let (t4, h₄) = raise_if-eq-ok (leb (length p) values_end) _ _ h₃ in
      let (vs, hv, h₅) = >>=-eq-ok (decode_values p (offset + 5) 0 count (negsuc 0)) _ h₄ in
      let (k, hk, h₆) = >>=-eq-ok (or_raise (find_nul (drop values_end p)) _) _ h₅ in
      let (name, hn, h₇) =
        >>=-eq-ok (or_raise (utf8 (slice p values_end (values_end + k))) _) _ h₆ in
      let (t8, h₈) = require-eq-ok (all (λ x. not (is_control x)) name) _ _ h₇ in
      let (t9, h₉) = require-eq-ok (contains allowed (length p - (values_end + k + 1))) _ _ h₈ in
      let (c', hc, h₁₀) =
        >>=-eq-ok (daylight_configuration (from_bytes_le (slice p offset (offset + 4))) name vs) _
          h₉ in
      let (same_c, same_k) = ok_pair c' c (values_end + k + 1) consumed h₁₀ in
      let shape =
        sym same_c
        ∙ daylight_configuration_sound (from_bytes_le (slice p offset (offset + 4))) name vs c'
            hc in
      let same_name : c.name ≡ name = ap (λ (x : DaylightConfiguration). x.name) shape in
      rw (← same_k) (
        wire p offset k vs bytes (ground (arith, t1, t2)) (ground (arith, t4)) hv
          (or_raise-eq-ok _ _ hk) utf8 allowed c (or_raise-eq-ok _ _ hn ∙ ap some (sym same_name))
          (ap (all (λ x. not (is_control x))) same_name ∙ t8) t9 (ground (arith, t3))
          (ap (λ (x : DaylightConfiguration). x.configuration_id) shape)
          (ap (λ (x : DaylightConfiguration). x.values) shape))

-- For bytes, the decoder at `offset` returns the configuration `c` and the end `consumed` exactly
-- when the bytes from `offset` up to `consumed` are the wire layout of `c` (identifier of four
-- bytes, count, values in order and in range, name without a zero byte that decodes to the
-- printable name of `c`, zero byte) and what follows has an allowed length.
pub decode_daylight_configuration_at_iff :
    (utf8 : List ℕ → Option (List ℕ)) (p : List ℕ) (offset : ℕ) (allowed : List ℕ)
    (c : DaylightConfiguration) (consumed : ℕ)
    → All IsByte p
    → (decode_daylight_configuration_at utf8 p offset allowed ≡ ok (c, consumed))
      ↔ IsWire utf8 p offset allowed c consumed
decode_daylight_configuration_at_iff utf8 p offset allowed c consumed bytes = (
  decode_sound utf8 p offset allowed c consumed bytes,
  decode_complete utf8 p offset allowed c consumed,
)
