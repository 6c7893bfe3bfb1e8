-- ===== src/Protocol/Daylight/Wire.antt =====
-- The decoder of a daylight configuration accepts every payload of the wire layout.
use sanlight_mesh_mqtt_gatew.Base.{
  contains, ℕ, ◌+◌, ◌*◌, ◌-◌, ◌≤◌, ◌≡◌, refl, sym, ap, ◌∙◌, ℤ, pos, negsuc, true, false, not,
  Option, some, List, [], ◌∷◌, ◌++◌, length, take, drop, slice, get_or, drop-add, get_or-drop,
  drop-append, take-append, length-append, length-drop, All, all, ok, arith, leb, ltb, append_assoc,
}
use sanlight_mesh_mqtt_gatew.Protocol.Bytes.{
  from_bytes_le, NonZero, find_nul-append, from_bytes_le-to_bytes_le_4,
}
use sanlight_mesh_mqtt_gatew.Protocol.Daylight.{
  DaylightValue, DaylightConfiguration, check_order, daylight_configuration, is_control,
  max_daylight_values, decode_daylight_configuration_at,
}
use sanlight_mesh_mqtt_gatew.Protocol.Daylight.Layout.{
  encode_values, encode_configuration, IsOrdered, IsEncodable,
}
use sanlight_mesh_mqtt_gatew.Protocol.Daylight.Values.{slice-drop, decode_values-encode}

-- The bytes `p` hold at `offset` the layout of `c` with a name that `utf8` decodes, up to
-- `consumed`, and what follows has an allowed length.
pub record IsWire (utf8 : List ℕ → Option (List ℕ)) (p : List ℕ) (offset : ℕ) (allowed : List ℕ)
    (c : DaylightConfiguration) (consumed : ℕ) : Type 0 where
  pub name_bytes : List ℕ
  pub tail : List ℕ
  pub offset_within : offset ≤ length p
  pub layout : drop offset p ≡ encode_configuration c name_bytes ++ tail
  pub ends : consumed ≡ offset + length (encode_configuration c name_bytes)
  pub tail_allowed : contains allowed (length tail) ≡ true
  pub encodable : IsEncodable c
  pub name_no_nul : All NonZero name_bytes
  pub name_decoded : utf8 name_bytes ≡ some c.name

pub length-encode_values : (vs : List DaylightValue) → length (encode_values vs) ≡ length vs * 3
length-encode_values [] = refl
length-encode_values (v ∷ vs) = omega (arith, length-encode_values vs)

check_order-ok :
    (previous : ℤ) (vs : List DaylightValue)
    → IsOrdered previous vs
    → check_order previous vs ≡ ok tt
unfolding check_order
check_order-ok previous [] h = refl
check_order-ok previous (v ∷ vs) h = rw h.2 (check_order-ok (pos v.time_in_minutes) vs h.3)

daylight_configuration-ok :
    (c : DaylightConfiguration)
    → IsEncodable c
    → daylight_configuration c.configuration_id c.name c.values ≡ ok c
unfolding daylight_configuration
daylight_configuration-ok c h =
    rw (check_order-ok (negsuc 0) c.values h.values_ordered) (ground arith)

printable :
    (name : List ℕ)
    → All (λ x. is_control x ≡ false) name
    → all (λ x. not (is_control x)) name ≡ true
printable [] h = refl
printable (x ∷ name) h = rw h.0 (printable name h.1)

module _ (utf8 : List ℕ → Option (List ℕ)) (p : List ℕ) (offset : ℕ) (allowed : List ℕ)
    (c : DaylightConfiguration) (consumed : ℕ) (w : IsWire utf8 p offset allowed c consumed) where
  open w use {name_bytes, tail, layout, encodable}

  length_layout : length p ≡ offset + (6 + length c.values * 3 + length name_bytes + length tail)
  length_layout = omega (
    arith,
    length-drop offset p,
    ap length layout,
    length-append (encode_configuration c name_bytes) tail,
    length-append (encode_values c.values) (name_bytes ++ 0 ∷ []),
    length-append name_bytes (0 ∷ []),
    length-encode_values c.values,
    w.offset_within,
  )

  id_read : from_bytes_le (slice p offset (offset + 4)) ≡ c.configuration_id
  id_read =
      ap from_bytes_le (slice-drop p offset 4 ∙ ap (take 4) layout)
      ∙ from_bytes_le-to_bytes_le_4 c.configuration_id encodable.id_fits

  count_read : get_or p (offset + 4) 0 ≡ length c.values
  count_read = get_or-drop offset 4 p 0 ∙ ap (λ q. get_or q 4 0) layout

  values_read : drop (offset + 5) p ≡ encode_values c.values ++ (name_bytes ++ 0 ∷ tail)
  values_read =
      drop-add offset 5 p
      ∙ ap (drop 5) layout
      ∙ ap (λ t. t)
          (append_assoc (encode_values c.values) (name_bytes ++ 0 ∷ []) tail
            ∙ ap (λ t. encode_values c.values ++ t) (append_assoc name_bytes (0 ∷ []) tail))

  name_read : drop (offset + 5 + length c.values * 3) p ≡ name_bytes ++ 0 ∷ tail
  name_read =
      drop-add (offset + 5) (length c.values * 3) p
      ∙ ap (drop (length c.values * 3)) values_read
      ∙ ap (λ k. drop k (encode_values c.values ++ (name_bytes ++ 0 ∷ tail)))
          (sym (length-encode_values c.values))
      ∙ drop-append (encode_values c.values) (name_bytes ++ 0 ∷ tail)

  name_sliced :
      take
        (offset + 5 + length c.values * 3 + length name_bytes - (offset + 5 + length c.values * 3))
        (name_bytes ++ 0 ∷ tail)
      ≡ name_bytes
  name_sliced =
      ap (λ k. take k (name_bytes ++ 0 ∷ tail)) (omega arith) ∙ take-append name_bytes (0 ∷ tail)

  -- The guards on the lengths pass.
  guards :
      (ltb (length p) offset ≡ false)
      × (ltb (length p - offset) 6 ≡ false)
      × (ltb max_daylight_values (length c.values) ≡ false)
      × (leb (length p) (offset + 5 + length c.values * 3) ≡ false)
  guards = ground (arith, length_layout, encodable.count_fits)

  trailing : length p - (offset + 5 + length c.values * 3 + length name_bytes + 1) ≡ length tail
  trailing = omega (arith, length_layout)

  consumed_eq : consumed ≡ offset + 5 + length c.values * 3 + length name_bytes + 1
  consumed_eq = omega (
    arith,
    w.ends,
    length-append (encode_values c.values) (name_bytes ++ 0 ∷ []),
    length-append name_bytes (0 ∷ []),
    length-encode_values c.values,
  )

  pub decode_complete : decode_daylight_configuration_at utf8 p offset allowed ≡ ok (c, consumed)
  unfolding decode_daylight_configuration_at
  decode_complete =
      rw
        (
          guards.0,
          guards.1,
          id_read,
          count_read,
          guards.2,
          guards.3,
          decode_values-encode p (name_bytes ++ 0 ∷ tail) (offset + 5) c.values values_read
              encodable.values_ordered,
          name_read,
          find_nul-append name_bytes tail w.name_no_nul,
          name_sliced,
          w.name_decoded,
          printable c.name encodable.name_printable,
          trailing,
          w.tail_allowed,
          daylight_configuration-ok c encodable,
        )
        (ap (λ k. ok (c, k)) (sym consumed_eq))
