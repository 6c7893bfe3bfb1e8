-- ===== src/Protocol/Daylight/Sound.antt =====
-- The decoder of a daylight configuration accepts nothing but the wire layout.
use sanlight_mesh_mqtt_gatew.Base.{
  contains, ℕ, zero, suc, ◌+◌, ◌*◌, ◌-◌, ◌≤◌, ◌<◌, ◌≡◌, refl, sym, ap, ◌∙◌, negsuc, true, false,
  not, Option, some, List, [], ◌∷◌, ◌++◌, length, take, drop, slice, get_or, drop-add,
  length-append, length-drop, All, all, ok, arith, leb, append_assoc, length-take, take-append-drop,
  All-take, All-drop, &&-split,
}
use sanlight_mesh_mqtt_gatew.Protocol.Bytes.{
  IsByte, from_bytes_le, to_bytes_le, to_bytes_le-from_bytes_le, find_nul, find_nul_sound,
  from_bytes_le-lt_4,
}
use sanlight_mesh_mqtt_gatew.Protocol.Daylight.{
  DaylightValue, DaylightConfiguration, decode_values, daylight_configuration, is_control,
  max_daylight_values,
}
use sanlight_mesh_mqtt_gatew.Protocol.Daylight.Layout.{
  encode_values, encode_configuration, IsOrdered,
}
use sanlight_mesh_mqtt_gatew.Protocol.Daylight.Values.{slice-drop, decode_values_sound}
use sanlight_mesh_mqtt_gatew.Protocol.Daylight.Wire.{IsWire, length-encode_values}

unprintable :
    (name : List ℕ)
    → all (λ x. not (is_control x)) name ≡ true
    → All (λ x. is_control x ≡ false) name
unprintable [] h = tt
unprintable (x ∷ name) h =
    let (a, b) = &&-split (not (is_control x)) (all (λ y. not (is_control y)) name) h in
    (ground arith, unprintable name b)

drop-cons : (xs : List ℕ) (n : ℕ) → n < length xs → drop n xs ≡ get_or xs n 0 ∷ drop (suc n) xs
drop-cons [] n h = elim h [ ]
drop-cons (x ∷ xs) zero h = refl
drop-cons (x ∷ xs) (suc n) h = drop-cons xs n (omega arith)

pub daylight_configuration_sound :
    (i : ℕ) (name : List ℕ) (vs : List DaylightValue) (c : DaylightConfiguration)
    → daylight_configuration i name vs ≡ ok c
    → c ≡ record { configuration_id = i; name = name; values = vs }
unfolding daylight_configuration
daylight_configuration_sound i name vs c h = ground arith

module _ (p : List ℕ) (offset k : ℕ) (vs : List DaylightValue) (bytes : All IsByte p)
    (long : offset + 6 ≤ length p) (room : offset + 5 + get_or p (offset + 4) 0 * 3 < length p)
    (read : decode_values p (offset + 5) 0 (get_or p (offset + 4) 0) (negsuc 0) ≡ ok vs)
    (found : find_nul (drop (offset + 5 + get_or p (offset + 4) 0 * 3) p) ≡ some k) where
  count : ℕ
  count = get_or p (offset + 4) 0

  name_at : List ℕ
  unfolding count
  name_at = drop (offset + 5 + count * 3) p

  four_bytes : to_bytes_le 4 (from_bytes_le (slice p offset (offset + 4))) ≡ take 4 (drop offset p)
  four_bytes =
      let l : length (take 4 (drop offset p)) ≡ 4 =
        omega (arith, length-take 4 (drop offset p), length-drop offset p) in
      ap (λ xs. to_bytes_le 4 (from_bytes_le xs)) (slice-drop p offset 4)
      ∙ ap (λ n. to_bytes_le n (from_bytes_le (take 4 (drop offset p)))) (sym l)
      ∙ to_bytes_le-from_bytes_le (take 4 (drop offset p))
          (All-take IsByte 4 (drop offset p) (All-drop IsByte offset p bytes))

  values_at :
      (drop (offset + 5) p ≡ encode_values vs ++ name_at)
      × (length vs ≡ count)
      × IsOrdered (negsuc 0) vs
  unfolding name_at
  values_at =
      let (e, n, o) =
        decode_values_sound p (offset + 5) count vs (All-drop IsByte (offset + 5) p bytes)
          (omega (arith, length-drop (offset + 5) p)) read in
      (e ∙ ap (λ r. encode_values vs ++ r) (sym (drop-add (offset + 5) (count * 3) p)), n, o)

  header : drop offset p ≡ take 4 (drop offset p) ++ (count ∷ drop (offset + 5) p)
  unfolding count
  header =
      sym (take-append-drop 4 (drop offset p))
      ∙ ap (λ r. take 4 (drop offset p) ++ r)
          (sym (drop-add offset 4 p)
            ∙ drop-cons p (offset + 4) (omega arith)
            ∙ ap (λ n. get_or p (offset + 4) 0 ∷ drop n p) {x = suc (offset + 4)} (omega arith))

  -- The layout of `c` at `offset`, once its fields are what was read.
  layout_at :
      (c : DaylightConfiguration)
      → c.configuration_id ≡ from_bytes_le (slice p offset (offset + 4))
      → c.values ≡ vs
      → drop offset p ≡ encode_configuration c (take k name_at) ++ drop (suc k) name_at
  unfolding count name_at
  layout_at c same_id same_values =
      let (e, z, l) = find_nul_sound name_at k found in
      let (at, n, o) = values_at in
      let tail = drop (suc k) name_at in
      let regroup : encode_values vs ++ (take k name_at ++ 0 ∷ tail)
          ≡ (encode_values vs ++ (take k name_at ++ 0 ∷ [])) ++ tail =
        sym (
          append_assoc (encode_values vs) (take k name_at ++ 0 ∷ []) tail
          ∙ ap (λ t. encode_values vs ++ t) (append_assoc (take k name_at) (0 ∷ []) tail)) in
      header
      ∙ ap (λ t. t ++ (count ∷ drop (offset + 5) p)) (sym four_bytes)
      ∙ rw (same_id, same_values, n)
          (ap (λ t. to_bytes_le 4 (from_bytes_le (slice p offset (offset + 4))) ++ (count ∷ t))
            (at ∙ ap (λ t. encode_values vs ++ t) e ∙ regroup))

  -- The length of what was read.
  length_at :
      (c : DaylightConfiguration)
      → c.values ≡ vs
      → offset + length (encode_configuration c (take k name_at)) ≡ offset + 5 + count * 3 + k + 1
  unfolding name_at
  length_at c same_values =
      let (e, z, l) = find_nul_sound name_at k found in
      omega (
        arith,
        length-append (encode_values c.values) (take k name_at ++ 0 ∷ []),
        length-append (take k name_at) (0 ∷ []),
        length-take k name_at,
        length-encode_values c.values,
        values_at.1,
        ap length same_values,
      )

  pub wire :
      (utf8 : List ℕ → Option (List ℕ)) (allowed : List ℕ) (c : DaylightConfiguration)
      → utf8 (
          slice p
            (offset + 5 + get_or p (offset + 4) 0 * 3)
            (offset + 5 + get_or p (offset + 4) 0 * 3 + k))
        ≡ some c.name
      → all (λ x. not (is_control x)) c.name ≡ true
      → contains allowed (length p - (offset + 5 + get_or p (offset + 4) 0 * 3 + k + 1)) ≡ true
      → leb (get_or p (offset + 4) 0) max_daylight_values ≡ true
      → c.configuration_id ≡ from_bytes_le (slice p offset (offset + 4))
      → c.values ≡ vs
      → IsWire utf8 p offset allowed c (offset + 5 + get_or p (offset + 4) 0 * 3 + k + 1)
  unfolding count name_at
  wire utf8 allowed c decoded printed trailing counted same_id same_values =
      let (e, z, l) = find_nul_sound name_at k found in
      let (at, n, o) = values_at in
      record {
        name_bytes = take k name_at;
        tail = drop (suc k) name_at;
        offset_within = omega arith;
        layout = layout_at c same_id same_values;
        ends = sym (length_at c same_values);
        tail_allowed =
            ap (contains allowed) (
              omega (
                arith,
                length-drop (suc k) name_at,
                length-drop (offset + 5 + get_or p (offset + 4) 0 * 3) p,
              ))
            ∙ trailing;
        encodable = record {
          id_fits = rw same_id (
              from_bytes_le-lt_4 (slice p offset (offset + 4))
                (All-take IsByte (offset + 4 - offset) (drop offset p)
                  (All-drop IsByte offset p bytes))
                (omega (arith, length-take (offset + 4 - offset) (drop offset p))));
          count_fits = ground (arith, ap length same_values, n);
          values_ordered = rw same_values o;
          name_printable = unprintable c.name printed;
        };
        name_no_nul = z;
        name_decoded = ap utf8 (sym (slice-drop p (offset + 5 + count * 3) k)) ∙ decoded;
      }
