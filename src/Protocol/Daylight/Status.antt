-- ===== src/Protocol/Daylight/Status.antt =====
-- The decoder of the two daylight status PDUs.
use sanlight_mesh_mqtt_gatew.Base.{
  ok-injective, ℕ, ◌≡◌, ◌∙◌, refl, ap, ◌⊎◌, inl, inr, ℤ, pos, negsuc, Bool, ◌||◌, if◌then◌else◌,
  true, false, Option, none, some, List, [], ◌∷◌, drop, take, length, subst, >>=-eq-ok,
  raise_if-eq-ok, require-eq-ok, get_or, ok, err, arith, Result, ◌==◌, ltb, Bool-cases,
}
use sanlight_mesh_mqtt_gatew.Protocol.Opcode.{
  ValueError, is_get_daylight_configuration_status, is_get_combined_daylight_data_status,
  starts_with_opcode, starts_with_opcode_sound, starts_with_opcode_complete,
}
use sanlight_mesh_mqtt_gatew.Value.{integer}
use sanlight_mesh_mqtt_gatew.Protocol.Live.{decode_uptime_brightness_status_parameters}
use sanlight_mesh_mqtt_gatew.Protocol.Brightness.{validate_reported_max_brightness}
use sanlight_mesh_mqtt_gatew.Protocol.Daylight.{
  DaylightStatus, parsed, decode_daylight_status_pdu, parse_configuration, parse_combined, or_raw,
  is_opcode, expected_status_opcode, status_opcode_of, decode_daylight_configuration_at,
}

-- What the program keeps of a response: all of its bytes and the request, and either a
-- configuration or the reason why there is none.
pub record IsFaithful (pdu : List ℕ) (request : ℤ) (s : DaylightStatus) : Type 0 where
  pub same_pdu : s.raw_pdu ≡ pdu
  pub same_request : s.request_opcode ≡ request
  pub parsed_or_error :
      ((parsed s ≡ true) × (s.parse_error ≡ none))
      ⊎ ((parsed s ≡ false) × ((e : ValueError) × (s.parse_error ≡ some e)))

-- A 0x04 status to request 0x03, or a 0x0F status to request 0x0E.
abbrev pub Answers : List ℕ → ℤ → Type 0
Answers pdu request =
    ((request ≡ pos 3) × (pdu ≡ 196 ∷ 139 ∷ 10 ∷ drop 3 pdu))
    ⊎ ((request ≡ pos 14) × (pdu ≡ 207 ∷ 139 ∷ 10 ∷ drop 3 pdu))

status_opcode_of_sound :
    (pdu : List ℕ) (o : ℕ)
    → status_opcode_of pdu ≡ ok o
    → ((o ≡ 4) × (pdu ≡ 196 ∷ 139 ∷ 10 ∷ drop 3 pdu))
      ⊎ ((o ≡ 15) × (pdu ≡ 207 ∷ 139 ∷ 10 ∷ drop 3 pdu))
unfolding status_opcode_of
status_opcode_of_sound pdu o h = elim (Bool-cases (is_get_daylight_configuration_status pdu)) [
  | inl c ↦ inl (ground arith, starts_with_opcode_sound pdu 4 (omega arith) c)
  | inr n ↦ elim (Bool-cases (is_get_combined_daylight_data_status pdu)) [
    | inl c ↦ inr (ground arith, starts_with_opcode_sound pdu 15 (omega arith) c)
    | inr n' ↦ absurd (ground arith)
  ]
]

pub status_opcode_of-configuration :
    (pdu : List ℕ) → pdu ≡ 196 ∷ 139 ∷ 10 ∷ drop 3 pdu → status_opcode_of pdu ≡ ok 4
unfolding status_opcode_of
status_opcode_of-configuration pdu e =
    let t =
      ap (λ x. starts_with_opcode x 4) e
      ∙ starts_with_opcode_complete 4 (drop 3 pdu) (omega arith) in
    rw t

status_opcode_of-combined :
    (pdu : List ℕ) → pdu ≡ 207 ∷ 139 ∷ 10 ∷ drop 3 pdu → status_opcode_of pdu ≡ ok 15
unfolding status_opcode_of
status_opcode_of-combined pdu e =
    let t =
      ap (λ x. starts_with_opcode x 15) e
      ∙ starts_with_opcode_complete 15 (drop 3 pdu) (omega arith) in
    elim (Bool-cases (is_get_daylight_configuration_status pdu)) [
      | inl c ↦ absurd (
          omega (
            arith,
            ap (λ (x : List ℕ). get_or x 0 0) (starts_with_opcode_sound pdu 4 (omega arith) c),
            ap (λ (x : List ℕ). get_or x 0 0) e,
          ))
      | inr n ↦ rw (n, t)
    ]

-- Which request a status opcode answers.
request_of_4 :
    (request : ℤ) (o : ℕ)
    → (is_opcode request 3 || is_opcode request 14) ≡ true
    → (o == expected_status_opcode request) ≡ true
    → o ≡ 4
    → request ≡ pos 3
request_of_4 (pos n) o h k e = ground arith
request_of_4 (negsuc n) o h k e = cc

request_of_15 :
    (request : ℤ) (o : ℕ)
    → (is_opcode request 3 || is_opcode request 14) ≡ true
    → (o == expected_status_opcode request) ≡ true
    → o ≡ 15
    → request ≡ pos 14
request_of_15 (pos n) o h k e = ground arith
request_of_15 (negsuc n) o h k e = cc

module _ (utf8 : List ℕ → Option (List ℕ)) (pdu : List ℕ) (request : ℤ) where
  or_raw-IsFaithful :
      (o : ℕ) (r : Result ValueError DaylightStatus)
      → ((s : DaylightStatus) → r ≡ ok s → IsFaithful pdu request s)
      → IsFaithful pdu request (or_raw utf8 request o pdu r)
  unfolding or_raw
  or_raw-IsFaithful o (ok s) h = h s refl
  or_raw-IsFaithful o (err e) h = record {
    same_pdu = refl;
    same_request = refl;
    parsed_or_error = inr (refl, (e, refl));
  }

  parse_configuration-IsFaithful :
      (o : ℕ) (s : DaylightStatus)
      → parse_configuration utf8 request o pdu ≡ ok s
      → IsFaithful pdu request s
  unfolding parse_configuration
  parse_configuration-IsFaithful o s h =
      let (x, hx, e) =
        >>=-eq-ok (decode_daylight_configuration_at utf8 (drop 3 pdu) 0 (0 ∷ [])) _ h in
      subst (IsFaithful pdu request) (ok-injective e)
        (record { same_pdu = refl; same_request = refl; parsed_or_error = inl (refl, refl) })

  parse_combined-IsFaithful :
      (o : ℕ) (s : DaylightStatus)
      → parse_combined utf8 request o pdu ≡ ok s
      → IsFaithful pdu request s
  unfolding parse_combined
  parse_combined-IsFaithful o s h₀ =
      let (t, h₁) = raise_if-eq-ok (ltb (length (drop 3 pdu)) 7) _ _ h₀ in
      let (live, hl, h₂) =
        >>=-eq-ok (decode_uptime_brightness_status_parameters (take 6 (drop 3 pdu))) _ h₁ in
      let (m, hm, h₃) =
        >>=-eq-ok (validate_reported_max_brightness (integer (pos (get_or (drop 3 pdu) 6 0)))) _
          h₂ in
      let (x, hx, e) =
        >>=-eq-ok (decode_daylight_configuration_at utf8 (drop 3 pdu) 7 (0 ∷ [])) _ h₃ in
      subst (IsFaithful pdu request) (ok-injective e)
        (record { same_pdu = refl; same_request = refl; parsed_or_error = inl (refl, refl) })

  dispatch-IsFaithful :
      (b : Bool) (o : ℕ)
      → IsFaithful pdu request (
          or_raw utf8 request o pdu (
            if b
            then parse_configuration utf8 request o pdu
            else parse_combined utf8 request o pdu))
  dispatch-IsFaithful true o =
      or_raw-IsFaithful o (parse_configuration utf8 request o pdu)
        (parse_configuration-IsFaithful o)
  dispatch-IsFaithful false o =
      or_raw-IsFaithful o (parse_combined utf8 request o pdu) (parse_combined-IsFaithful o)

  decoded-IsFaithful :
      (s : DaylightStatus)
      → decode_daylight_status_pdu utf8 pdu request ≡ ok s
      → IsFaithful pdu request s
  unfolding decode_daylight_status_pdu
  decoded-IsFaithful s h₀ =
      let (t₁, h₁) = require-eq-ok (is_opcode request 3 || is_opcode request 14) _ _ h₀ in
      let (o, ho, h₂) = >>=-eq-ok (status_opcode_of pdu) _ h₁ in
      let (t₂, e) = require-eq-ok (o == expected_status_opcode request) _ _ h₂ in
      subst (IsFaithful pdu request) (ok-injective e) (dispatch-IsFaithful (o == 4) o)

  decoded-Answers :
      (s : DaylightStatus)
      → decode_daylight_status_pdu utf8 pdu request ≡ ok s
      → Answers pdu request
  unfolding decode_daylight_status_pdu
  decoded-Answers s h₀ =
      let (t₁, h₁) = require-eq-ok (is_opcode request 3 || is_opcode request 14) _ _ h₀ in
      let (o, ho, h₂) = >>=-eq-ok (status_opcode_of pdu) _ h₁ in
      let (t₂, e) = require-eq-ok (o == expected_status_opcode request) _ _ h₂ in
      elim (status_opcode_of_sound pdu o ho) [
        | inl p ↦ inl (request_of_4 request o t₁ t₂ p.0, p.1)
        | inr p ↦ inr (request_of_15 request o t₁ t₂ p.0, p.1)
      ]

  -- A response that is decoded keeps all of its bytes and the request, and holds a configuration
  -- and no error, or an error and no configuration; and its opcode answers its request, 0x04 to
  -- 0x03 or 0x0F to 0x0E.
  pub decode_daylight_status_pdu-IsFaithful :
      (s : DaylightStatus)
      → decode_daylight_status_pdu utf8 pdu request ≡ ok s
      → IsFaithful pdu request s × Answers pdu request
  unfolding decode_daylight_status_pdu
  decode_daylight_status_pdu-IsFaithful s h = (decoded-IsFaithful s h, decoded-Answers s h)
