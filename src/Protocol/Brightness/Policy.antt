-- ===== src/Protocol/Brightness/Policy.antt =====
-- What can be written as a MaxBrightness, and what can be read.
use sanlight_mesh_mqtt_gatew.Base.{
  ℕ, ◌≤◌, ◌≡◌, ◌≢◌, ◌∙◌, require, ◌>>◌, get_or, ap, refl, ◌↔◌, true, List, [], ◌∷◌, pos, length,
  drop, ok, arith, ◌==◌,
}
use sanlight_mesh_mqtt_gatew.Value.{Value, integer}
use sanlight_mesh_mqtt_gatew.Protocol.Opcode.{
  vendor_opcode-eq, starts_with_opcode_sound, starts_with_opcode_complete,
  is_get_max_brightness_status, not_one_value_byte,
}
use sanlight_mesh_mqtt_gatew.Protocol.Brightness.{
  build_set_max_brightness_pdu, build_blackout_pdu, validate_reported_max_brightness,
  get_max_brightness_status_value,
}

abbrev Writable : Value → List ℕ → Type 0
Writable percent pdu =
    (n : ℕ) × (percent ≡ integer (pos n)) × (20 ≤ n) × (n ≤ 100) × (pdu ≡ 198 ∷ 139 ∷ 10 ∷ n ∷ [])

build_set_max_brightness_pdu_sound :
    (percent : Value) (pdu : List ℕ)
    → build_set_max_brightness_pdu percent ≡ ok pdu
    → Writable percent pdu
unfolding build_set_max_brightness_pdu
build_set_max_brightness_pdu_sound (integer (pos n)) pdu h =
    let h' = rw (vendor_opcode-eq 6 (omega arith)) at h in
    (n, refl, ground arith, ground arith, ground arith)
build_set_max_brightness_pdu_sound _ pdu h =
    absurd (let h' = rw (vendor_opcode-eq 6 (omega arith)) at h in ground arith)

build_set_max_brightness_pdu_complete :
    (n : ℕ)
    → 20 ≤ n
    → n ≤ 100
    → build_set_max_brightness_pdu (integer (pos n)) ≡ ok (198 ∷ 139 ∷ 10 ∷ n ∷ [])
unfolding build_set_max_brightness_pdu
build_set_max_brightness_pdu_complete n lo hi = rw (vendor_opcode-eq 6 (omega arith)) (ground arith)

-- A PDU is built for exactly the integers 20 to 100, no Boolean and no other value, and its bytes
-- are the vendor prefix of opcode 6 and that number.
pub build_set_max_brightness_pdu_iff :
    (percent : Value) (pdu : List ℕ)
    → (build_set_max_brightness_pdu percent ≡ ok pdu) ↔ (
        (n : ℕ) × (percent ≡ integer (pos n))
        × (20 ≤ n)
        × (n ≤ 100)
        × (pdu ≡ 198 ∷ 139 ∷ 10 ∷ n ∷ []))
build_set_max_brightness_pdu_iff percent pdu = (
  build_set_max_brightness_pdu_sound percent pdu,
  λ w. rw (w.1, w.4) (build_set_max_brightness_pdu_complete w.0 w.2 w.3),
)

-- The blackout PDU is built, it is the vendor prefix of opcode 6 and a zero, and no argument makes
-- the ordinary write build it.
pub build_blackout_pdu_distinct :
    (percent : Value)
    → (build_blackout_pdu ≡ ok (198 ∷ 139 ∷ 10 ∷ 0 ∷ []))
      × (build_set_max_brightness_pdu percent ≢ build_blackout_pdu)
unfolding build_blackout_pdu
build_blackout_pdu_distinct percent = (
  rw (vendor_opcode-eq 6 (omega arith)),
  λ h.
      let w =
        build_set_max_brightness_pdu_sound percent (198 ∷ 139 ∷ 10 ∷ 0 ∷ [])
          (h ∙ rw (vendor_opcode-eq 6 (omega arith))) in
      ground (arith, w.2, w.4),
)

-- What the parameters of a status are, when they are decoded.
parameters_sound :
    (parameters : List ℕ) (v : ℕ)
    → (require (length parameters == 1) not_one_value_byte
        >> validate_reported_max_brightness (integer (pos (get_or parameters 0 0))))
      ≡ ok v
    → (parameters ≡ v ∷ []) × (v ≤ 100)
unfolding validate_reported_max_brightness
parameters_sound [] v h = cc
parameters_sound (x ∷ []) v h = ground arith
parameters_sound (x ∷ y ∷ r) v h = ground arith

value_sound :
    (pdu : List ℕ) (v : ℕ)
    → get_max_brightness_status_value pdu ≡ ok v
    → (pdu ≡ 201 ∷ 139 ∷ 10 ∷ v ∷ []) × (v ≤ 100)
unfolding get_max_brightness_status_value
value_sound pdu v h =
    let s : is_get_max_brightness_status pdu ≡ true = ground arith in
    let (e, b) = parameters_sound (drop 3 pdu) v (rw s at h) in
    (starts_with_opcode_sound pdu 9 (omega arith) s ∙ ap (λ r. 201 ∷ 139 ∷ 10 ∷ r) e, b)

-- A PDU is read as the MaxBrightness `v` exactly when it is the vendor prefix of opcode 9 and the
-- one byte `v`, and `v` is at most 100: the off state 0 and the values 1 to 19, which cannot be
-- written, are read too.
pub get_max_brightness_status_value_iff :
    (pdu : List ℕ) (v : ℕ)
    → (get_max_brightness_status_value pdu ≡ ok v) ↔ ((pdu ≡ 201 ∷ 139 ∷ 10 ∷ v ∷ []) × (v ≤ 100))
unfolding get_max_brightness_status_value
get_max_brightness_status_value_iff pdu v = (
  value_sound pdu v,
  λ w. rw (w.0, starts_with_opcode_complete 9 (v ∷ []) (omega arith)) (ground arith),
)
