-- ===== src/Protocol/Opcode/Prefix.antt =====
-- `_vendor_opcode`, and the test on the first three bytes of a PDU that each status predicate of
-- sanlight_mesh/protocol.py makes.
use Prim.Native.Nat.{bit_or}
use sanlight_mesh_mqtt_gatew.Base.{
  ℕ, zero, suc, ◌+◌, ◌/◌, ◌%◌, ◌<◌, ◌≡◌, refl, sym, ◌∙◌, ap, Bool, true, ◌&&◌, List, [], ◌∷◌, ◌++◌,
  arith, length, take, drop, leb, ◌==◌, if◌then◌else◌, Result, ok, err, take-append-drop, &&-split,
}
use sanlight_mesh_mqtt_gatew.Protocol.Bytes.{bytes_eq, bytes_eq_sound}

-- The messages of the `ValueError`s that sanlight_mesh/protocol.py raises.
pub data ValueError : Type 0 where
  opcode_not_six_bits max_brightness_not_int max_brightness_out_of_range : ValueError
  not_get_max_status reported_not_int reported_out_of_range not_one_value_byte : ValueError
  lamp_time_not_int lamp_time_not_uint32 live_raw_not_int live_raw_not_uint16 : ValueError
  not_six_parameter_bytes not_uptime_status : ValueError
  daylight_time_not_int daylight_time_out_of_range : ValueError
  daylight_brightness_not_int daylight_brightness_out_of_range : ValueError
  configuration_id_not_uint32 too_many_values values_not_ordered : ValueError
  invalid_offset payload_too_short count_exceeds truncated name_not_terminated : ValueError
  name_not_utf8 name_control_character unsupported_trailing_length : ValueError
  unsupported_request not_daylight_status status_mismatch combined_too_short : ValueError
  uptime_not_int uptime_out_of_range not_set_uptime_status : ValueError
  time_format time_component hour_range minute_range second_range : ValueError
  ttl_not_int ttl_out_of_range not_ttl_status : ValueError
  element_not_unicast app_index_not_12_bits not_transmit_status : ValueError
  destination_length destination_not_hex : ValueError

abbrev pub company_id : ℕ
company_id = 0x0A8B

-- The tuple `(0xC0 | opcode, SANLIGHT_COMPANY_ID & 0xFF, SANLIGHT_COMPANY_ID >> 8)`.
unfoldable pub opcode_bytes : ℕ → List ℕ
opcode_bytes opcode = bit_or 0xC0 opcode ∷ company_id % 256 ∷ company_id / 256 ∷ []

unfoldable pub vendor_opcode : ℕ → Result ValueError (List ℕ)
unfolding opcode_bytes
vendor_opcode opcode = if leb opcode 0x3F then ok (opcode_bytes opcode) else err opcode_not_six_bits

-- `len(data) >= 3 and data[:3] == _vendor_opcode(opcode)`, for an opcode of six bits.
unfoldable pub starts_with_opcode : List ℕ → ℕ → Bool
unfolding opcode_bytes bytes_eq
starts_with_opcode pdu opcode = leb 3 (length pdu) && bytes_eq (take 3 pdu) (opcode_bytes opcode)

-- The six low bits of an opcode do not meet the two high ones: by a table of them all.
adds_low_bits : ℕ → Bool
adds_low_bits zero = true
adds_low_bits (suc k) = adds_low_bits k && bit_or 0xC0 k == 192 + k

adds_low_bits_lem : (k x : ℕ) → x < k → adds_low_bits k ≡ true → bit_or 0xC0 x ≡ 192 + x
unfolding adds_low_bits
adds_low_bits_lem zero x h t = absurd (omega arith)
adds_low_bits_lem (suc k) x h t = ground (arith, adds_low_bits_lem k x)

table : adds_low_bits 64 ≡ true
unfolding adds_low_bits
table = refl

bit_or-opcode : (x : ℕ) → x < 64 → bit_or 0xC0 x ≡ 192 + x
bit_or-opcode x h = adds_low_bits_lem 64 x h table

pub vendor_opcode-eq : (x : ℕ) → x < 64 → vendor_opcode x ≡ ok ((192 + x) ∷ 139 ∷ 10 ∷ [])
unfolding vendor_opcode
vendor_opcode-eq x h = rw (le_bool x h, bit_or-opcode x h)
  where
    le_bool : (x : ℕ) → x < 64 → leb x 0x3F ≡ true
    le_bool x h = ground arith

pub starts_with_opcode_sound :
    (pdu : List ℕ) (opcode : ℕ)
    → opcode < 64
    → starts_with_opcode pdu opcode ≡ true
    → pdu ≡ (192 + opcode) ∷ 139 ∷ 10 ∷ drop 3 pdu
unfolding starts_with_opcode
starts_with_opcode_sound pdu opcode lt h =
    let e = bytes_eq_sound (take 3 pdu) (opcode_bytes opcode) (&&-split _ _ h).1 in
    sym (take-append-drop 3 pdu)
    ∙ ap (λ t. t ++ drop 3 pdu) e
    ∙ ap (λ b. b ∷ 139 ∷ 10 ∷ drop 3 pdu) (bit_or-opcode opcode lt)

pub starts_with_opcode_complete :
    (opcode : ℕ) (rest : List ℕ)
    → opcode < 64
    → starts_with_opcode ((192 + opcode) ∷ 139 ∷ 10 ∷ rest) opcode ≡ true
unfolding starts_with_opcode
starts_with_opcode_complete opcode rest lt = rw (bit_or-opcode opcode lt) (ground arith)
