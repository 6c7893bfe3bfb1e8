-- ===== src/Protocol/Clock/Texts.antt =====
-- Times of the day as texts and back, of sanlight_mesh/protocol.py.
use sanlight_mesh_mqtt_gatew.Base.{
  ℕ, zero, suc, ◌*◌, ◌/◌, ◌%◌, ◌<◌, ℤ, pos, ◌≡◌, refl, ap, false, String, Option, some, [], ◌∷◌, ok,
  ◌≤◌, ◌>>=◌, arith,
}
use sanlight_mesh_mqtt_gatew.Value.{integer, checked_int}
use sanlight_mesh_mqtt_gatew.Protocol.Opcode.{
  ValueError, uptime_not_int, uptime_out_of_range, hour_range, minute_range, second_range,
}
use sanlight_mesh_mqtt_gatew.Protocol.Clock.{
  component, char_at, digit, add_two_digits, two_digits, clock_text, validate_uptime_seconds,
  format_seconds_as_clock, is_colon, split, in_range, milliseconds_of, check_clock, parse_parts,
  parse_clock_time,
}

abbrev NoColon : String → Type 0
NoColon String.[] = Unit
NoColon (String.◌∷◌ c s) = (is_colon c ≡ false) × NoColon s

char_at_lem : (s : String) (n : ℕ) → NoColon s → is_colon (char_at s n) ≡ false
char_at_lem String.[] n h = refl
char_at_lem (String.◌∷◌ c s) zero (h, hs) = h
char_at_lem (String.◌∷◌ c s) (suc n) (h, hs) = char_at_lem s n hs

digit_lem : (n : ℕ) → is_colon (digit n) ≡ false
digit_lem n =
    char_at_lem "0123456789" n
      (refl, (refl, (refl, (refl, (refl, (refl, (refl, (refl, (refl, (refl, tt))))))))))

split-two :
    (n : ℕ) (s : String) → split (add_two_digits n (String.◌∷◌ ":" s)) ≡ two_digits n ∷ split s
unfolding split
split-two n s = rw (digit_lem (n / 10), digit_lem (n % 10)) refl

split-last : (n : ℕ) → split (two_digits n) ≡ two_digits n ∷ []
unfolding split
split-last n = rw (digit_lem (n / 10), digit_lem (n % 10)) refl

checked_int_lem :
    (n : ℕ) (high : ℕ) (e₁ e₂ : ValueError)
    → n ≤ high
    → checked_int (integer (pos n)) 0 high e₁ e₂ ≡ ok n
unfolding checked_int
checked_int_lem n high e₁ e₂ h = ground arith

in_range_lem : (n high : ℕ) (e : ValueError) → n ≤ high → in_range high e (pos n) ≡ ok n
in_range_lem n high e h = ground arith

-- The text of a second of a day that is shown reads back as that second, in milliseconds; `strip` leaves
-- such a text, and `to_int` reads two digits.
module _ (strip : String → String) (to_int : String → Option ℤ) where
  component_lem : (h : String) (n : ℤ) → to_int h ≡ some n → component strip to_int h ≡ ok n
  component_lem h n e = rw (component, e) refl

  parts_lem :
      (h m s : String) (hour minute second : ℕ)
      → to_int h ≡ some (pos hour)
      → to_int m ≡ some (pos minute)
      → to_int s ≡ some (pos second)
      → hour ≤ 23
      → minute ≤ 59
      → second ≤ 59
      → parse_parts strip to_int (h ∷ m ∷ s ∷ []) ≡ ok (milliseconds_of hour minute second)
  unfolding parse_parts check_clock
  parts_lem h m s hour minute second a b c d e f =
      rw
        (
          component_lem h (pos hour) a,
          component_lem m (pos minute) b,
          component_lem s (pos second) c,
          in_range_lem hour 23 hour_range d,
          in_range_lem minute 59 minute_range e,
          in_range_lem second 59 second_range f,
        )
        refl

  pub parse_clock_time-format_seconds_as_clock :
      (seconds : ℕ)
      → seconds < 86400
      → strip (clock_text seconds "") ≡ clock_text seconds ""
      → ((n : ℕ) → n < 100 → to_int (two_digits n) ≡ some (pos n))
      → (format_seconds_as_clock (integer (pos seconds)) >>= parse_clock_time strip to_int)
        ≡ ok (seconds * 1000)
  unfolding format_seconds_as_clock validate_uptime_seconds parse_clock_time parse_parts check_clock
  parse_clock_time-format_seconds_as_clock seconds h stripped digits =
      let hours = seconds / 3600 in
      let minutes = seconds % 3600 / 60 in
      let rest = seconds % 3600 % 60 in
      let same : seconds % 86400 ≡ seconds = omega arith in
      rw
        (
          checked_int_lem seconds 4294967 uptime_not_int uptime_out_of_range (omega arith),
          same,
          stripped,
          split-two hours (add_two_digits minutes (String.◌∷◌ ":" (two_digits rest))),
          split-two minutes (two_digits rest),
          split-last rest,
          parts_lem _ _ _ hours minutes rest (digits hours (omega arith))
              (digits minutes (omega arith)) (digits rest (omega arith)) (omega arith) (omega arith)
              (omega arith),
        )
        (ap ok (omega arith))
