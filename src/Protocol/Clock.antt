-- ===== src/Protocol/Clock.antt =====
-- Lamp clocks of sanlight_mesh/protocol.py: the set-uptime message, and times of the day as texts.
pub mod Texts
use Prim.Native.Char.{Char, code}
use sanlight_mesh_mqtt_gatew.Base.{
  ℕ, zero, suc, ◌+◌, ◌*◌, ◌/◌, ◌%◌, ℤ, pos, negsuc, Bool, true, false, ◌||◌, String, Option, none,
  some, List, [], ◌∷◌, ◌++◌, drop, ◌==◌, if◌then◌else◌, Result, ok, err, ◌>>=◌, ◌>>◌, require,
  between, pos_part, length,
}
use sanlight_mesh_mqtt_gatew.Value.{Value, integer, checked_int}
use sanlight_mesh_mqtt_gatew.Protocol.Bytes.{to_bytes_le}
use sanlight_mesh_mqtt_gatew.Protocol.Opcode.{
  ValueError, vendor_opcode, set_uptime_opcode, is_set_uptime_status, uptime_not_int,
  uptime_out_of_range, not_set_uptime_status, time_format, time_component, hour_range, minute_range,
  second_range,
}

unfoldable pub validate_uptime_milliseconds : Value → Result ValueError ℕ
unfolding checked_int
validate_uptime_milliseconds milliseconds =
    checked_int milliseconds 0 0xFFFFFFFF uptime_not_int uptime_out_of_range

unfoldable pub validate_uptime_seconds : Value → Result ValueError ℕ
unfolding checked_int
validate_uptime_seconds seconds = checked_int seconds 0 4294967 uptime_not_int uptime_out_of_range

unfoldable pub build_set_uptime_pdu : Value → Result ValueError (List ℕ)
unfolding validate_uptime_milliseconds
build_set_uptime_pdu milliseconds = do
  value ← validate_uptime_milliseconds milliseconds
  prefix ← vendor_opcode set_uptime_opcode
  ok (prefix ++ to_bytes_le 4 value)

unfoldable pub set_uptime_status_parameters : List ℕ → Result ValueError (List ℕ)
set_uptime_status_parameters pdu = do
  require (is_set_uptime_status pdu) not_set_uptime_status
  ok (drop 3 pdu)

abbrev pub char_at : String → ℕ → Char
char_at String.[] n = "0"
char_at (String.◌∷◌ c s) zero = c
char_at (String.◌∷◌ c s) (suc n) = char_at s n

abbrev pub digit : ℕ → Char
digit n = char_at "0123456789" n

-- `f"{n:02d}"` below 100, and `f"{n:03d}"` below 1000, followed by another text.
abbrev pub add_two_digits : ℕ → String → String
add_two_digits n rest = String.◌∷◌ (digit (n / 10)) (String.◌∷◌ (digit (n % 10)) rest)

abbrev pub two_digits : ℕ → String
two_digits n = add_two_digits n ""

abbrev pub three_digits : ℕ → String
three_digits n = String.◌∷◌ (digit (n / 100)) (two_digits (n % 100))

-- The hours, minutes and seconds of a number of seconds, followed by another text.
abbrev pub clock_text : ℕ → String → String
clock_text seconds rest = add_two_digits (seconds / 3600) (
    String.◌∷◌ ":" (
      add_two_digits (seconds % 3600 / 60)
        (String.◌∷◌ ":" (add_two_digits (seconds % 3600 % 60) rest))))

unfoldable pub format_milliseconds_as_clock : Value → Result ValueError String
unfolding validate_uptime_milliseconds
format_milliseconds_as_clock milliseconds = do
  v ← validate_uptime_milliseconds milliseconds
  ok (
      let value = v % 86400000 in
      clock_text (value / 1000) (String.◌∷◌ "." (three_digits (value % 1000))))

unfoldable pub format_seconds_as_clock : Value → Result ValueError String
unfolding validate_uptime_seconds
format_seconds_as_clock seconds = do
  v ← validate_uptime_seconds seconds
  ok (clock_text (v % 86400) "")

abbrev pub is_colon : Char → Bool
is_colon c = code c == 58

abbrev pub prepend : Char → List String → List String
prepend c [] = String.◌∷◌ c "" ∷ []
prepend c (s ∷ r) = String.◌∷◌ c s ∷ r

-- `text.split(":")`
unfoldable pub split : String → List String
split String.[] = "" ∷ []
split (String.◌∷◌ c s) = let rest = split s in if is_colon c then "" ∷ rest else prepend c rest

-- A component in its range.
abbrev pub in_range : ℕ → ValueError → ℤ → Result ValueError ℕ
in_range high e n = if between 0 high n then ok (pos_part n) else err e

abbrev pub milliseconds_of : ℕ → ℕ → ℕ → ℕ
milliseconds_of hour minute second = (hour * 3600 + minute * 60 + second) * 1000

-- `strip` is the method of a text, and `to_int` is `int(text, 10)`.
module _ (strip : String → String) (to_int : String → Option ℤ) where
  abbrev pub component : String → Result ValueError ℤ
  component s = elim (to_int s) [ none ↦ err time_component | some n ↦ ok n ]

  unfoldable pub check_clock : ℤ → ℤ → ℤ → Result ValueError ℕ
  check_clock h m s = do
    hour ← in_range 23 hour_range h
    minute ← in_range 59 minute_range m
    second ← in_range 59 second_range s
    ok (milliseconds_of hour minute second)

  unfoldable pub parse_parts : List String → Result ValueError ℕ
  unfolding check_clock
  parse_parts (h ∷ m ∷ []) = do
    hour ← component h
    minute ← component m
    check_clock hour minute (pos 0)
  parse_parts (h ∷ m ∷ s ∷ []) = do
    hour ← component h
    minute ← component m
    second ← component s
    check_clock hour minute second
  parse_parts _ = err time_format

  unfoldable pub parse_clock_time : String → Result ValueError ℕ
  unfolding parse_parts
  parse_clock_time value = parse_parts (split (strip value))
