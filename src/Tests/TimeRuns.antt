-- ===== src/Tests/TimeRuns.antt =====
-- Tests of the times of the day of sanlight_mesh/protocol.py.
use Prim.Native.Char.{code}
use sanlight_mesh_mqtt_gatew.Base.{
  ℕ, zero, suc, ◌+◌, ◌*◌, ◌-◌, ◌/◌, ◌%◌, ◌<◌, ℤ, pos, ◌≡◌, refl, ap, String, Option, none, some, ok,
  ◌>>=◌, arith,
}
use sanlight_mesh_mqtt_gatew.Value.{integer}
use sanlight_mesh_mqtt_gatew.Protocol.Clock.{
  digit, two_digits, format_seconds_as_clock, parse_clock_time,
}
use sanlight_mesh_mqtt_gatew.Protocol.Clock.Texts.{parse_clock_time-format_seconds_as_clock}

-- The number of two decimal digits.
abbrev int_of_digits : String → Option ℤ
int_of_digits (String.◌∷◌ c (String.◌∷◌ d String.[])) =
    some (pos ((code c - 48) * 10 + (code d - 48)))
int_of_digits _ = none

code_digit : (n : ℕ) → n < 10 → code (digit n) - 48 ≡ n
code_digit zero h = refl
code_digit (suc zero) h = refl
code_digit (suc (suc zero)) h = refl
code_digit (suc (suc (suc zero))) h = refl
code_digit (suc (suc (suc (suc zero)))) h = refl
code_digit (suc (suc (suc (suc (suc zero))))) h = refl
code_digit (suc (suc (suc (suc (suc (suc zero)))))) h = refl
code_digit (suc (suc (suc (suc (suc (suc (suc zero))))))) h = refl
code_digit (suc (suc (suc (suc (suc (suc (suc (suc zero)))))))) h = refl
code_digit (suc (suc (suc (suc (suc (suc (suc (suc (suc zero))))))))) h = refl
code_digit (suc (suc (suc (suc (suc (suc (suc (suc (suc (suc n)))))))))) h = ground arith

int_of_two_digits : (n : ℕ) → n < 100 → int_of_digits (two_digits n) ≡ some (pos n)
int_of_two_digits n h =
    let a = code_digit (n / 10) (omega arith) in
    let b = code_digit (n % 10) (omega arith) in ap (λ x. some (pos x)) (rw (a, b) (omega arith))

parse_clock_time-format_seconds_as_clock_example :
    (format_seconds_as_clock (integer (pos 43265)) >>= parse_clock_time (λ s. s) int_of_digits)
    ≡ ok 43265000
parse_clock_time-format_seconds_as_clock_example =
    parse_clock_time-format_seconds_as_clock (λ s. s) int_of_digits 43265 (omega arith) refl
      int_of_two_digits
