-- ===== src/ClockWrite.antt =====
-- The verification of a clock write, `_clock_write` of sanlight_mesh/gateway_executor.py: from what the
-- two processes of each lamp gave, whether its clock is verified, and the status of the command.
use sanlight_mesh_mqtt_gatew.Base.{
  ℕ, ◌+◌, ◌-◌, ◌*◌, ◌/◌, ◌%◌, ◌≤◌, ◌<◌, ℤ, pos, negsuc, ◌≡◌, refl, ◌↔◌, ◌⊎◌, inl, inr, Bool, true,
  false, Bool-cases, ◌&&◌, String, Option, none, some, List, [], ◌∷◌, ltb, leb, ==_iff, ◌==◌, arith,
  if◌then◌else◌, str_eq, eq_iff, &&-split, ap, sym, subst, length, All, some-inj,
}

abbrev pub seconds_per_day : ℕ
seconds_per_day = 86400

-- CLOCK_VERIFICATION_TOLERANCE_SECONDS
abbrev pub tolerance : ℕ
tolerance = 5

-- `_circular_clock_difference`. The modulo of Python is not negative: whole days are added before the
-- subtraction.
unfoldable pub circular_clock_difference : ℕ → ℕ → ℤ
circular_clock_difference reported expected =
    let shifted =
      (reported + 43200 + seconds_per_day * (expected / seconds_per_day + 1) - expected)
      % seconds_per_day in
    if ltb shifted 43200 then negsuc (43200 - shifted - 1) else pos (shifted - 43200)

-- `abs(difference) <= CLOCK_VERIFICATION_TOLERANCE_SECONDS`
abbrev pub within_tolerance : ℤ → Bool
within_tolerance (pos n) = leb n tolerance
within_tolerance (negsuc n) = leb (n + 1) tolerance

-- What the processes of one lamp gave: whether each exited with 0, the address and the lamp time in
-- milliseconds that were read, and the second of the day that is expected then.
pub record Lamp : Type 0 where
  pub address : String
  pub write_succeeded : Bool
  pub read_succeeded : Bool
  pub parsed_live : Option (String × ℕ)
  pub expected_seconds : ℕ

abbrev pub reported_seconds : ℕ → ℕ
reported_seconds lamp_time_ms = lamp_time_ms / 1000 % seconds_per_day

abbrev pub check_reading : String → Option (String × ℕ) → ℕ → Bool
check_reading address none expected = false
check_reading address (some (a, ms)) expected =
    str_eq a address && within_tolerance (circular_clock_difference (reported_seconds ms) expected)

-- `details["status"] == "verified"`
unfoldable pub clock_verified : Lamp → Bool
clock_verified lamp =
    lamp.read_succeeded
    && (lamp.write_succeeded && check_reading lamp.address lamp.parsed_live lamp.expected_seconds)

unfoldable pub verified_count : List Lamp → ℕ
verified_count [] = 0
verified_count (lamp ∷ lamps) =
    let rest = verified_count lamps in if clock_verified lamp then rest + 1 else rest

pub data Status : Type 0 where
  verified partial unconfirmed : Status

-- The `ok` and the status of the result.
unfoldable pub clock_write : List Lamp → Bool × Status
clock_write lamps =
    let count = verified_count lamps in
    let is_ok = count == length lamps in
    (is_ok, if is_ok then verified else if count == 0 then unconfirmed else partial)

-- Two seconds of the day that are at most five seconds apart, over midnight too.
abbrev pub Near : ℕ → ℕ → Type 0
Near reported expected =
    ((reported ≤ expected + 5) × (expected ≤ reported + 5))
    ⊎ (reported + seconds_per_day ≤ expected + 5)
    ⊎ (expected + seconds_per_day ≤ reported + 5)

abbrev pub IsVerified : Lamp → Type 0
IsVerified lamp =
    (lamp.read_succeeded ≡ true)
    × (lamp.write_succeeded ≡ true)
    × ((ms : ℕ) × (lamp.parsed_live ≡ some (lamp.address, ms))
        × Near (reported_seconds ms) lamp.expected_seconds)

within_iff :
    (reported expected : ℕ)
    → reported < seconds_per_day
    → expected < seconds_per_day
    → (within_tolerance (circular_clock_difference reported expected) ≡ true)
      ↔ Near reported expected
unfolding circular_clock_difference
within_iff reported expected r e = ground arith

below_day : (ms : ℕ) → reported_seconds ms < seconds_per_day
below_day ms = omega arith

reading_iff :
    (address : String) (parsed : Option (String × ℕ)) (expected : ℕ)
    → expected < seconds_per_day
    → (check_reading address parsed expected ≡ true)
      ↔ ((ms : ℕ) × (parsed ≡ some (address, ms)) × Near (reported_seconds ms) expected)
reading_iff address none expected e = (λ h. cc, λ (ms, h, n). cc)
reading_iff address (some (a, ms)) expected e =
    let near = within_iff (reported_seconds ms) expected (below_day ms) e in
    (
      λ h.
          let (s, w) = &&-split (str_eq a address) _ h in
          let same : a ≡ address = (eq_iff a address).0 s in
          (ms, ap (λ x. some (x, ms)) same, near.0 w),
      λ (k, h, n).
          let p = some-inj h in
          let same : str_eq a address ≡ true =
            (eq_iff a address).1 (ap (λ (x : String × ℕ). x.0) p) in
          let time : k ≡ ms = sym (ap (λ (x : String × ℕ). x.1) p) in
          rw (same, near.1 (subst (λ t. Near (reported_seconds t) expected) time n)),
    )

clock_verified_iff :
    (lamp : Lamp)
    → lamp.expected_seconds < seconds_per_day
    → (clock_verified lamp ≡ true) ↔ IsVerified lamp
unfolding clock_verified
clock_verified_iff lamp e =
    let reading = reading_iff lamp.address lamp.parsed_live lamp.expected_seconds e in
    (
      λ h.
          let (r, h₁) = &&-split lamp.read_succeeded _ h in
          let (w, h₂) = &&-split lamp.write_succeeded _ h₁ in (r, w, reading.0 h₂),
      λ (r, w, n). rw (r, w, reading.1 n),
    )

pub count_le : (lamps : List Lamp) → verified_count lamps ≤ length lamps
unfolding verified_count
count_le [] = omega arith
count_le (lamp ∷ lamps) = ground (arith, count_le lamps)

count_every :
    (lamps : List Lamp)
    → All (λ lamp. lamp.expected_seconds < seconds_per_day) lamps
    → (verified_count lamps ≡ length lamps) ↔ All IsVerified lamps
unfolding verified_count
count_every [] e = (λ h. tt, λ h. refl)
count_every (lamp ∷ lamps) (e, es) =
    let rest = count_every lamps es in
    let this = clock_verified_iff lamp e in
    let le = count_le lamps in
    elim (Bool-cases (clock_verified lamp)) [
      | inl v ↦
          rw v (λ h. (this.0 v, rest.0 (omega arith)), λ (a, b). let c = rest.1 b in omega arith)
      | inr v ↦ rw v (λ h. ground arith, λ (a, b). let t = this.1 a in cc)
    ]

-- The command is successful, with the status `verified`, exactly when each lamp acknowledged the write
-- by its process, and was read back with its own address at most five seconds away from what is
-- expected, over midnight too. The expected times are seconds of the day.
pub clock_write_iff :
    (lamps : List Lamp)
    → All (λ lamp. lamp.expected_seconds < seconds_per_day) lamps
    → (clock_write lamps ≡ (true, verified)) ↔ All IsVerified lamps
unfolding clock_write
clock_write_iff lamps e =
    let all = count_every lamps e in
    let equal = ==_iff (verified_count lamps) (length lamps) in
    (λ h. all.0 (equal.0 (ap (λ (x : Bool × Status). x.0) h)), λ h. rw (equal.1 (all.1 h)))
