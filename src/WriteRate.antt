-- ===== src/WriteRate.antt =====
-- The guard against frequent brightness writes, sanlight_mesh/traffic_safety.py. Times are in
-- microseconds. `read_state` and `write_state` are the file of the guard: what it holds, or nothing.
use sanlight_mesh_mqtt_gatew.Base.{
  ℕ, ◌+◌, ◌-◌, ◌≤◌, ◌<◌, ℤ, pos, negsuc, ◌≡◌, refl, ◌⊎◌, inl, inr, Bool, true, false, Bool-cases,
  String, Option, none, some, ltb, leb, ltb→lt, arith, if◌then◌else◌, Result, ok, err,
}
use sanlight_mesh_mqtt_gatew.Value.{
  Value, null, boolean, integer, float, text, array, object, Fields, end, field, get, value_or,
}

-- BRIGHTNESS_WRITE_MIN_INTERVAL_SECONDS
abbrev pub min_interval : ℕ
min_interval = 10000000

pub data StateError : Type 0 where
  no_valid_timestamp : StateError

pub record WriteRateDecision : Type 0 where
  pub allowed : Bool
  pub elapsed : Option ℤ
  pub wait : ℕ

-- `isinstance(raw, (int, float))`, and no Boolean.
abbrev pub is_number : Value → Bool
is_number (integer n) = true
is_number (float s) = true
is_number null = false
is_number (boolean b) = false
is_number (text s) = false
is_number (array xs) = false
is_number (object fs) = false

-- The subtraction of two times.
unfoldable pub since : ℕ → ℤ → ℤ
since current (pos t) = if ltb current t then negsuc (t - current - 1) else pos (current - t)
since current (negsuc n) = pos (current + n + 1)

abbrev always : WriteRateDecision
always = record { allowed = true; elapsed = none; wait = 0 }

unfoldable pub decide : ℤ → WriteRateDecision
decide (negsuc n) = record { allowed = true; elapsed = some (negsuc n); wait = 0 }
decide (pos n) = record {
  allowed = leb (min_interval - n) 0;
  elapsed = some (pos n);
  wait = min_interval - n;
}

-- `float_of` is `float(raw)`.
module _ (float_of : Value → ℤ) where
  unfoldable pub check_state : Option Fields → ℕ → Result StateError WriteRateDecision
  unfolding decide
  check_state none current = ok always
  check_state (some state) current =
      let raw = value_or (get state "acceptedAtUnix") null in
      if is_number raw then ok (decide (since current (float_of raw))) else err no_valid_timestamp

  unfoldable pub check_brightness_write_rate :
      Option Fields → Bool → ℕ → Result StateError WriteRateDecision
  unfolding check_state
  check_brightness_write_rate state allow_fast_control current =
      if allow_fast_control then ok always else check_state state current

-- What is written; `timestamp` is the number of a time.
unfoldable pub record_brightness_write : (ℕ → Value) → String → String → ℕ → Fields
record_brightness_write timestamp command destination now = field "schema" (integer (pos 1)) (
    field "role" (text "sanlight-brightness-write-rate") (
      field "acceptedAtUnix" (timestamp now)
        (field "command" (text command) (field "destination" (text destination) end))))

-- Allowed from the end of the interval on; before, the wait leads exactly there; and a time in the
-- future never locks.
abbrev pub Guarded : ℕ → ℕ → Result StateError WriteRateDecision → Type 0
Guarded written now (err e) = false ≡ true
Guarded written now (ok d) =
    ((now < written) × (d.allowed ≡ true) × (d.wait ≡ 0))
    ⊎ ((written + min_interval ≤ now) × (d.allowed ≡ true) × (d.wait ≡ 0))
    ⊎ ((written ≤ now) × (d.allowed ≡ false) × (now + d.wait ≡ written + min_interval))

decide-Guarded : (written now : ℕ) → Guarded written now (ok (decide (since now (pos written))))
unfolding decide since
decide-Guarded written now = elim (Bool-cases (ltb now written)) [
  | inl h ↦ rw h (inl (ltb→lt _ _ h, refl, refl))
  | inr h ↦ rw h (inr (ground arith))
]

-- The guard after a recorded write, when the number that was stored is the time of that write: before
-- the end of the interval another write is refused, with exactly the wait that is left, and from its
-- end on it is allowed; a write that seems to be in the future does not refuse any.
pub check_brightness_write_rate-Guarded :
    (float_of : Value → ℤ) (timestamp : ℕ → Value) (command destination : String) (written now : ℕ)
    → is_number (timestamp written) ≡ true
    → float_of (timestamp written) ≡ pos written
    → Guarded written now (
        check_brightness_write_rate float_of
          (some (record_brightness_write timestamp command destination written))
          false
          now)
unfolding check_brightness_write_rate check_state record_brightness_write
check_brightness_write_rate-Guarded float_of timestamp command destination written now n f =
    rw (n, f) (decide-Guarded written now)
