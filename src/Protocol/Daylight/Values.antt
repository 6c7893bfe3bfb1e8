-- ===== src/Protocol/Daylight/Values.antt =====
-- The loop over the values of a daylight configuration: it reads what the layout writes, and
-- accepts nothing else.
use sanlight_mesh_mqtt_gatew.Base.{
  ℕ, zero, suc, ◌+◌, ◌*◌, ◌≤◌, ◌<◌, ◌≡◌, refl, sym, ap, ◌∙◌, ℤ, pos, negsuc, List, [], ◌∷◌, ◌++◌,
  length, take, drop, slice, get_or, drop-add, get_or-drop, All, Result, ok, ◌>>=◌, ◌>>◌, raise_if,
  >>=-eq-ok, raise_if-eq-ok, ◌%◌, ◌/◌, arith,
}
use sanlight_mesh_mqtt_gatew.Value.{integer}
use sanlight_mesh_mqtt_gatew.Protocol.Bytes.{IsByte, from_bytes_le}
use sanlight_mesh_mqtt_gatew.Protocol.Opcode.{ValueError, values_not_ordered}
use sanlight_mesh_mqtt_gatew.Protocol.Daylight.{
  DaylightValue, daylight_value, decode_values, earlier,
}
use sanlight_mesh_mqtt_gatew.Protocol.Daylight.Layout.{encode_values, IsOrdered}

pub slice-drop : (p : List ℕ) (o n : ℕ) → slice p o (o + n) ≡ take n (drop o p)
slice-drop p o n = ap (λ k. take k (drop o p)) (omega arith)

-- The loop with its offsets resolved: each round reads the head of what is left.
parse_values : List ℕ → ℕ → ℤ → Result ValueError (List DaylightValue)
parse_values r zero previous = ok []
parse_values r (suc left) previous = do
  value ← daylight_value (integer (pos (from_bytes_le (take 2 r)))) (integer (pos (get_or r 2 0)))
  raise_if (earlier value.time_in_minutes previous) values_not_ordered
  rest ← parse_values (drop 3 r) left (pos value.time_in_minutes)
  ok (value ∷ rest)

next_item : (p : List ℕ) (s i : ℕ) → drop (s + (i + 1) * 3) p ≡ drop 3 (drop (s + i * 3) p)
next_item p s i = ap (λ k. drop k p) (omega arith) ∙ drop-add (s + i * 3) 3 p

decode_values-eq :
    (p : List ℕ) (s i left : ℕ) (previous : ℤ)
    → decode_values p s i left previous ≡ parse_values (drop (s + i * 3) p) left previous
unfolding decode_values parse_values
decode_values-eq p s i zero previous = refl
decode_values-eq p s i (suc left) previous =
    rw (slice-drop p (s + i * 3) 2, get_or-drop (s + i * 3) 2 p 0)
      (simp (decode_values-eq p s (i + 1) left, next_item p s i))

daylight_value_complete :
    (v : DaylightValue)
    → v.time_in_minutes ≤ 1440
    → v.brightness ≤ 100
    → daylight_value (integer (pos v.time_in_minutes)) (integer (pos v.brightness)) ≡ ok v
unfolding daylight_value
daylight_value_complete v t b = ground arith

daylight_value_sound :
    (t b : ℕ) (v : DaylightValue)
    → daylight_value (integer (pos t)) (integer (pos b)) ≡ ok v
    → (v.time_in_minutes ≡ t) × (v.brightness ≡ b) × (t ≤ 1440) × (b ≤ 100)
unfolding daylight_value
daylight_value_sound t b v h = ground arith

parse_values-encode :
    (vs : List DaylightValue) (previous : ℤ) (tail : List ℕ)
    → IsOrdered previous vs
    → parse_values (encode_values vs ++ tail) (length vs) previous ≡ ok vs
unfolding parse_values
parse_values-encode [] previous tail h = refl
parse_values-encode (v ∷ vs) previous tail h =
    let e : v.time_in_minutes % 256 + 256 * (v.time_in_minutes / 256 + 256 * 0)
        ≡ v.time_in_minutes =
      omega arith in
    rw (e, daylight_value_complete v h.0 h.1)
      (rw h.2 (rw (parse_values-encode vs (pos v.time_in_minutes) tail h.3)))

encode_cons :
    (x y z : ℕ) (r : List ℕ) (left : ℕ) (v : DaylightValue) (rest : List DaylightValue)
    → x < 256
    → v.time_in_minutes ≡ x + 256 * (y + 256 * 0)
    → v.brightness ≡ z
    → r ≡ encode_values rest ++ drop (left * 3) r
    → (x ∷ y ∷ z ∷ r) ≡ encode_values (v ∷ rest) ++ drop (suc left * 3) (x ∷ y ∷ z ∷ r)
encode_cons x y z r left v rest b t w e =
    let low : x ≡ v.time_in_minutes % 256 = omega arith in
    let high : y ≡ v.time_in_minutes / 256 = omega arith in
    let d : drop (suc left * 3) (x ∷ y ∷ z ∷ r) ≡ drop (left * 3) r =
      ap (λ k. drop k (x ∷ y ∷ z ∷ r)) (omega arith) ∙ drop-add 3 (left * 3) (x ∷ y ∷ z ∷ r) in
    rw d (cc (low, high, sym w, e))

-- What the loop accepts is the layout of what it returns.
parse_values_sound :
    (r : List ℕ) (left : ℕ) (previous : ℤ) (vs : List DaylightValue)
    → All IsByte r
    → left * 3 ≤ length r
    → parse_values r left previous ≡ ok vs
    → (r ≡ encode_values vs ++ drop (left * 3) r) × (length vs ≡ left) × IsOrdered previous vs
unfolding parse_values
parse_values_sound r zero previous [] b l h = (refl, refl, tt)
parse_values_sound r zero previous (v ∷ vs) b l h = cc
parse_values_sound [] (suc left) previous vs b l h = absurd (omega arith)
parse_values_sound (x ∷ []) (suc left) previous vs b l h = absurd (omega arith)
parse_values_sound (x ∷ y ∷ []) (suc left) previous vs b l h = absurd (omega arith)
parse_values_sound (x ∷ y ∷ z ∷ r) (suc left) previous vs b l h =
    let (v, hv, h₁) =
      >>=-eq-ok (daylight_value (integer (pos (from_bytes_le (x ∷ y ∷ [])))) (integer (pos z))) _
        h in
    let (o, h₂) = raise_if-eq-ok (earlier v.time_in_minutes previous) _ _ h₁ in
    let (rest, hr, h₃) = >>=-eq-ok (parse_values r left (pos v.time_in_minutes)) _ h₂ in
    let (e, n, q) =
      parse_values_sound r left (pos v.time_in_minutes) rest b.1.1.1 (omega arith) hr in
    let w = daylight_value_sound (from_bytes_le (x ∷ y ∷ [])) z v hv in
    let vs_eq : v ∷ rest ≡ vs = cc in
    let t : v.time_in_minutes ≤ 1440 = omega arith in
    rw (← vs_eq)
      (encode_cons x y z r left v rest b.0 (omega arith) w.1 e, ap suc n, (t, omega arith, o, q))

-- The loop reads the values that the layout has at `values_start`, whatever follows them.
pub decode_values-encode :
    (p tail : List ℕ) (s : ℕ) (vs : List DaylightValue)
    → drop s p ≡ encode_values vs ++ tail
    → IsOrdered (negsuc 0) vs
    → decode_values p s 0 (length vs) (negsuc 0) ≡ ok vs
decode_values-encode p tail s vs e h =
    decode_values-eq p s 0 (length vs) (negsuc 0)
    ∙ ap (λ r. parse_values r (length vs) (negsuc 0)) (ap (λ k. drop k p) (omega arith) ∙ e)
    ∙ parse_values-encode vs (negsuc 0) tail h

-- If the loop accepts, the bytes at `values_start` are the layout of the values.
pub decode_values_sound :
    (p : List ℕ) (s left : ℕ) (vs : List DaylightValue)
    → All IsByte (drop s p)
    → left * 3 ≤ length (drop s p)
    → decode_values p s 0 left (negsuc 0) ≡ ok vs
    → (drop s p ≡ encode_values vs ++ drop (left * 3) (drop s p))
      × (length vs ≡ left)
      × IsOrdered (negsuc 0) vs
decode_values_sound p s left vs b l h = parse_values_sound (drop s p) left (negsuc 0) vs b l (
    ap (λ k. parse_values (drop k p) left (negsuc 0)) (omega arith)
    ∙ sym (decode_values-eq p s 0 left (negsuc 0))
    ∙ h)
