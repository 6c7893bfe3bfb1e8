-- ===== src/Protocol/Bytes.antt =====
-- Python's `bytes` as a list of numbers below 256, with `int.from_bytes` and `int.to_bytes` at the
-- little-endian order, as sanlight_mesh/protocol.py calls them.
use sanlight_mesh_mqtt_gatew.Base.{
  ℕ, zero, suc, ◌+◌, ◌*◌, ◌/◌, ◌%◌, ◌≤◌, ◌<◌, ◌≡◌, refl, Bool, true, false, ◌&&◌, List, [], ◌∷◌,
  ◌++◌, Option, none, some, arith, All, length, take, drop, ◌==◌, if◌then◌else◌, ap,
}

abbrev pub IsByte : ℕ → Type 0
IsByte b = b < 256

-- `int.from_bytes(bs, "little")`
abbrev pub from_bytes_le : List ℕ → ℕ
from_bytes_le [] = 0
from_bytes_le (b ∷ bs) = b + 256 * from_bytes_le bs

-- `n.to_bytes(k, "little")` for an `n` that fits
abbrev pub to_bytes_le : ℕ → ℕ → List ℕ
to_bytes_le zero n = []
to_bytes_le (suc k) n = (n % 256) ∷ to_bytes_le k (n / 256)

-- `bytes.__eq__`
unfoldable pub bytes_eq : List ℕ → List ℕ → Bool
bytes_eq [] [] = true
bytes_eq [] (y ∷ ys) = false
bytes_eq (x ∷ xs) [] = false
bytes_eq (x ∷ xs) (y ∷ ys) = x == y && bytes_eq xs ys

-- `bs.find(b"\x00")`: the index of the first zero byte.
unfoldable pub find_nul : List ℕ → Option ℕ
find_nul [] = none
find_nul (b ∷ bs) =
    let rest = find_nul bs in
    if b == 0 then some 0 else elim rest [ none ↦ none | some i ↦ some (suc i) ]

pub bytes_eq_sound : (xs ys : List ℕ) → bytes_eq xs ys ≡ true → xs ≡ ys
unfolding bytes_eq
bytes_eq_sound [] [] h = refl
bytes_eq_sound [] (y ∷ ys) h = cc
bytes_eq_sound (x ∷ xs) [] h = cc
bytes_eq_sound (x ∷ xs) (y ∷ ys) h = ground (arith, bytes_eq_sound xs ys)

pub bytes_eq_refl : (xs : List ℕ) → bytes_eq xs xs ≡ true
unfolding bytes_eq
bytes_eq_refl [] = refl
bytes_eq_refl (x ∷ xs) = ground (arith, bytes_eq_refl xs)

pub length-to_bytes_le : (k n : ℕ) → length (to_bytes_le k n) ≡ k
length-to_bytes_le zero n = refl
length-to_bytes_le (suc k) n = ap suc (length-to_bytes_le k (n / 256))

pub to_bytes_le-IsByte : (k n : ℕ) → All IsByte (to_bytes_le k n)
to_bytes_le-IsByte zero n = tt
to_bytes_le-IsByte (suc k) n = (omega arith, to_bytes_le-IsByte k (n / 256))

pub to_bytes_le-from_bytes_le :
    (bs : List ℕ) → All IsByte bs → to_bytes_le (length bs) (from_bytes_le bs) ≡ bs
to_bytes_le-from_bytes_le [] h = refl
to_bytes_le-from_bytes_le (b ∷ bs) h =
    let low : (b + 256 * from_bytes_le bs) % 256 ≡ b = omega (arith, h.0) in
    let high : (b + 256 * from_bytes_le bs) / 256 ≡ from_bytes_le bs = omega (arith, h.0) in
    cc (low, high, to_bytes_le-from_bytes_le bs h.1)

-- The two widths of the protocol.
pub from_bytes_le-to_bytes_le_2 : (n : ℕ) → n < 65536 → from_bytes_le (to_bytes_le 2 n) ≡ n
from_bytes_le-to_bytes_le_2 n h = omega arith

pub from_bytes_le-to_bytes_le_4 : (n : ℕ) → n < 4294967296 → from_bytes_le (to_bytes_le 4 n) ≡ n
from_bytes_le-to_bytes_le_4 n h = omega arith

pub from_bytes_le-lt_2 : (bs : List ℕ) → All IsByte bs → length bs ≤ 2 → from_bytes_le bs < 65536
from_bytes_le-lt_2 [] h l = omega arith
from_bytes_le-lt_2 (a ∷ []) h l = omega (arith, h.0)
from_bytes_le-lt_2 (a ∷ b ∷ []) h l = omega (arith, h.0, h.1.0)
from_bytes_le-lt_2 (a ∷ b ∷ c ∷ bs) h l = absurd (omega arith)

pub from_bytes_le-lt_4 :
    (bs : List ℕ) → All IsByte bs → length bs ≤ 4 → from_bytes_le bs < 4294967296
from_bytes_le-lt_4 [] h l = omega arith
from_bytes_le-lt_4 (a ∷ []) h l = omega (arith, h.0)
from_bytes_le-lt_4 (a ∷ b ∷ []) h l = omega (arith, h.0, h.1.0)
from_bytes_le-lt_4 (a ∷ b ∷ c ∷ []) h l = omega (arith, h.0, h.1.0, h.1.1.0)
from_bytes_le-lt_4 (a ∷ b ∷ c ∷ d ∷ []) h l = omega (arith, h.0, h.1.0, h.1.1.0, h.1.1.1.0)
from_bytes_le-lt_4 (a ∷ b ∷ c ∷ d ∷ e ∷ bs) h l = absurd (omega arith)

abbrev pub NonZero : ℕ → Type 0
NonZero b = 0 < b

pub find_nul-append : (xs ys : List ℕ) → All NonZero xs → find_nul (xs ++ 0 ∷ ys) ≡ some (length xs)
unfolding find_nul
find_nul-append [] ys h = refl
find_nul-append (x ∷ xs) ys h = ground (arith, find_nul-append xs ys h.1, h.0)

pub find_nul_sound :
    (bs : List ℕ) (i : ℕ)
    → find_nul bs ≡ some i
    → (bs ≡ take i bs ++ 0 ∷ drop (suc i) bs) × All NonZero (take i bs) × (i < length bs)
unfolding find_nul
find_nul_sound [] i h = cc
find_nul_sound (b ∷ bs) zero h = (ground arith, tt, omega arith)
find_nul_sound (b ∷ bs) (suc i) h =
    let e : find_nul bs ≡ some i = ground arith in
    let p : 0 < b = ground arith in
    let (q, a, l) = find_nul_sound bs i e in (ap (λ t. b ∷ t) q, (p, a), omega arith)
