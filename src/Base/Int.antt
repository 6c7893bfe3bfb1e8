-- ===== src/Base/Int.antt =====
-- Python's unbounded integers over the native numbers.
use Prim.Native.Nat.{ℕ, ◌≤◌}
use mathlib.Core.Path.{◌≡◌}
use mathlib.Core.Bool.{Bool, true, false, ◌&&◌}
use native.Mathlib.Omega.{arith}
use sanlight_mesh_mqtt_gatew.Base.Test.{leb}

-- `negsuc n` is -(n + 1).
pub data ℤ : Type 0 where
  pos : ℕ → ℤ
  negsuc : ℕ → ℤ

-- `lo <= v <= hi` for bounds that are not negative.
abbrev pub between : ℕ → ℕ → ℤ → Bool
between lo hi (pos n) = leb lo n && leb n hi
between lo hi (negsuc n) = false

abbrev pub pos_part : ℤ → ℕ
pos_part (pos n) = n
pos_part (negsuc n) = 0

pub between-pos :
    (lo hi : ℕ) (v : ℤ)
    → between lo hi v ≡ true
    → (v ≡ pos (pos_part v)) × (lo ≤ pos_part v) × (pos_part v ≤ hi)
between-pos lo hi (pos n) h = ground arith
between-pos lo hi (negsuc n) h = cc
