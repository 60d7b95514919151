-- ===== src/Base/Float.antt =====
-- Rust's `f64`, as far as the program uses it: order, sum, difference, `is_finite`, and the
-- special values. `finite z` is the number z / 2^22. Every double from 2^30 up is such a number,
-- and Unix times in seconds lie there, so that sums and differences of times are exact; rounding
-- elsewhere is not modelled.
use Prim.Native.Nat.{ℕ, ◌*◌}
use mathlib.Core.Bool.{Bool, true, false}
use hope.Base.Tests.{if◌then◌else◌}
use hope.Base.Int.{ℤ, pos, ◌+ℤ◌, ◌-ℤ◌, ltb_ℤ, leb_ℤ}

pub data F64 : Type 0 where
  finite : ℤ → F64
  infinity neg_infinity nan : F64

-- The parts of one unit.
abbrev pub unit : ℕ
unit = 4194304

-- A non-negative whole number as a float.
abbrev pub float : ℕ → F64
float n = finite (pos (n * unit))

unfoldable pub is_finite : F64 → Bool
is_finite (finite z) = true
is_finite _ = false

-- a < b; false where either is NaN.
unfoldable pub f64_lt : F64 → F64 → Bool
f64_lt (finite a) (finite b) = ltb_ℤ a b
f64_lt (finite a) infinity = true
f64_lt neg_infinity (finite b) = true
f64_lt neg_infinity infinity = true
f64_lt _ _ = false

-- a <= b; false where either is NaN.
unfoldable pub f64_le : F64 → F64 → Bool
f64_le (finite a) (finite b) = leb_ℤ a b
f64_le (finite a) infinity = true
f64_le neg_infinity (finite b) = true
f64_le neg_infinity neg_infinity = true
f64_le neg_infinity infinity = true
f64_le infinity infinity = true
f64_le _ _ = false

unfoldable pub f64_add : F64 → F64 → F64
f64_add (finite a) (finite b) = finite (a +ℤ b)
f64_add (finite a) infinity = infinity
f64_add (finite a) neg_infinity = neg_infinity
f64_add infinity (finite b) = infinity
f64_add infinity infinity = infinity
f64_add neg_infinity (finite b) = neg_infinity
f64_add neg_infinity neg_infinity = neg_infinity
f64_add _ _ = nan

unfoldable pub f64_sub : F64 → F64 → F64
f64_sub (finite a) (finite b) = finite (a -ℤ b)
f64_sub (finite a) infinity = neg_infinity
f64_sub (finite a) neg_infinity = infinity
f64_sub infinity (finite b) = infinity
f64_sub infinity neg_infinity = infinity
f64_sub neg_infinity (finite b) = neg_infinity
f64_sub neg_infinity infinity = neg_infinity
f64_sub _ _ = nan

-- `f64::max`: the other operand where one is NaN.
unfoldable pub f64_max : F64 → F64 → F64
f64_max nan b = b
f64_max a nan = a
f64_max a b = if f64_lt a b then b else a
