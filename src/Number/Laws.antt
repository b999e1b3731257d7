-- ===== src/Number/Laws.antt =====
-- Laws of the `f64` operations: what clamping and the casts to integers give.
use native.Mathlib.Nat.{div-add-mod', le-div_iff_mul-le, div-lt_iff_lt-mul, mul-div_cancel}
use mathlib.Core.Path.{ap}
use iec104bridge.Base.{ℕ, suc, ◌+◌, ◌-◌, ◌≤◌, ◌<◌, ◌≡◌, true, arith, if◌then◌else◌}
use iec104bridge.Base.Int.{ℤ, pos, negsuc, ◌≤ℤ◌, ltb_ℤ}
use iec104bridge.Number.{
  F64, scale, scale_pos, le, of_ℤ, is_whole, trunc, clamp, as_signed, pos_units, neg_units,
}

-- A cast stays within the width.
pub as_signed_bounds :
    (m : ℕ) (x : F64) → 0 < m → (negsuc (m - 1) ≤ℤ as_signed m x) × (as_signed m x ≤ℤ pos (m - 1))
unfolding as_signed
as_signed_bounds m x h = ground arith

-- The integer nearest to `z` from -(a + 1) to `b`.
abbrev pub saturate : ℕ → ℕ → ℤ → ℤ
saturate a b z = if ltb_ℤ z (negsuc a) then negsuc a else if ltb_ℤ (pos b) z then pos b else z

trunc-pos : (b : ℕ) → trunc (of_ℤ (pos b)) ≡ pos b
unfolding trunc of_ℤ
trunc-pos b = ap pos (mul-div_cancel b scale_pos)

trunc-negsuc : (a : ℕ) → trunc (of_ℤ (negsuc a)) ≡ negsuc a
unfolding trunc of_ℤ
trunc-negsuc a = ground (arith, mul-div_cancel (suc a) scale_pos)

-- Clamping between whole bounds and then truncating is truncating and then saturating.
pub trunc-clamp :
    (a b : ℕ) (x : F64) → trunc (clamp x (of_ℤ (negsuc a)) (of_ℤ (pos b))) ≡ saturate a b (trunc x)
unfolding clamp trunc of_ℤ
trunc-clamp a b x = ground (
  arith,
  scale_pos,
  le-div_iff_mul-le {k = scale} {x = b} {y = x.units} scale_pos,
  le-div_iff_mul-le {k = scale} {x = suc a} {y = x.units} scale_pos,
  div-lt_iff_lt-mul {k = scale} {x = x.units} {y = suc b} scale_pos,
  mul-div_cancel b scale_pos,
  mul-div_cancel (suc a) scale_pos,
)

saturate-as_signed : (m : ℕ) (x : F64) → 0 < m → as_signed m x ≡ saturate (m - 1) (m - 1) (trunc x)
unfolding as_signed
saturate-as_signed m x h = ground arith

-- After a clamp to the range of `i16` every wider cast gives the same integer.
pub as_signed-clamp :
    (m : ℕ) (x : F64)
    → 32768 ≤ m
    → as_signed m (clamp x (of_ℤ (negsuc 32767)) (of_ℤ (pos 32767)))
      ≡ saturate 32767 32767 (trunc x)
as_signed-clamp m x h =
    rw (saturate-as_signed m (clamp x (of_ℤ (negsuc 32767)) (of_ℤ (pos 32767))) (omega arith))
      (rw (trunc-clamp 32767 32767 x) (ground arith))

-- Two floats that stand for one number; they may differ in the sign of a zero.
abbrev pub SameNumber : F64 → F64 → Type 0
SameNumber a b = pos_units a + neg_units b ≡ pos_units b + neg_units a

-- A whole number is the number of its integer part.
pub of_ℤ-trunc : (x : F64) → is_whole x ≡ true → SameNumber (of_ℤ (trunc x)) x
unfolding of_ℤ trunc
of_ℤ-trunc x h = ground (arith, div-add-mod' x.units scale)

-- A number within whole bounds has its integer part within them.
pub saturate_id :
    (a b : ℕ) (x : F64)
    → le (of_ℤ (negsuc a)) x ≡ true
    → le x (of_ℤ (pos b)) ≡ true
    → saturate a b (trunc x) ≡ trunc x
unfolding of_ℤ trunc
saturate_id a b x lo hi = ground (
  arith,
  scale_pos,
  div-lt_iff_lt-mul {k = scale} {x = x.units} {y = suc b} scale_pos,
  div-lt_iff_lt-mul {k = scale} {x = x.units} {y = suc (suc a)} scale_pos,
)
