-- ===== src/Number.antt =====
-- Rust's `f64` for the values that JSON can carry (message.rs, `DataValue::Number`). Every finite
-- `f64` is a whole multiple of 2^-1074, so it is its sign and the number of those units; minus zero
-- is kept apart from zero. JSON has no text for a NaN or an infinity, and the parser refuses a
-- number that is too large. The operations are those of Rust's standard library that the bridge
-- calls; they are exact on such numbers.
pub mod Laws
use iec104bridge.Base.{
  ℕ, suc, ◌+◌, ◌-◌, ◌*◌, ◌/◌, ◌%◌, ◌^◌, ◌<◌, Bool, true, false, not, arith, leb, ltb, ◌==◌,
  if◌then◌else◌,
}
use iec104bridge.Base.Int.{ℤ, pos, negsuc, sub_ℕ, ltb_ℤ}

-- The units in 1.0.
unfoldable pub scale : ℕ
scale = 2 ^ 1074

pub scale_pos : 0 < scale
unfolding scale
scale_pos = omega arith

pub record F64 : Type 0 where
  pub negative : Bool
  pub units : ℕ

-- What the number adds to the positive and to the negative side of a comparison.
abbrev pub pos_units : F64 → ℕ
pos_units x = if x.negative then 0 else x.units

abbrev pub neg_units : F64 → ℕ
neg_units x = if x.negative then x.units else 0

-- `a <= b` and `a < b`
abbrev pub le : F64 → F64 → Bool
le a b = leb (pos_units a + neg_units b) (pos_units b + neg_units a)

abbrev pub lt : F64 → F64 → Bool
lt a b = ltb (pos_units a + neg_units b) (pos_units b + neg_units a)

-- An integer literal, and `i16::MIN as f64`, which are exact.
unfoldable pub of_ℤ : ℤ → F64
of_ℤ (pos n) = record { negative = false; units = n * scale }
of_ℤ (negsuc n) = record { negative = true; units = suc n * scale }

-- `x != 0.0`: minus zero is zero.
abbrev pub is_nonzero : F64 → Bool
is_nonzero x = not (x.units == 0)

-- `x.fract() == 0.0`
abbrev pub is_whole : F64 → Bool
is_whole x = x.units % scale == 0

-- `x.trunc()`, as an integer.
unfoldable pub trunc : F64 → ℤ
trunc x = if x.negative then sub_ℕ 0 (x.units / scale) else pos (x.units / scale)

-- `x.clamp(lo, hi)`
unfoldable pub clamp : F64 → F64 → F64 → F64
clamp x lo hi = if lt x lo then lo else if lt hi x then hi else x

-- `x as iN` with 2^(N-1) the number `m`: toward zero, then saturated.
unfoldable pub as_signed : ℕ → F64 → ℤ
unfolding trunc
as_signed m x =
    if ltb_ℤ (trunc x) (negsuc (m - 1))
    then negsuc (m - 1)
    else if ltb_ℤ (pos (m - 1)) (trunc x)
    then pos (m - 1)
    else trunc x
