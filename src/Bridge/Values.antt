-- ===== src/Bridge/Values.antt =====
-- The values that are sent: inferred types, and the integer of a scaled value.
use iec104bridge.Base.{◌*◌, ◌≤◌, ℕ, suc, ◌≡◌, ◌↔◌, true, arith, ◌≢◌, ◌∙◌}
use native.Mathlib.Nat.{mul-mod_left}
use iec104bridge.Base.Int.{ℤ, pos, negsuc, ◌≤ℤ◌}
use iec104bridge.Number.{F64, of_ℤ, is_whole, trunc, scale, le, scale_pos}
use iec104bridge.Number.Laws.{
  SameNumber, of_ℤ-trunc, saturate, saturate_id, as_signed-clamp, as_signed_bounds,
}
use iec104bridge.Message.{DataValue, bool, number, float, scaled}
use iec104bridge.Bridge.{infer_type, is_scaled_number, as_scaled_value}

abbrev pub IsI16 : ℤ → Type 0
IsI16 z = (negsuc 32767 ≤ℤ z) × (z ≤ℤ pos 32767)

-- A scaled value is sent as an integer of 16 bits.
pub as_scaled_value-IsI16 : (v : DataValue) → IsI16 (as_scaled_value v)
unfolding as_scaled_value
as_scaled_value-IsI16 (bool b) = ground arith
as_scaled_value-IsI16 (number x) = as_signed_bounds 32768 _ (omega arith)

-- The fraction of a scaled value is cut off, toward zero, and what is out of range is saturated.
pub as_scaled_value-saturate :
    (x : F64) → as_scaled_value (number x) ≡ saturate 32767 32767 (trunc x)
unfolding as_scaled_value
as_scaled_value-saturate x = as_signed-clamp 32768 x (omega arith)

is_scaled_number_iff :
    (x : F64)
    → (is_scaled_number x ≡ true) ↔ (
        (is_whole x ≡ true)
        × (le (of_ℤ (negsuc 32767)) x ≡ true)
        × (le x (of_ℤ (pos 32767)) ≡ true))
unfolding is_scaled_number
is_scaled_number_iff x = ground arith

-- A number whose type is inferred as `scaled` is sent as exactly that number.
pub inferred_scaled_exact :
    (x : F64) → infer_type (number x) ≡ scaled → SameNumber (of_ℤ (as_scaled_value (number x))) x
unfolding infer_type
inferred_scaled_exact x h =
    let s = (is_scaled_number_iff x).0 (ground arith) in
    rw (as_scaled_value-saturate x ∙ saturate_id 32767 32767 x s.1 s.2) (of_ℤ-trunc x s.0)

times_scale : (a b : ℕ) → a ≤ b → a * scale ≤ b * scale
times_scale a b h = grind arith

-- The number of an integer of 16 bits is whole and in range.
of_I16 : (z : ℤ) (x : F64) → IsI16 z → SameNumber (of_ℤ z) x → is_scaled_number x ≡ true
unfolding is_scaled_number of_ℤ
of_I16 (pos n) x h e = ground (arith, scale_pos, mul-mod_left n scale, times_scale n 32767)
of_I16 (negsuc n) x h e =
    ground (arith, scale_pos, mul-mod_left (suc n) scale, times_scale (suc n) 32768)

-- Without a type, a number is taken for a scaled value exactly when it is an integer of 16 bits, and
-- is a float otherwise.
pub inferred_scaled_iff :
    (x : F64)
    → ((infer_type (number x) ≡ scaled) ↔ ((z : ℤ) × IsI16 z × SameNumber (of_ℤ z) x))
      × ((infer_type (number x) ≢ scaled) ↔ (infer_type (number x) ≡ float))
unfolding infer_type
inferred_scaled_iff x = (
  (
    λ h. (as_scaled_value (number x), as_scaled_value-IsI16 (number x), inferred_scaled_exact x h),
    λ (z, r, e). rw (of_I16 z x r e),
  ),
  ground arith,
)
