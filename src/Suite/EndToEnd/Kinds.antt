-- ===== src/Suite/EndToEnd/Kinds.antt =====
-- The end-to-end tests on the types of values, named and inferred.
use iec104bridge.Base.{ℕ, ◌≡◌, refl, true, false, Option, [], ◌∷◌, length}
use iec104bridge.Base.Int.{ℤ, pos}
use iec104bridge.Number.{F64}
use iec104bridge.Environment.{Text, codes}
use iec104bridge.Platform.{Platform}
use iec104bridge.Decode.Value.{string, boolean}
use iec104bridge.Suite.{
  At, over_2_to, integer, real, OnSinglePoint, OnMeasuredFloat, OnMeasuredScaled,
}
use iec104bridge.Suite.EndToEnd.{Runs}

-- `Near a x n` stands for `(a - x).abs() < 10^-n`.
module _ (parse_rfc3339 : Text → Option ℤ) (p : Platform) (as_ms : p.Timestamp → ℕ)
    (Near : p.F32 → F64 → ℕ → Type 0) where
  FloatMessageDispatchesAsMeasuredFloat : Type 0
  FloatMessageDispatchesAsMeasuredFloat =
      Runs parse_rfc3339 p as_ms
        (((codes "ioa", integer 100)
            ∷ (codes "value", real (over_2_to 1 85))
            ∷ (codes "type", string (codes "float"))
            ∷ [])
          ∷ [])
        1
        (λ calls.
          (length calls ≡ 1)
          × At 0 calls (
              OnMeasuredFloat (λ cot ca ioa value quality.
                (ioa ≡ 100) × (ca ≡ 1) × Near value (over_2_to 1 85) 5)))

  float_message_dispatches_as_measured_float :
      Near (p.as_f32 (over_2_to 1 85)) (over_2_to 1 85) 5 → FloatMessageDispatchesAsMeasuredFloat
  unfolding FloatMessageDispatchesAsMeasuredFloat Runs
  float_message_dispatches_as_measured_float near = (refl, (refl, refl, near))

  ScaledMessageDispatchesAsMeasuredScaled : Type 0
  ScaledMessageDispatchesAsMeasuredScaled =
      Runs parse_rfc3339 p as_ms
        (((codes "ioa", integer 200)
            ∷ (codes "value", integer 1000)
            ∷ (codes "type", string (codes "scaled"))
            ∷ [])
          ∷ [])
        1
        (λ calls.
          (length calls ≡ 1)
          × At 0 calls (
              OnMeasuredScaled
                (λ cot ca ioa value quality. (ioa ≡ 200) × (value ≡ pos 1000) × (ca ≡ 1))))

  scaled_message_dispatches_as_measured_scaled : ScaledMessageDispatchesAsMeasuredScaled
  unfolding ScaledMessageDispatchesAsMeasuredScaled Runs
  scaled_message_dispatches_as_measured_scaled = (refl, (refl, refl, refl))

  NormalizedMessageDispatchesAsMeasuredFloat : Type 0
  NormalizedMessageDispatchesAsMeasuredFloat =
      Runs parse_rfc3339 p as_ms
        (((codes "ioa", integer 300)
            ∷ (codes "value", real (over_2_to 2 3))
            ∷ (codes "type", string (codes "normalized"))
            ∷ [])
          ∷ [])
        1
        (λ calls.
          (length calls ≡ 1)
          × At 0 calls (OnMeasuredFloat (λ cot ca ioa value quality. (ioa ≡ 300) × (ca ≡ 1))))

  normalized_message_dispatches_as_measured_float : NormalizedMessageDispatchesAsMeasuredFloat
  unfolding NormalizedMessageDispatchesAsMeasuredFloat Runs
  normalized_message_dispatches_as_measured_float = (refl, (refl, refl))

  SinglePointTrueDispatchesAsOn : Type 0
  SinglePointTrueDispatchesAsOn =
      Runs parse_rfc3339 p as_ms
        (((codes "ioa", integer 400)
            ∷ (codes "value", boolean true)
            ∷ (codes "type", string (codes "single_point"))
            ∷ [])
          ∷ [])
        1
        (λ calls.
          (length calls ≡ 1)
          × At 0 calls
              (OnSinglePoint (λ cot ca ioa value quality. (ioa ≡ 400) × (value ≡ true) × (ca ≡ 1))))

  single_point_true_dispatches_as_on : SinglePointTrueDispatchesAsOn
  unfolding SinglePointTrueDispatchesAsOn Runs
  single_point_true_dispatches_as_on = (refl, (refl, refl, refl))

  SinglePointFalseDispatchesAsOff : Type 0
  SinglePointFalseDispatchesAsOff =
      Runs parse_rfc3339 p as_ms
        (((codes "ioa", integer 401)
            ∷ (codes "value", boolean false)
            ∷ (codes "type", string (codes "single_point"))
            ∷ [])
          ∷ [])
        1
        (λ calls.
          (length calls ≡ 1)
          × At 0 calls (
              OnSinglePoint (λ cot ca ioa value quality. (ioa ≡ 401) × (value ≡ false) × (ca ≡ 1))))

  single_point_false_dispatches_as_off : SinglePointFalseDispatchesAsOff
  unfolding SinglePointFalseDispatchesAsOff Runs
  single_point_false_dispatches_as_off = (refl, (refl, refl, refl))

  DoublePointFallsBackToSinglePoint : Type 0
  DoublePointFallsBackToSinglePoint =
      Runs parse_rfc3339 p as_ms
        (((codes "ioa", integer 500)
            ∷ (codes "value", boolean true)
            ∷ (codes "type", string (codes "double_point"))
            ∷ [])
          ∷ [])
        1
        (λ calls.
          (length calls ≡ 1)
          × At 0 calls
              (OnSinglePoint (λ cot ca ioa value quality. (ioa ≡ 500) × (value ≡ true) × (ca ≡ 1))))

  double_point_falls_back_to_single_point : DoublePointFallsBackToSinglePoint
  unfolding DoublePointFallsBackToSinglePoint Runs
  double_point_falls_back_to_single_point = (refl, (refl, refl, refl))

  BoolWithoutTypeFieldInferredAsSinglePoint : Type 0
  BoolWithoutTypeFieldInferredAsSinglePoint =
      Runs parse_rfc3339 p as_ms
        (((codes "ioa", integer 1) ∷ (codes "value", boolean true) ∷ []) ∷ []) 1
        (λ calls.
          (length calls ≡ 1)
          × At 0 calls (OnSinglePoint (λ cot ca ioa value quality. (value ≡ true))))

  bool_without_type_field_inferred_as_single_point : BoolWithoutTypeFieldInferredAsSinglePoint
  unfolding BoolWithoutTypeFieldInferredAsSinglePoint Runs
  bool_without_type_field_inferred_as_single_point = (refl, refl)

  IntegerWithoutTypeFieldInferredAsScaled : Type 0
  IntegerWithoutTypeFieldInferredAsScaled =
      Runs parse_rfc3339 p as_ms
        (((codes "ioa", integer 2) ∷ (codes "value", integer 42) ∷ []) ∷ []) 1
        (λ calls.
          (length calls ≡ 1)
          × At 0 calls (OnMeasuredScaled (λ cot ca ioa value quality. (value ≡ pos 42))))

  integer_without_type_field_inferred_as_scaled : IntegerWithoutTypeFieldInferredAsScaled
  unfolding IntegerWithoutTypeFieldInferredAsScaled Runs
  integer_without_type_field_inferred_as_scaled = (refl, refl)

  FractionalNumberWithoutTypeFieldInferredAsFloat : Type 0
  FractionalNumberWithoutTypeFieldInferredAsFloat =
      Runs parse_rfc3339 p as_ms
        (((codes "ioa", integer 3) ∷ (codes "value", real (over_2_to 51 7070651414971679)) ∷ [])
          ∷ [])
        1
        (λ calls.
          (length calls ≡ 1) × At 0 calls (OnMeasuredFloat (λ cot ca ioa value quality. Unit)))

  fractional_number_without_type_field_inferred_as_float :
      FractionalNumberWithoutTypeFieldInferredAsFloat
  unfolding FractionalNumberWithoutTypeFieldInferredAsFloat Runs
  fractional_number_without_type_field_inferred_as_float = (refl, tt)
