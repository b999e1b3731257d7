-- ===== src/Suite/Dispatching/Measured.antt =====
-- The tests of the dispatch of measured values (bridge.rs).
use iec104bridge.Base.{ℕ, ◌≡◌, refl, true, false, none, some}
use iec104bridge.Base.Int.{pos, negsuc}
use iec104bridge.Number.{F64}
use iec104bridge.Message.{DataValue, DataType, QualityField, CotField}
use iec104bridge.Platform.{Platform}
use iec104bridge.Suite.{At, over_2_to, negated, OnMeasuredFloat, OnMeasuredScaled}
use iec104bridge.Suite.Dispatching.{make_msg, simple_float, Dispatches}

-- `Near a x n` stands for `(a - x).abs() < 10^-n`.
module _ (p : Platform) (as_ms : p.Timestamp → ℕ) (Near : p.F32 → F64 → ℕ → Type 0) where
  InferTypeIntegerYieldsScaled : Type 0
  InferTypeIntegerYieldsScaled =
      Dispatches p as_ms
        (make_msg 1 (DataValue.number (over_2_to 0 42)) none QualityField.good CotField.spontaneous
          none)
        1 (λ calls. At 0 calls (OnMeasuredScaled (λ cot ca ioa value quality. (value ≡ pos 42))))

  infer_type_integer_yields_scaled : InferTypeIntegerYieldsScaled
  unfolding InferTypeIntegerYieldsScaled Dispatches
  infer_type_integer_yields_scaled = refl

  InferTypeFloatYieldsMeasuredFloat : Type 0
  InferTypeFloatYieldsMeasuredFloat =
      Dispatches p as_ms
        (make_msg 1 (DataValue.number (over_2_to 1 3)) none QualityField.good CotField.spontaneous
          none)
        1 (λ calls. At 0 calls (OnMeasuredFloat (λ cot ca ioa value quality. Unit)))

  infer_type_float_yields_measured_float : InferTypeFloatYieldsMeasuredFloat
  unfolding InferTypeFloatYieldsMeasuredFloat Dispatches
  infer_type_float_yields_measured_float = tt

  DispatchFloatNumber : Type 0
  DispatchFloatNumber = Dispatches p as_ms (simple_float 300 (over_2_to 1 3)) 1 (λ calls.
      At 0 calls (OnMeasuredFloat (λ cot ca ioa value quality. Near value (over_2_to 1 3) 6)))

  dispatch_float_number : Near (p.as_f32 (over_2_to 1 3)) (over_2_to 1 3) 6 → DispatchFloatNumber
  unfolding DispatchFloatNumber Dispatches
  dispatch_float_number near = near

  DispatchFloatBoolTrueIsOne : Type 0
  DispatchFloatBoolTrueIsOne =
      Dispatches p as_ms
        (make_msg 1 (DataValue.bool true) (some DataType.float) QualityField.good
          CotField.spontaneous none)
        1 (λ calls. At 0 calls (OnMeasuredFloat (λ cot ca ioa value quality. (value ≡ p.f32_one))))

  dispatch_float_bool_true_is_one : DispatchFloatBoolTrueIsOne
  unfolding DispatchFloatBoolTrueIsOne Dispatches
  dispatch_float_bool_true_is_one = refl

  DispatchFloatBoolFalseIsZero : Type 0
  DispatchFloatBoolFalseIsZero =
      Dispatches p as_ms
        (make_msg 1 (DataValue.bool false) (some DataType.float) QualityField.good
          CotField.spontaneous none)
        1 (λ calls. At 0 calls (OnMeasuredFloat (λ cot ca ioa value quality. (value ≡ p.f32_zero))))

  dispatch_float_bool_false_is_zero : DispatchFloatBoolFalseIsZero
  unfolding DispatchFloatBoolFalseIsZero Dispatches
  dispatch_float_bool_false_is_zero = refl

  DispatchNormalizedNumber : Type 0
  DispatchNormalizedNumber =
      Dispatches p as_ms
        (make_msg 1 (DataValue.number (over_2_to 2 3)) (some DataType.normalized) QualityField.good
          CotField.spontaneous none)
        1 (λ calls. At 0 calls (OnMeasuredFloat (λ cot ca ioa value quality. Unit)))

  dispatch_normalized_number : DispatchNormalizedNumber
  unfolding DispatchNormalizedNumber Dispatches
  dispatch_normalized_number = tt

  DispatchScaledNumber : Type 0
  DispatchScaledNumber =
      Dispatches p as_ms
        (make_msg 1 (DataValue.number (over_2_to 0 1000)) (some DataType.scaled) QualityField.good
          CotField.spontaneous none)
        1 (λ calls. At 0 calls (OnMeasuredScaled (λ cot ca ioa value quality. (value ≡ pos 1000))))

  dispatch_scaled_number : DispatchScaledNumber
  unfolding DispatchScaledNumber Dispatches
  dispatch_scaled_number = refl

  DispatchScaledClampsToI16Max : Type 0
  DispatchScaledClampsToI16Max =
      Dispatches p as_ms
        (make_msg 1 (DataValue.number (over_2_to 0 100000)) (some DataType.scaled) QualityField.good
          CotField.spontaneous none)
        1 (λ calls. At 0 calls (OnMeasuredScaled (λ cot ca ioa value quality. (value ≡ pos 32767))))

  dispatch_scaled_clamps_to_i16_max : DispatchScaledClampsToI16Max
  unfolding DispatchScaledClampsToI16Max Dispatches
  dispatch_scaled_clamps_to_i16_max = refl

  DispatchScaledClampsToI16Min : Type 0
  DispatchScaledClampsToI16Min =
      Dispatches p as_ms
        (make_msg 1 (DataValue.number (negated (over_2_to 0 100000))) (some DataType.scaled)
          QualityField.good CotField.spontaneous none)
        1
        (λ calls.
          At 0 calls (OnMeasuredScaled (λ cot ca ioa value quality. (value ≡ negsuc 32767))))

  dispatch_scaled_clamps_to_i16_min : DispatchScaledClampsToI16Min
  unfolding DispatchScaledClampsToI16Min Dispatches
  dispatch_scaled_clamps_to_i16_min = refl

  DispatchScaledBoolTrueIsOne : Type 0
  DispatchScaledBoolTrueIsOne =
      Dispatches p as_ms
        (make_msg 1 (DataValue.bool true) (some DataType.scaled) QualityField.good
          CotField.spontaneous none)
        1 (λ calls. At 0 calls (OnMeasuredScaled (λ cot ca ioa value quality. (value ≡ pos 1))))

  dispatch_scaled_bool_true_is_one : DispatchScaledBoolTrueIsOne
  unfolding DispatchScaledBoolTrueIsOne Dispatches
  dispatch_scaled_bool_true_is_one = refl
