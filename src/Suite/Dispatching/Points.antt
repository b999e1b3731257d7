-- ===== src/Suite/Dispatching/Points.antt =====
-- The tests of the dispatch of single and double points (bridge.rs).
use iec104bridge.Base.{ℕ, ◌≡◌, refl, true, false, none, some}
use iec104bridge.Message.{DataValue, DataType, QualityField, CotField}
use iec104bridge.Platform.{Platform}
use iec104bridge.Sinks.Capturing.{single_point}
use iec104bridge.Suite.{At, over_2_to, OnSinglePoint}
use iec104bridge.Suite.Dispatching.{make_msg, simple_bool, Dispatches}

module _ (p : Platform) (as_ms : p.Timestamp → ℕ) where
  InferTypeBoolYieldsSinglePoint : Type 0
  InferTypeBoolYieldsSinglePoint =
      Dispatches p as_ms
        (make_msg 1 (DataValue.bool true) none QualityField.good CotField.spontaneous none) 1
        (λ calls. At 0 calls (OnSinglePoint (λ cot ca ioa value quality. (value ≡ true))))

  infer_type_bool_yields_single_point : InferTypeBoolYieldsSinglePoint
  unfolding InferTypeBoolYieldsSinglePoint Dispatches
  infer_type_bool_yields_single_point = refl

  DispatchSinglePointBoolTrue : Type 0
  DispatchSinglePointBoolTrue = Dispatches p as_ms (simple_bool 100 true) 1 (λ calls.
      At 0 calls (λ call. call ≡ single_point p.spontaneous_cause 1 100 true p.good_quality))

  dispatch_single_point_bool_true : DispatchSinglePointBoolTrue
  unfolding DispatchSinglePointBoolTrue Dispatches
  dispatch_single_point_bool_true = refl

  DispatchSinglePointBoolFalse : Type 0
  DispatchSinglePointBoolFalse =
      Dispatches p as_ms (simple_bool 200 false) 1
        (λ calls. At 0 calls (OnSinglePoint (λ cot ca ioa value quality. (value ≡ false))))

  dispatch_single_point_bool_false : DispatchSinglePointBoolFalse
  unfolding DispatchSinglePointBoolFalse Dispatches
  dispatch_single_point_bool_false = refl

  DispatchSinglePointNonzeroNumberIsOn : Type 0
  DispatchSinglePointNonzeroNumberIsOn =
      Dispatches p as_ms
        (make_msg 1 (DataValue.number (over_2_to 0 5)) (some DataType.single_point)
          QualityField.good CotField.spontaneous none)
        1 (λ calls. At 0 calls (OnSinglePoint (λ cot ca ioa value quality. (value ≡ true))))

  dispatch_single_point_nonzero_number_is_on : DispatchSinglePointNonzeroNumberIsOn
  unfolding DispatchSinglePointNonzeroNumberIsOn Dispatches
  dispatch_single_point_nonzero_number_is_on = refl

  DispatchSinglePointZeroNumberIsOff : Type 0
  DispatchSinglePointZeroNumberIsOff =
      Dispatches p as_ms
        (make_msg 1 (DataValue.number (over_2_to 0 0)) (some DataType.single_point)
          QualityField.good CotField.spontaneous none)
        1 (λ calls. At 0 calls (OnSinglePoint (λ cot ca ioa value quality. (value ≡ false))))

  dispatch_single_point_zero_number_is_off : DispatchSinglePointZeroNumberIsOff
  unfolding DispatchSinglePointZeroNumberIsOff Dispatches
  dispatch_single_point_zero_number_is_off = refl

  DispatchDoublePointBoolFallsBackToSingle : Type 0
  DispatchDoublePointBoolFallsBackToSingle =
      Dispatches p as_ms
        (make_msg 1 (DataValue.bool true) (some DataType.double_point) QualityField.good
          CotField.spontaneous none)
        1 (λ calls. At 0 calls (OnSinglePoint (λ cot ca ioa value quality. (value ≡ true))))

  dispatch_double_point_bool_falls_back_to_single : DispatchDoublePointBoolFallsBackToSingle
  unfolding DispatchDoublePointBoolFallsBackToSingle Dispatches
  dispatch_double_point_bool_falls_back_to_single = refl

  DispatchDoublePointNumberFallsBackToSingle : Type 0
  DispatchDoublePointNumberFallsBackToSingle =
      Dispatches p as_ms
        (make_msg 1 (DataValue.number (over_2_to 0 1)) (some DataType.double_point)
          QualityField.good CotField.spontaneous none)
        1 (λ calls. At 0 calls (OnSinglePoint (λ cot ca ioa value quality. (value ≡ true))))

  dispatch_double_point_number_falls_back_to_single : DispatchDoublePointNumberFallsBackToSingle
  unfolding DispatchDoublePointNumberFallsBackToSingle Dispatches
  dispatch_double_point_number_falls_back_to_single = refl
