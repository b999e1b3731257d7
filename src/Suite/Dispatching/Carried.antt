-- ===== src/Suite/Dispatching/Carried.antt =====
-- The tests of what a dispatched call carries (bridge.rs).
use iec104bridge.Base.{ℕ, ◌≡◌, refl, true, none, some}
use iec104bridge.Message.{DataValue, DataType, QualityField, CotField}
use iec104bridge.Platform.{Platform}
use iec104bridge.Sinks.Capturing.{measured_float_time, measured_scaled_time}
use iec104bridge.Suite.{At, over_2_to, OnSinglePoint, OnTimed}
use iec104bridge.Suite.Dispatching.{make_msg, simple_float, simple_bool, at, Dispatches}

module _ (p : Platform) (as_ms : p.Timestamp → ℕ) where
  DispatchUsesMessageCaOverDefault : Type 0
  DispatchUsesMessageCaOverDefault =
      Dispatches p as_ms
        (make_msg 1 (DataValue.bool true) (some DataType.single_point) QualityField.good
          CotField.spontaneous (some 42))
        1 (λ calls. At 0 calls (OnSinglePoint (λ cot ca ioa value quality. (ca ≡ 42))))

  dispatch_uses_message_ca_over_default : DispatchUsesMessageCaOverDefault
  unfolding DispatchUsesMessageCaOverDefault Dispatches
  dispatch_uses_message_ca_over_default = refl

  DispatchFallsBackToDefaultCa : Type 0
  DispatchFallsBackToDefaultCa =
      Dispatches p as_ms (simple_bool 1 true) 99
        (λ calls. At 0 calls (OnSinglePoint (λ cot ca ioa value quality. (ca ≡ 99))))

  dispatch_falls_back_to_default_ca : DispatchFallsBackToDefaultCa
  unfolding DispatchFallsBackToDefaultCa Dispatches
  dispatch_falls_back_to_default_ca = refl

  DispatchPropagatesInvalidQuality : Type 0
  DispatchPropagatesInvalidQuality =
      Dispatches p as_ms
        (make_msg 1 (DataValue.bool true) (some DataType.single_point) QualityField.invalid
          CotField.spontaneous none)
        1
        (λ calls.
          At 0 calls (OnSinglePoint (λ cot ca ioa value quality. (quality ≡ p.invalid_quality))))

  dispatch_propagates_invalid_quality : DispatchPropagatesInvalidQuality
  unfolding DispatchPropagatesInvalidQuality Dispatches
  dispatch_propagates_invalid_quality = refl

  DispatchPropagatesPeriodicCot : Type 0
  DispatchPropagatesPeriodicCot =
      Dispatches p as_ms
        (make_msg 1 (DataValue.bool true) (some DataType.single_point) QualityField.good
          CotField.periodic none)
        1
        (λ calls. At 0 calls (OnSinglePoint (λ cot ca ioa value quality. (cot ≡ p.periodic_cause))))

  dispatch_propagates_periodic_cot : DispatchPropagatesPeriodicCot
  unfolding DispatchPropagatesPeriodicCot Dispatches
  dispatch_propagates_periodic_cot = refl

  DispatchTimestampedFloatUsesTimedType : Type 0
  DispatchTimestampedFloatUsesTimedType =
      Dispatches p as_ms (record (simple_float 10 (over_2_to 1 85)) { timestamp = some (at 1) }) 1
        (λ calls. At 0 calls (
          OnTimed (λ cot ca ioa data_type value quality timestamp_ms.
            (ioa ≡ 10) × (data_type ≡ measured_float_time))))

  dispatch_timestamped_float_uses_timed_type : DispatchTimestampedFloatUsesTimedType
  unfolding DispatchTimestampedFloatUsesTimedType Dispatches
  dispatch_timestamped_float_uses_timed_type = (refl, refl)

  DispatchTimestampedScaledUsesTimedType : Type 0
  DispatchTimestampedScaledUsesTimedType =
      Dispatches p as_ms
        (record (make_msg 11 (DataValue.number (over_2_to 0 5)) (some DataType.scaled)
          QualityField.good CotField.spontaneous none) { timestamp = some (at 2) })
        1
        (λ calls. At 0 calls (
          OnTimed (λ cot ca ioa data_type value quality timestamp_ms.
            (ioa ≡ 11) × (data_type ≡ measured_scaled_time))))

  dispatch_timestamped_scaled_uses_timed_type : DispatchTimestampedScaledUsesTimedType
  unfolding DispatchTimestampedScaledUsesTimedType Dispatches
  dispatch_timestamped_scaled_uses_timed_type = (refl, refl)
