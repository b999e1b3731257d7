-- ===== src/Examples/Messages.antt =====
-- Examples of the validation and of the values that are sent.
use iec104bridge.Base.{◌+◌, ◌*◌, ◌^◌, ◌≡◌, ◌≢◌, refl, ◌↔◌, arith}
use iec104bridge.Base.Int.{ℤ, pos}
use iec104bridge.Base.Result.{ok}
use iec104bridge.Number.{scale, of_ℤ, trunc}
use iec104bridge.Number.Laws.{SameNumber, saturate}
use iec104bridge.Message.{DataType, DataValue}
use iec104bridge.Validation.{validate_message}
use iec104bridge.Validation.Rules.{IsAcceptable, validate_message_iff}
use iec104bridge.Bridge.{infer_type, as_scaled_value, offset_datetime_to_cp56_timestamp}
use iec104bridge.Bridge.Mapping.{cp56_wraps}
use iec104bridge.Bridge.Values.{IsI16, as_scaled_value-saturate, inferred_scaled_iff}
use iec104bridge.Examples.Samples.{platform, breaker, forty_two}

validate_message_iff_example : (validate_message breaker ≡ ok tt) ↔ IsAcceptable breaker
validate_message_iff_example = validate_message_iff breaker

cp56_wraps_example :
    offset_datetime_to_cp56_timestamp platform (pos (1_500_000_000 + 1 * 2 ^ 64)) ≡ 1500
cp56_wraps_example = cp56_wraps platform 1_500_000_000 1 (omega arith)

forty_two_scaled : infer_type (DataValue.number forty_two) ≡ DataType.scaled
unfolding infer_type scale of_ℤ
forty_two_scaled = refl

inferred_scaled_iff_example :
    ((infer_type (DataValue.number forty_two) ≡ DataType.scaled)
      ↔ ((z : ℤ) × IsI16 z × SameNumber (of_ℤ z) forty_two))
    × ((infer_type (DataValue.number forty_two) ≢ DataType.scaled)
        ↔ (infer_type (DataValue.number forty_two) ≡ DataType.float))
inferred_scaled_iff_example = inferred_scaled_iff forty_two

as_scaled_value-saturate_example :
    as_scaled_value (DataValue.number forty_two) ≡ saturate 32767 32767 (trunc forty_two)
as_scaled_value-saturate_example = as_scaled_value-saturate forty_two
