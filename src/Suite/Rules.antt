-- ===== src/Suite/Rules.antt =====
-- The tests of the validation (validation.rs).
use iec104bridge.Base.{none, some}
use iec104bridge.Base.Int.{negsuc}
use iec104bridge.Message.{Iec104Message, DataValue, DataType, QualityField, CotField}
use iec104bridge.Number.{of_ℤ, scale}
use iec104bridge.Validation.{validate_message}
use iec104bridge.Suite.{over_2_to, IsOk, IsErr}

base_message : Iec104Message
base_message = record {
  ioa = 1;
  value = DataValue.number (over_2_to 0 42);
  data_type = some DataType.float;
  ca = some 1;
  quality = QualityField.good;
  cot = CotField.spontaneous;
  timestamp = none;
}

AcceptsValidMessage : Type 0
AcceptsValidMessage = IsOk (validate_message base_message) (λ u. Unit)

accepts_valid_message : AcceptsValidMessage
unfolding AcceptsValidMessage validate_message base_message of_ℤ scale
accepts_valid_message = tt

RejectsZeroIoa : Type 0
RejectsZeroIoa = IsErr (validate_message (record base_message { ioa = 0 }))

rejects_zero_ioa : RejectsZeroIoa
unfolding RejectsZeroIoa validate_message base_message of_ℤ scale
rejects_zero_ioa = tt

RejectsInvalidCa : Type 0
RejectsInvalidCa = IsErr (validate_message (record base_message { ca = some 0 }))

rejects_invalid_ca : RejectsInvalidCa
unfolding RejectsInvalidCa validate_message base_message of_ℤ scale
rejects_invalid_ca = tt

RejectsOutOfRangeNormalizedValue : Type 0
RejectsOutOfRangeNormalizedValue = IsErr (
    validate_message (record base_message {
      data_type = some DataType.normalized;
      value = DataValue.number (over_2_to 1 3);
    }))

rejects_out_of_range_normalized_value : RejectsOutOfRangeNormalizedValue
unfolding RejectsOutOfRangeNormalizedValue validate_message base_message of_ℤ scale
rejects_out_of_range_normalized_value = tt

RejectsNumericSinglePoint : Type 0
RejectsNumericSinglePoint =
    IsErr (validate_message (record base_message { data_type = some DataType.single_point }))

rejects_numeric_single_point : RejectsNumericSinglePoint
unfolding RejectsNumericSinglePoint validate_message base_message of_ℤ scale
rejects_numeric_single_point = tt

-- One second before the epoch.
RejectsTimestampBeforeUnixEpoch : Type 0
RejectsTimestampBeforeUnixEpoch =
    IsErr (validate_message (record base_message { timestamp = some (negsuc 999_999_999) }))

rejects_timestamp_before_unix_epoch : RejectsTimestampBeforeUnixEpoch
unfolding RejectsTimestampBeforeUnixEpoch validate_message base_message of_ℤ scale
rejects_timestamp_before_unix_epoch = tt
