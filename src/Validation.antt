-- ===== src/Validation.antt =====
-- The semantic checks on a parsed message (validation.rs), in the order in which they are made. The
-- text of an error is its constructor.
pub mod Rules
use iec104bridge.Base.{ℕ, ◌≡◌, Bool, ◌&&◌, not, Option, none, some, leb, if◌then◌else◌}
use iec104bridge.Base.Int.{ℤ, pos, negsuc, ltb_ℤ}
use iec104bridge.Base.Result.{Result, ok, err, ◌>>=◌, ◌>>◌, bail_if}
use iec104bridge.Number.{le, of_ℤ}
use iec104bridge.Message.{
  Iec104Message, DataType, DataValue, bool, number, normalized, single_point, double_point,
}

pub data ValidationError : Type 0 where
  ioa_range ca_range before_epoch normalized_range normalized_not_numeric : ValidationError
  point_not_boolean : ValidationError

validate_ioa : ℕ → Result ValidationError (Unit {0})
validate_ioa ioa = bail_if (not (leb 1 ioa && leb ioa 16777215)) ioa_range

validate_ca : Option ℕ → Result ValidationError (Unit {0})
validate_ca none = ok tt
validate_ca (some ca) = bail_if (not (leb 1 ca && leb ca 65534)) ca_range

validate_timestamp : Option ℤ → Result ValidationError (Unit {0})
validate_timestamp none = ok tt
validate_timestamp (some nanos) = bail_if (ltb_ℤ nanos (pos 0)) before_epoch

validate_normalized_value : Option DataType → DataValue → Result ValidationError (Unit {0})
validate_normalized_value (some normalized) (number x) =
    if le (of_ℤ (negsuc 0)) x && le x (of_ℤ (pos 1)) then ok tt else err normalized_range
validate_normalized_value (some normalized) (bool b) = err normalized_not_numeric
validate_normalized_value data_type value = ok tt

validate_boolean_point_value : Option DataType → DataValue → Result ValidationError (Unit {0})
validate_boolean_point_value (some single_point) (bool b) = ok tt
validate_boolean_point_value (some single_point) (number x) = err point_not_boolean
validate_boolean_point_value (some double_point) (bool b) = ok tt
validate_boolean_point_value (some double_point) (number x) = err point_not_boolean
validate_boolean_point_value data_type value = ok tt

unfoldable pub validate_message : Iec104Message → Result ValidationError (Unit {0})
unfolding validate_ioa validate_ca validate_timestamp validate_normalized_value
    validate_boolean_point_value
validate_message msg = do
  validate_ioa msg.ioa
  validate_ca msg.ca
  validate_timestamp msg.timestamp
  validate_normalized_value msg.data_type msg.value
  validate_boolean_point_value msg.data_type msg.value
