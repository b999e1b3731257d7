-- ===== src/Validation/Rules.antt =====
-- What the checks of validation.rs mean: the messages that pass, and what each error says.
use iec104bridge.Base.{ℕ, ◌≤◌, ◌<◌, ◌≡◌, ◌⊎◌, ◌↔◌, Bool, true, ◌&&◌, Option, none, some, arith}
use iec104bridge.Base.Int.{ℤ, pos, negsuc, ◌≤ℤ◌}
use iec104bridge.Base.Result.{ok, err, ◌>>◌}
use iec104bridge.Number.{F64, le, of_ℤ, scale}
use iec104bridge.Message.{
  Iec104Message, DataType, DataValue, bool, number, float, scaled, normalized, single_point,
  double_point,
}
use iec104bridge.Validation.{
  ValidationError, ioa_range, ca_range, before_epoch, normalized_range, normalized_not_numeric,
  point_not_boolean, validate_message, validate_normalized_value, validate_boolean_point_value,
}

abbrev pub CaFits : Option ℕ → Type 0
CaFits none = Unit
CaFits (some ca) = (1 ≤ ca) × (ca ≤ 65534)

abbrev pub TimeFits : Option ℤ → Type 0
TimeFits none = Unit
TimeFits (some t) = pos 0 ≤ℤ t

-- A normalized value is a number from -1 to 1, and a single or double point is a boolean.
abbrev pub ValueFits : Option DataType → DataValue → Type 0
ValueFits (some normalized) (number x) = x.units ≤ scale
ValueFits (some normalized) (bool b) = ⊥
ValueFits (some single_point) (number x) = ⊥
ValueFits (some double_point) (number x) = ⊥
ValueFits data_type value = Unit

-- The messages that the bridge takes.
pub record IsAcceptable (msg : Iec104Message) : Type 0 where
  pub ioa_fits : (1 ≤ msg.ioa) × (msg.ioa ≤ 16777215)
  pub ca_fits : CaFits msg.ca
  pub time_fits : TimeFits msg.timestamp
  pub value_fits : ValueFits msg.data_type msg.value

-- The rule that an error says is broken.
abbrev pub Breaks : ValidationError → Iec104Message → Type 0
Breaks ioa_range msg = (msg.ioa ≡ 0) ⊎ (16777215 < msg.ioa)
Breaks ca_range msg = ¬ CaFits msg.ca
Breaks before_epoch msg = ¬ TimeFits msg.timestamp
Breaks normalized_range msg =
    (x : F64) × (msg.data_type ≡ some normalized) × (msg.value ≡ number x) × (scale < x.units)
Breaks normalized_not_numeric msg =
    (b : Bool) × (msg.data_type ≡ some normalized) × (msg.value ≡ bool b)
Breaks point_not_boolean msg =
    (x : F64) × ((msg.data_type ≡ some single_point) ⊎ (msg.data_type ≡ some double_point))
    × (msg.value ≡ number x)

unit_range :
    (x : F64) → ((le (of_ℤ (negsuc 0)) x && le x (of_ℤ (pos 1))) ≡ true) ↔ (x.units ≤ scale)
unfolding of_ℤ
unit_range x = ground arith

value_check :
    (t : Option DataType) (v : DataValue)
    → ((validate_normalized_value t v >> validate_boolean_point_value t v) ≡ ok tt) ↔ ValueFits t v
unfolding validate_normalized_value validate_boolean_point_value
value_check none v = ground arith
value_check (some float) v = ground arith
value_check (some scaled) v = ground arith
value_check (some normalized) (bool b) = ground arith
value_check (some normalized) (number x) = ground (arith, unit_range x)
value_check (some single_point) (bool b) = ground arith
value_check (some single_point) (number x) = ground arith
value_check (some double_point) (bool b) = ground arith
value_check (some double_point) (number x) = ground arith

-- A message passes the checks exactly when it is acceptable.
pub validate_message_iff : (msg : Iec104Message) → (validate_message msg ≡ ok tt) ↔ IsAcceptable msg
unfolding validate_message
validate_message_iff msg = ground (arith, value_check msg.data_type msg.value)

-- A message that is refused breaks the rule that the error names.
pub validate_message_err :
    (msg : Iec104Message) (e : ValidationError) → validate_message msg ≡ err e → Breaks e msg
unfolding validate_message of_ℤ
validate_message_err msg e h = ground arith
