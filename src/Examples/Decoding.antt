-- ===== src/Examples/Decoding.antt =====
-- Examples of the JSON form: a reader of numbers and times, and objects.
use iec104bridge.Config.Reading.{same_iff}
use iec104bridge.Base.{
  ◌≢◌, false, ℕ, ◌≡◌, ◌⊎◌, inl, inr, refl, arith, Option, none, some, [], ◌∷◌, if◌then◌else◌,
}
use iec104bridge.Base.Int.{ℤ, pos}
use iec104bridge.Number.{F64, of_ℤ}
use iec104bridge.Environment.{Text, codes, same}
use iec104bridge.Message.{Iec104Message, DataType, DataValue, QualityField, CotField}
use iec104bridge.Decode.{Serde, Fields, deserialize_message}
use iec104bridge.Decode.Value.{number, string}
use iec104bridge.Decode.Described.{Describes}
use iec104bridge.Decode.Messages.{deserialize_message_iff}
use iec104bridge.Decode.Encoding.{Printer, swapped, skipped, followed}
use iec104bridge.Decode.RoundTrip.{deserialize_message-rearranged}
use iec104bridge.Examples.Samples.{forty_two}

-- An integer or another number; the object of one member is the variant that the member names.
abbrev as_u64 : ℕ ⊎ F64 → Option ℕ
as_u64 (inl n) = some n
as_u64 (inr x) = none

abbrev as_f64 : ℕ ⊎ F64 → F64
as_f64 (inl n) = of_ℤ (pos n)
as_f64 (inr x) = x

abbrev noon : Text
noon = codes "2026-05-29T12:34:56Z"

pub parse_time : Text → Option ℤ
parse_time t = if same t noon then some (pos 1_780_058_096_000_000_000) else none

abbrev pub serde : Serde
serde = record {
  Number = ℕ ⊎ F64;
  as_u64 = as_u64;
  as_f64 = as_f64;
  Compound = Text;
  variant = some;
  parse_rfc3339 = parse_time;
}

abbrev printer : Printer serde
printer = record { from_u64 = inl; from_f64 = inr; rfc3339 = λ t. noon }

-- The full example of the documentation, but for its milliseconds, as a message.
abbrev full : Iec104Message
full = record {
  ioa = 100;
  value = DataValue.number forty_two;
  data_type = some DataType.single_point;
  ca = some 1;
  quality = QualityField.not_topical;
  cot = CotField.spontaneous;
  timestamp = some (pos 1_780_058_096_000_000_000);
}

-- The value first, and a field that messages do not have.
abbrev pub fields : Fields serde
fields =
    (codes "unit", string (codes "kV"))
    ∷ (codes "value", number (inr forty_two))
    ∷ (codes "ioa", number (inl 100))
    ∷ (codes "type", string (codes "single_point"))
    ∷ (codes "ca", number (inl 1))
    ∷ (codes "quality", string (codes "not_topical"))
    ∷ (codes "timestamp", string noon)
    ∷ []

deserialize_message_iff_example :
    ((deserialize_message fields ≡ some full) → Describes fields full)
    × (Describes fields full → (deserialize_message fields ≡ some full))
deserialize_message_iff_example = deserialize_message_iff fields full

apart : (s t : Text) → same s t ≡ false → s ≢ t
apart s t f e = cc (f, (same_iff s t).1 e)

deserialize_message-rearranged_example : deserialize_message fields ≡ some full
unfolding same parse_time
deserialize_message-rearranged_example =
    deserialize_message-rearranged printer full fields
      (record {
        ioa_fits = omega arith;
        ca_fits = λ n e. ground (arith, e);
        integers = λ n h. refl;
        value_back = λ x e. refl;
        time_back = λ t e. cc e;
      })
      (followed (swapped (apart (codes "ioa") (codes "value") refl)) (
        skipped (
          apart (codes "unit") (codes "ioa") refl,
          (
            apart (codes "unit") (codes "value") refl,
            (
              apart (codes "unit") (codes "type") refl,
              (
                apart (codes "unit") (codes "ca") refl,
                (
                  apart (codes "unit") (codes "quality") refl,
                  (
                    apart (codes "unit") (codes "cot") refl,
                    (apart (codes "unit") (codes "timestamp") refl, tt),
                  ),
                ),
              ),
            ),
          ),
        )))
