-- ===== src/Decode/Messages.antt =====
-- The message of an object against the specification of the objects that describe it.
use mathlib.Core.Option.{some-injective}
use iec104bridge.Decode.Lookup.{required_iff, defaulted_iff}
use iec104bridge.Decode.Described.{
  Dates, IsData, Names, Optionally, Unsigned, Required, Defaulted, Describes, type_name,
  quality_name, cause_name,
}
use iec104bridge.Base.Int.{ℤ}
use iec104bridge.Environment.{codes}
use iec104bridge.Config.{u16_max, u32_max}
use iec104bridge.Decode.{
  causes, data_types, qualities, data_value, deserialize_optional_timestamp, enum_value, optional,
  unsigned_to, Serde, Fields, values_of, required, defaulted, deserialize_message,
}
use iec104bridge.Base.{ℕ, ◌≡◌, ◌↔◌, refl, Option, none, some}
use mathlib.Core.Path.{subst}
use iec104bridge.Message.{Iec104Message, DataValue, DataType, QualityField, CotField}
use iec104bridge.Decode.Reading.{
  some_bind_iff, unsigned_to_iff, data_value_iff, enum_value_iff, optional_iff,
  deserialize_optional_timestamp_iff, data_types-IsTable, qualities-IsTable, causes-IsTable,
}

module _ {serde : Serde} where
  -- The fields.
  ioa_iff :
      (fields : Fields serde) (a : ℕ)
      → (required (unsigned_to u32_max) (values_of (codes "ioa") fields) ≡ some a)
        ↔ Required (codes "ioa") (Unsigned u32_max) fields a
  ioa_iff fields =
      required_iff (codes "ioa") (unsigned_to u32_max) (Unsigned u32_max) (unsigned_to_iff u32_max)
        fields

  value_iff :
      (fields : Fields serde) (a : DataValue)
      → (required data_value (values_of (codes "value") fields) ≡ some a)
        ↔ Required (codes "value") IsData fields a
  value_iff fields = required_iff (codes "value") data_value IsData data_value_iff fields

  type_iff :
      (fields : Fields serde) (a : Option DataType)
      → (defaulted none (optional (enum_value data_types)) (values_of (codes "type") fields)
          ≡ some a)
        ↔ Defaulted none (codes "type") (Optionally (Names type_name)) fields a
  type_iff fields =
      defaulted_iff (codes "type") (optional (enum_value data_types)) (Optionally (Names type_name))
        (optional_iff (enum_value data_types) (Names type_name)
          (enum_value_iff type_name data_types data_types-IsTable))
        fields none

  ca_iff :
      (fields : Fields serde) (a : Option ℕ)
      → (defaulted none (optional (unsigned_to u16_max)) (values_of (codes "ca") fields) ≡ some a)
        ↔ Defaulted none (codes "ca") (Optionally (Unsigned u16_max)) fields a
  ca_iff fields =
      defaulted_iff (codes "ca") (optional (unsigned_to u16_max)) (Optionally (Unsigned u16_max))
        (optional_iff (unsigned_to u16_max) (Unsigned u16_max) (unsigned_to_iff u16_max)) fields
        none

  quality_iff :
      (fields : Fields serde) (a : QualityField)
      → (defaulted QualityField.good (enum_value qualities) (values_of (codes "quality") fields)
          ≡ some a)
        ↔ Defaulted QualityField.good (codes "quality") (Names quality_name) fields a
  quality_iff fields =
      defaulted_iff (codes "quality") (enum_value qualities) (Names quality_name)
        (enum_value_iff quality_name qualities qualities-IsTable) fields QualityField.good

  cot_iff :
      (fields : Fields serde) (a : CotField)
      → (defaulted CotField.spontaneous (enum_value causes) (values_of (codes "cot") fields)
          ≡ some a)
        ↔ Defaulted CotField.spontaneous (codes "cot") (Names cause_name) fields a
  cot_iff fields =
      defaulted_iff (codes "cot") (enum_value causes) (Names cause_name)
        (enum_value_iff cause_name causes causes-IsTable) fields CotField.spontaneous

  timestamp_iff :
      (fields : Fields serde) (a : Option ℤ)
      → (defaulted none deserialize_optional_timestamp (values_of (codes "timestamp") fields)
          ≡ some a)
        ↔ Defaulted none (codes "timestamp") Dates fields a
  timestamp_iff fields =
      defaulted_iff (codes "timestamp") deserialize_optional_timestamp Dates
        deserialize_optional_timestamp_iff fields none

  pub deserialize_message_iff :
      (fields : Fields serde) (m : Iec104Message)
      → (deserialize_message fields ≡ some m) ↔ Describes fields m
  unfolding deserialize_message
  deserialize_message_iff fields m = (
    λ e.
        let (ioa, p1, e1) = (some_bind_iff _ _ m).0 e in
        let (value, p2, e2) = (some_bind_iff _ _ m).0 e1 in
        let (data_type, p3, e3) = (some_bind_iff _ _ m).0 e2 in
        let (ca, p4, e4) = (some_bind_iff _ _ m).0 e3 in
        let (quality, p5, e5) = (some_bind_iff _ _ m).0 e4 in
        let (cot, p6, e6) = (some_bind_iff _ _ m).0 e5 in
        let (timestamp, p7, e7) = (some_bind_iff _ _ m).0 e6 in
        subst (Describes fields) (some-injective _ _ e7) (record {
          addressed = (ioa_iff fields ioa).0 p1;
          valued = (value_iff fields value).0 p2;
          typed = (type_iff fields data_type).0 p3;
          stationed = (ca_iff fields ca).0 p4;
          qualified = (quality_iff fields quality).0 p5;
          caused = (cot_iff fields cot).0 p6;
          dated = (timestamp_iff fields timestamp).0 p7;
        }),
    λ h.
        rw
          (
            (ioa_iff fields m.ioa).1 h.addressed,
            (value_iff fields m.value).1 h.valued,
            (type_iff fields m.data_type).1 h.typed,
            (ca_iff fields m.ca).1 h.stationed,
            (quality_iff fields m.quality).1 h.qualified,
            (cot_iff fields m.cot).1 h.caused,
            (timestamp_iff fields m.timestamp).1 h.dated,
          )
          refl,
  )
