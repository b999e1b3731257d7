-- ===== src/Suite/Messages/Members.antt =====
-- The tests of the members that a message has (message.rs).
use iec104bridge.Base.{◌≡◌, refl, true, Option, none, some, [], ◌∷◌}
use iec104bridge.Base.Int.{ℤ}
use iec104bridge.Environment.{Text, codes}
use iec104bridge.Message.{DataValue, DataType, QualityField, CotField}
use iec104bridge.Decode.{deserialize_message}
use iec104bridge.Decode.Value.{string, boolean}
use iec104bridge.Suite.{IsThere, over_2_to, serde, integer, real}

module _ (parse_rfc3339 : Text → Option ℤ) where
  MinimalFloatMessage : Type 0
  MinimalFloatMessage =
      IsThere
        (deserialize_message {serde = serde parse_rfc3339}
          ((codes "ioa", integer 100) ∷ (codes "value", real (over_2_to 1 85)) ∷ []))
        (λ m.
          (m.ioa ≡ 100)
          × (m.value ≡ DataValue.number (over_2_to 1 85))
          × (m.data_type ≡ none)
          × (m.ca ≡ none)
          × (m.quality ≡ QualityField.good)
          × (m.cot ≡ CotField.spontaneous)
          × (m.timestamp ≡ none))

  minimal_float_message : MinimalFloatMessage
  unfolding MinimalFloatMessage deserialize_message
  minimal_float_message = (refl, refl, refl, refl, refl, refl, refl)

  MinimalBoolMessage : Type 0
  MinimalBoolMessage =
      IsThere
        (deserialize_message {serde = serde parse_rfc3339}
          ((codes "ioa", integer 200) ∷ (codes "value", boolean true) ∷ []))
        (λ m. (m.ioa ≡ 200) × (m.value ≡ DataValue.bool true))

  minimal_bool_message : MinimalBoolMessage
  unfolding MinimalBoolMessage deserialize_message
  minimal_bool_message = (refl, refl)

  ExplicitTypeFloat : Type 0
  ExplicitTypeFloat =
      IsThere
        (deserialize_message {serde = serde parse_rfc3339} (
          (codes "ioa", integer 1)
          ∷ (codes "value", real (over_2_to 0 1))
          ∷ (codes "type", string (codes "float"))
          ∷ []))
        (λ m. (m.data_type ≡ some DataType.float))

  explicit_type_float : ExplicitTypeFloat
  unfolding ExplicitTypeFloat deserialize_message
  explicit_type_float = refl

  ExplicitTypeScaled : Type 0
  ExplicitTypeScaled =
      IsThere
        (deserialize_message {serde = serde parse_rfc3339} (
          (codes "ioa", integer 1)
          ∷ (codes "value", integer 10)
          ∷ (codes "type", string (codes "scaled"))
          ∷ []))
        (λ m. (m.data_type ≡ some DataType.scaled))

  explicit_type_scaled : ExplicitTypeScaled
  unfolding ExplicitTypeScaled deserialize_message
  explicit_type_scaled = refl

  ExplicitTypeNormalized : Type 0
  ExplicitTypeNormalized =
      IsThere
        (deserialize_message {serde = serde parse_rfc3339} (
          (codes "ioa", integer 1)
          ∷ (codes "value", real (over_2_to 1 1))
          ∷ (codes "type", string (codes "normalized"))
          ∷ []))
        (λ m. (m.data_type ≡ some DataType.normalized))

  explicit_type_normalized : ExplicitTypeNormalized
  unfolding ExplicitTypeNormalized deserialize_message
  explicit_type_normalized = refl

  ExplicitTypeSinglePoint : Type 0
  ExplicitTypeSinglePoint =
      IsThere
        (deserialize_message {serde = serde parse_rfc3339} (
          (codes "ioa", integer 1)
          ∷ (codes "value", boolean true)
          ∷ (codes "type", string (codes "single_point"))
          ∷ []))
        (λ m. (m.data_type ≡ some DataType.single_point))

  explicit_type_single_point : ExplicitTypeSinglePoint
  unfolding ExplicitTypeSinglePoint deserialize_message
  explicit_type_single_point = refl

  ExplicitTypeDoublePoint : Type 0
  ExplicitTypeDoublePoint =
      IsThere
        (deserialize_message {serde = serde parse_rfc3339} (
          (codes "ioa", integer 1)
          ∷ (codes "value", boolean true)
          ∷ (codes "type", string (codes "double_point"))
          ∷ []))
        (λ m. (m.data_type ≡ some DataType.double_point))

  explicit_type_double_point : ExplicitTypeDoublePoint
  unfolding ExplicitTypeDoublePoint deserialize_message
  explicit_type_double_point = refl

  CaFieldPresent : Type 0
  CaFieldPresent =
      IsThere
        (deserialize_message {serde = serde parse_rfc3339}
          ((codes "ioa", integer 1) ∷ (codes "value", integer 0) ∷ (codes "ca", integer 5) ∷ []))
        (λ m. (m.ca ≡ some 5))

  ca_field_present : CaFieldPresent
  unfolding CaFieldPresent deserialize_message
  ca_field_present = refl

  CaFieldAbsent : Type 0
  CaFieldAbsent =
      IsThere
        (deserialize_message {serde = serde parse_rfc3339}
          ((codes "ioa", integer 1) ∷ (codes "value", integer 0) ∷ []))
        (λ m. (m.ca ≡ none))

  ca_field_absent : CaFieldAbsent
  unfolding CaFieldAbsent deserialize_message
  ca_field_absent = refl
