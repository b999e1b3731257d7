-- ===== src/Suite/Messages/Marks.antt =====
-- The tests of the quality and the cause of a message (message.rs).
use iec104bridge.Base.{◌≡◌, refl, Option, [], ◌∷◌}
use iec104bridge.Base.Int.{ℤ}
use iec104bridge.Environment.{Text, codes}
use iec104bridge.Message.{QualityField, CotField}
use iec104bridge.Decode.{deserialize_message}
use iec104bridge.Decode.Value.{string}
use iec104bridge.Suite.{IsThere, serde, integer}

module _ (parse_rfc3339 : Text → Option ℤ) where
  QualityDefaultIsGood : Type 0
  QualityDefaultIsGood =
      IsThere
        (deserialize_message {serde = serde parse_rfc3339}
          ((codes "ioa", integer 1) ∷ (codes "value", integer 0) ∷ []))
        (λ m. (m.quality ≡ QualityField.good))

  quality_default_is_good : QualityDefaultIsGood
  unfolding QualityDefaultIsGood deserialize_message
  quality_default_is_good = refl

  QualityInvalid : Type 0
  QualityInvalid =
      IsThere
        (deserialize_message {serde = serde parse_rfc3339} (
          (codes "ioa", integer 1)
          ∷ (codes "value", integer 0)
          ∷ (codes "quality", string (codes "invalid"))
          ∷ []))
        (λ m. (m.quality ≡ QualityField.invalid))

  quality_invalid : QualityInvalid
  unfolding QualityInvalid deserialize_message
  quality_invalid = refl

  QualityNotTopical : Type 0
  QualityNotTopical =
      IsThere
        (deserialize_message {serde = serde parse_rfc3339} (
          (codes "ioa", integer 1)
          ∷ (codes "value", integer 0)
          ∷ (codes "quality", string (codes "not_topical"))
          ∷ []))
        (λ m. (m.quality ≡ QualityField.not_topical))

  quality_not_topical : QualityNotTopical
  unfolding QualityNotTopical deserialize_message
  quality_not_topical = refl

  QualitySubstituted : Type 0
  QualitySubstituted =
      IsThere
        (deserialize_message {serde = serde parse_rfc3339} (
          (codes "ioa", integer 1)
          ∷ (codes "value", integer 0)
          ∷ (codes "quality", string (codes "substituted"))
          ∷ []))
        (λ m. (m.quality ≡ QualityField.substituted))

  quality_substituted : QualitySubstituted
  unfolding QualitySubstituted deserialize_message
  quality_substituted = refl

  QualityBlocked : Type 0
  QualityBlocked =
      IsThere
        (deserialize_message {serde = serde parse_rfc3339} (
          (codes "ioa", integer 1)
          ∷ (codes "value", integer 0)
          ∷ (codes "quality", string (codes "blocked"))
          ∷ []))
        (λ m. (m.quality ≡ QualityField.blocked))

  quality_blocked : QualityBlocked
  unfolding QualityBlocked deserialize_message
  quality_blocked = refl

  QualityOverflow : Type 0
  QualityOverflow =
      IsThere
        (deserialize_message {serde = serde parse_rfc3339} (
          (codes "ioa", integer 1)
          ∷ (codes "value", integer 0)
          ∷ (codes "quality", string (codes "overflow"))
          ∷ []))
        (λ m. (m.quality ≡ QualityField.overflow))

  quality_overflow : QualityOverflow
  unfolding QualityOverflow deserialize_message
  quality_overflow = refl

  CotDefaultIsSpontaneous : Type 0
  CotDefaultIsSpontaneous =
      IsThere
        (deserialize_message {serde = serde parse_rfc3339}
          ((codes "ioa", integer 1) ∷ (codes "value", integer 0) ∷ []))
        (λ m. (m.cot ≡ CotField.spontaneous))

  cot_default_is_spontaneous : CotDefaultIsSpontaneous
  unfolding CotDefaultIsSpontaneous deserialize_message
  cot_default_is_spontaneous = refl

  CotPeriodic : Type 0
  CotPeriodic =
      IsThere
        (deserialize_message {serde = serde parse_rfc3339} (
          (codes "ioa", integer 1)
          ∷ (codes "value", integer 0)
          ∷ (codes "cot", string (codes "periodic"))
          ∷ []))
        (λ m. (m.cot ≡ CotField.periodic))

  cot_periodic : CotPeriodic
  unfolding CotPeriodic deserialize_message
  cot_periodic = refl

  CotBackgroundScan : Type 0
  CotBackgroundScan =
      IsThere
        (deserialize_message {serde = serde parse_rfc3339} (
          (codes "ioa", integer 1)
          ∷ (codes "value", integer 0)
          ∷ (codes "cot", string (codes "background_scan"))
          ∷ []))
        (λ m. (m.cot ≡ CotField.background_scan))

  cot_background_scan : CotBackgroundScan
  unfolding CotBackgroundScan deserialize_message
  cot_background_scan = refl

  CotInterrogated : Type 0
  CotInterrogated =
      IsThere
        (deserialize_message {serde = serde parse_rfc3339} (
          (codes "ioa", integer 1)
          ∷ (codes "value", integer 0)
          ∷ (codes "cot", string (codes "interrogated"))
          ∷ []))
        (λ m. (m.cot ≡ CotField.interrogated))

  cot_interrogated : CotInterrogated
  unfolding CotInterrogated deserialize_message
  cot_interrogated = refl

  CotReturnInfoRemote : Type 0
  CotReturnInfoRemote =
      IsThere
        (deserialize_message {serde = serde parse_rfc3339} (
          (codes "ioa", integer 1)
          ∷ (codes "value", integer 0)
          ∷ (codes "cot", string (codes "return_info_remote"))
          ∷ []))
        (λ m. (m.cot ≡ CotField.return_info_remote))

  cot_return_info_remote : CotReturnInfoRemote
  unfolding CotReturnInfoRemote deserialize_message
  cot_return_info_remote = refl

  CotReturnInfoLocal : Type 0
  CotReturnInfoLocal =
      IsThere
        (deserialize_message {serde = serde parse_rfc3339} (
          (codes "ioa", integer 1)
          ∷ (codes "value", integer 0)
          ∷ (codes "cot", string (codes "return_info_local"))
          ∷ []))
        (λ m. (m.cot ≡ CotField.return_info_local))

  cot_return_info_local : CotReturnInfoLocal
  unfolding CotReturnInfoLocal deserialize_message
  cot_return_info_local = refl
