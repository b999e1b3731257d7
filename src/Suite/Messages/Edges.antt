-- ===== src/Suite/Messages/Edges.antt =====
-- The tests of the time of a message, of objects that are none, and of a whole message (message.rs).
use iec104bridge.Base.{◌≡◌, refl, Option, none, some, [], ◌∷◌}
use iec104bridge.Base.Int.{ℤ}
use iec104bridge.Environment.{Text, codes}
use iec104bridge.Message.{DataValue, DataType, QualityField, CotField}
use iec104bridge.Decode.{deserialize_message}
use iec104bridge.Decode.Value.{string}
use iec104bridge.Suite.{IsThere, over_2_to, serde, integer, real}

module _ (parse_rfc3339 : Text → Option ℤ) where
  TimestampFieldPresent : (ℤ → Option Text) → Type 0
  TimestampFieldPresent format =
      IsThere
        (deserialize_message {serde = serde parse_rfc3339} (
          (codes "ioa", integer 1)
          ∷ (codes "value", integer 0)
          ∷ (codes "timestamp", string (codes "2026-05-29T12:34:56.789Z"))
          ∷ []))
        (λ m.
          IsThere m.timestamp
            (λ timestamp. format timestamp ≡ some (codes "2026-05-29T12:34:56.789Z")))

  -- The time that the library reads must be written as the same text.
  timestamp_field_present :
      (format : ℤ → Option Text) (t : ℤ)
      → parse_rfc3339 (codes "2026-05-29T12:34:56.789Z") ≡ some t
      → format t ≡ some (codes "2026-05-29T12:34:56.789Z")
      → TimestampFieldPresent format
  unfolding TimestampFieldPresent deserialize_message
  timestamp_field_present format t e written = rw e written

  InvalidTimestampFails : Type 0
  InvalidTimestampFails =
      deserialize_message {serde = serde parse_rfc3339} (
        (codes "ioa", integer 1)
        ∷ (codes "value", integer 0)
        ∷ (codes "timestamp", string (codes "not-a-time"))
        ∷ [])
      ≡ none

  -- The text must be none that the library reads as a time.
  invalid_timestamp_fails : parse_rfc3339 (codes "not-a-time") ≡ none → InvalidTimestampFails
  unfolding InvalidTimestampFails deserialize_message
  invalid_timestamp_fails e = rw e refl

  MissingIoaFails : Type 0
  MissingIoaFails =
      deserialize_message {serde = serde parse_rfc3339} ((codes "value", real (over_2_to 0 1)) ∷ [])
      ≡ none

  missing_ioa_fails : MissingIoaFails
  unfolding MissingIoaFails deserialize_message
  missing_ioa_fails = refl

  MissingValueFails : Type 0
  MissingValueFails =
      deserialize_message {serde = serde parse_rfc3339} ((codes "ioa", integer 1) ∷ []) ≡ none

  missing_value_fails : MissingValueFails
  unfolding MissingValueFails deserialize_message
  missing_value_fails = refl

  UnknownQualityFails : Type 0
  UnknownQualityFails =
      deserialize_message {serde = serde parse_rfc3339} (
        (codes "ioa", integer 1)
        ∷ (codes "value", integer 0)
        ∷ (codes "quality", string (codes "bogus"))
        ∷ [])
      ≡ none

  unknown_quality_fails : UnknownQualityFails
  unfolding UnknownQualityFails deserialize_message
  unknown_quality_fails = refl

  FullMessageRoundTrip : Type 0
  FullMessageRoundTrip =
      IsThere
        (deserialize_message {serde = serde parse_rfc3339} (
          (codes "ioa", integer 100)
          ∷ (codes "value", real (over_2_to 1 85))
          ∷ (codes "type", string (codes "float"))
          ∷ (codes "ca", integer 1)
          ∷ (codes "quality", string (codes "good"))
          ∷ (codes "cot", string (codes "spontaneous"))
          ∷ (codes "timestamp", string (codes "2026-05-29T12:34:56Z"))
          ∷ []))
        (λ m.
          (m.ioa ≡ 100)
          × (m.value ≡ DataValue.number (over_2_to 1 85))
          × (m.data_type ≡ some DataType.float)
          × (m.ca ≡ some 1)
          × (m.quality ≡ QualityField.good)
          × (m.cot ≡ CotField.spontaneous)
          × IsThere m.timestamp (λ t. Unit))

  full_message_round_trip :
      (t : ℤ) → parse_rfc3339 (codes "2026-05-29T12:34:56Z") ≡ some t → FullMessageRoundTrip
  unfolding FullMessageRoundTrip deserialize_message
  full_message_round_trip t e = rw e (refl, refl, refl, refl, refl, refl, tt)
