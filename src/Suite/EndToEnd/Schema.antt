-- ===== src/Suite/EndToEnd/Schema.antt =====
-- The end-to-end tests on whole messages, on several of them, and on extreme values.
use iec104bridge.Base.{ℕ, ◌≡◌, refl, true, Option, [], ◌∷◌, length}
use iec104bridge.Base.Int.{ℤ, pos, negsuc}
use iec104bridge.Number.{F64}
use iec104bridge.Environment.{Text, codes}
use iec104bridge.Platform.{Platform}
use iec104bridge.Decode.Value.{string, boolean}
use iec104bridge.Suite.{
  At, over_2_to, negated, integer, real, OnSinglePoint, OnMeasuredFloat, OnMeasuredScaled,
}
use iec104bridge.Suite.EndToEnd.{Runs}

-- `Near a x n` stands for `(a - x).abs() < 10^-n`.
module _ (parse_rfc3339 : Text → Option ℤ) (p : Platform) (as_ms : p.Timestamp → ℕ)
    (Near : p.F32 → F64 → ℕ → Type 0) where
  FullSchemaFloatMessage : Type 0
  FullSchemaFloatMessage =
      Runs parse_rfc3339 p as_ms
        (((codes "ioa", integer 150)
            ∷ (codes "value", real (negated (over_2_to 2 29)))
            ∷ (codes "type", string (codes "float"))
            ∷ (codes "ca", integer 3)
            ∷ (codes "quality", string (codes "good"))
            ∷ (codes "cot", string (codes "spontaneous"))
            ∷ [])
          ∷ [])
        1
        (λ calls.
          (length calls ≡ 1)
          × At 0 calls (
              OnMeasuredFloat (λ cot ca ioa value quality.
                (ioa ≡ 150)
                × (ca ≡ 3)
                × (cot ≡ p.spontaneous_cause)
                × (quality ≡ p.good_quality)
                × Near value (negated (over_2_to 2 29)) 4)))

  full_schema_float_message :
      Near (p.as_f32 (negated (over_2_to 2 29))) (negated (over_2_to 2 29)) 4
      → FullSchemaFloatMessage
  unfolding FullSchemaFloatMessage Runs
  full_schema_float_message near = (refl, (refl, refl, refl, refl, near))

  FullSchemaScaledMessage : Type 0
  FullSchemaScaledMessage =
      Runs parse_rfc3339 p as_ms
        (((codes "ioa", integer 250)
            ∷ (codes "value", real (negated (over_2_to 0 500)))
            ∷ (codes "type", string (codes "scaled"))
            ∷ (codes "ca", integer 2)
            ∷ (codes "quality", string (codes "substituted"))
            ∷ (codes "cot", string (codes "periodic"))
            ∷ [])
          ∷ [])
        1
        (λ calls.
          (length calls ≡ 1)
          × At 0 calls (
              OnMeasuredScaled (λ cot ca ioa value quality.
                (ioa ≡ 250)
                × (ca ≡ 2)
                × (value ≡ negsuc 499)
                × (cot ≡ p.periodic_cause)
                × (quality ≡ p.substituted_quality))))

  full_schema_scaled_message : FullSchemaScaledMessage
  unfolding FullSchemaScaledMessage Runs
  full_schema_scaled_message = (refl, (refl, refl, refl, refl, refl))

  FullSchemaSinglePointMessage : Type 0
  FullSchemaSinglePointMessage =
      Runs parse_rfc3339 p as_ms
        (((codes "ioa", integer 99)
            ∷ (codes "value", boolean true)
            ∷ (codes "type", string (codes "single_point"))
            ∷ (codes "ca", integer 5)
            ∷ (codes "quality", string (codes "good"))
            ∷ (codes "cot", string (codes "interrogated"))
            ∷ [])
          ∷ [])
        1
        (λ calls.
          (length calls ≡ 1)
          × At 0 calls (
              OnSinglePoint (λ cot ca ioa value quality.
                (ioa ≡ 99)
                × (ca ≡ 5)
                × (value ≡ true)
                × (cot ≡ p.interrogated_by_station_cause)
                × (quality ≡ p.good_quality))))

  full_schema_single_point_message : FullSchemaSinglePointMessage
  unfolding FullSchemaSinglePointMessage Runs
  full_schema_single_point_message = (refl, (refl, refl, refl, refl, refl))

  MultipleMessagesDispatchedInOrder : Type 0
  MultipleMessagesDispatchedInOrder =
      Runs parse_rfc3339 p as_ms
        (((codes "ioa", integer 1)
            ∷ (codes "value", real (over_2_to 0 1))
            ∷ (codes "type", string (codes "float"))
            ∷ [])
          ∷ ((codes "ioa", integer 2)
              ∷ (codes "value", boolean true)
              ∷ (codes "type", string (codes "single_point"))
              ∷ [])
          ∷ ((codes "ioa", integer 3)
              ∷ (codes "value", integer 300)
              ∷ (codes "type", string (codes "scaled"))
              ∷ [])
          ∷ [])
        1
        (λ calls.
          (length calls ≡ 3)
          × At 0 calls (OnMeasuredFloat (λ cot ca ioa value quality. (ioa ≡ 1)))
          × At 1 calls (OnSinglePoint (λ cot ca ioa value quality. (ioa ≡ 2)))
          × At 2 calls (OnMeasuredScaled (λ cot ca ioa value quality. (ioa ≡ 3))))

  multiple_messages_dispatched_in_order : MultipleMessagesDispatchedInOrder
  unfolding MultipleMessagesDispatchedInOrder Runs
  multiple_messages_dispatched_in_order = (refl, refl, refl, refl)

  MixedCaMessagesResolvedIndependently : Type 0
  MixedCaMessagesResolvedIndependently =
      Runs parse_rfc3339 p as_ms
        (((codes "ioa", integer 10)
            ∷ (codes "value", real (over_2_to 0 1))
            ∷ (codes "type", string (codes "float"))
            ∷ (codes "ca", integer 1)
            ∷ [])
          ∷ ((codes "ioa", integer 20)
              ∷ (codes "value", real (over_2_to 0 2))
              ∷ (codes "type", string (codes "float"))
              ∷ [])
          ∷ ((codes "ioa", integer 30)
              ∷ (codes "value", real (over_2_to 0 3))
              ∷ (codes "type", string (codes "float"))
              ∷ (codes "ca", integer 5)
              ∷ [])
          ∷ [])
        9
        (λ calls.
          At 0 calls (OnMeasuredFloat (λ cot ca ioa value quality. (ioa ≡ 10) × (ca ≡ 1)))
          × At 1 calls (OnMeasuredFloat (λ cot ca ioa value quality. (ioa ≡ 20) × (ca ≡ 9)))
          × At 2 calls (OnMeasuredFloat (λ cot ca ioa value quality. (ioa ≡ 30) × (ca ≡ 5))))

  mixed_ca_messages_resolved_independently : MixedCaMessagesResolvedIndependently
  unfolding MixedCaMessagesResolvedIndependently Runs
  mixed_ca_messages_resolved_independently = ((refl, refl), (refl, refl), (refl, refl))

  ScaledValueClampedToI16Max : Type 0
  ScaledValueClampedToI16Max =
      Runs parse_rfc3339 p as_ms
        (((codes "ioa", integer 1)
            ∷ (codes "value", integer 999999)
            ∷ (codes "type", string (codes "scaled"))
            ∷ [])
          ∷ [])
        1 (λ calls. At 0 calls (OnMeasuredScaled (λ cot ca ioa value quality. (value ≡ pos 32767))))

  scaled_value_clamped_to_i16_max : ScaledValueClampedToI16Max
  unfolding ScaledValueClampedToI16Max Runs
  scaled_value_clamped_to_i16_max = refl

  ScaledValueClampedToI16Min : Type 0
  ScaledValueClampedToI16Min =
      Runs parse_rfc3339 p as_ms
        (((codes "ioa", integer 1)
            ∷ (codes "value", real (negated (over_2_to 0 999999)))
            ∷ (codes "type", string (codes "scaled"))
            ∷ [])
          ∷ [])
        1
        (λ calls.
          At 0 calls (OnMeasuredScaled (λ cot ca ioa value quality. (value ≡ negsuc 32767))))

  scaled_value_clamped_to_i16_min : ScaledValueClampedToI16Min
  unfolding ScaledValueClampedToI16Min Runs
  scaled_value_clamped_to_i16_min = refl

  EmptySourceProducesNoCalls : Type 0
  EmptySourceProducesNoCalls = Runs parse_rfc3339 p as_ms [] 1 (λ calls. (calls ≡ []))

  empty_source_produces_no_calls : EmptySourceProducesNoCalls
  unfolding EmptySourceProducesNoCalls Runs
  empty_source_produces_no_calls = refl
