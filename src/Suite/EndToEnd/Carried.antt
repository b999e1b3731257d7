-- ===== src/Suite/EndToEnd/Carried.antt =====
-- The end-to-end tests on what a call carries: the common address, the quality and the cause.
use iec104bridge.Base.{ℕ, ◌≡◌, refl, true, Option, [], ◌∷◌, length}
use iec104bridge.Base.Int.{ℤ}
use iec104bridge.Environment.{Text, codes}
use iec104bridge.Platform.{Platform}
use iec104bridge.Decode.Value.{string, boolean}
use iec104bridge.Suite.{At, over_2_to, integer, real, OnSinglePoint, OnMeasuredFloat}
use iec104bridge.Suite.EndToEnd.{Runs}

module _ (parse_rfc3339 : Text → Option ℤ) (p : Platform) (as_ms : p.Timestamp → ℕ) where
  MessageCaOverridesDefaultCa : Type 0
  MessageCaOverridesDefaultCa =
      Runs parse_rfc3339 p as_ms
        (((codes "ioa", integer 1) ∷ (codes "value", boolean true) ∷ (codes "ca", integer 42) ∷ [])
          ∷ [])
        99
        (λ calls.
          (length calls ≡ 1) × At 0 calls (OnSinglePoint (λ cot ca ioa value quality. (ca ≡ 42))))

  message_ca_overrides_default_ca : MessageCaOverridesDefaultCa
  unfolding MessageCaOverridesDefaultCa Runs
  message_ca_overrides_default_ca = (refl, refl)

  MissingCaFallsBackToDefault : Type 0
  MissingCaFallsBackToDefault =
      Runs parse_rfc3339 p as_ms
        (((codes "ioa", integer 1) ∷ (codes "value", boolean true) ∷ []) ∷ []) 7
        (λ calls.
          (length calls ≡ 1) × At 0 calls (OnSinglePoint (λ cot ca ioa value quality. (ca ≡ 7))))

  missing_ca_falls_back_to_default : MissingCaFallsBackToDefault
  unfolding MissingCaFallsBackToDefault Runs
  missing_ca_falls_back_to_default = (refl, refl)

  GoodQualityPropagated : Type 0
  GoodQualityPropagated =
      Runs parse_rfc3339 p as_ms
        (((codes "ioa", integer 1)
            ∷ (codes "value", real (over_2_to 0 0))
            ∷ (codes "type", string (codes "float"))
            ∷ (codes "quality", string (codes "good"))
            ∷ [])
          ∷ [])
        1
        (λ calls.
          At 0 calls (OnMeasuredFloat (λ cot ca ioa value quality. (quality ≡ p.good_quality))))

  good_quality_propagated : GoodQualityPropagated
  unfolding GoodQualityPropagated Runs
  good_quality_propagated = refl

  InvalidQualityPropagated : Type 0
  InvalidQualityPropagated =
      Runs parse_rfc3339 p as_ms
        (((codes "ioa", integer 1)
            ∷ (codes "value", real (over_2_to 0 0))
            ∷ (codes "type", string (codes "float"))
            ∷ (codes "quality", string (codes "invalid"))
            ∷ [])
          ∷ [])
        1
        (λ calls.
          At 0 calls (OnMeasuredFloat (λ cot ca ioa value quality. (quality ≡ p.invalid_quality))))

  invalid_quality_propagated : InvalidQualityPropagated
  unfolding InvalidQualityPropagated Runs
  invalid_quality_propagated = refl

  NotTopicalQualityPropagated : Type 0
  NotTopicalQualityPropagated =
      Runs parse_rfc3339 p as_ms
        (((codes "ioa", integer 1)
            ∷ (codes "value", real (over_2_to 0 0))
            ∷ (codes "type", string (codes "float"))
            ∷ (codes "quality", string (codes "not_topical"))
            ∷ [])
          ∷ [])
        1
        (λ calls.
          At 0 calls
            (OnMeasuredFloat (λ cot ca ioa value quality. (quality ≡ p.not_topical_quality))))

  not_topical_quality_propagated : NotTopicalQualityPropagated
  unfolding NotTopicalQualityPropagated Runs
  not_topical_quality_propagated = refl

  SubstitutedQualityPropagated : Type 0
  SubstitutedQualityPropagated =
      Runs parse_rfc3339 p as_ms
        (((codes "ioa", integer 1)
            ∷ (codes "value", real (over_2_to 0 0))
            ∷ (codes "type", string (codes "float"))
            ∷ (codes "quality", string (codes "substituted"))
            ∷ [])
          ∷ [])
        1
        (λ calls.
          At 0 calls
            (OnMeasuredFloat (λ cot ca ioa value quality. (quality ≡ p.substituted_quality))))

  substituted_quality_propagated : SubstitutedQualityPropagated
  unfolding SubstitutedQualityPropagated Runs
  substituted_quality_propagated = refl

  DefaultQualityIsGoodWhenAbsent : Type 0
  DefaultQualityIsGoodWhenAbsent =
      Runs parse_rfc3339 p as_ms
        (((codes "ioa", integer 1)
            ∷ (codes "value", real (over_2_to 0 0))
            ∷ (codes "type", string (codes "float"))
            ∷ [])
          ∷ [])
        1
        (λ calls.
          At 0 calls (OnMeasuredFloat (λ cot ca ioa value quality. (quality ≡ p.good_quality))))

  default_quality_is_good_when_absent : DefaultQualityIsGoodWhenAbsent
  unfolding DefaultQualityIsGoodWhenAbsent Runs
  default_quality_is_good_when_absent = refl

  PeriodicCotPropagated : Type 0
  PeriodicCotPropagated =
      Runs parse_rfc3339 p as_ms
        (((codes "ioa", integer 1)
            ∷ (codes "value", real (over_2_to 0 1))
            ∷ (codes "type", string (codes "float"))
            ∷ (codes "cot", string (codes "periodic"))
            ∷ [])
          ∷ [])
        1
        (λ calls.
          At 0 calls (OnMeasuredFloat (λ cot ca ioa value quality. (cot ≡ p.periodic_cause))))

  periodic_cot_propagated : PeriodicCotPropagated
  unfolding PeriodicCotPropagated Runs
  periodic_cot_propagated = refl

  BackgroundScanCotPropagated : Type 0
  BackgroundScanCotPropagated =
      Runs parse_rfc3339 p as_ms
        (((codes "ioa", integer 1)
            ∷ (codes "value", real (over_2_to 0 1))
            ∷ (codes "type", string (codes "float"))
            ∷ (codes "cot", string (codes "background_scan"))
            ∷ [])
          ∷ [])
        1
        (λ calls.
          At 0 calls (OnMeasuredFloat (λ cot ca ioa value quality. (cot ≡ p.background_cause))))

  background_scan_cot_propagated : BackgroundScanCotPropagated
  unfolding BackgroundScanCotPropagated Runs
  background_scan_cot_propagated = refl

  DefaultCotIsSpontaneousWhenAbsent : Type 0
  DefaultCotIsSpontaneousWhenAbsent =
      Runs parse_rfc3339 p as_ms
        (((codes "ioa", integer 1)
            ∷ (codes "value", real (over_2_to 0 0))
            ∷ (codes "type", string (codes "float"))
            ∷ [])
          ∷ [])
        1
        (λ calls.
          At 0 calls (OnMeasuredFloat (λ cot ca ioa value quality. (cot ≡ p.spontaneous_cause))))

  default_cot_is_spontaneous_when_absent : DefaultCotIsSpontaneousWhenAbsent
  unfolding DefaultCotIsSpontaneousWhenAbsent Runs
  default_cot_is_spontaneous_when_absent = refl
