-- ===== src/Suite/Dispatching/Output.antt =====
-- The tests of the output policy and of the times that are sent (bridge.rs).
use mathlib.Core.List.{reverse}
use iec104bridge.Base.{ℕ, ◌*◌, ◌≡◌, refl, Bool, true, false, Option, none, some, List, [], ◌∷◌}
use iec104bridge.Base.Int.{ℤ, ◌-ℤ◌}
use iec104bridge.Environment.{Text, codes}
use iec104bridge.Message.{Iec104Message, QualityField}
use iec104bridge.Platform.{Platform}
use iec104bridge.Policy.{OutputPolicy, Outgoing, default_policy, prepare_for_output}
use iec104bridge.Bridge.{dispatch_outgoing, map_quality, as_float_value}
use iec104bridge.Sinks.Capturing.{SentCall, measured_float, capturing_sink}
use iec104bridge.Suite.{At, IsThere, over_2_to, OnMeasuredFloat, OnTimed}
use iec104bridge.Suite.Dispatching.{simple_float, at, Dispatches}

-- `Duration::from_secs(m * 60)` in nanoseconds
minutes_long : Option ℕ → Option ℕ
minutes_long none = none
minutes_long (some m) = some (m * 60 * 1_000_000_000)

policy : Bool → Option ℕ → OutputPolicy
unfolding minutes_long
policy send_timestamps max_age_min = record {
  send_timestamps = send_timestamps;
  max_age = minutes_long max_age_min;
}

timed_float : ℕ → Iec104Message
timed_float minute = record (simple_float 100 (over_2_to 1 3)) { timestamp = some (at minute) }

module _ (p : Platform) (as_ms : p.Timestamp → ℕ) where
  -- The quality of the first call; `none` is the panic on another one, or on none.
  float_quality : List (SentCall p) → Option p.Quality
  float_quality (measured_float cot ca ioa value quality ∷ calls) = some quality
  float_quality calls = none

  sent : Outgoing → List (SentCall p)
  unfolding dispatch_outgoing capturing_sink map_quality as_float_value
  sent out = reverse (dispatch_outgoing p (capturing_sink p as_ms) out 1 [])

  wire_quality : Outgoing → Option p.Quality
  unfolding float_quality sent ◌-ℤ◌
  wire_quality out = float_quality (sent out)

  StripsTimestampWhenTimestampsDisabled : Type 0
  StripsTimestampWhenTimestampsDisabled =
      let out = prepare_for_output (timed_float 100) (at 100) (at 100) (policy false none) in
      (out.message.timestamp ≡ none)
      × At 0 (sent out) (OnMeasuredFloat (λ cot ca ioa value quality. ioa ≡ 100))

  strips_timestamp_when_timestamps_disabled : StripsTimestampWhenTimestampsDisabled
  unfolding StripsTimestampWhenTimestampsDisabled prepare_for_output timed_float policy sent
  strips_timestamp_when_timestamps_disabled = (refl, refl)

  KeepsTimestampByDefault : Type 0
  KeepsTimestampByDefault =
      let out = prepare_for_output (timed_float 100) (at 100) (at 100) default_policy in
      out.message.timestamp ≡ some (at 100)

  keeps_timestamp_by_default : KeepsTimestampByDefault
  unfolding KeepsTimestampByDefault prepare_for_output timed_float
  keeps_timestamp_by_default = refl

  OldSourceTimeIsNotTopical : Type 0
  OldSourceTimeIsNotTopical =
      let out = prepare_for_output (timed_float 0) (at 100) (at 100) (policy false (some 60)) in
      wire_quality out ≡ some p.not_topical_quality

  -- The flag joined to that of a good quality must be the flag alone.
  old_source_time_is_not_topical :
      p.union p.good_quality p.not_topical_quality ≡ p.not_topical_quality
      → OldSourceTimeIsNotTopical
  unfolding OldSourceTimeIsNotTopical prepare_for_output timed_float policy wire_quality
  old_source_time_is_not_topical e = rw e refl

  OldArrivalIsNotTopicalEvenForFutureTimestamp : Type 0
  OldArrivalIsNotTopicalEvenForFutureTimestamp =
      let out = prepare_for_output (timed_float 220) (at 0) (at 100) (policy false (some 60)) in
      wire_quality out ≡ some p.not_topical_quality

  -- The flag joined to that of a good quality must be the flag alone.
  old_arrival_is_not_topical_even_for_future_timestamp :
      p.union p.good_quality p.not_topical_quality ≡ p.not_topical_quality
      → OldArrivalIsNotTopicalEvenForFutureTimestamp
  unfolding OldArrivalIsNotTopicalEvenForFutureTimestamp prepare_for_output timed_float policy
      wire_quality
  old_arrival_is_not_topical_even_for_future_timestamp e = rw e refl

  FutureTimestampIsNotStale : Type 0
  FutureTimestampIsNotStale =
      let out = prepare_for_output (timed_float 160) (at 99) (at 100) (policy false (some 60)) in
      wire_quality out ≡ some p.good_quality

  future_timestamp_is_not_stale : FutureTimestampIsNotStale
  unfolding FutureTimestampIsNotStale prepare_for_output timed_float policy wire_quality
  future_timestamp_is_not_stale = refl

  FreshPointKeepsQuality : Type 0
  FreshPointKeepsQuality =
      let out = prepare_for_output (timed_float 90) (at 99) (at 100) (policy false (some 60)) in
      wire_quality out ≡ some p.good_quality

  fresh_point_keeps_quality : FreshPointKeepsQuality
  unfolding FreshPointKeepsQuality prepare_for_output timed_float policy wire_quality
  fresh_point_keeps_quality = refl

  StaleNeverOverridesInvalid : Type 0
  StaleNeverOverridesInvalid =
      let msg = record (timed_float 0) { quality = QualityField.invalid } in
      let out = prepare_for_output msg (at 0) (at 100) (policy false (some 60)) in
      wire_quality out ≡ some p.invalid_quality

  stale_never_overrides_invalid : StaleNeverOverridesInvalid
  unfolding StaleNeverOverridesInvalid prepare_for_output timed_float policy wire_quality
  stale_never_overrides_invalid = refl

  StaleSubstitutedKeepsSubstitutedFlag : Type 0
  StaleSubstitutedKeepsSubstitutedFlag =
      let msg = record (timed_float 0) { quality = QualityField.substituted } in
      let out = prepare_for_output msg (at 0) (at 100) (policy false (some 60)) in
      wire_quality out ≡ some (p.union p.substituted_quality p.not_topical_quality)

  stale_substituted_keeps_substituted_flag : StaleSubstitutedKeepsSubstitutedFlag
  unfolding StaleSubstitutedKeepsSubstitutedFlag prepare_for_output timed_float policy wire_quality
  stale_substituted_keeps_substituted_flag = refl

  UntimedMessageUsesArrivalOnly : Type 0
  UntimedMessageUsesArrivalOnly =
      let msg = simple_float 100 (over_2_to 0 1) in
      let out = prepare_for_output msg (at 50) (at 100) (policy true (some 60)) in
      wire_quality out ≡ some p.good_quality

  untimed_message_uses_arrival_only : UntimedMessageUsesArrivalOnly
  unfolding UntimedMessageUsesArrivalOnly prepare_for_output policy wire_quality
  untimed_message_uses_arrival_only = refl

  -- `parse` is `OffsetDateTime::parse`; both texts must be read as times.
  DispatchTimestampOffsetsForSameInstantProduceSameIecTimestamp : (Text → Option ℤ) → Type 0
  DispatchTimestampOffsetsForSameInstantProduceSameIecTimestamp parse =
      IsThere (parse (codes "2026-06-01T12:34:56.789Z")) (λ utc.
        IsThere (parse (codes "2026-06-01T14:34:56.789+02:00")) (λ offset.
          Dispatches p as_ms (record (simple_float 12 (over_2_to 1 3)) { timestamp = some utc }) 1
            (λ utc_calls.
              Dispatches p as_ms
                (record (simple_float 12 (over_2_to 1 3)) { timestamp = some offset }) 1
                (λ offset_calls. At 0 utc_calls (
                  OnTimed (λ cot ca ioa data_type value quality utc_timestamp_ms.
                    At 0 offset_calls (
                      OnTimed (λ cot ca ioa data_type value quality offset_timestamp_ms.
                        utc_timestamp_ms ≡ offset_timestamp_ms))))))))

  -- The two texts must be read as the same instant.
  dispatch_timestamp_offsets_for_same_instant_produce_same_iec_timestamp :
      (parse : Text → Option ℤ) (t : ℤ)
      → parse (codes "2026-06-01T12:34:56.789Z") ≡ some t
      → parse (codes "2026-06-01T14:34:56.789+02:00") ≡ some t
      → DispatchTimestampOffsetsForSameInstantProduceSameIecTimestamp parse
  unfolding DispatchTimestampOffsetsForSameInstantProduceSameIecTimestamp Dispatches
  dispatch_timestamp_offsets_for_same_instant_produce_same_iec_timestamp parse t utc offset =
      rw (utc, offset) refl
