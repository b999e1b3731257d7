-- ===== src/Bridge/Mapping.antt =====
-- The tables of quality flags and of causes, the inferred types, and the source times.
use iec104bridge.Base.{ℕ, ◌+◌, ◌*◌, ◌/◌, ◌^◌, ◌<◌, ◌≡◌, arith, length, ap}
use iec104bridge.Base.Int.{pos}
use iec104bridge.Message.{QualityField, CotField}
use iec104bridge.Platform.{Platform}
use iec104bridge.Bridge.{
  quality_index, cot_index, quality_map, cot_map, map_quality, map_cot,
  offset_datetime_to_cp56_timestamp,
}

module _ (p : Platform) where
  -- The flag of the same name, as the README's table lists it.
  abbrev pub named_quality : QualityField → p.Quality
  named_quality QualityField.good = p.good_quality
  named_quality QualityField.invalid = p.invalid_quality
  named_quality QualityField.not_topical = p.not_topical_quality
  named_quality QualityField.substituted = p.substituted_quality
  named_quality QualityField.blocked = p.blocked_quality
  named_quality QualityField.overflow = p.overflow_quality

  abbrev pub named_cause : CotField → p.Cause
  named_cause CotField.spontaneous = p.spontaneous_cause
  named_cause CotField.periodic = p.periodic_cause
  named_cause CotField.background_scan = p.background_cause
  named_cause CotField.interrogated = p.interrogated_by_station_cause
  named_cause CotField.return_info_remote = p.return_remote_cause
  named_cause CotField.return_info_local = p.return_local_cause

  -- Each table is looked up within its length, and gives the quality flag or the cause that has the
  -- name of the field.
  pub maps_by_name :
      (q : QualityField) (c : CotField)
      → (quality_index q < length (quality_map p))
        × (map_quality p q ≡ named_quality q)
        × (cot_index c < length (cot_map p))
        × (map_cot p c ≡ named_cause c)
  unfolding map_quality map_cot
  maps_by_name q c = ground arith

  -- A source time that lies n nanoseconds, n below 2^64, behind a multiple of 2^64 ns after the epoch
  -- is sent as the whole milliseconds of n: exactly until the year 2554, and as an earlier time then.
  pub cp56_wraps :
      (n k : ℕ)
      → n < 2 ^ 64
      → offset_datetime_to_cp56_timestamp p (pos (n + k * 2 ^ 64)) ≡ p.from_ms (n / 1_000_000)
  unfolding offset_datetime_to_cp56_timestamp
  cp56_wraps n k h = ap (λ (m : ℕ). p.from_ms (m / 1_000_000)) (omega arith)
