-- ===== src/Suite/Dispatching/Maps.antt =====
-- The tests of the two tables (bridge.rs).
use iec104bridge.Base.{◌≡◌, refl}
use iec104bridge.Message.{QualityField, CotField}
use iec104bridge.Platform.{Platform}
use iec104bridge.Bridge.{map_quality, map_cot}

module _ (p : Platform) where
  MapQualityGood : Type 0
  MapQualityGood = map_quality p QualityField.good ≡ p.good_quality

  map_quality_good : MapQualityGood
  unfolding MapQualityGood map_quality
  map_quality_good = refl

  MapQualityInvalid : Type 0
  MapQualityInvalid = map_quality p QualityField.invalid ≡ p.invalid_quality

  map_quality_invalid : MapQualityInvalid
  unfolding MapQualityInvalid map_quality
  map_quality_invalid = refl

  MapQualityNotTopical : Type 0
  MapQualityNotTopical = map_quality p QualityField.not_topical ≡ p.not_topical_quality

  map_quality_not_topical : MapQualityNotTopical
  unfolding MapQualityNotTopical map_quality
  map_quality_not_topical = refl

  MapQualitySubstituted : Type 0
  MapQualitySubstituted = map_quality p QualityField.substituted ≡ p.substituted_quality

  map_quality_substituted : MapQualitySubstituted
  unfolding MapQualitySubstituted map_quality
  map_quality_substituted = refl

  MapQualityBlocked : Type 0
  MapQualityBlocked = map_quality p QualityField.blocked ≡ p.blocked_quality

  map_quality_blocked : MapQualityBlocked
  unfolding MapQualityBlocked map_quality
  map_quality_blocked = refl

  MapQualityOverflow : Type 0
  MapQualityOverflow = map_quality p QualityField.overflow ≡ p.overflow_quality

  map_quality_overflow : MapQualityOverflow
  unfolding MapQualityOverflow map_quality
  map_quality_overflow = refl

  MapCotSpontaneous : Type 0
  MapCotSpontaneous = map_cot p CotField.spontaneous ≡ p.spontaneous_cause

  map_cot_spontaneous : MapCotSpontaneous
  unfolding MapCotSpontaneous map_cot
  map_cot_spontaneous = refl

  MapCotPeriodic : Type 0
  MapCotPeriodic = map_cot p CotField.periodic ≡ p.periodic_cause

  map_cot_periodic : MapCotPeriodic
  unfolding MapCotPeriodic map_cot
  map_cot_periodic = refl

  MapCotBackgroundScan : Type 0
  MapCotBackgroundScan = map_cot p CotField.background_scan ≡ p.background_cause

  map_cot_background_scan : MapCotBackgroundScan
  unfolding MapCotBackgroundScan map_cot
  map_cot_background_scan = refl

  MapCotInterrogated : Type 0
  MapCotInterrogated = map_cot p CotField.interrogated ≡ p.interrogated_by_station_cause

  map_cot_interrogated : MapCotInterrogated
  unfolding MapCotInterrogated map_cot
  map_cot_interrogated = refl

  MapCotReturnInfoRemote : Type 0
  MapCotReturnInfoRemote = map_cot p CotField.return_info_remote ≡ p.return_remote_cause

  map_cot_return_info_remote : MapCotReturnInfoRemote
  unfolding MapCotReturnInfoRemote map_cot
  map_cot_return_info_remote = refl

  MapCotReturnInfoLocal : Type 0
  MapCotReturnInfoLocal = map_cot p CotField.return_info_local ≡ p.return_local_cause

  map_cot_return_info_local : MapCotReturnInfoLocal
  unfolding MapCotReturnInfoLocal map_cot
  map_cot_return_info_local = refl
