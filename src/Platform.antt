-- ===== src/Platform.antt =====
-- What bridge.rs and asdu.rs take from outside the repository: the value types of the lib60870 crate
-- and Rust's `f32`. They are parameters of the model, with only the constants and functions that the
-- code names.
use iec104bridge.Base.{ℕ}
use iec104bridge.Number.{F64}

pub record Platform : Type 1 where
  -- `f32`, its literals 0.0 and 1.0, and `x as f32`
  pub F32 : Type 0
  pub f32_zero : F32
  pub f32_one : F32
  pub as_f32 : F64 → F32
  -- `lib60870::time::Timestamp`, and `Timestamp::from_ms` of a `u64`
  pub Timestamp : Type 0
  pub from_ms : ℕ → Timestamp
  -- `lib60870::types::Quality`: its constants, and `|` of two sets of flags
  pub Quality : Type 0
  pub good_quality : Quality
  pub invalid_quality : Quality
  pub not_topical_quality : Quality
  pub substituted_quality : Quality
  pub blocked_quality : Quality
  pub overflow_quality : Quality
  pub union : Quality → Quality → Quality
  -- `lib60870::types::CauseOfTransmission`: the constants that are named
  pub Cause : Type 0
  pub spontaneous_cause : Cause
  pub periodic_cause : Cause
  pub background_cause : Cause
  pub interrogated_by_station_cause : Cause
  pub return_remote_cause : Cause
  pub return_local_cause : Cause
  -- the pointers `CS104_Slave` of a running server and `IMasterConnection` of a master's connection
  pub ServerPtr : Type 0
  pub Connection : Type 0
  -- `lib60870::types::QOI_STATION`, the qualifier of a station interrogation
  pub qoi_station : ℕ
