-- ===== src/Bridge.antt =====
-- Messages into calls of a data sink (bridge.rs). A sink is a set of operations on a state of its
-- own; the two sinks of the program are in Sinks.
pub mod Mapping
pub mod Values
pub mod Dispatch
use iec104bridge.Base.{
  ℕ, zero, ◌-◌, ◌/◌, ◌%◌, ◌^◌, Bool, true, false, ◌&&◌, ◌||◌, Option, none, some, List, [], ◌∷◌,
  ltb, if◌then◌else◌, get_or, unwrap_or, not, suc,
}
use iec104bridge.Base.Int.{ℤ, pos, negsuc, ◌-ℤ◌, ltb_ℤ}
use iec104bridge.Number.{F64, is_nonzero, is_whole, le, of_ℤ, clamp, as_signed}
use iec104bridge.Message.{
  Iec104Message, DataType, DataValue, QualityField, CotField, bool, number, float, scaled,
  normalized, single_point, double_point,
}
use iec104bridge.Platform.{Platform}
use iec104bridge.Policy.{Outgoing}

-- The discriminants of the two enums, in the order of declaration: `q as usize`.
abbrev pub quality_index : QualityField → ℕ
quality_index QualityField.good = 0
quality_index QualityField.invalid = 1
quality_index QualityField.not_topical = 2
quality_index QualityField.substituted = 3
quality_index QualityField.blocked = 4
quality_index QualityField.overflow = 5

abbrev pub cot_index : CotField → ℕ
cot_index CotField.spontaneous = 0
cot_index CotField.periodic = 1
cot_index CotField.background_scan = 2
cot_index CotField.interrogated = 3
cot_index CotField.return_info_remote = 4
cot_index CotField.return_info_local = 5

-- `value.fract() == 0.0 && value >= i16::MIN as f64 && value <= i16::MAX as f64`
is_scaled_number : F64 → Bool
is_scaled_number x = is_whole x && le (of_ℤ (negsuc 32767)) x && le x (of_ℤ (pos 32767))

unfoldable pub infer_type : DataValue → DataType
unfolding is_scaled_number
infer_type (bool b) = single_point
infer_type (number x) = if is_scaled_number x then scaled else float

-- `i128 as u64`: modulo 2^64.
abbrev as_u64 : ℤ → ℕ
as_u64 (pos n) = n % 2 ^ 64
as_u64 (negsuc n) = 2 ^ 64 - 1 - n % 2 ^ 64

unfoldable pub as_single_point_value : DataValue → Bool
as_single_point_value (bool b) = b
as_single_point_value (number x) = is_nonzero x

unfoldable pub as_scaled_value : DataValue → ℤ
as_scaled_value (bool b) = if b then pos 1 else pos 0
as_scaled_value (number x) = as_signed 32768 (clamp x (of_ℤ (negsuc 32767)) (of_ℤ (pos 32767)))

module _ (p : Platform) where
  unfoldable pub quality_map : List p.Quality
  quality_map =
      p.good_quality ∷ p.invalid_quality ∷ p.not_topical_quality ∷ p.substituted_quality
      ∷ p.blocked_quality ∷ p.overflow_quality ∷ []

  unfoldable pub cot_map : List p.Cause
  cot_map =
      p.spontaneous_cause ∷ p.periodic_cause ∷ p.background_cause ∷ p.interrogated_by_station_cause
      ∷ p.return_remote_cause ∷ p.return_local_cause ∷ []

  -- An index out of range would be a panic; the indices stay in range (Mapping).
  unfoldable pub map_quality : QualityField → p.Quality
  unfolding quality_map
  map_quality q = get_or quality_map (quality_index q) p.good_quality

  unfoldable pub map_cot : CotField → p.Cause
  unfolding cot_map
  map_cot c = get_or cot_map (cot_index c) p.spontaneous_cause

  unfoldable pub offset_datetime_to_cp56_timestamp : ℤ → p.Timestamp
  offset_datetime_to_cp56_timestamp nanos = p.from_ms (as_u64 nanos / 1_000_000)

  unfoldable pub as_float_value : DataValue → p.F32
  as_float_value (bool b) = if b then p.f32_one else p.f32_zero
  as_float_value (number x) = p.as_f32 x

pub record TimedDispatch (p : Platform) : Type 0 where
  pub server_ptr : Option p.ServerPtr
  pub cot : p.Cause
  pub ca : ℕ
  pub ioa : ℕ
  pub value : DataValue
  pub data_type : DataType
  pub quality : p.Quality
  pub timestamp : p.Timestamp

-- The trait `DataSink`, over a state `S`.
pub record DataSink (p : Platform) (S : Type 0) : Type 0 where
  pub send_single_point : p.Cause → ℕ → ℕ → Bool → p.Quality → S → S
  pub send_measured_float : p.Cause → ℕ → ℕ → p.F32 → p.Quality → S → S
  pub send_measured_scaled : p.Cause → ℕ → ℕ → ℤ → p.Quality → S → S
  pub enqueue_timed : TimedDispatch p → S → S

pub record DispatchContext (p : Platform) : Type 0 where
  pub ca : ℕ
  pub ioa : ℕ
  pub quality : p.Quality
  pub cot : p.Cause
  pub data_type : DataType
  pub timestamp : Option p.Timestamp

module _ (p : Platform) where
  unfoldable pub from_message : Iec104Message → ℕ → DispatchContext p
  from_message msg default_ca = record {
    ca = unwrap_or msg.ca default_ca;
    ioa = msg.ioa;
    quality = map_quality p msg.quality;
    cot = map_cot p msg.cot;
    data_type = unwrap_or msg.data_type (infer_type msg.value);
    timestamp = elim msg.timestamp [
      | none ↦ none
      | some t ↦ some (offset_datetime_to_cp56_timestamp p t)
    ];
  }

  timed : DispatchContext p → DataValue → DataType → p.Timestamp → TimedDispatch p
  timed context value data_type timestamp = record {
    server_ptr = none;
    cot = context.cot;
    ca = context.ca;
    ioa = context.ioa;
    value = value;
    data_type = data_type;
    quality = context.quality;
    timestamp = timestamp;
  }

module _ (p : Platform) {S : Type 0} (sink : DataSink p S) where
  dispatch_single_point : DispatchContext p → DataValue → S → S
  dispatch_single_point context value s = elim context.timestamp [
    | some timestamp ↦ sink.enqueue_timed (timed p context value single_point timestamp) s
    | none ↦
        sink.send_single_point context.cot context.ca context.ioa (as_single_point_value value)
          context.quality s
  ]

  dispatch_float_like : DispatchContext p → DataValue → S → S
  dispatch_float_like context value s = elim context.timestamp [
    | some timestamp ↦ sink.enqueue_timed (timed p context value context.data_type timestamp) s
    | none ↦
        sink.send_measured_float context.cot context.ca context.ioa (as_float_value p value)
          context.quality s
  ]

  dispatch_scaled : DispatchContext p → DataValue → S → S
  dispatch_scaled context value s = elim context.timestamp [
    | some timestamp ↦ sink.enqueue_timed (timed p context value scaled timestamp) s
    | none ↦
        sink.send_measured_scaled context.cot context.ca context.ioa (as_scaled_value value)
          context.quality s
  ]

  dispatch_double_point : DispatchContext p → DataValue → S → S
  unfolding dispatch_single_point
  dispatch_double_point context value s = dispatch_single_point context value s

  dispatch_context : DispatchContext p → DataValue → S → S
  unfolding dispatch_double_point dispatch_float_like dispatch_scaled timed
  dispatch_context context value s = elim context.data_type [
    | single_point ↦ dispatch_single_point context value s
    | float ↦ dispatch_float_like context value s
    | normalized ↦ dispatch_float_like context value s
    | scaled ↦ dispatch_scaled context value s
    | double_point ↦ dispatch_double_point context value s
  ]

  unfoldable pub dispatch_outgoing : Outgoing → ℕ → S → S
  unfolding dispatch_context from_message
  dispatch_outgoing out default_ca s =
      let context = from_message p out.message default_ca in
      let marked =
        if out.not_topical
        then record context { quality = p.union context.quality p.not_topical_quality }
        else context in
      dispatch_context marked out.message.value s

  -- Without the output policy, for the tests.
  unfoldable pub dispatch : Iec104Message → ℕ → S → S
  unfolding dispatch_context from_message
  dispatch msg default_ca s = dispatch_context (from_message p msg default_ca) msg.value s
