-- ===== src/Suite/Dispatching.antt =====
-- The tests of the dispatch (bridge.rs).
pub mod Maps
pub mod Points
pub mod Measured
pub mod Carried
pub mod Output
use mathlib.Core.List.{reverse}
use iec104bridge.Base.{ℕ, ◌*◌, Bool, Option, none, some, List, []}
use iec104bridge.Base.Int.{ℤ, pos}
use iec104bridge.Number.{F64, of_ℤ, clamp, scale, as_signed, trunc}
use iec104bridge.Message.{Iec104Message, DataValue, DataType, QualityField, CotField}
use iec104bridge.Platform.{Platform}
use iec104bridge.Bridge.{
  dispatch, infer_type, map_quality, map_cot, as_float_value, as_scaled_value,
  as_single_point_value,
}
use iec104bridge.Sinks.Capturing.{SentCall, capturing_sink}

abbrev pub make_msg :
    ℕ → DataValue → Option DataType → QualityField → CotField → Option ℕ → Iec104Message
make_msg ioa value data_type quality cot ca = record {
  ioa = ioa;
  value = value;
  data_type = data_type;
  quality = quality;
  cot = cot;
  ca = ca;
  timestamp = none;
}

abbrev pub simple_float : ℕ → F64 → Iec104Message
simple_float ioa v =
    make_msg ioa (DataValue.number v) (some DataType.float) QualityField.good CotField.spontaneous
      none

abbrev pub simple_bool : ℕ → Bool → Iec104Message
simple_bool ioa v =
    make_msg ioa (DataValue.bool v) (some DataType.single_point) QualityField.good
      CotField.spontaneous none

-- That many minutes after the epoch.
abbrev pub at : ℕ → ℤ
at minutes = pos (minutes * 60_000_000_000)

module _ (p : Platform) (as_ms : p.Timestamp → ℕ) where
  -- The calls that the dispatch makes of a new sink, in their order.
  unfoldable pub Dispatches : Iec104Message → ℕ → (List (SentCall p) → Type 0) → Type 0
  unfolding dispatch capturing_sink infer_type map_quality map_cot as_float_value as_scaled_value
      as_single_point_value of_ℤ clamp scale as_signed trunc
  Dispatches msg default_ca P = P (reverse (dispatch p (capturing_sink p as_ms) msg default_ca []))
