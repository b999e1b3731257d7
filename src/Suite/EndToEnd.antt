-- ===== src/Suite/EndToEnd.antt =====
-- The end-to-end tests (e2e_tests.rs).
pub mod Kinds
pub mod Carried
pub mod Schema
use mathlib.Core.List.{reverse}
use iec104bridge.Base.{ℕ, Option, List, [], ◌∷◌}
use iec104bridge.Base.Int.{ℤ}
use iec104bridge.Environment.{Text}
use iec104bridge.Message.{Iec104Message}
use iec104bridge.Platform.{Platform}
use iec104bridge.Decode.{Fields, deserialize_message}
use iec104bridge.Number.{of_ℤ, clamp, scale, as_signed, trunc}
use iec104bridge.Bridge.{
  dispatch, infer_type, map_quality, map_cot, as_float_value, as_scaled_value,
  as_single_point_value,
}
use iec104bridge.Sinks.Capturing.{SentCall, capturing_sink}
use iec104bridge.Harness.{run}
use iec104bridge.Suite.{serde, Parsed}

module _ (parse_rfc3339 : Text → Option ℤ) (p : Platform) (as_ms : p.Timestamp → ℕ) where
  abbrev pub ParsedAll :
      List (Fields (serde parse_rfc3339)) → (List Iec104Message → Type 0) → Type 0
  ParsedAll [] P = P []
  ParsedAll (fields ∷ rest) P = Parsed fields (λ m. ParsedAll rest (λ ms. P (m ∷ ms)))

  -- The calls of a run over these objects, in the order in which they are made.
  unfoldable pub Runs :
      List (Fields (serde parse_rfc3339)) → ℕ → (List (SentCall p) → Type 0) → Type 0
  unfolding deserialize_message run dispatch capturing_sink infer_type map_quality map_cot
      as_float_value as_scaled_value as_single_point_value of_ℤ clamp scale as_signed trunc
  Runs objects default_ca P = ParsedAll objects (λ msgs. P (reverse (run p as_ms msgs default_ca)))
