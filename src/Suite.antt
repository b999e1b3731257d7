-- ===== src/Suite.antt =====
-- The repository's own unit tests: each test is the proposition that its assertions hold, at every
-- platform, and a theorem of the test's own name proves it, some from what the libraries do on the
-- test's input. A panic, as for an index out of range, is ⊥. The texts of JSON stand as the objects
-- that they write. A number in them is an integer, or any other.
pub mod EndToEnd
pub mod Messages
pub mod Dispatching
pub mod Settings
pub mod Rules
pub mod Handlers
use iec104bridge.Base.{
  false, ℕ, zero, suc, ◌*◌, ◌/◌, ◌^◌, not, ◌⊎◌, inl, inr, Bool, Option, none, some, List, [], ◌∷◌,
}
use iec104bridge.Base.Result.{Result, ok, err}
use iec104bridge.Base.Int.{ℤ, pos}
use iec104bridge.Number.{F64, scale, of_ℤ}
use iec104bridge.Environment.{Text}
use iec104bridge.Message.{Iec104Message, DataValue}
use iec104bridge.Platform.{Platform}
use iec104bridge.Decode.{Serde, Value, Fields, deserialize_message}
use iec104bridge.Decode.Value.{number}
use iec104bridge.Sinks.Capturing.{
  SentCall, TypeId, single_point, measured_float, measured_scaled, timed,
}
use iec104bridge.Harness.{run}

-- `calls[i]`
abbrev pub At : {A : Type 0} → ℕ → List A → (A → Type 0) → Type 0
At i [] P = ⊥
At zero (a ∷ rest) P = P a
At (suc i) (a ∷ rest) P = At i rest P

-- `unwrap`, which panics where nothing is there.
abbrev pub IsThere : {A : Type 0} → Option A → (A → Type 0) → Type 0
IsThere none P = ⊥
IsThere (some a) P = P a

-- `unwrap` and `is_err` of a result.
abbrev pub IsOk : {E A : Type 0} → Result E A → (A → Type 0) → Type 0
IsOk (ok a) P = P a
IsOk (err e) P = ⊥

abbrev pub IsErr : {E A : Type 0} → Result E A → Type 0
IsErr (ok a) = ⊥
IsErr (err e) = Unit

-- The literal of n / 2^k, and its negation.
abbrev pub over_2_to : ℕ → ℕ → F64
over_2_to k n = record { negative = false; units = n * (scale / 2 ^ k) }

abbrev pub negated : F64 → F64
negated x = record x { negative = not x.negative }

abbrev as_u64 : ℕ ⊎ F64 → Option ℕ
as_u64 (inl n) = some n
as_u64 (inr x) = none

abbrev as_f64 : ℕ ⊎ F64 → F64
as_f64 (inl n) = of_ℤ (pos n)
as_f64 (inr x) = x

-- No value of the tests is an array or an object.
abbrev pub serde : (Text → Option ℤ) → Serde
serde parse_rfc3339 = record {
  Number = ℕ ⊎ F64;
  as_u64 = as_u64;
  as_f64 = as_f64;
  Compound = ⊥;
  variant = λ c. none;
  parse_rfc3339 = parse_rfc3339;
}

-- `matches!`, by the variant of a call.
module _ {p : Platform} where
  abbrev pub OnSinglePoint : (p.Cause → ℕ → ℕ → Bool → p.Quality → Type 0) → SentCall p → Type 0
  OnSinglePoint P (single_point cot ca ioa value quality) = P cot ca ioa value quality
  OnSinglePoint P call = ⊥

  abbrev pub OnMeasuredFloat : (p.Cause → ℕ → ℕ → p.F32 → p.Quality → Type 0) → SentCall p → Type 0
  OnMeasuredFloat P (measured_float cot ca ioa value quality) = P cot ca ioa value quality
  OnMeasuredFloat P call = ⊥

  abbrev pub OnMeasuredScaled : (p.Cause → ℕ → ℕ → ℤ → p.Quality → Type 0) → SentCall p → Type 0
  OnMeasuredScaled P (measured_scaled cot ca ioa value quality) = P cot ca ioa value quality
  OnMeasuredScaled P call = ⊥

  abbrev pub OnTimed :
      (p.Cause → ℕ → ℕ → TypeId → DataValue → p.Quality → ℕ → Type 0) → SentCall p → Type 0
  OnTimed P (timed cot ca ioa data_type value quality timestamp_ms) =
      P cot ca ioa data_type value quality timestamp_ms
  OnTimed P call = ⊥

module _ {parse_rfc3339 : Text → Option ℤ} where
  abbrev pub integer : ℕ → Value (serde parse_rfc3339)
  integer n = number (inl n)

  abbrev pub real : F64 → Value (serde parse_rfc3339)
  real x = number (inr x)

  -- `parse`, which panics on an error.
  abbrev pub Parsed : Fields (serde parse_rfc3339) → (Iec104Message → Type 0) → Type 0
  Parsed fields P = IsThere (deserialize_message fields) P
