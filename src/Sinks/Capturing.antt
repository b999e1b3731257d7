-- ===== src/Sinks/Capturing.antt =====
-- The sink of the tests (bridge.rs, `test_support`), which keeps every call that dispatch makes of
-- it.
pub mod Faithful
use iec104bridge.Base.{ℕ, Bool, List, ◌∷◌}
use iec104bridge.Base.Int.{ℤ}
use iec104bridge.Message.{DataType, DataValue, float, scaled, normalized}
use iec104bridge.Platform.{Platform}
use iec104bridge.Bridge.{TimedDispatch, DataSink}

-- The four type identifiers of lib60870 that the code names.
pub data TypeId : Type 0 where
  single_point_time double_point_time measured_scaled_time measured_float_time : TypeId

pub data SentCall (p : Platform) : Type 0 where
  single_point : p.Cause → ℕ → ℕ → Bool → p.Quality → SentCall p
  measured_float : p.Cause → ℕ → ℕ → p.F32 → p.Quality → SentCall p
  measured_scaled : p.Cause → ℕ → ℕ → ℤ → p.Quality → SentCall p
  timed : p.Cause → ℕ → ℕ → TypeId → DataValue → p.Quality → ℕ → SentCall p

abbrev pub type_id : DataType → TypeId
type_id DataType.single_point = single_point_time
type_id DataType.double_point = double_point_time
type_id scaled = measured_scaled_time
type_id float = measured_float_time
type_id normalized = measured_float_time

-- `Timestamp::as_ms` is the parameter `as_ms`. The latest call is first.
module _ (p : Platform) (as_ms : p.Timestamp → ℕ) where
  unfoldable pub capturing_sink : DataSink p (List (SentCall p))
  capturing_sink = record {
    send_single_point = λ cot ca ioa v q calls. SentCall.single_point cot ca ioa v q ∷ calls;
    send_measured_float = λ cot ca ioa v q calls. measured_float cot ca ioa v q ∷ calls;
    send_measured_scaled = λ cot ca ioa v q calls. measured_scaled cot ca ioa v q ∷ calls;
    enqueue_timed = λ message calls.
        timed message.cot message.ca message.ioa (type_id message.data_type) message.value
          message.quality (as_ms message.timestamp)
        ∷ calls;
  }
