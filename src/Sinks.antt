-- ===== src/Sinks.antt =====
-- The two sinks of the program (bridge.rs, `LiveSink` and `ConnectionSink`).
pub mod Wire
pub mod Capturing
use iec104bridge.Base.{ℕ, Bool, some, ◌+◌, if◌then◌else◌, ◌∷◌}
use iec104bridge.Base.Int.{ℤ}
use iec104bridge.Platform.{Platform}
use iec104bridge.Bridge.{TimedDispatch, DataSink}
use iec104bridge.Sys.{History, Answers, server_single, server_float, server_scaled}
use iec104bridge.Asdu.{
  UntimedValue, single_value, float_value, int_value, enqueue_timed_asdu, send_timed_to_connection,
  send_untimed_to_connection,
}

-- A running server: a timed point goes into its queue, and a failure to do so is only logged.
unfoldable pub live_sink : {p : Platform} → Answers p → p.ServerPtr → DataSink p (History p)
live_sink answers server = record {
  send_single_point = λ cot ca ioa v q h. server_single server cot ca ioa v q ∷ h;
  send_measured_float = λ cot ca ioa v q h. server_float server cot ca ioa v q ∷ h;
  send_measured_scaled = λ cot ca ioa v q h. server_scaled server cot ca ioa v q ∷ h;
  enqueue_timed =
      λ message h. (enqueue_timed_asdu answers (record message { server_ptr = some server }) h).1;
}

-- The state of a connection's sink: the calls so far, and the points that were refused.
pub record ConnState (p : Platform) : Type 0 where
  pub history : History p
  pub failed : ℕ

abbrev pub fresh : {p : Platform} → History p → ConnState p
fresh h = record { history = h; failed = 0 }

-- `if !sent { failed += 1 }`
abbrev pub count_failure : {p : Platform} → ConnState p → Bool × History p → ConnState p
count_failure s r = record { history = r.1; failed = if r.0 then s.failed else s.failed + 1 }

module _ {p : Platform} (answers : Answers p) (conn : p.Connection) where
  send_untimed : p.Cause → ℕ → ℕ → UntimedValue p → p.Quality → ConnState p → ConnState p
  send_untimed cot ca ioa v q s =
      count_failure s (send_untimed_to_connection answers conn cot ca ioa v q s.history)

  unfoldable pub connection_sink : DataSink p (ConnState p)
  unfolding send_untimed
  connection_sink = record {
    send_single_point = λ cot ca ioa v q. send_untimed cot ca ioa (single_value v) q;
    send_measured_float = λ cot ca ioa v q. send_untimed cot ca ioa (float_value v) q;
    send_measured_scaled = λ cot ca ioa v q. send_untimed cot ca ioa (int_value v) q;
    enqueue_timed =
        λ message s. count_failure s (send_timed_to_connection answers conn message s.history);
  }
