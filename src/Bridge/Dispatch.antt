-- ===== src/Bridge/Dispatch.antt =====
-- Dispatch makes one call of the sink for each message, and this is the call.
use iec104bridge.Base.{ℕ, Option, none, some, Bool, ◌≡◌, arith, unwrap_or, if◌then◌else◌}
use iec104bridge.Base.Int.{ℤ}
use iec104bridge.Message.{
  DataType, DataValue, float, scaled, normalized, single_point, double_point,
}
use iec104bridge.Platform.{Platform}
use iec104bridge.Policy.{Outgoing}
use iec104bridge.Bridge.{
  TimedDispatch, DataSink, infer_type, map_quality, map_cot, as_single_point_value, as_float_value,
  as_scaled_value, offset_datetime_to_cp56_timestamp, dispatch_outgoing,
}

-- A call of one of the four operations of a sink.
pub data SinkCall (p : Platform) : Type 0 where
  single_call : p.Cause → ℕ → ℕ → Bool → p.Quality → SinkCall p
  float_call : p.Cause → ℕ → ℕ → p.F32 → p.Quality → SinkCall p
  scaled_call : p.Cause → ℕ → ℕ → ℤ → p.Quality → SinkCall p
  timed_call : TimedDispatch p → SinkCall p

module _ (p : Platform) {S : Type 0} where
  unfoldable pub perform : DataSink p S → SinkCall p → S → S
  perform sink (single_call cot ca ioa v q) s = sink.send_single_point cot ca ioa v q s
  perform sink (float_call cot ca ioa v q) s = sink.send_measured_float cot ca ioa v q s
  perform sink (scaled_call cot ca ioa v q) s = sink.send_measured_scaled cot ca ioa v q s
  perform sink (timed_call d) s = sink.enqueue_timed d s

-- Double points go out as single points.
abbrev pub sent_type : DataType → DataType
sent_type double_point = single_point
sent_type t = t

module _ (p : Platform) where
  abbrev pub sent_quality : Outgoing → p.Quality
  sent_quality out =
      if out.not_topical
      then p.union (map_quality p out.message.quality) p.not_topical_quality
      else map_quality p out.message.quality

  abbrev pub untimed_call : DataType → p.Cause → ℕ → ℕ → DataValue → p.Quality → SinkCall p
  untimed_call single_point cot ca ioa v q = single_call cot ca ioa (as_single_point_value v) q
  untimed_call double_point cot ca ioa v q = single_call cot ca ioa (as_single_point_value v) q
  untimed_call scaled cot ca ioa v q = scaled_call cot ca ioa (as_scaled_value v) q
  untimed_call float cot ca ioa v q = float_call cot ca ioa (as_float_value p v) q
  untimed_call normalized cot ca ioa v q = float_call cot ca ioa (as_float_value p v) q

  abbrev pub timed_or_not :
      Option ℤ → DataType → p.Cause → ℕ → ℕ → DataValue → p.Quality → SinkCall p
  timed_or_not none t cot ca ioa v q = untimed_call t cot ca ioa v q
  timed_or_not (some nanos) t cot ca ioa v q = timed_call (record {
    server_ptr = none;
    cot = cot;
    ca = ca;
    ioa = ioa;
    value = v;
    data_type = sent_type t;
    quality = q;
    timestamp = offset_datetime_to_cp56_timestamp p nanos;
  })

  -- The call for a message: its own common address or the default, its type or the inferred one, NT
  -- added to its quality if it is marked, and a timed object exactly if it carries a source time.
  unfoldable pub call_of : Outgoing → ℕ → SinkCall p
  call_of out default_ca =
      timed_or_not out.message.timestamp
        (unwrap_or out.message.data_type (infer_type out.message.value)) (map_cot p out.message.cot)
        (unwrap_or out.message.ca default_ca) out.message.ioa out.message.value (sent_quality out)

module _ (p : Platform) {S : Type 0} (sink : DataSink p S) where
  -- Dispatching a message is one call of the sink: the call that the specification `call_of` gives.
  pub dispatch-call_of :
      (out : Outgoing) (default_ca : ℕ) (s : S)
      → dispatch_outgoing p sink out default_ca s ≡ perform p sink (call_of p out default_ca) s
  unfolding dispatch_outgoing perform call_of
  dispatch-call_of out default_ca s = ground arith
