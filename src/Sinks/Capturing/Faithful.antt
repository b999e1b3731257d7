-- ===== src/Sinks/Capturing/Faithful.antt =====
-- What a test can tell from the recorded calls.
use iec104bridge.Base.{
  ℕ, Option, none, some, ◌≡◌, ◌≢◌, ◌⊎◌, inl, inr, refl, ap, ◌∙◌, List, [], ◌∷◌, All, unwrap_or,
}
use iec104bridge.Base.Int.{ℤ}
use iec104bridge.Message.{DataType, DataValue, float, scaled, normalized}
use iec104bridge.Platform.{Platform}
use iec104bridge.Policy.{Outgoing}
use iec104bridge.Bridge.{DataSink, dispatch_outgoing, infer_type, offset_datetime_to_cp56_timestamp}
use iec104bridge.Bridge.Dispatch.{
  SinkCall, single_call, float_call, scaled_call, timed_call, perform, call_of, dispatch-call_of,
  sent_type, timed_or_not, untimed_call,
}
use iec104bridge.Sinks.Capturing.{
  SentCall, TypeId, type_id, capturing_sink, measured_float, measured_scaled, timed,
  single_point_time, double_point_time, measured_scaled_time, measured_float_time,
}

-- The type with which a message is sent.
abbrev pub type_of : Outgoing → DataType
type_of out = unwrap_or out.message.data_type (infer_type out.message.value)

-- No message is sent with a source time and as a normalized value.
abbrev pub IsTold : Outgoing → Type 0
IsTold out = (out.message.timestamp ≡ none) ⊎ (type_of out ≢ normalized)

-- A recorded call as a call of a sink.
abbrev pub data_type_of : TypeId → DataType
data_type_of single_point_time = DataType.single_point
data_type_of double_point_time = DataType.double_point
data_type_of measured_scaled_time = scaled
data_type_of measured_float_time = float

type_id-inverse : (t : DataType) → t ≢ normalized → data_type_of (type_id t) ≡ t
type_id-inverse DataType.single_point h = refl
type_id-inverse DataType.double_point h = refl
type_id-inverse scaled h = refl
type_id-inverse float h = refl
type_id-inverse normalized h = absurd (h refl)

sent_type-told : (t : DataType) → t ≢ normalized → sent_type t ≢ normalized
sent_type-told DataType.single_point h = h
sent_type-told DataType.double_point h = λ e. cc e
sent_type-told scaled h = h
sent_type-told float h = h
sent_type-told normalized h = h

module _ (p : Platform) where
  abbrev pub call_again : SentCall p → SinkCall p
  call_again (SentCall.single_point cot ca ioa v q) = single_call cot ca ioa v q
  call_again (measured_float cot ca ioa v q) = float_call cot ca ioa v q
  call_again (measured_scaled cot ca ioa v q) = scaled_call cot ca ioa v q
  call_again (timed cot ca ioa id v q ms) = timed_call (record {
    server_ptr = none;
    cot = cot;
    ca = ca;
    ioa = ioa;
    value = v;
    data_type = data_type_of id;
    quality = q;
    timestamp = p.from_ms ms;
  })

  -- Every recorded call made again, the first one first.
  unfoldable pub replay : {S : Type 0} → DataSink p S → List (SentCall p) → S → S
  replay sink [] s = s
  replay sink (call ∷ calls) s = perform p sink (call_again call) (replay sink calls s)

  -- Messages that are dispatched one after another.
  unfoldable pub dispatch_all : {S : Type 0} → DataSink p S → ℕ → List Outgoing → S → S
  dispatch_all sink default_ca [] s = s
  dispatch_all sink default_ca (out ∷ outs) s =
      dispatch_all sink default_ca outs (dispatch_outgoing p sink out default_ca s)

  module _ (as_ms : p.Timestamp → ℕ)
      (back : (n : ℕ) → p.from_ms (as_ms (p.from_ms n)) ≡ p.from_ms n) {S : Type 0}
      (sink : DataSink p S) where
    untimed-again :
        (t : DataType) (cot : p.Cause) (ca ioa : ℕ) (v : DataValue) (q : p.Quality)
        (calls : List (SentCall p)) (s : S)
        → replay sink (perform p (capturing_sink p as_ms) (untimed_call p t cot ca ioa v q) calls) s
          ≡ perform p sink (untimed_call p t cot ca ioa v q) (replay sink calls s)
    unfolding replay perform capturing_sink
    untimed-again DataType.single_point cot ca ioa v q calls s = refl
    untimed-again DataType.double_point cot ca ioa v q calls s = refl
    untimed-again scaled cot ca ioa v q calls s = refl
    untimed-again float cot ca ioa v q calls s = refl
    untimed-again normalized cot ca ioa v q calls s = refl

    call_of-again :
        (time : Option ℤ) (t : DataType) (cot : p.Cause) (ca ioa : ℕ) (v : DataValue)
        (q : p.Quality) (calls : List (SentCall p)) (s : S)
        → (time ≡ none) ⊎ (t ≢ normalized)
        → replay sink
            (perform p (capturing_sink p as_ms) (timed_or_not p time t cot ca ioa v q) calls)
            s
          ≡ perform p sink (timed_or_not p time t cot ca ioa v q) (replay sink calls s)
    unfolding replay perform capturing_sink offset_datetime_to_cp56_timestamp
    call_of-again none t cot ca ioa v q calls s h = untimed-again t cot ca ioa v q calls s
    call_of-again (some n) t cot ca ioa v q calls s (inl e) = absurd (cc e)
    call_of-again (some n) t cot ca ioa v q calls s (inr h) =
        rw (type_id-inverse (sent_type t) (sent_type-told t h), back _) refl

    dispatch-again :
        (out : Outgoing) (default_ca : ℕ) (calls : List (SentCall p)) (s : S)
        → IsTold out
        → replay sink (dispatch_outgoing p (capturing_sink p as_ms) out default_ca calls) s
          ≡ dispatch_outgoing p sink out default_ca (replay sink calls s)
    unfolding call_of
    dispatch-again out default_ca calls s h =
        rw
          (
            dispatch-call_of p (capturing_sink p as_ms) out default_ca calls,
            dispatch-call_of p sink out default_ca (replay sink calls s),
          )
          (call_of-again out.message.timestamp (type_of out) _ _ _ _ _ calls s h)

    replay-dispatch_all :
        (default_ca : ℕ) (outs : List Outgoing) (calls : List (SentCall p)) (s : S)
        → All IsTold outs
        → replay sink (dispatch_all (capturing_sink p as_ms) default_ca outs calls) s
          ≡ dispatch_all sink default_ca outs (replay sink calls s)
    unfolding dispatch_all
    replay-dispatch_all default_ca [] calls s h = refl
    replay-dispatch_all default_ca (out ∷ outs) calls s (h, hs) =
        replay-dispatch_all default_ca outs
          (dispatch_outgoing p (capturing_sink p as_ms) out default_ca calls) s hs
        ∙ ap (dispatch_all sink default_ca outs) (dispatch-again out default_ca calls s h)

    -- Whatever messages are dispatched, none of them with a source time and as a normalized value,
    -- and if the milliseconds of a timestamp that is made of milliseconds give the same timestamp
    -- again: the calls that the sink of the tests records are what any sink is asked for, since the
    -- same calls made of it again, from the same state, bring it to the state in which dispatching
    -- the messages to it leaves it.
    pub dispatch_all-replay :
        (default_ca : ℕ) (outs : List Outgoing) (s : S)
        → All IsTold outs
        → replay sink (dispatch_all (capturing_sink p as_ms) default_ca outs []) s
          ≡ dispatch_all sink default_ca outs s
    unfolding replay
    dispatch_all-replay default_ca outs s h = replay-dispatch_all default_ca outs [] s h
