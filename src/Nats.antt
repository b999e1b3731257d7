-- ===== src/Nats.antt =====
-- The NATS source (source.rs, `NatsSource::into_messages`): each message of the JetStream consumer is
-- passed on with its acknowledgement pending, or acknowledged at once and dropped. The JSON parser is
-- a parameter.
pub mod Filter
pub mod Connect
use iec104bridge.Base.{ℕ, Bool, true, false, Option, none, some, List, [], ◌∷◌}
use iec104bridge.Base.Int.{ℤ}
use iec104bridge.Base.Result.{Result, ok, err}
use iec104bridge.Message.{Iec104Message}
use iec104bridge.Validation.{ValidationError, validate_message}
use iec104bridge.Server.{IncomingMessage}
use iec104bridge.Loop.{LoopEvent, receive_error, received}

-- What the consumer yields: an error, or a payload.
pub data Delivery : Type 0 where
  stream_error : Delivery
  payload : List ℕ → Delivery

-- What becomes of a delivery: an error or a message passed on, or nothing.
pub data Filtered : Type 0 where
  passed_error dropped : Filtered
  passed : IncomingMessage → Filtered

-- The calls of the source: `msg.ack()` on the message with this payload. That it fails is only
-- logged.
pub data NatsCall : Type 0 where
  acked : List ℕ → NatsCall

-- The calls so far are passed on, the latest first.
abbrev pub drop_acked : List ℕ → List NatsCall → Filtered × List NatsCall
drop_acked bytes calls = (dropped, acked bytes ∷ calls)

validated :
    List ℕ
    → Iec104Message
    → Result ValidationError (Unit {0})
    → List NatsCall
    → Filtered × List NatsCall
validated bytes message (ok _) calls =
    (passed (record { message = message; has_ack = true }), calls)
validated bytes message (err e) calls = drop_acked bytes calls

decoded : List ℕ → Option Iec104Message → List NatsCall → Filtered × List NatsCall
unfolding validated
decoded bytes none calls = drop_acked bytes calls
decoded bytes (some message) calls = validated bytes message (validate_message message) calls

module _ (parse : List ℕ → Option Iec104Message) where
  unfoldable pub filter_delivery : Delivery → List NatsCall → Filtered × List NatsCall
  unfolding decoded
  filter_delivery stream_error calls = (passed_error, calls)
  filter_delivery (payload bytes) calls = decoded bytes (parse bytes) calls

  keep : Filtered → ℤ → List LoopEvent → List LoopEvent
  keep passed_error now es = receive_error ∷ es
  keep dropped now es = es
  keep (passed incoming) now es = received now incoming ∷ es

  -- The events of the message loop: `filter_map`, each message with the time at which it is handled.
  unfoldable pub into_messages :
      List (ℤ × Delivery) → List NatsCall → List LoopEvent × List NatsCall
  unfolding keep
  into_messages [] calls = ([], calls)
  into_messages ((now, d) ∷ ds) calls =
      let (filtered, calls') = filter_delivery d calls in
      let (es, calls'') = into_messages ds calls' in (keep filtered now es, calls'')
