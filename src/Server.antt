-- ===== src/Server.antt =====
-- The bridge's own state and its handlers (main.rs): an incoming message, a General Interrogation,
-- and the message loop. The clock is an argument of the handlers; the order in which the cache
-- gives its points is a parameter.
pub mod Incoming
pub mod Replay
pub mod Interrogation
use iec104bridge.Base.{
  ℕ, ◌+◌, ◌%◌, ◌^◌, Bool, true, false, Option, none, some, List, [], ◌∷◌, ◌==◌, if◌then◌else◌,
  unwrap_or,
}
use iec104bridge.Base.Int.{ℤ}
use iec104bridge.Base.Result.{Result, ok, err}
use iec104bridge.Message.{Iec104Message, CotField}
use iec104bridge.Platform.{Platform}
use iec104bridge.Policy.{OutputPolicy, Outgoing, prepare_for_output}
use iec104bridge.Bridge.{DataSink, dispatch_outgoing}
use iec104bridge.Sys.{History, Answers, send_act_con, send_act_term, acknowledge}
use iec104bridge.Sinks.{ConnState, fresh, live_sink, connection_sink}
use iec104bridge.Store.{CachedPoint, DataStore, insert}

pub record Metrics : Type 0 where
  pub messages_dispatched : ℕ
  pub gi_responses : ℕ

-- `fetch_add(1)` on an `AtomicU64`, which wraps.
abbrev pub fetch_add_one : ℕ → ℕ
fetch_add_one n = (n + 1) % 2 ^ 64

-- What the handlers share: the cache, the counters, and the calls of the library so far.
pub record Shared (p : Platform) : Type 0 where
  pub store : DataStore
  pub metrics : Metrics
  pub history : History p

-- The settings that the handlers take from the configuration.
pub record Settings : Type 0 where
  pub default_ca : ℕ
  pub gi_only : Bool
  pub policy : OutputPolicy

-- A message, and whether its source waits for an acknowledgement.
pub record IncomingMessage : Type 0 where
  pub message : Iec104Message
  pub has_ack : Bool

pub data HandleError : Type 0 where
  ack_failed : HandleError

module _ {p : Platform} (answers : Answers p) where
  ack : Bool → History p → Bool × History p
  unfolding acknowledge
  ack true h = acknowledge answers h
  ack false h = (true, h)

module _ (p : Platform) {S : Type 0} (sink : DataSink p S) where
  unfoldable pub dispatch_message_if_enabled : Outgoing → ℕ → Bool → S → Bool × S
  dispatch_message_if_enabled out ca gi_only s =
      if gi_only then (false, s) else (true, dispatch_outgoing p sink out ca s)

  -- A cached point as it is replayed: shaped by the policy, with the cause of an interrogation.
  unfoldable pub replay_point : ℕ → OutputPolicy → ℤ → CachedPoint → S → S
  replay_point default_ca policy now cached s =
      let out = prepare_for_output cached.message cached.received_at now policy in
      dispatch_outgoing p sink
        (record out { message = record out.message { cot = CotField.interrogated } })
        (unwrap_or cached.message.ca default_ca) s

  unfoldable pub replay_cached_values : ℕ → OutputPolicy → ℤ → List CachedPoint → S → S
  unfolding replay_point
  replay_cached_values default_ca policy now [] s = s
  replay_cached_values default_ca policy now (c ∷ cs) s =
      replay_cached_values default_ca policy now cs (replay_point default_ca policy now c s)

-- What the handler of a station interrogation logs as errors: a confirmation or a termination that
-- was not queued, and how many points were dropped.
pub record GiReport : Type 0 where
  pub confirmed : Bool
  pub dropped : ℕ
  pub terminated : Bool

module _ {p : Platform} (answers : Answers p) (settings : Settings) where
  -- With `gi_only` nothing is prepared or sent.
  send_now : p.ServerPtr → ℤ → Iec104Message → ℕ → History p → Bool × History p
  unfolding dispatch_message_if_enabled
  send_now server now msg ca h =
      if settings.gi_only
      then (false, h)
      else dispatch_message_if_enabled p (live_sink answers server)
          (prepare_for_output msg now now settings.policy) ca settings.gi_only h

  -- The point goes into the cache, then to the masters unless points are kept for interrogations; the
  -- message is acknowledged after that, and counted if it was dispatched and acknowledged.
  unfoldable pub handle_incoming_message :
      p.ServerPtr → ℤ → IncomingMessage → Shared p → Result HandleError (Unit {0}) × Shared p
  unfolding send_now ack
  handle_incoming_message server now incoming s =
      let msg = incoming.message in
      let ca = unwrap_or msg.ca settings.default_ca in
      let store = insert ca msg.ioa (record { message = msg; received_at = now }) s.store in
      let (dispatched, sent) = send_now server now msg ca s.history in
      let (acked, h) = ack answers incoming.has_ack sent in
      if acked
      then (
        ok tt,
        record {
          store = store;
          metrics =
              if dispatched
              then record s.metrics {
                messages_dispatched = fetch_add_one s.metrics.messages_dispatched;
              }
              else s.metrics;
          history = h;
        },
      )
      else (err ack_failed, record { store = store; metrics = s.metrics; history = h })

  unfoldable pub interrogate_station :
      p.Connection → ℤ → List CachedPoint → Shared p → GiReport × Shared p
  unfolding send_act_con send_act_term
  interrogate_station conn now points s =
      let (confirmed, h) = send_act_con answers conn false s.history in
      let replayed =
        replay_cached_values p (connection_sink answers conn) settings.default_ca settings.policy
          now points (fresh h) in
      let (terminated, h') = send_act_term answers conn replayed.history in
      (
        record { confirmed = confirmed; dropped = replayed.failed; terminated = terminated },
        record s {
          metrics = record s.metrics { gi_responses = fetch_add_one s.metrics.gi_responses };
          history = h';
        },
      )

  -- The handler of an interrogation, with the cached points in the order in which they are read: a
  -- negative confirmation for a group, else a confirmation, every cached point, and the termination.
  unfoldable pub handle_interrogation :
      p.Connection → ℕ → ℤ → List CachedPoint → Shared p → Bool × Shared p
  unfolding interrogate_station send_act_con
  handle_interrogation conn qoi now points s =
      if qoi == p.qoi_station
      then (true, (interrogate_station conn now points s).1)
      else (true, record s { history = (send_act_con answers conn true s.history).1 })
