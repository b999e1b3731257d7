-- ===== src/Suite/Handlers.antt =====
-- The tests of the handlers (main.rs) that need no running server, and of the source of the tests
-- (source.rs).
use mathlib.Core.List.{reverse}
use iec104bridge.Base.{ℕ, ◌*◌, ◌≡◌, refl, true, false, none, some, [], ◌∷◌, length}
use iec104bridge.Base.Int.{ℤ, pos, ltb_ℤ}
use iec104bridge.Message.{Iec104Message, DataValue, DataType, QualityField, CotField}
use iec104bridge.Number.{F64}
use iec104bridge.Platform.{Platform}
use iec104bridge.Policy.{OutputPolicy, Outgoing, default_policy}
use iec104bridge.Sys.{Answers, acknowledged}
use iec104bridge.Sinks.Capturing.{capturing_sink}
use iec104bridge.Store.{find, insert, values}
use iec104bridge.Bridge.{dispatch_outgoing}
use iec104bridge.Server.{
  Shared, Settings, dispatch_message_if_enabled, handle_incoming_message, replay_cached_values,
}
use iec104bridge.Harness.{iter_messages}
use iec104bridge.Suite.{At, IsThere, IsOk, over_2_to, OnMeasuredFloat}

sample_message : Iec104Message
sample_message = record {
  ioa = 100;
  value = DataValue.number (over_2_to 1 85);
  data_type = some DataType.float;
  ca = none;
  quality = QualityField.good;
  cot = CotField.spontaneous;
  timestamp = none;
}

outgoing : Iec104Message → Outgoing
outgoing message = record { message = message; not_topical = false }

module _ (p : Platform) (as_ms : p.Timestamp → ℕ) where
  DispatchMessageIfEnabledSkipsWhenGiOnly : Type 0
  DispatchMessageIfEnabledSkipsWhenGiOnly =
      let (dispatched, calls) =
        dispatch_message_if_enabled p (capturing_sink p as_ms) (outgoing sample_message) 7 true
          [] in
      (dispatched ≡ false) × (calls ≡ [])

  dispatch_message_if_enabled_skips_when_gi_only : DispatchMessageIfEnabledSkipsWhenGiOnly
  unfolding DispatchMessageIfEnabledSkipsWhenGiOnly dispatch_message_if_enabled
  dispatch_message_if_enabled_skips_when_gi_only = (refl, refl)

  DispatchMessageIfEnabledDispatchesWhenSpontaneousEnabled : Type 0
  DispatchMessageIfEnabledDispatchesWhenSpontaneousEnabled =
      let (dispatched, calls) =
        dispatch_message_if_enabled p (capturing_sink p as_ms) (outgoing sample_message) 7 false
          [] in
      (dispatched ≡ true)
      × At 0 (reverse calls) (OnMeasuredFloat (λ cot ca ioa value quality. (ca ≡ 7) × (ioa ≡ 100)))

  dispatch_message_if_enabled_dispatches_when_spontaneous_enabled :
      DispatchMessageIfEnabledDispatchesWhenSpontaneousEnabled
  unfolding DispatchMessageIfEnabledDispatchesWhenSpontaneousEnabled dispatch_message_if_enabled
      dispatch_outgoing outgoing sample_message capturing_sink
  dispatch_message_if_enabled_dispatches_when_spontaneous_enabled = (refl, (refl, refl))

  -- Whenever the cache is replayed.
  ReplayWithPolicyOnEmptyCacheSendsNothing : ℤ → Type 0
  ReplayWithPolicyOnEmptyCacheSendsNothing now =
      let policy : OutputPolicy = record {
        send_timestamps = false;
        max_age = some (60 * 1_000_000_000);
      } in
      replay_cached_values p (capturing_sink p as_ms) 1 policy now (values []) [] ≡ []

  replay_with_policy_on_empty_cache_sends_nothing :
      (now : ℤ) → ReplayWithPolicyOnEmptyCacheSendsNothing now
  unfolding ReplayWithPolicyOnEmptyCacheSendsNothing replay_cached_values
  replay_with_policy_on_empty_cache_sends_nothing now = refl

module _ {p : Platform} (answers : Answers p) (server : p.ServerPtr) (now : ℤ) where
  -- The first state of a test.
  abbrev empty : Shared p
  empty = record {
    store = [];
    metrics = record { messages_dispatched = 0; gi_responses = 0 };
    history = [];
  }

  abbrev gi_only : OutputPolicy → Settings
  gi_only policy = record { default_ca = 7; gi_only = true; policy = policy }

  HandleIncomingMessageGiOnlyCachesAndAcksWithoutDispatching : Type 0
  HandleIncomingMessageGiOnlyCachesAndAcksWithoutDispatching =
      let (result, s) =
        handle_incoming_message answers (gi_only default_policy) server now
          (record { message = sample_message; has_ack = true }) empty in
      IsOk result (λ u.
        (length s.store ≡ 1)
        × IsThere (find 7 100 s.store) (λ cached. cached.message ≡ sample_message)
        × (s.history ≡ acknowledged true ∷ [])
        × (s.metrics.messages_dispatched ≡ 0))

  -- The acknowledgement of the test must succeed, which it does.
  handle_incoming_message_gi_only_caches_and_acks_without_dispatching :
      answers.acknowledges [] ≡ true → HandleIncomingMessageGiOnlyCachesAndAcksWithoutDispatching
  unfolding HandleIncomingMessageGiOnlyCachesAndAcksWithoutDispatching handle_incoming_message
      sample_message insert find
  handle_incoming_message_gi_only_caches_and_acks_without_dispatching e =
      rw e (refl, refl, refl, refl)

  HandleIncomingMessageCachesTimestampAndArrival : ℤ → Type 0
  HandleIncomingMessageCachesTimestampAndArrival before =
      let message : Iec104Message = record sample_message {
        timestamp = some (pos 60_000_000_000);
      } in
      let policy : OutputPolicy = record { send_timestamps = false; max_age = none } in
      let (result, s) =
        handle_incoming_message answers (gi_only policy) server now
          (record { message = message; has_ack = true }) empty in
      IsOk result (λ u. IsThere (find 7 100 s.store) (λ cached.
        (cached.message.timestamp ≡ message.timestamp) × (ltb_ℤ cached.received_at before ≡ false)))

  -- The acknowledgement must succeed, and the clock must not have gone back.
  handle_incoming_message_caches_timestamp_and_arrival :
      (before : ℤ)
      → answers.acknowledges [] ≡ true
      → ltb_ℤ now before ≡ false
      → HandleIncomingMessageCachesTimestampAndArrival before
  unfolding HandleIncomingMessageCachesTimestampAndArrival handle_incoming_message sample_message
      insert find
  handle_incoming_message_caches_timestamp_and_arrival before e later = rw e (refl, later)

abbrev make_msg : ℕ → F64 → Iec104Message
make_msg ioa value = record {
  ioa = ioa;
  value = DataValue.number value;
  data_type = some DataType.float;
  ca = none;
  quality = QualityField.good;
  cot = CotField.spontaneous;
  timestamp = none;
}

IterSourceYieldsAllMessagesInOrder : Type 0
IterSourceYieldsAllMessagesInOrder =
    let msgs =
      make_msg 1 (over_2_to 0 1) ∷ make_msg 2 (over_2_to 0 2) ∷ make_msg 3 (over_2_to 0 3) ∷ [] in
    let result = iter_messages msgs in
    (length result ≡ 3)
    × At 0 result (λ incoming. At 0 msgs (λ msg. incoming.message.ioa ≡ msg.ioa))
    × At 1 result (λ incoming. At 1 msgs (λ msg. incoming.message.ioa ≡ msg.ioa))
    × At 2 result (λ incoming. At 2 msgs (λ msg. incoming.message.ioa ≡ msg.ioa))

iter_source_yields_all_messages_in_order : IterSourceYieldsAllMessagesInOrder
unfolding IterSourceYieldsAllMessagesInOrder
iter_source_yields_all_messages_in_order = (refl, refl, refl, refl)

IterSourceEmptyVecEndsImmediately : Type 0
IterSourceEmptyVecEndsImmediately = iter_messages [] ≡ []

iter_source_empty_vec_ends_immediately : IterSourceEmptyVecEndsImmediately
unfolding IterSourceEmptyVecEndsImmediately
iter_source_empty_vec_ends_immediately = refl
