-- ===== src/Harness/Production.antt =====
-- What the end-to-end tests say of the bridge in production.
use iec104bridge.Base.{
  ℕ, ◌≡◌, refl, sym, ap, ◌∙◌, false, Option, none, some, List, [], ◌∷◌, map, All, unwrap_or,
}
use iec104bridge.Base.Int.{ℤ}
use iec104bridge.Message.{Iec104Message}
use iec104bridge.Platform.{Platform}
use iec104bridge.Policy.{Outgoing, default_policy, prepare_for_output}
use iec104bridge.Bridge.{DataSink, dispatch, dispatch_outgoing}
use iec104bridge.Bridge.Dispatch.{call_of, dispatch-call_of}
use iec104bridge.Sys.{Answers, History}
use iec104bridge.Sinks.{live_sink}
use iec104bridge.Sinks.Capturing.{SentCall, capturing_sink}
use iec104bridge.Sinks.Capturing.Faithful.{IsTold, dispatch_all, replay, dispatch_all-replay}
use iec104bridge.Server.{Shared, Settings}
use iec104bridge.Server.Incoming.{sent_before_ack, handle_incoming_message_unacked}
use iec104bridge.Loop.{LoopEvent, received, run_message_loop}
use iec104bridge.Harness.{new_incoming, iter_messages, run_stream, run}

-- A message as it goes out under the default policy.
abbrev pub outgoing : Iec104Message → Outgoing
outgoing message = record { message = message; not_topical = false }

module _ (p : Platform) {S : Type 0} (sink : DataSink p S) where
  dispatch-outgoing :
      (m : Iec104Message) (default_ca : ℕ) (s : S)
      → dispatch p sink m default_ca s ≡ dispatch_outgoing p sink (outgoing m) default_ca s
  unfolding dispatch dispatch_outgoing
  dispatch-outgoing m default_ca s = refl

unwrap_or_twice : (o : Option ℕ) (d : ℕ) → unwrap_or o (unwrap_or o d) ≡ unwrap_or o d
unwrap_or_twice none d = refl
unwrap_or_twice (some n) d = refl

-- The messages as events, each with the time at which it is handled.
abbrev pub arriving : List (ℤ × Iec104Message) → List LoopEvent
arriving [] = []
arriving ((now, m) ∷ es) = received now (new_incoming m) ∷ arriving es

abbrev pub messages_of : List (ℤ × Iec104Message) → List Iec104Message
messages_of [] = []
messages_of ((now, m) ∷ es) = m ∷ messages_of es

module _ (p : Platform) (as_ms : p.Timestamp → ℕ) where
  run-dispatch_all :
      (messages : List Iec104Message) (default_ca : ℕ) (calls : List (SentCall p))
      → run_stream p as_ms (iter_messages messages) default_ca calls
        ≡ dispatch_all p (capturing_sink p as_ms) default_ca (map outgoing messages) calls
  unfolding run_stream dispatch_all
  run-dispatch_all [] default_ca calls = refl
  run-dispatch_all (m ∷ messages) default_ca calls =
      ap (run_stream p as_ms (iter_messages messages) default_ca)
        (dispatch-outgoing p (capturing_sink p as_ms) m default_ca calls)
      ∙ run-dispatch_all messages default_ca _

module _ {p : Platform} (answers : Answers p) (settings : Settings) (server : p.ServerPtr) where
  -- The settings of the tests.
  abbrev pub IsPlain : Type 0
  IsPlain = (settings.gi_only ≡ false) × (settings.policy ≡ default_policy)

  sent_before_ack-outgoing :
      (now : ℤ) (m : Iec104Message) (h : History p)
      → IsPlain
      → sent_before_ack answers settings server now m h
        ≡ dispatch_outgoing p (live_sink answers server) (outgoing m) settings.default_ca h
  unfolding prepare_for_output call_of
  sent_before_ack-outgoing now m h (live, policy) =
      rw (live, policy, unwrap_or_twice m.ca settings.default_ca)
        (sym (dispatch-call_of p (live_sink answers server) (outgoing m) settings.default_ca h))

  run_message_loop-dispatch_all :
      (es : List (ℤ × Iec104Message)) (s : Shared p)
      → IsPlain
      → (run_message_loop answers settings server (arriving es) s).1.history
        ≡ dispatch_all p
            (live_sink answers server)
            settings.default_ca
            (map outgoing (messages_of es))
            s.history
  unfolding run_message_loop dispatch_all
  run_message_loop-dispatch_all [] s plain = refl
  run_message_loop-dispatch_all ((now, m) ∷ es) s plain =
      run_message_loop-dispatch_all es _ plain
      ∙ ap
          (dispatch_all p (live_sink answers server) settings.default_ca
            (map outgoing (messages_of es)))
          (handle_incoming_message_unacked answers settings server now m s
            ∙ sent_before_ack-outgoing now m s.history plain)

  map-All-IsTold :
      (messages : List Iec104Message)
      → All (λ m. IsTold (outgoing m)) messages
      → All IsTold (map outgoing messages)
  map-All-IsTold [] h = tt
  map-All-IsTold (m ∷ messages) (t, h) = (t, map-All-IsTold messages h)

  -- Without `gi_only` and under the default policy, over any messages, none of them with a source
  -- time and as a normalized value, if they come from the source of the tests, and if the
  -- milliseconds of a timestamp that is made of milliseconds give the same timestamp again: the
  -- calls that the end-to-end tests see are those of the message loop, whenever it handles the
  -- messages, since made again of the sink of the server they lead to the calls of lib60870 that
  -- the loop leads to.
  pub run-run_message_loop :
      (as_ms : p.Timestamp → ℕ) (back : (n : ℕ) → p.from_ms (as_ms (p.from_ms n)) ≡ p.from_ms n)
      (es : List (ℤ × Iec104Message)) (s : Shared p)
      → IsPlain
      → All (λ m. IsTold (outgoing m)) (messages_of es)
      → replay p
          (live_sink answers server)
          (run p as_ms (messages_of es) settings.default_ca)
          s.history
        ≡ (run_message_loop answers settings server (arriving es) s).1.history
  unfolding run
  run-run_message_loop as_ms back es s plain told =
      ap (λ calls. replay p (live_sink answers server) calls s.history)
        (run-dispatch_all p as_ms (messages_of es) settings.default_ca [])
      ∙ dispatch_all-replay p as_ms back (live_sink answers server) settings.default_ca
          (map outgoing (messages_of es)) s.history (map-All-IsTold (messages_of es) told)
      ∙ sym (run_message_loop-dispatch_all es s plain)
