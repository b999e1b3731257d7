-- ===== src/Harness.antt =====
-- The harness of the end-to-end tests: a source of given messages (source.rs, `IterSource`) that is
-- dispatched into the recording sink (e2e_tests.rs, `run`).
pub mod Production
use iec104bridge.Base.{ℕ, false, List, [], ◌∷◌, map}
use iec104bridge.Message.{Iec104Message}
use iec104bridge.Platform.{Platform}
use iec104bridge.Bridge.{dispatch}
use iec104bridge.Server.{IncomingMessage}
use iec104bridge.Sinks.Capturing.{SentCall, capturing_sink}

-- `IncomingMessage::new`
abbrev pub new_incoming : Iec104Message → IncomingMessage
new_incoming message = record { message = message; has_ack = false }

-- `IterSource::into_messages`
abbrev pub iter_messages : List Iec104Message → List IncomingMessage
iter_messages messages = map new_incoming messages

module _ (p : Platform) (as_ms : p.Timestamp → ℕ) where
  run_stream : List IncomingMessage → ℕ → List (SentCall p) → List (SentCall p)
  run_stream [] default_ca calls = calls
  run_stream (incoming ∷ stream) default_ca calls =
      run_stream stream default_ca
        (dispatch p (capturing_sink p as_ms) incoming.message default_ca calls)

  -- The latest call is first.
  unfoldable pub run : List Iec104Message → ℕ → List (SentCall p)
  unfolding run_stream
  run messages default_ca = run_stream (iter_messages messages) default_ca []
