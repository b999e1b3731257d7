-- ===== src/Examples/Capturing.antt =====
-- An example of the harness of the end-to-end tests.
use iec104bridge.Base.{◌≡◌, inl, inr, refl, none, List, [], ◌∷◌}
use iec104bridge.Base.Int.{ℤ, pos}
use iec104bridge.Message.{Iec104Message, DataValue}
use iec104bridge.Policy.{default_policy}
use iec104bridge.Server.{Settings}
use iec104bridge.Loop.{run_message_loop}
use iec104bridge.Sinks.{live_sink}
use iec104bridge.Sinks.Capturing.Faithful.{replay}
use iec104bridge.Harness.{run}
use iec104bridge.Harness.Production.{arriving, messages_of, run-run_message_loop}
use iec104bridge.Examples.Samples.{platform, willing, settings, shared, breaker, forty_two}

abbrev plain : Settings
plain = record settings { policy = default_policy }

-- The breaker with its time, and a number without one.
abbrev arrivals : List (ℤ × Iec104Message)
arrivals =
    (pos 7, breaker)
    ∷ (
      pos 8,
      record breaker { value = DataValue.number forty_two; data_type = none; timestamp = none },
    )
    ∷ []

run-run_message_loop_example :
    replay platform
      (live_sink willing 5)
      (run platform (λ n. n) (messages_of arrivals) 1)
      shared.history
    ≡ (run_message_loop willing plain 5 (arriving arrivals) shared).1.history
run-run_message_loop_example =
    run-run_message_loop willing plain 5 (λ n. n) (λ n. refl) arrivals shared (refl, refl)
      (inr (λ e. cc e), (inl refl, tt))
