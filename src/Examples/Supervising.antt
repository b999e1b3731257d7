-- ===== src/Examples/Supervising.antt =====
-- Examples of the supervisor with its sources, and of the calls of the message loop.
use iec104bridge.Base.{refl, ◌≡◌, ◌↔◌, arith, true, none, some, List, [], ◌∷◌}
use iec104bridge.Base.Int.{pos}
use iec104bridge.Loop.{
  LoopEvent, received, stream_ended, receive_error, ctrl_c_unheard, run_sources,
}
use iec104bridge.Loop.Cache.{all_arrivals}
use iec104bridge.Loop.Ledger.{IsLedger, run_sources-IsLedger}
use iec104bridge.Supervisor.Supervise.Shutdown.{IsPressed, IsStopped, supervise_message_source_iff}
use iec104bridge.Endpoint.{serve_metrics_connection}
use iec104bridge.Endpoint.Framing.{receive, scraped}
use iec104bridge.Endpoint.Observed.{distinct_addresses, dispatched_after, scrape-run_sources}
use iec104bridge.Supervisor.Supervise.{
  Wake, ctrl_c_pressed, build_failed, built, supervise_message_source,
}
use iec104bridge.Supervisor.Supervise.Recovery.{
  HasRecovered, sources_of, supervise_message_source-HasRecovered,
}
use iec104bridge.Examples.Samples.{willing, settings, breaker, shared}

abbrev first_events : List LoopEvent
first_events =
    receive_error
    ∷ received (pos 7) (record { message = breaker; has_ack = true })
    ∷ stream_ended
    ∷ []

abbrev wakes : List Wake
wakes =
    build_failed
    ∷ built (record { events = stream_ended ∷ []; elapsed = 60_000 })
    ∷ build_failed
    ∷ []

supervise_message_source-HasRecovered_example :
    HasRecovered willing settings 5 (first_events ∷ sources_of wakes) shared (
      supervise_message_source willing settings 5
        (some (record { events = first_events; elapsed = 10 }))
        wakes
        shared)
supervise_message_source-HasRecovered_example =
    supervise_message_source-HasRecovered willing settings 5
      (record { events = first_events; elapsed = 10 }) wakes shared tt (tt, (tt, (tt, tt)))

run_sources-IsLedger_example :
    IsLedger willing settings 5
      (all_arrivals (first_events ∷ (stream_ended ∷ []) ∷ []))
      shared
      (run_sources willing settings 5 (first_events ∷ (stream_ended ∷ []) ∷ []) shared)
run_sources-IsLedger_example =
    run_sources-IsLedger willing settings 5 (first_events ∷ (stream_ended ∷ []) ∷ []) shared
      ((tt, (refl, (tt, tt))), ((tt, tt), tt)) (omega arith)

abbrev wakes_until_ctrl_c : List Wake
wakes_until_ctrl_c =
    build_failed
    ∷ built (record { events = ctrl_c_unheard ∷ stream_ended ∷ []; elapsed = 60_000 })
    ∷ ctrl_c_pressed
    ∷ build_failed
    ∷ []

supervise_message_source_iff_example :
    IsStopped (
      supervise_message_source willing settings 5
        (some (record { events = first_events; elapsed = 10 }))
        wakes_until_ctrl_c
        shared)
    ↔ IsPressed (record { events = first_events; elapsed = 10 }) wakes_until_ctrl_c
supervise_message_source_iff_example =
    supervise_message_source_iff willing settings 5 (record { events = first_events; elapsed = 10 })
      wakes_until_ctrl_c shared

abbrev sources : List (List LoopEvent)
sources = first_events ∷ first_events ∷ (stream_ended ∷ []) ∷ []

scrape-run_sources_example :
    scraped (
      receive 100 none (
        serve_metrics_connection
          (run_sources willing settings 5 sources (record shared { store = [] }))))
    ≡ (
      some (distinct_addresses settings.default_ca sources),
      some (dispatched_after willing settings 5 sources (record shared { store = [] })),
      some shared.metrics.gi_responses,
    )
scrape-run_sources_example =
    scrape-run_sources willing settings 5 sources (record shared { store = [] }) refl
      ((tt, (refl, (tt, tt))), ((tt, (refl, (tt, tt))), ((tt, tt), tt))) (omega arith) (omega arith)
      (omega arith)
