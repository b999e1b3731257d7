-- ===== src/Endpoint/Observed.antt =====
-- What the endpoint shows after the bridge has run.
use iec104bridge.Base.{
  ℕ, ◌+◌, ◌%◌, ◌^◌, ◌≤◌, ◌≡◌, refl, ◌∙◌, false, none, some, List, [], All, arith, length,
  if◌then◌else◌,
}
use iec104bridge.Config.{u64_max}
use iec104bridge.Platform.{Platform}
use iec104bridge.Sys.{Answers}
use iec104bridge.Store.Counting.{new_addresses, new_addresses-le, length-insert_all}
use iec104bridge.Server.{Shared, Settings}
use iec104bridge.Loop.{LoopEvent, run_sources}
use iec104bridge.Loop.Cache.{all_arrivals}
use iec104bridge.Loop.Counted.{run_sources-insert_all}
use iec104bridge.Loop.Ledger.{WantsAck, FitsCounter, successes, run_sources-IsLedger}
use iec104bridge.Endpoint.{serve_metrics_connection}
use iec104bridge.Endpoint.Framing.{receive, scraped, scrape-serve_metrics_connection}

-- The addresses that arrived, each once.
abbrev pub distinct_addresses : ℕ → List (List LoopEvent) → ℕ
distinct_addresses default_ca sources =
    new_addresses default_ca (all_arrivals sources) (λ x y. false)

module _ {p : Platform} (answers : Answers p) (settings : Settings) (server : p.ServerPtr) where
  length-run_sources :
      (sources : List (List LoopEvent)) (s : Shared p)
      → s.store ≡ []
      → length (run_sources answers settings server sources s).store
        ≡ distinct_addresses settings.default_ca sources
  length-run_sources sources s empty =
      let store = run_sources-insert_all answers settings server sources s in
      let counted =
        length-insert_all settings.default_ca (all_arrivals sources) [] (λ x y. false)
          (λ x y. refl) in
      rw (store, empty) (omega (arith, counted))

  -- The number that the counter of the dispatched messages shows.
  abbrev pub dispatched_after : List (List LoopEvent) → Shared p → ℕ
  dispatched_after sources s =
      if settings.gi_only
      then s.metrics.messages_dispatched
      else (s.metrics.messages_dispatched
          + successes answers settings server (all_arrivals sources) s.history)
        % 2 ^ 64

  -- Whatever arrives over any number of sources, if every message waits for an acknowledgement, the
  -- cache is empty at the start, the two counters are below 2^64 then, and at most 2^64 - 1
  -- messages arrive: whoever asks the endpoint afterwards reads how many different addresses have
  -- arrived, and the number of dispatched messages gone up, wrapping at 2^64, by the
  -- acknowledgements that succeeded, or with `gi_only` as it was, and the number of interrogations
  -- as it was.
  pub scrape-run_sources :
      (sources : List (List LoopEvent)) (s : Shared p)
      → s.store ≡ []
      → All (All WantsAck) sources
      → FitsCounter s
      → s.metrics.gi_responses ≤ u64_max
      → length (all_arrivals sources) ≤ u64_max
      → scraped (
          receive 100 none
            (serve_metrics_connection (run_sources answers settings server sources s)))
        ≡ (
          some (distinct_addresses settings.default_ca sources),
          some (dispatched_after sources s),
          some s.metrics.gi_responses,
        )
  scrape-run_sources sources s empty acks fits replies few =
      let t = run_sources answers settings server sources s in
      let ledger = run_sources-IsLedger answers settings server sources s acks fits in
      let size = length-run_sources sources s empty in
      let bound = new_addresses-le settings.default_ca (all_arrivals sources) (λ x y. false) in
      scrape-serve_metrics_connection t (omega (arith, size, bound))
        (ground (arith, ledger.counted)) (omega (arith, ledger.replies))
      ∙ rw (size, ledger.counted, ledger.replies) refl
