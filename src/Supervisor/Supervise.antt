-- ===== src/Supervisor/Supervise.antt =====
-- The supervisor with the sources that it runs (main.rs, `supervise_message_source`): the message
-- loop on each source that is built, over one cache, with the backoff in between.
pub mod Recovery
pub mod Shutdown
use iec104bridge.Base.{ℕ, Bool, true, false, Option, none, some, List, [], ◌∷◌}
use iec104bridge.Platform.{Platform}
use iec104bridge.Sys.{Answers}
use iec104bridge.Server.{Shared, Settings}
use iec104bridge.Loop.{LoopEvent, LoopOutcome, run_message_loop}
use iec104bridge.Supervisor.{
  Supervisor, running, waiting, stopped, loop_returned, interrupted, woke, step, source_min_backoff,
}

-- A source that was built: what the loop's `select!` yields on it, and how long the loop runs.
pub record Source : Type 0 where
  pub events : List LoopEvent
  pub elapsed : ℕ

-- How a wait ends: by Ctrl-C, or with an attempt to build a source.
pub data Wake : Type 0 where
  ctrl_c_pressed build_failed : Wake
  built : Source → Wake

module _ {p : Platform} (answers : Answers p) (settings : Settings) (server : p.ServerPtr) where
  -- The loop may still be running.
  abbrev returned : Supervisor → ℕ → Option LoopOutcome → Supervisor
  returned s elapsed none = s
  returned s elapsed (some outcome) = step s (loop_returned outcome elapsed)

  run_source : Supervisor → Source → Shared p → Supervisor × Shared p
  run_source s source shared =
      let (outcome, shared') = run_message_loop answers settings server source.events shared in
      (returned s source.elapsed outcome, shared')

  -- A wait that ends; in another phase nothing waits.
  woken : Supervisor → Wake → Shared p → Supervisor × Shared p
  unfolding run_source
  woken (waiting backoff) ctrl_c_pressed shared = (step (waiting backoff) interrupted, shared)
  woken (waiting backoff) build_failed shared = (step (waiting backoff) (woke false), shared)
  woken (waiting backoff) (built source) shared =
      run_source (step (waiting backoff) (woke true)) source shared
  woken s wake shared = (s, shared)

  supervise : Supervisor → List Wake → Shared p → Supervisor × Shared p
  unfolding woken
  supervise s [] shared = (s, shared)
  supervise s (wake ∷ wakes) shared =
      let (s', shared') = woken s wake shared in supervise s' wakes shared'

  -- The first build fails fast; `none` is its error.
  unfoldable pub supervise_message_source :
      Option Source → List Wake → Shared p → Option (Supervisor × Shared p)
  unfolding run_source supervise
  supervise_message_source none wakes shared = none
  supervise_message_source (some source) wakes shared =
      let (s, shared') = run_source (running source_min_backoff) source shared in
      some (supervise s wakes shared')
