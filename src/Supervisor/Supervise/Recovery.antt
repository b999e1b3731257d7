-- ===== src/Supervisor/Supervise/Recovery.antt =====
-- That no outage of a source loses the bridge or its cache.
use mathlib.Core.Path.{subst}
use iec104bridge.Base.{
  ℕ, ◌≡◌, ◌≤◌, refl, sym, ap, ◌∙◌, Option, none, some, List, [], ◌∷◌, All, arith, leb,
  if◌then◌else◌,
}
use iec104bridge.Platform.{Platform}
use iec104bridge.Sys.{Answers}
use iec104bridge.Store.{find}
use iec104bridge.Server.{Shared, Settings}
use iec104bridge.Loop.{
  LoopEvent, ctrl_c, stream_ended, receive_error, ctrl_c_unheard, received, source_ended,
  run_message_loop, run_sources,
}
use iec104bridge.Loop.Cache.{all_arrivals, last_at, find-run_sources}
use iec104bridge.Supervisor.{
  Supervisor, running, waiting, step, next_backoff, source_min_backoff, source_stable_run,
}
use iec104bridge.Supervisor.Supervise.{
  Source, Wake, ctrl_c_pressed, build_failed, built, run_source, woken, supervise,
  supervise_message_source,
}

-- The source ends by itself, and nobody presses Ctrl-C before.
abbrev pub Ends : List LoopEvent → Type 0
Ends [] = ⊥
Ends (ctrl_c ∷ es) = ⊥
Ends (stream_ended ∷ es) = Unit
Ends (receive_error ∷ es) = Ends es
Ends (ctrl_c_unheard ∷ es) = Ends es
Ends (received now incoming ∷ es) = Ends es

-- The attempt fails, or builds a source that ends by itself.
abbrev pub IsOutage : Wake → Type 0
IsOutage ctrl_c_pressed = ⊥
IsOutage build_failed = Unit
IsOutage (built source) = Ends source.events

abbrev pub sources_of : List Wake → List (List LoopEvent)
sources_of [] = []
sources_of (ctrl_c_pressed ∷ wakes) = sources_of wakes
sources_of (build_failed ∷ wakes) = sources_of wakes
sources_of (built source ∷ wakes) = source.events ∷ sources_of wakes

module _ {p : Platform} (answers : Answers p) (settings : Settings) (server : p.ServerPtr) where
  run_message_loop-Ends :
      (es : List LoopEvent) (s : Shared p)
      → Ends es
      → (run_message_loop answers settings server es s).0 ≡ some source_ended
  unfolding run_message_loop
  run_message_loop-Ends [] s h = absurd h
  run_message_loop-Ends (ctrl_c ∷ es) s h = absurd h
  run_message_loop-Ends (stream_ended ∷ es) s h = refl
  run_message_loop-Ends (receive_error ∷ es) s h = run_message_loop-Ends es s h
  run_message_loop-Ends (ctrl_c_unheard ∷ es) s h = run_message_loop-Ends es s h
  run_message_loop-Ends (received now incoming ∷ es) s h = run_message_loop-Ends es _ h

  -- Waiting, with a backoff within its bounds, and with these shared things.
  abbrev pub IsWaitingWith : Shared p → Supervisor × Shared p → Type 0
  IsWaitingWith shared (s, shared') =
      (backoff : ℕ) × (s ≡ waiting backoff)
      × (200 ≤ backoff)
      × (backoff ≤ 5000)
      × (shared' ≡ shared)

  run_source-Ends :
      (backoff : ℕ) (source : Source) (shared : Shared p)
      → Ends source.events
      → run_source answers settings server (running backoff) source shared ≡ (
        waiting (if leb source_stable_run source.elapsed then source_min_backoff else backoff),
        (run_message_loop answers settings server source.events shared).1,
      )
  unfolding run_source step
  run_source-Ends backoff source shared h = rw (run_message_loop-Ends source.events shared h) refl

  supervise-IsWaitingWith :
      (backoff : ℕ) (wakes : List Wake) (shared : Shared p)
      → 200 ≤ backoff
      → backoff ≤ 5000
      → All IsOutage wakes
      → IsWaitingWith
          (run_sources answers settings server (sources_of wakes) shared)
          (supervise answers settings server (waiting backoff) wakes shared)
  unfolding supervise woken step run_sources
  supervise-IsWaitingWith backoff [] shared l h o = (backoff, refl, l, h, refl)
  supervise-IsWaitingWith backoff (ctrl_c_pressed ∷ wakes) shared l h (o, os) = absurd o
  supervise-IsWaitingWith backoff (build_failed ∷ wakes) shared l h (o, os) =
      supervise-IsWaitingWith (next_backoff backoff) wakes shared (omega arith) (omega arith) os
  supervise-IsWaitingWith backoff (built source ∷ wakes) shared l h (o, os) =
      subst
        (λ r.
          IsWaitingWith
            (run_sources answers settings server (source.events ∷ sources_of wakes) shared)
            (supervise answers settings server r.0 wakes r.1))
        (sym (run_source-Ends (next_backoff backoff) source shared o))
        (supervise-IsWaitingWith
          (if leb source_stable_run source.elapsed
            then source_min_backoff
            else next_backoff backoff)
          wakes (run_message_loop answers settings server source.events shared).1 (ground arith)
          (ground arith) os)

  -- What the bridge comes to: it waits for the next attempt, and the cache has the last message of
  -- each address.
  abbrev pub HasRecovered :
      List (List LoopEvent) → Shared p → Option (Supervisor × Shared p) → Type 0
  HasRecovered sources before none = ⊥
  HasRecovered sources before (some (s, after)) =
      ((backoff : ℕ) × (s ≡ waiting backoff) × (200 ≤ backoff) × (backoff ≤ 5000))
      × ((ca ioa : ℕ)
          → find ca ioa after.store
            ≡ last_at settings.default_ca ca ioa (all_arrivals sources) (find ca ioa before.store))

  -- However often the source ends or cannot be built, if the first is built and nobody presses
  -- Ctrl-C: the bridge comes to wait for its next attempt to build one, for 200 ms to 5 s, and its
  -- cache has for each address the last message that arrived for it over all sources that were
  -- built, or what it had before.
  pub supervise_message_source-HasRecovered :
      (first : Source) (wakes : List Wake) (shared : Shared p)
      → Ends first.events
      → All IsOutage wakes
      → HasRecovered
          (first.events ∷ sources_of wakes)
          shared
          (supervise_message_source answers settings server (some first) wakes shared)
  unfolding supervise_message_source run_sources
  supervise_message_source-HasRecovered first wakes shared h o =
      subst
        (λ r.
          HasRecovered (first.events ∷ sources_of wakes) shared
            (some (supervise answers settings server r.0 wakes r.1)))
        (sym (run_source-Ends source_min_backoff first shared h))
        (let (b, e, l, k, same) =
            supervise-IsWaitingWith
              (if leb source_stable_run first.elapsed
                then source_min_backoff
                else source_min_backoff)
              wakes (run_message_loop answers settings server first.events shared).1 (ground arith)
              (ground arith) o in
          (
            (b, e, l, k),
            λ ca ioa.
                ap (λ (s : Shared p). find ca ioa s.store) same
                ∙ find-run_sources answers settings server ca ioa (first.events ∷ sources_of wakes)
                    shared,
          ))
