-- ===== src/Supervisor/Supervise/Shutdown.antt =====
-- When the bridge stops.
use iec104bridge.Base.{
  ℕ, ◌≡◌, ◌↔◌, ◌⊎◌, inl, inr, refl, Option, none, some, List, [], ◌∷◌, leb, if◌then◌else◌,
}
use iec104bridge.Platform.{Platform}
use iec104bridge.Sys.{Answers}
use iec104bridge.Server.{Shared, Settings, handle_incoming_message}
use iec104bridge.Loop.{
  LoopEvent, LoopOutcome, shutdown, ctrl_c, stream_ended, receive_error, ctrl_c_unheard, received,
  source_ended, run_message_loop,
}
use iec104bridge.Supervisor.{
  Supervisor, running, waiting, stopped, step, next_backoff, source_min_backoff, source_stable_run,
}
use iec104bridge.Supervisor.Supervise.{
  Source, Wake, ctrl_c_pressed, build_failed, built, run_source, woken, supervise, returned,
  supervise_message_source,
}
use iec104bridge.Supervisor.Supervise.Recovery.{Ends}

-- Ctrl-C is heard before the source ends.
abbrev pub Presses : List LoopEvent → Type 0
Presses [] = ⊥
Presses (ctrl_c ∷ es) = Unit
Presses (stream_ended ∷ es) = ⊥
Presses (receive_error ∷ es) = Presses es
Presses (ctrl_c_unheard ∷ es) = Presses es
Presses (received now incoming ∷ es) = Presses es

-- Ctrl-C is heard in a wait, or while one of the sources runs that are built.
abbrev pub IsPressedIn : List Wake → Type 0
IsPressedIn [] = ⊥
IsPressedIn (ctrl_c_pressed ∷ wakes) = Unit
IsPressedIn (build_failed ∷ wakes) = IsPressedIn wakes
IsPressedIn (built source ∷ wakes) =
    Presses source.events ⊎ (Ends source.events × IsPressedIn wakes)

abbrev pub IsPressed : Source → List Wake → Type 0
IsPressed source wakes = Presses source.events ⊎ (Ends source.events × IsPressedIn wakes)

abbrev pub IsStopped : {p : Platform} → Option (Supervisor × Shared p) → Type 0
IsStopped none = ⊥
IsStopped (some (s, shared)) = s ≡ stopped

-- Why the loop has this outcome, from whether Ctrl-C is heard and whether the source ends.
abbrev HasCause : Type 0 → Type 0 → Option LoopOutcome → Type 0
HasCause pressed ended none = (¬ pressed) × (¬ ended)
HasCause pressed ended (some shutdown) = pressed
HasCause pressed ended (some source_ended) = ended × (¬ pressed)

module _ {p : Platform} (answers : Answers p) (settings : Settings) (server : p.ServerPtr) where
  run_message_loop-HasCause :
      (es : List LoopEvent) (s : Shared p)
      → HasCause (Presses es) (Ends es) (run_message_loop answers settings server es s).0
  unfolding run_message_loop
  run_message_loop-HasCause [] s = (λ h. h, λ h. h)
  run_message_loop-HasCause (ctrl_c ∷ es) s = tt
  run_message_loop-HasCause (stream_ended ∷ es) s = (tt, λ h. h)
  run_message_loop-HasCause (receive_error ∷ es) s = run_message_loop-HasCause es s
  run_message_loop-HasCause (ctrl_c_unheard ∷ es) s = run_message_loop-HasCause es s
  run_message_loop-HasCause (received now incoming ∷ es) s =
      run_message_loop-HasCause es
        (handle_incoming_message answers settings server now incoming s).1

  -- Nothing waits any more.
  supervise-stopped :
      (wakes : List Wake) (shared : Shared p)
      → supervise answers settings server stopped wakes shared ≡ (stopped, shared)
  unfolding supervise woken
  supervise-stopped [] shared = refl
  supervise-stopped (wake ∷ wakes) shared = supervise-stopped wakes shared

  supervise-running :
      (backoff : ℕ) (wakes : List Wake) (shared : Shared p)
      → supervise answers settings server (running backoff) wakes shared ≡ (running backoff, shared)
  unfolding supervise woken
  supervise-running backoff [] shared = refl
  supervise-running backoff (wake ∷ wakes) shared = supervise-running backoff wakes shared

  -- A source that runs, before these waits.
  returned-stopped_iff :
      (backoff : ℕ) (source : Source) (wakes : List Wake) (o : Option LoopOutcome)
      (shared : Shared p)
      → HasCause (Presses source.events) (Ends source.events) o
      → ((b : ℕ)
          → ((supervise answers settings server (waiting b) wakes shared).0 ≡ stopped)
            ↔ IsPressedIn wakes)
      → ((supervise answers settings server
            (returned answers settings server (running backoff) source.elapsed o)
            wakes
            shared).0
          ≡ stopped)
        ↔ IsPressed source wakes
  unfolding step
  returned-stopped_iff backoff source wakes none shared (calm, endless) ih =
      rw (supervise-running backoff wakes shared) (
        λ e. absurd (cc e),
        λ h. elim h [ inl k ↦ absurd (calm k) | inr (k, _) ↦ absurd (endless k) ],
      )
  returned-stopped_iff backoff source wakes (some shutdown) shared h ih =
      rw (supervise-stopped wakes shared) (λ e. inl h, λ k. refl)
  returned-stopped_iff backoff source wakes (some source_ended) shared (h, calm) ih =
      let (to, from) =
        ih (if leb source_stable_run source.elapsed then source_min_backoff else backoff) in
      (λ e. inr (h, to e), λ k. elim k [ inl q ↦ absurd (calm q) | inr (_, q) ↦ from q ])

  waiting-stopped_iff :
      (backoff : ℕ) (wakes : List Wake) (shared : Shared p)
      → ((supervise answers settings server (waiting backoff) wakes shared).0 ≡ stopped)
        ↔ IsPressedIn wakes
  unfolding supervise woken step run_source
  waiting-stopped_iff backoff [] shared = (λ e. absurd (cc e), λ h. absurd h)
  waiting-stopped_iff backoff (ctrl_c_pressed ∷ wakes) shared =
      rw (supervise-stopped wakes shared) (λ e. tt, λ h. refl)
  waiting-stopped_iff backoff (build_failed ∷ wakes) shared =
      waiting-stopped_iff (next_backoff backoff) wakes shared
  waiting-stopped_iff backoff (built source ∷ wakes) shared =
      let (o, after) = run_message_loop answers settings server source.events shared in
      returned-stopped_iff (next_backoff backoff) source wakes o after
        (run_message_loop-HasCause source.events shared) (λ b. waiting-stopped_iff b wakes after)

  -- Once the first source is built: the bridge stops exactly if a Ctrl-C is heard by the `select!`
  -- of the message loop while a source runs, before that ends, or by that of a wait, whatever fails
  -- and whatever comes to pass before and after. One that is pressed while the message loop does
  -- not listen, since it handles a message, does not stop the bridge.
  pub supervise_message_source_iff :
      (first : Source) (wakes : List Wake) (shared : Shared p)
      → IsStopped (supervise_message_source answers settings server (some first) wakes shared)
        ↔ IsPressed first wakes
  unfolding supervise_message_source run_source
  supervise_message_source_iff first wakes shared =
      let (o, after) = run_message_loop answers settings server first.events shared in
      returned-stopped_iff source_min_backoff first wakes o after
        (run_message_loop-HasCause first.events shared) (λ b. waiting-stopped_iff b wakes after)
