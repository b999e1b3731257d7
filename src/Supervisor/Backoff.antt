-- ===== src/Supervisor/Backoff.antt =====
-- The backoff, and what stops the bridge.
use native.Mathlib.Nat.{pow-suc}
use iec104bridge.Base.{
  if◌then◌else◌, leb, ℕ, zero, suc, ◌*◌, ◌^◌, ◌≤◌, ◌≡◌, ◌≢◌, false, List, [], ◌∷◌, min, arith, All,
  ap, ◌∙◌,
}
use iec104bridge.Loop.{shutdown, source_ended}
use iec104bridge.Supervisor.{
  Supervisor, SupervisorEvent, running, waiting, stopped, loop_returned, interrupted, woke, step,
  run, source_min_backoff, source_max_backoff,
}

-- A backoff stays within its bounds.
abbrev pub IsBounded : Supervisor → Type 0
IsBounded (running b) = (source_min_backoff ≤ b) × (b ≤ source_max_backoff)
IsBounded (waiting b) = (source_min_backoff ≤ b) × (b ≤ source_max_backoff)
IsBounded stopped = Unit

step-IsBounded : (s : Supervisor) (e : SupervisorEvent) → IsBounded s → IsBounded (step s e)
unfolding step
step-IsBounded (running b) (loop_returned shutdown t) h = ground arith
step-IsBounded (running b) (loop_returned source_ended t) h = ground arith
step-IsBounded (running b) _ h = ground arith
step-IsBounded (waiting b) interrupted h = ground arith
step-IsBounded (waiting b) (woke built) h = ground arith
step-IsBounded (waiting b) _ h = ground arith
step-IsBounded stopped _ h = ground arith

-- Whatever happens, the supervisor waits at least 200 ms and at most 5 s before it builds a source.
pub run-IsBounded :
    (s : Supervisor) (es : List SupervisorEvent) → IsBounded s → IsBounded (run s es)
unfolding run
run-IsBounded s [] h = h
run-IsBounded s (e ∷ es) h = run-IsBounded (step s e) es (step-IsBounded s e h)

abbrev pub failures : ℕ → List SupervisorEvent
failures zero = []
failures (suc k) = woke false ∷ failures k

pow-pos : (k : ℕ) → 1 ≤ 2 ^ k
pow-pos zero = omega arith
pow-pos (suc k) = omega (arith, pow-pos k, pow-suc 2 k)

doubled : (k b : ℕ) → b * 2 * 2 ^ k ≡ b * 2 ^ suc k
doubled k b = rw pow-suc (grind arith)

-- Capping before a multiplication makes no difference to the capped product.
capped :
    (x q : ℕ)
    → 1 ≤ q
    → min (min x source_max_backoff * q) source_max_backoff ≡ min (x * q) source_max_backoff
capped x q h = grind arith

-- After k failed builds in a row the wait is 2^k times the first, up to 5 s.
run-failures :
    (k b : ℕ)
    → b ≤ source_max_backoff
    → run (waiting b) (failures k) ≡ waiting (min (b * 2 ^ k) source_max_backoff)
unfolding run step
run-failures zero b h = ap waiting (omega arith)
run-failures (suc k) b h =
    run-failures k (min (b * 2) source_max_backoff) (omega arith)
    ∙ ap waiting (
        capped (b * 2) (2 ^ k) (pow-pos k) ∙ ap (λ (n : ℕ). min n source_max_backoff) (doubled k b))

-- An event in which Ctrl-C plays no part.
abbrev pub IsNoCtrlC : SupervisorEvent → Type 0
IsNoCtrlC (loop_returned shutdown t) = ⊥
IsNoCtrlC interrupted = ⊥
IsNoCtrlC e = Unit

step-ne-stopped :
    (s : Supervisor) (e : SupervisorEvent) → IsNoCtrlC e → s ≢ stopped → step s e ≢ stopped
unfolding step
step-ne-stopped (running b) (loop_returned shutdown t) n h = ground arith
step-ne-stopped (running b) (loop_returned source_ended t) n h = ground arith
step-ne-stopped (running b) _ n h = ground arith
step-ne-stopped (waiting b) interrupted n h = ground arith
step-ne-stopped (waiting b) (woke built) n h = ground arith
step-ne-stopped (waiting b) _ n h = ground arith
step-ne-stopped stopped _ n h = ground arith

-- Without Ctrl-C a running bridge never stops, however often its source ends or cannot be built.
pub run-ne-stopped :
    (s : Supervisor) (es : List SupervisorEvent)
    → All IsNoCtrlC es
    → s ≢ stopped
    → run s es ≢ stopped
unfolding run
run-ne-stopped s [] n h = h
run-ne-stopped s (e ∷ es) n h = run-ne-stopped (step s e) es n.1 (step-ne-stopped s e n.0 h)

-- When a source ends and then k builds fail, the next wait is 2^k times the first one, up to 5 s. The
-- first one is 200 ms if the source had run for 30 s, and else the backoff that was left.
pub run-outage :
    (k b elapsed : ℕ)
    → b ≤ source_max_backoff
    → run (running b) (loop_returned source_ended elapsed ∷ failures k)
      ≡ waiting (min ((if leb 30000 elapsed then 200 else b) * 2 ^ k) 5000)
unfolding run step
run-outage k b elapsed h = run-failures k (if leb 30000 elapsed then 200 else b) (ground arith)
