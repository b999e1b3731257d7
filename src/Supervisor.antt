-- ===== src/Supervisor.antt =====
-- The supervisor of the input source (main.rs, `supervise_message_source`) as a state machine over
-- what happens to it. Times are in milliseconds.
pub mod Backoff
pub mod Supervise
use iec104bridge.Base.{
  ℕ, ◌*◌, Bool, true, false, Option, none, some, List, [], ◌∷◌, leb, min, if◌then◌else◌,
}
use iec104bridge.Loop.{LoopOutcome, shutdown, source_ended}

abbrev pub source_min_backoff : ℕ
source_min_backoff = 200

abbrev pub source_max_backoff : ℕ
source_max_backoff = 5000

abbrev pub source_stable_run : ℕ
source_stable_run = 30000

-- Running a source, or waiting to build it again, with the current backoff; stopped with the server.
pub data Supervisor : Type 0 where
  running waiting : ℕ → Supervisor
  stopped : Supervisor

-- The loop returned, after so long; the wait was interrupted by Ctrl-C; the wait ended, and the
-- source was built or not.
pub data SupervisorEvent : Type 0 where
  loop_returned : LoopOutcome → ℕ → SupervisorEvent
  interrupted : SupervisorEvent
  woke : Bool → SupervisorEvent

-- The first build fails fast.
pub start : Bool → Option Supervisor
start built = if built then some (running source_min_backoff) else none

-- `(backoff * 2).min(SOURCE_MAX_BACKOFF)`
abbrev pub next_backoff : ℕ → ℕ
next_backoff backoff = min (backoff * 2) source_max_backoff

-- An event of another phase does not happen, and changes nothing.
pub step : Supervisor → SupervisorEvent → Supervisor
step (running backoff) (loop_returned shutdown elapsed) = stopped
step (running backoff) (loop_returned source_ended elapsed) =
    waiting (if leb source_stable_run elapsed then source_min_backoff else backoff)
step (waiting backoff) interrupted = stopped
step (waiting backoff) (woke built) =
    if built then running (next_backoff backoff) else waiting (next_backoff backoff)
step s e = s

pub run : Supervisor → List SupervisorEvent → Supervisor
run s [] = s
run s (e ∷ es) = run (step s e) es
