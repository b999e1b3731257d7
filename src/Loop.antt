-- ===== src/Loop.antt =====
-- The message loop (main.rs, `run_message_loop`) over the events that it waits for, in their order.
pub mod Cache
pub mod Ledger
pub mod Counted
use iec104bridge.Base.{ℕ, Bool, Option, none, some, List, [], ◌∷◌}
use iec104bridge.Base.Int.{ℤ}
use iec104bridge.Platform.{Platform}
use iec104bridge.Sys.{Answers}
use iec104bridge.Server.{Shared, Settings, IncomingMessage, handle_incoming_message}

pub data LoopOutcome : Type 0 where
  shutdown source_ended : LoopOutcome

-- What comes to pass for the loop: what its `select!` yields, Ctrl-C, the end of the source's
-- stream, an error of it, or a message, at the time at which it is handled. Each `select!` makes
-- its own listener for Ctrl-C; a press while there is none, as while the acknowledgement of a
-- message is awaited, is unheard, and lost.
pub data LoopEvent : Type 0 where
  ctrl_c ctrl_c_unheard stream_ended receive_error : LoopEvent
  received : ℤ → IncomingMessage → LoopEvent

module _ {p : Platform} (answers : Answers p) (settings : Settings) (server : p.ServerPtr) where
  -- `none` while the loop still waits; an error of the stream or of a message is only logged.
  unfoldable pub run_message_loop : List LoopEvent → Shared p → Option LoopOutcome × Shared p
  run_message_loop [] s = (none, s)
  run_message_loop (ctrl_c ∷ es) s = (some shutdown, s)
  run_message_loop (stream_ended ∷ es) s = (some source_ended, s)
  run_message_loop (receive_error ∷ es) s = run_message_loop es s
  run_message_loop (ctrl_c_unheard ∷ es) s = run_message_loop es s
  run_message_loop (received now incoming ∷ es) s =
      run_message_loop es (handle_incoming_message answers settings server now incoming s).1

  -- The loop on one source after another, over one cache (`supervise_message_source`).
  unfoldable pub run_sources : List (List LoopEvent) → Shared p → Shared p
  run_sources [] s = s
  run_sources (es ∷ rest) s = run_sources rest (run_message_loop es s).1
