-- ===== src/Pipeline.antt =====
-- The inputs of the message loop (main.rs, `build_message_source`): what NATS delivers, or what the
-- clients of the Unix socket send, as the events that the loop waits for.
pub mod Served
pub mod Latest
pub mod Payload
use iec104bridge.Base.{ℕ, suc, true, Option, List, [], ◌∷◌}
use iec104bridge.Base.Int.{ℤ}
use iec104bridge.Message.{Iec104Message}
use iec104bridge.Loop.{LoopEvent, receive_error, received}
use iec104bridge.Nats.{Delivery, into_messages}
use iec104bridge.Accept.{Item, accept_failed, message, Hub}

-- A source from its build to its end: the deliveries of the consumer, with the times at which they
-- are handled; or the clients of the listener, with the time at which each item is handled.
pub data Input : Type 0 where
  from_nats : List (ℤ × Delivery) → Input
  from_socket : (ℕ → ℤ) → Hub → Input

item_event : ℤ → Item → LoopEvent
item_event now accept_failed = receive_error
item_event now (message i m) = received now (record { message = m; has_ack = true })

-- `ReceiverStream`, the channel as a stream.
socket_events : (ℕ → ℤ) → ℕ → List Item → List LoopEvent
unfolding item_event
socket_events clock n [] = []
socket_events clock n (i ∷ items) = item_event (clock n) i ∷ socket_events clock (suc n) items

unfoldable pub events : (List ℕ → Option Iec104Message) → Input → List LoopEvent
unfolding into_messages socket_events
events parse (from_nats ds) = (into_messages parse ds []).0
events parse (from_socket clock s) = socket_events clock 0 s.received
