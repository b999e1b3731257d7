-- ===== src/Examples/Outside.antt =====
-- What goes in and comes out: the sources with their clients, and the metrics endpoint.
use iec104bridge.Base.{
  ℕ, true, ◌⊎◌, zero, suc, ◌++◌, ◌+◌, ◌≡◌, ◌≤◌, refl, none, some, List, [], ◌∷◌, map, All, arith,
  length,
}
use iec104bridge.Base.Int.{ℤ, pos}
use iec104bridge.Message.{Iec104Message}
use iec104bridge.Nats.{Delivery, stream_error, payload}
use iec104bridge.Unix.{
  line, process_unix_socket_line, trim_end, handle_unix_client, forward_unix_client_lines,
}
use iec104bridge.Validation.{validate_message}
use iec104bridge.Server.{Shared}
use iec104bridge.Loop.{run_sources}
use iec104bridge.Accept.{
  UnixSocketRuntime, message, Sender, Hub, update, no_hub, Move, send, receive, reply, move, accept,
  Reach, here, next, spawn_unix_client_task, unix_socket_backlog,
}
use iec104bridge.Accept.Clients.{of_client}
use iec104bridge.Accept.Order.{IsAdmitted, Reach-order}
use iec104bridge.Accept.Drain.{IsHeldUp, stuck-delivers}
use iec104bridge.Pipeline.{Input, from_nats, from_socket, events}
use iec104bridge.Pipeline.Served.{IsServed, run_sources-IsServed}
use iec104bridge.Endpoint.{serve_metrics_connection}
use iec104bridge.Endpoint.Framing.{scraped, scrape-serve_metrics_connection}
use iec104bridge.Endpoint.Framing
use iec104bridge.Examples.Samples.{
  platform, willing, settings, shared, breaker, parser, peer, good_line, bad_line, reads, cred,
}

abbrev pub runtime : UnixSocketRuntime
runtime = record { allowed_uid = none; allowed_gid = some 100; max_line_bytes = 64 }

abbrev joined : Hub
joined = record no_hub {
  senders =
      update no_hub.senders 0
        (record { script = breaker ∷ breaker ∷ []; todo = breaker ∷ breaker ∷ []; takes = true });
  accepted = 1;
}

abbrev queued : Hub
queued = record joined {
  senders =
      update joined.senders 0
        (record { script = breaker ∷ breaker ∷ []; todo = breaker ∷ []; takes = true });
  queue = message 0 breaker ∷ [];
}

abbrev pub delivered : Hub
delivered = record queued { queue = []; received = message 0 breaker ∷ []; answering = some 0 }

two_messages : breaker ∷ breaker ∷ [] ≡ spawn_unix_client_task parser runtime peer (some cred) reads
unfolding spawn_unix_client_task handle_unix_client forward_unix_client_lines
    process_unix_socket_line trim_end validate_message
two_messages = refl

first_sent : Move joined queued
first_sent = send 0 breaker (breaker ∷ []) (omega arith) refl refl (omega arith) refl

first_received : Move queued delivered
first_received = receive (message 0 breaker) [] refl refl refl

pub Reach-delivered : Reach parser runtime no_hub delivered
Reach-delivered =
    next
      (next (next here (accept peer (some cred) reads (breaker ∷ breaker ∷ []) two_messages refl))
        (move first_sent))
      (move first_received)

Reach-order_example :
    (length delivered.queue ≤ unix_socket_backlog)
    × All IsAdmitted delivered.received
    × ((delivered.senders 0).script
        ≡ of_client 0 delivered.received
          ++ (of_client 0 delivered.queue ++ (delivered.senders 0).todo))
Reach-order_example = Reach-order parser runtime Reach-delivered 0

-- A client with one line, whose message is received and acknowledged.
one_message :
    breaker ∷ [] ≡ spawn_unix_client_task parser runtime peer (some cred) (line good_line 2 ∷ [])
unfolding spawn_unix_client_task handle_unix_client forward_unix_client_lines
    process_unix_socket_line trim_end validate_message
one_message = refl

abbrev to_come : List Iec104Message → Sender
to_come todo = record { script = breaker ∷ []; todo = todo; takes = true }

abbrev finished : Hub
finished = record {
  senders = update (update no_hub.senders 0 (to_come (breaker ∷ []))) 0 (to_come []);
  accepted = 1;
  queue = [];
  received = message 0 breaker ∷ [];
  answering = none;
}

Reach-finished : Reach parser runtime no_hub finished
Reach-finished =
    next
      (next
        (next
          (next here
            (accept peer (some cred) (line good_line 2 ∷ []) (breaker ∷ []) one_message refl))
          (move (send 0 breaker [] (omega arith) refl refl (omega arith) refl)))
        (move (receive (message 0 breaker) [] refl refl refl)))
      (move (reply 0 refl refl refl))

finished_stuck : (t : Hub) → ¬ Move finished t
finished_stuck t (send zero m rest lt e takes room k) = absurd (cc e)
finished_stuck t (send (suc i) m rest lt e takes room k) = absurd (omega arith)
finished_stuck t (receive i rest idle e k) = absurd (cc e)
finished_stuck t (reply i a takes k) = absurd (cc a)

stuck-delivers_example :
    IsHeldUp finished
    ⊎ ((j : ℕ)
        → (finished.senders j).takes ≡ true
        → of_client j finished.received ≡ (finished.senders j).script)
stuck-delivers_example = stuck-delivers parser runtime Reach-finished finished_stuck

abbrev deliveries : List (ℤ × Delivery)
deliveries = (pos 1, payload good_line) ∷ (pos 2, stream_error) ∷ (pos 3, payload bad_line) ∷ []

abbrev inputs : List Input
inputs = from_nats deliveries ∷ from_socket (λ n. pos (7 + n)) delivered ∷ []

abbrev empty : Shared platform
empty = record shared { store = [] }

run_sources-IsServed_example :
    All
      (IsServed willing settings (pos 9) 4)
      (run_sources willing settings 5 (map (events parser) inputs) empty).store
run_sources-IsServed_example =
    run_sources-IsServed willing settings 5 parser runtime inputs (pos 9) 4 empty refl
      (tt, (Reach-delivered, tt)) (omega arith) (omega arith)

scrape-serve_metrics_connection_example :
    scraped (Framing.receive 100 none (serve_metrics_connection shared)) ≡ (some 1, some 0, some 0)
scrape-serve_metrics_connection_example =
    scrape-serve_metrics_connection shared (omega arith) (omega arith) (omega arith)
