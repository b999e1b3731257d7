-- ===== src/Loop/Ledger.antt =====
-- What the runs of the message loop ask of the libraries, in order, and what they count.
use iec104bridge.Base.{
  ℕ, ◌+◌, ◌%◌, ◌^◌, ◌<◌, ◌≡◌, refl, sym, ap, ◌∙◌, true, List, [], ◌∷◌, ◌++◌, All, arith,
  if◌then◌else◌,
}
use iec104bridge.Base.Int.{ℤ}
use iec104bridge.Platform.{Platform}
use iec104bridge.Sys.{Answers, History, acknowledged}
use iec104bridge.Store.{CachedPoint}
use iec104bridge.Server.{Shared, Settings, IncomingMessage, handle_incoming_message}
use iec104bridge.Server.Incoming.{sent_before_ack, handle_incoming_message_acks}
use iec104bridge.Loop.{
  LoopEvent, ctrl_c, stream_ended, receive_error, ctrl_c_unheard, received, run_message_loop,
  run_sources,
}
use iec104bridge.Loop.Cache.{arrivals, all_arrivals}

-- A message waits for an acknowledgement, as those of both sources do.
abbrev pub WantsAck : LoopEvent → Type 0
WantsAck (received now incoming) = incoming.has_ack ≡ true
WantsAck e = Unit

-- The counter is a number of 64 bits.
abbrev pub FitsCounter : {p : Platform} → Shared p → Type 0
FitsCounter s = s.metrics.messages_dispatched < 2 ^ 64

module _ {p : Platform} (answers : Answers p) (settings : Settings) (server : p.ServerPtr) where
  -- One message: the one call of the server that it leads to, none with `gi_only`, and then its
  -- acknowledgement, with its answer.
  abbrev pub entry : CachedPoint → History p → History p
  entry c h =
      let sent = sent_before_ack answers settings server c.received_at c.message h in
      acknowledged (answers.acknowledges sent) ∷ sent

  abbrev pub ledger : List CachedPoint → History p → History p
  ledger [] h = h
  ledger (c ∷ cs) h = ledger cs (entry c h)

  -- How many of the acknowledgements succeed.
  abbrev pub successes : List CachedPoint → History p → ℕ
  successes [] h = 0
  successes (c ∷ cs) h =
      (if answers.acknowledges (sent_before_ack answers settings server c.received_at c.message h)
        then 1
        else 0)
      + successes cs (entry c h)

  ledger-append :
      (xs ys : List CachedPoint) (h : History p) → ledger (xs ++ ys) h ≡ ledger ys (ledger xs h)
  ledger-append [] ys h = refl
  ledger-append (x ∷ xs) ys h = ledger-append xs ys (entry x h)

  successes-append :
      (xs ys : List CachedPoint) (h : History p)
      → successes (xs ++ ys) h ≡ successes xs h + successes ys (ledger xs h)
  successes-append [] ys h = omega arith
  successes-append (x ∷ xs) ys h = omega (arith, successes-append xs ys (entry x h))

  -- What a run over these messages leaves.
  pub record IsLedger (cs : List CachedPoint) (before after : Shared p) : Type 0 where
    pub calls : after.history ≡ ledger cs before.history
    pub replies : after.metrics.gi_responses ≡ before.metrics.gi_responses
    pub counted : after.metrics.messages_dispatched ≡ (
        if settings.gi_only
        then before.metrics.messages_dispatched
        else (before.metrics.messages_dispatched + successes cs before.history) % 2 ^ 64)

  handle_incoming_message-IsLedger :
      (c : CachedPoint) (s : Shared p)
      → s.metrics.messages_dispatched < 2 ^ 64
      → IsLedger
          (c ∷ [])
          s
          (handle_incoming_message answers settings server c.received_at
            (record { message = c.message; has_ack = true })
            s).1
  handle_incoming_message-IsLedger c s h =
      let (calls, _, replies, counted) =
        handle_incoming_message_acks answers settings server c.received_at c.message s in
      record { calls = calls; replies = replies; counted = ground (arith, counted) }

  IsLedger-FitsCounter :
      (cs : List CachedPoint) (s t : Shared p) → IsLedger cs s t → FitsCounter s → FitsCounter t
  IsLedger-FitsCounter cs s t v h = ground (arith, v.counted)

  IsLedger-refl : (s : Shared p) → FitsCounter s → IsLedger [] s s
  IsLedger-refl s h = record { calls = refl; replies = refl; counted = ground arith }

  IsLedger-append :
      (cs ds : List CachedPoint) (s t u : Shared p)
      → IsLedger cs s t
      → IsLedger ds t u
      → IsLedger (cs ++ ds) s u
  IsLedger-append cs ds s t u v w = record {
    calls = w.calls ∙ ap (ledger ds) v.calls ∙ sym (ledger-append cs ds s.history);
    replies = w.replies ∙ v.replies;
    counted =
        let more = ap (successes ds) v.calls in
        ground (arith, v.counted, w.counted, more, successes-append cs ds s.history);
  }

  handle-IsLedger :
      (now : ℤ) (incoming : IncomingMessage) (s : Shared p)
      → incoming.has_ack ≡ true
      → FitsCounter s
      → IsLedger
          (record { message = incoming.message; received_at = now } ∷ [])
          s
          (handle_incoming_message answers settings server now incoming s).1
  handle-IsLedger now incoming s ack h = rw ack (
      handle_incoming_message-IsLedger (record { message = incoming.message; received_at = now }) s
        h)

  run_message_loop-IsLedger :
      (es : List LoopEvent) (s : Shared p)
      → All WantsAck es
      → FitsCounter s
      → IsLedger (arrivals es) s (run_message_loop answers settings server es s).1
  unfolding run_message_loop
  run_message_loop-IsLedger [] s a h = IsLedger-refl s h
  run_message_loop-IsLedger (ctrl_c ∷ es) s a h = IsLedger-refl s h
  run_message_loop-IsLedger (stream_ended ∷ es) s a h = IsLedger-refl s h
  run_message_loop-IsLedger (receive_error ∷ es) s (_, a) h = run_message_loop-IsLedger es s a h
  run_message_loop-IsLedger (ctrl_c_unheard ∷ es) s (_, a) h = run_message_loop-IsLedger es s a h
  run_message_loop-IsLedger (received now incoming ∷ es) s (ack, a) h =
      let t = (handle_incoming_message answers settings server now incoming s).1 in
      let first = handle-IsLedger now incoming s ack h in
      IsLedger-append (record { message = incoming.message; received_at = now } ∷ []) (arrivals es)
        s t (run_message_loop answers settings server es t).1 first
        (run_message_loop-IsLedger es t a (IsLedger-FitsCounter _ s t first h))

  -- Whatever arrives over any number of sources, if every message waits for an acknowledgement: the
  -- calls that the message loop makes are, for each message in the order of arrival, the one call
  -- of the server that it leads to, none with `gi_only`, and then its acknowledgement, whatever
  -- became of those before; and the counter of the dispatched messages, of 64 bits, has gone up,
  -- wrapping, by the acknowledgements that succeeded, and not at all with `gi_only`.
  pub run_sources-IsLedger :
      (sources : List (List LoopEvent)) (s : Shared p)
      → All (All WantsAck) sources
      → FitsCounter s
      → IsLedger (all_arrivals sources) s (run_sources answers settings server sources s)
  unfolding run_sources
  run_sources-IsLedger [] s a h = IsLedger-refl s h
  run_sources-IsLedger (es ∷ rest) s (a, as_well) h =
      let t = (run_message_loop answers settings server es s).1 in
      let first = run_message_loop-IsLedger es s a h in
      IsLedger-append (arrivals es) (all_arrivals rest) s t
        (run_sources answers settings server rest t) first
        (run_sources-IsLedger rest t as_well (IsLedger-FitsCounter _ s t first h))
