-- ===== src/Server/Incoming.antt =====
-- What an incoming message does, on every branch.
use iec104bridge.Base.{ℕ, true, false, ◌≡◌, some, ◌∷◌, arith, unwrap_or, ◌==◌, ◌&&◌, if◌then◌else◌}
use iec104bridge.Base.Int.{ℤ}
use iec104bridge.Base.Result.{ok, err}
use iec104bridge.Message.{Iec104Message}
use iec104bridge.Platform.{Platform}
use iec104bridge.Policy.{prepare_for_output}
use iec104bridge.Bridge.Dispatch.{perform, call_of, dispatch-call_of}
use iec104bridge.Sys.{Answers, History, acknowledged}
use iec104bridge.Store.{find, insert}
use iec104bridge.Store.Laws.{find-insert}
use iec104bridge.Sinks.{live_sink}
use iec104bridge.Server.{
  Shared, Settings, IncomingMessage, ack_failed, fetch_add_one, handle_incoming_message,
}

module _ {p : Platform} (answers : Answers p) (settings : Settings) (server : p.ServerPtr)
    (now : ℤ) where
  -- The calls for a message before it is acknowledged: none with `gi_only`, else the one call of the
  -- server that the message leads to.
  abbrev pub sent_before_ack : Iec104Message → History p → History p
  sent_before_ack msg h =
      if settings.gi_only
      then h
      else perform p (live_sink answers server)
          (call_of p (prepare_for_output msg now now settings.policy)
            (unwrap_or msg.ca settings.default_ca))
          h

  -- A message that waits for an acknowledgement is acknowledged after it was sent, or without being
  -- sent with `gi_only`. It is handled without error exactly if the acknowledgement succeeds, and
  -- then counted if it was sent.
  pub handle_incoming_message_acks :
      (msg : Iec104Message) (s : Shared p)
      → let sent = sent_before_ack msg s.history in
        let acked = answers.acknowledges sent in
        let (r, s') =
          handle_incoming_message answers settings server now
            (record { message = msg; has_ack = true })
            s in
        (s'.history ≡ acknowledged acked ∷ sent)
        × (r ≡ (if acked then ok tt else err ack_failed))
        × (s'.metrics.gi_responses ≡ s.metrics.gi_responses)
        × (s'.metrics.messages_dispatched ≡ (
            if acked
            then (if settings.gi_only
                then s.metrics.messages_dispatched
                else fetch_add_one s.metrics.messages_dispatched)
            else s.metrics.messages_dispatched))
  unfolding handle_incoming_message
  handle_incoming_message_acks msg s = ground (
    arith,
    dispatch-call_of p (live_sink answers server) (prepare_for_output msg now now settings.policy)
        (unwrap_or msg.ca settings.default_ca) s.history,
  )

  -- A message that does not wait for an acknowledgement leads to these calls alone.
  pub handle_incoming_message_unacked :
      (msg : Iec104Message) (s : Shared p)
      → (handle_incoming_message answers settings server now
          (record { message = msg; has_ack = false })
          s).1.history
        ≡ sent_before_ack msg s.history
  unfolding handle_incoming_message
  handle_incoming_message_unacked msg s = ground (
    arith,
    dispatch-call_of p (live_sink answers server) (prepare_for_output msg now now settings.policy)
        (unwrap_or msg.ca settings.default_ca) s.history,
  )

  -- The cache takes the message under its address on every branch.
  pub handle_incoming_message_store :
      (incoming : IncomingMessage) (s : Shared p)
      → (handle_incoming_message answers settings server now incoming s).1.store
        ≡ insert
            (unwrap_or incoming.message.ca settings.default_ca)
            incoming.message.ioa
            (record { message = incoming.message; received_at = now })
            s.store
  unfolding handle_incoming_message
  handle_incoming_message_store incoming s = ground arith

  -- Whatever becomes of the message afterwards, the cache then gives it, with the time of its
  -- arrival, at its own address, and at any other address what it gave before.
  pub find-handle_incoming_message :
      (incoming : IncomingMessage) (s : Shared p) (ca ioa : ℕ)
      → find ca ioa (handle_incoming_message answers settings server now incoming s).1.store ≡ (
          if unwrap_or incoming.message.ca settings.default_ca == ca && incoming.message.ioa == ioa
          then some (record { message = incoming.message; received_at = now })
          else find ca ioa s.store)
  find-handle_incoming_message incoming s ca ioa =
      rw handle_incoming_message_store (find-insert _ _ ca ioa _ s.store)
