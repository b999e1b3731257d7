-- ===== src/Pipeline/Payload.antt =====
-- From the object in a payload to the calls of the server.
use iec104bridge.Base.{
  ◌↔◌, ◌≤◌, leb, length, ◌&&◌, Bool-cases, true, arith, ℕ, ◌≡◌, ◌⊎◌, inl, inr, refl, true, Option,
  some, List, [], ◌∷◌, unwrap_or,
}
use iec104bridge.Base.Int.{ℤ}
use iec104bridge.Message.{Iec104Message}
use iec104bridge.Validation.Rules.{IsAcceptable}
use iec104bridge.Decode.{
  ◌>>=◌, Serde, Document, object, array, other, fields_in_order, deserialize_document,
}
use iec104bridge.Decode.Reading.{some_bind_iff}
use iec104bridge.Decode.Described.{Describes}
use iec104bridge.Decode.Messages.{deserialize_message_iff}
use iec104bridge.Platform.{Platform}
use iec104bridge.Sys.{Answers, acknowledged}
use iec104bridge.Store.{find}
use iec104bridge.Server.{Shared, Settings}
use iec104bridge.Server.Incoming.{
  sent_before_ack, handle_incoming_message_acks, find-handle_incoming_message,
}
use iec104bridge.Loop.{run_message_loop}
use iec104bridge.Nats.{payload, acked, NatsCall, into_messages}
use iec104bridge.Nats.Filter.{filter_delivery_payload}

-- The object or the array describes the message: an array by its elements, four to seven, in the
-- order of the fields.
abbrev pub IsDocumentOf : {serde : Serde} → Document serde → Iec104Message → Type 0
IsDocumentOf (object fields) m = Describes fields m
IsDocumentOf (array elements) m =
    (4 ≤ length elements) × (length elements ≤ 7) × Describes (fields_in_order elements) m
IsDocumentOf other m = ⊥

deserialize_document_iff :
    {serde : Serde} (d : Document serde) (m : Iec104Message)
    → (deserialize_document d ≡ some m) ↔ IsDocumentOf d m
unfolding deserialize_document
deserialize_document_iff (object fields) m = deserialize_message_iff fields m
deserialize_document_iff (array elements) m =
    let (to, from) = deserialize_message_iff (fields_in_order elements) m in
    elim (Bool-cases (leb 4 (length elements) && leb (length elements) 7)) [
      | inl y ↦ rw y (λ e. (ground (arith, y), ground (arith, y), to e), λ (_, _, h). from h)
      | inr n ↦ rw n (λ e. absurd (cc e), λ (l, h, _). absurd (ground (arith, n, l, h)))
    ]
deserialize_document_iff other m = (λ e. absurd (cc e), λ h. absurd h)

module _ {serde : Serde} (json : List ℕ → Option (Document serde)) where
  -- `serde_json::from_slice`: the object or array in the bytes, then its message.
  abbrev pub from_slice : List ℕ → Option Iec104Message
  from_slice bytes = json bytes >>= deserialize_document

  -- The bytes are an object or an array that describes an acceptable message.
  abbrev pub Carries : List ℕ → Iec104Message → Type 0
  Carries bytes m =
      ((d : Document serde) × (json bytes ≡ some d) × IsDocumentOf d m) × IsAcceptable m

  module _ {p : Platform} (answers : Answers p) (settings : Settings) (server : p.ServerPtr) where
    -- The message is sent, acknowledged and cached.
    abbrev pub IsSent : ℤ → Iec104Message → Shared p → Shared p → Type 0
    IsSent now m s t =
        let sent = sent_before_ack answers settings server now m s.history in
        (t.history ≡ acknowledged (answers.acknowledges sent) ∷ sent)
        × (find (unwrap_or m.ca settings.default_ca) m.ioa t.store
            ≡ some (record { message = m; received_at = now }))

    -- Sent, acknowledged and cached as an acceptable message, without a call of the source; or
    -- acknowledged by the source, and nothing else happens.
    abbrev pub IsSentOrDropped : ℤ → List ℕ → Shared p → List NatsCall → Shared p → Type 0
    IsSentOrDropped now bytes s calls t =
        ((m : Iec104Message) × Carries bytes m × IsSent now m s t × (calls ≡ []))
        ⊎ (((m : Iec104Message) → ¬ Carries bytes m) × (calls ≡ acked bytes ∷ []) × (t ≡ s))

    -- Whatever a payload from NATS holds, one of two things comes to pass. Either it is an object
    -- or an array that describes an acceptable message: then the source makes no call, the message
    -- leads to its one call of the server, or to none with `gi_only`, its acknowledgement comes
    -- after it, and the cache holds the message under its address with the time of its handling. Or
    -- it is nothing of the kind: then the source makes one call, the acknowledgement of this
    -- payload, and the calls of the message loop, the cache and the counters stay as they were.
    pub payload-IsSentOrDropped :
        (now : ℤ) (bytes : List ℕ) (s : Shared p)
        → let (events, calls) = into_messages from_slice ((now, payload bytes) ∷ []) [] in
          IsSentOrDropped now bytes s calls (run_message_loop answers settings server events s).1
    unfolding into_messages run_message_loop
    payload-IsSentOrDropped now bytes s = elim (filter_delivery_payload from_slice bytes []) [
      | inl (m, (e, ok_m), f) ↦
          let (d, got, described) = (some_bind_iff (json bytes) deserialize_document m).0 e in
          let acks = handle_incoming_message_acks answers settings server now m s in
          rw f (
            inl (
              m,
              ((d, got, (deserialize_document_iff d m).0 described), ok_m),
              (
                acks.0,
                ground (
                  arith,
                  find-handle_incoming_message answers settings server now
                      (record { message = m; has_ack = true }) s
                      (unwrap_or m.ca settings.default_ca) m.ioa,
                ),
              ),
              refl,
            ))
      | inr (no_message, f) ↦ rw f (
          inr (
            λ m ((d, got, described), ok_m). no_message m (
              (some_bind_iff (json bytes) deserialize_document m).1
                  (d, got, (deserialize_document_iff d m).1 described),
              ok_m,
            ),
            refl,
            refl,
          ))
    ]
