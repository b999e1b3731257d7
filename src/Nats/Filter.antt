-- ===== src/Nats/Filter.antt =====
-- What the NATS source passes on.
use iec104bridge.Base.{
  sym, ℕ, ◌≡◌, refl, ◌⊎◌, inl, inr, true, Option, none, some, List, [], ◌∷◌, All,
}
use mathlib.Core.Path.{subst}
use mathlib.Core.Option.{some-injective}
use iec104bridge.Base.Int.{ℤ}
use iec104bridge.Base.Result.{Result, ok, err}
use iec104bridge.Message.{Iec104Message}
use iec104bridge.Validation.{ValidationError, validate_message}
use iec104bridge.Validation.Rules.{IsAcceptable, validate_message_iff}
use iec104bridge.Loop.{LoopEvent, receive_error, received, ctrl_c, ctrl_c_unheard, stream_ended}
use iec104bridge.Nats.{
  Delivery, stream_error, payload, dropped, acked, NatsCall, passed, validated, decoded,
  filter_delivery, into_messages,
}

-- An event that the source may yield.
abbrev pub IsSourceEvent : LoopEvent → Type 0
IsSourceEvent ctrl_c = ⊥
IsSourceEvent ctrl_c_unheard = ⊥
IsSourceEvent stream_ended = ⊥
IsSourceEvent receive_error = Unit
IsSourceEvent (received now incoming) = IsAcceptable incoming.message × (incoming.has_ack ≡ true)

-- The payload holds an acceptable message.
abbrev pub Holds : Option Iec104Message → Iec104Message → Type 0
Holds parsed m = (parsed ≡ some m) × IsAcceptable m

module _ (parse : List ℕ → Option Iec104Message) where
  -- A payload is passed on with its acknowledgement pending, and the source makes no call, exactly
  -- if it parses to an acceptable message; every other payload is acknowledged at once, once, and
  -- dropped.
  pub filter_delivery_payload :
      (bytes : List ℕ) (calls : List NatsCall)
      → ((m : Iec104Message) × Holds (parse bytes) m
          × (filter_delivery parse (payload bytes) calls
              ≡ (passed (record { message = m; has_ack = true }), calls)))
        ⊎ (((m : Iec104Message) → ¬ Holds (parse bytes) m)
            × (filter_delivery parse (payload bytes) calls ≡ (dropped, acked bytes ∷ calls)))
  unfolding filter_delivery
  filter_delivery_payload bytes calls = go (parse bytes)
    where
      split :
          (m : Iec104Message) (v : Result ValidationError (Unit {0}))
          → validate_message m ≡ v
          → ((n : Iec104Message) × Holds (some m) n
              × (validated bytes m v calls
                  ≡ (passed (record { message = n; has_ack = true }), calls)))
            ⊎ (((n : Iec104Message) → ¬ Holds (some m) n)
                × (validated bytes m v calls ≡ (dropped, acked bytes ∷ calls)))
      split m (ok u) e = inl (m, (refl, (validate_message_iff m).0 e), refl)
      split m (err x) e = inr (refused, refl)
        where
          refused : (n : Iec104Message) → ¬ Holds (some m) n
          refused n (k, a) =
              let b =
                (validate_message_iff m).1 (subst IsAcceptable (sym (some-injective _ _ k)) a) in
              cc

      go :
          (o : Option Iec104Message)
          → ((n : Iec104Message) × Holds o n
              × (decoded bytes o calls ≡ (passed (record { message = n; has_ack = true }), calls)))
            ⊎ (((n : Iec104Message) → ¬ Holds o n)
                × (decoded bytes o calls ≡ (dropped, acked bytes ∷ calls)))
      go none = inr ((λ n (k, a). cc), refl)
      go (some m) = split m (validate_message m) refl

  -- Every event of the message loop that a delivery gives rise to is an error of the consumer or an
  -- acceptable message with its acknowledgement pending.
  pub into_messages-IsSourceEvent :
      (ds : List (ℤ × Delivery)) (calls : List NatsCall)
      → All IsSourceEvent (into_messages parse ds calls).0
  unfolding into_messages filter_delivery
  into_messages-IsSourceEvent [] calls = tt
  into_messages-IsSourceEvent ((now, stream_error) ∷ ds) calls =
      (tt, into_messages-IsSourceEvent ds calls)
  into_messages-IsSourceEvent ((now, payload bytes) ∷ ds) calls =
      elim (filter_delivery_payload bytes calls) [
        | inl (m, (_, a), e) ↦ rw e ((a, refl), into_messages-IsSourceEvent ds calls)
        | inr (_, e) ↦ rw e (into_messages-IsSourceEvent ds (acked bytes ∷ calls))
      ]
