-- ===== src/Accept/Drain.antt =====
-- That everything is delivered, unless a client leaves its replies unread.
use iec104bridge.Accept.Clients.{nil_parts, of_client}
use iec104bridge.Accept.Order.{Reach-IsOrderly, no_hub-IsOrderly}
use mathlib.Core.List.{append-nil}
use iec104bridge.Base.{
  ℕ, ◌≡◌, ◌<◌, refl, sym, ap, ◌∙◌, ◌⊎◌, inl, inr, true, false, Option, none, some, List, [], ◌∷◌,
  length, arith, ltb, Bool-cases, ltb→lt,
}
use iec104bridge.Message.{Iec104Message}
use iec104bridge.Accept.{UnixSocketRuntime, Item, Hub, no_hub, Move, send, receive, reply, Reach}

-- The message loop waits for the reply to a client, which cannot be written.
abbrev pub IsHeldUp : Hub → Type 0
IsHeldUp s = (i : ℕ) × (s.answering ≡ some i) × ((s.senders i).takes ≡ false)

-- A hub in which no move is possible waits for such a reply, or has nothing in its channel.
stuck-IsHeldUp : (s : Hub) → ((t : Hub) → ¬ Move s t) → IsHeldUp s ⊎ (s.queue ≡ [])
stuck-IsHeldUp s stuck = go s.answering refl s.queue refl
  where
    go :
        (o : Option ℕ)
        → s.answering ≡ o
        → (q : List Item) → s.queue ≡ q
        → IsHeldUp s ⊎ (s.queue ≡ [])
    go none a [] e = inr e
    go none a (i ∷ rest) e = absurd (stuck _ (receive i rest a e refl))
    go (some i) a q e = elim (Bool-cases (s.senders i).takes) [
      | inl y ↦ absurd (stuck _ (reply i a y refl))
      | inr n ↦ inl (i, a, n)
    ]

-- A task whose client takes replies has then nothing to send.
stuck-todo :
    (s : Hub) (j : ℕ)
    → ((t : Hub) → ¬ Move s t)
    → s.queue ≡ []
    → j < s.accepted
    → (s.senders j).takes ≡ true
    → (s.senders j).todo ≡ []
stuck-todo s j stuck empty lt takes = go (s.senders j).todo refl
  where
    go : (ms : List Iec104Message) → (s.senders j).todo ≡ ms → (s.senders j).todo ≡ []
    go [] e = e
    go (m ∷ rest) e = absurd (
        stuck _
          (send j m rest lt e takes (omega (arith, ap (λ (q : List Item). length q) empty)) refl))

module _ (parse : List ℕ → Option Iec104Message) (runtime : UnixSocketRuntime) where
  -- In a state that comes about from the start of the listener, and in which no task and not the
  -- message loop can make a move: either the message loop is held up, for it acknowledges a message
  -- to a client to which no reply can be written; or of every client to which replies can be
  -- written, every message that it forwards has been received, in their order.
  pub stuck-delivers :
      {s : Hub}
      → Reach parse runtime no_hub s
      → ((t : Hub) → ¬ Move s t)
      → IsHeldUp s
        ⊎ ((j : ℕ) → (s.senders j).takes ≡ true → of_client j s.received ≡ (s.senders j).script)
  stuck-delivers {s} r stuck = elim (stuck-IsHeldUp s stuck) [
    | inl held ↦ inl held
    | inr empty ↦ inr (λ j takes. received j takes empty)
  ]
    where
      received :
          (j : ℕ)
          → (s.senders j).takes ≡ true
          → s.queue ≡ []
          → of_client j s.received ≡ (s.senders j).script
      received j takes empty =
          let v = (Reach-IsOrderly parse runtime r no_hub-IsOrderly).clients j in
          elim (Bool-cases (ltb j s.accepted)) [
            | inl y ↦
                let nothing = stuck-todo s j stuck empty (ltb→lt j s.accepted y) takes in
                sym (v.order ∙ rw (empty, nothing, append-nil (of_client j s.received)) refl)
            | inr y ↦
                let no_script = v.absent (ground arith) in
                let (gone, _) =
                  nil_parts (of_client j s.received) (of_client j s.queue) (s.senders j).todo
                    (sym no_script ∙ v.order) in
                gone ∙ sym no_script
          ]
