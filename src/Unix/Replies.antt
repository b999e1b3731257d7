-- ===== src/Unix/Replies.antt =====
-- The replies of a client whose lines are read while earlier messages still wait for the message
-- loop: the reply `ok` is written by the acknowledgement of a message (source.rs,
-- `message_with_ack`), the others by the client's own task.
use iec104bridge.Base.{
  ap, ℕ, suc, ◌+◌, ◌≡◌, refl, Option, none, some, List, [], ◌∷◌, ◌++◌, arith, length, length-append,
}
use mathlib.Core.Path.{subst}
use iec104bridge.Base.Result.{ok}
use iec104bridge.Message.{Iec104Message}
use iec104bridge.Unix.{Reply, ok_reply, Client, Peer, process_unix_socket_line}
use iec104bridge.Unix.Protocol.{Outcome, process_unix_socket_line-Outcome}

-- The client's connection, the messages that wait in the channel, oldest first, the number of lines
-- that were handled, and of acknowledgements whose `ok` could not be written.
pub record Session : Type 0 where
  pub client : Client
  pub waiting : List Iec104Message
  pub served : ℕ
  pub lost : ℕ

abbrev pub enqueue : Session → Client → Iec104Message → Session
enqueue s c m = record {
  client = record c { forwarded = m ∷ c.forwarded };
  waiting = s.waiting ++ m ∷ [];
  served = suc s.served;
  lost = s.lost;
}

abbrev pub say_ok : Client → Client
say_ok c = record c { replies = ok_reply ∷ c.replies }

-- The client's task handles a line, refusing or forwarding it; or the message loop acknowledges the
-- oldest message that waits, whose `ok` is written or lost with the connection. A line whose error
-- reply cannot be written ends the client's task, and is no step.
pub data Step (parse : List ℕ → Option Iec104Message) (peer : Peer) (max : ℕ) (s t : Session)
    : Type 0 where
  refuse :
      (text : List ℕ) (bytes : ℕ) (c : Client)
      → process_unix_socket_line parse peer max text bytes s.client ≡ (ok none, c)
      → t ≡ record s { client = c; served = suc s.served }
      → Step parse peer max s t
  forward :
      (text : List ℕ) (bytes : ℕ) (c : Client) (m : Iec104Message)
      → process_unix_socket_line parse peer max text bytes s.client ≡ (ok (some m), c)
      → t ≡ enqueue s c m
      → Step parse peer max s t
  acknowledge :
      (m : Iec104Message) (rest : List Iec104Message)
      → s.waiting ≡ m ∷ rest
      → t ≡ record s { client = say_ok s.client; waiting = rest }
      → Step parse peer max s t
  lose :
      (m : Iec104Message) (rest : List Iec104Message)
      → s.waiting ≡ m ∷ rest
      → t ≡ record s { waiting = rest; lost = suc s.lost }
      → Step parse peer max s t

pub data Reach (parse : List ℕ → Option Iec104Message) (peer : Peer) (max : ℕ) (s : Session)
    : Session → Type 0 where
  here : Reach parse peer max s s
  next :
      {t u : Session}
      → Reach parse peer max s t
      → Step parse peer max t u
      → Reach parse peer max s u

-- Each line that was handled has its reply, or its message waits, or its `ok` was lost.
abbrev pub IsBalanced : Session → Type 0
IsBalanced s = length s.client.replies + length s.waiting + s.lost ≡ s.served

module _ (parse : List ℕ → Option Iec104Message) (peer : Peer) (max : ℕ) where
  refused_adds_reply :
      (text : List ℕ) (bytes : ℕ) (c d : Client)
      → process_unix_socket_line parse peer max text bytes c ≡ (ok none, d)
      → length d.replies ≡ suc (length c.replies)
  refused_adds_reply text bytes c d e =
      let (reply, k, _) =
        subst (λ r. Outcome parse peer max text bytes c r.0 r.1) e
          (process_unix_socket_line-Outcome parse peer max text bytes c) in
      ap (λ (x : Client). length x.replies) k

  forwarded_adds_none :
      (text : List ℕ) (bytes : ℕ) (c d : Client) (m : Iec104Message)
      → process_unix_socket_line parse peer max text bytes c ≡ (ok (some m), d)
      → d ≡ c
  forwarded_adds_none text bytes c d m e =
      (subst (λ r. Outcome parse peer max text bytes c r.0 r.1) e
        (process_unix_socket_line-Outcome parse peer max text bytes c)).0

  step-IsBalanced : (s t : Session) → Step parse peer max s t → IsBalanced s → IsBalanced t
  step-IsBalanced s t (refuse text bytes c e k) h =
      rw k (omega (arith, refused_adds_reply text bytes s.client c e))
  step-IsBalanced s t (forward text bytes c m e k) h = rw k (
      omega (
        arith,
        length-append s.waiting (m ∷ []),
        ap (λ (x : Client). length x.replies) (forwarded_adds_none text bytes s.client c m e),
      ))
  step-IsBalanced s t (acknowledge m rest e k) h =
      rw k (omega (arith, ap (λ (x : List Iec104Message). length x) e))
  step-IsBalanced s t (lose m rest e k) h =
      rw k (omega (arith, ap (λ (x : List Iec104Message). length x) e))

  -- However the lines of a client and the acknowledgements interleave, the replies written, the
  -- messages that still wait and the acknowledgements that could not be written are together as many
  -- as the lines handled, if they were at the start.
  pub Reach-IsBalanced : {s t : Session} → Reach parse peer max s t → IsBalanced s → IsBalanced t
  Reach-IsBalanced here h = h
  Reach-IsBalanced (next r st) h = step-IsBalanced _ _ st (Reach-IsBalanced r h)

  -- Replies may overtake one another: if no message waits and a line is accepted and the next one
  -- refused, the refusal of the second can be on the socket before the `ok` of the first.
  pub reply_overtakes :
      (text text' : List ℕ) (bytes bytes' : ℕ) (s : Session) (m : Iec104Message) (reply : Reply)
      → s.waiting ≡ []
      → process_unix_socket_line parse peer max text bytes s.client ≡ (ok (some m), s.client)
      → process_unix_socket_line parse peer max text' bytes'
          (record s.client { forwarded = m ∷ s.client.forwarded })
        ≡ (
          ok none,
          record s.client {
            replies = reply ∷ s.client.replies;
            forwarded = m ∷ s.client.forwarded;
          },
        )
      → (t : Session) × Reach parse peer max s t
        × (t.client.replies ≡ ok_reply ∷ reply ∷ s.client.replies)
        × (t.waiting ≡ [])
  reply_overtakes text text' bytes bytes' s m reply w e e' = (
    record {
      client = record {
        replies = ok_reply ∷ reply ∷ s.client.replies;
        forwarded = m ∷ s.client.forwarded;
      };
      waiting = [];
      served = suc (suc s.served);
      lost = s.lost;
    },
    next (next (next here (forward text bytes s.client m e refl)) (refuse text' bytes' _ e' refl))
        (acknowledge m [] (rw w refl) refl),
    refl,
    refl,
  )
