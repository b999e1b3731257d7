-- ===== src/Unix/Protocol.antt =====
-- What becomes of one line of a client: it is refused with a reply, or it is forwarded.
use mathlib.Core.Path.{subst}
use iec104bridge.Base.{
  ◌∷◌, ltb, ltb→lt, if◌then◌else◌, Bool-cases, ◌≤◌, ◌≢◌, ℕ, ◌≤◌, ◌<◌, ◌≡◌, ◌≢◌, refl, ◌⊎◌, inl, inr,
  false, Option, none, some, List, [], ◌∷◌, arith, Bool-cases,
}
use iec104bridge.Base.Result.{Result, ok, err}
use iec104bridge.Message.{Iec104Message}
use iec104bridge.Validation.{ValidationError, validate_message}
use iec104bridge.Validation.Rules.{IsAcceptable, validate_message_iff}
use iec104bridge.Unix.{
  validated, parsed, nonempty, parse_trimmed, keep_valid, trim_end, error_parse,
  process_unix_socket_line, validated, ◌>>=◌, Reply, error_parse, error_validation, Client,
  ClientError, io_error, Peer, trim_end, process_unix_socket_line,
}

-- Why a line is refused with a reply.
abbrev pub Refuses : (List ℕ → Option Iec104Message) → ℕ → List ℕ → ℕ → Reply → Type 0
Refuses parse max_line_bytes text bytes Reply.ok_reply = ⊥
Refuses parse max_line_bytes text bytes Reply.error_unauthorized = ⊥
Refuses parse max_line_bytes text bytes error_parse =
    (bytes ≤ max_line_bytes) × ((trim_end text ≡ []) ⊎ (parse (trim_end text) ≡ none))
Refuses parse max_line_bytes text bytes error_validation =
    (max_line_bytes < bytes)
    ⊎ ((m : Iec104Message) × (parse (trim_end text) ≡ some m) × (validate_message m ≢ ok tt))

-- Why it is forwarded.
abbrev pub Accepts : (List ℕ → Option Iec104Message) → ℕ → List ℕ → ℕ → Iec104Message → Type 0
Accepts parse max_line_bytes text bytes m =
    (bytes ≤ max_line_bytes)
    × (trim_end text ≢ [])
    × (parse (trim_end text) ≡ some m)
    × IsAcceptable m

-- The outcome of a line: a message and nothing written; one error reply and no message; or the one
-- reply could not be written.
abbrev pub Outcome :
    (List ℕ → Option Iec104Message)
    → Peer
    → ℕ
    → List ℕ
    → ℕ
    → Client
    → Result ClientError (Option Iec104Message)
    → Client
    → Type 0
Outcome parse peer max_line_bytes text bytes c (ok (some m)) c' =
    (c' ≡ c) × Accepts parse max_line_bytes text bytes m
Outcome parse peer max_line_bytes text bytes c (ok none) c' =
    (reply : Reply) × (c' ≡ record c { replies = reply ∷ c.replies })
    × Refuses parse max_line_bytes text bytes reply
Outcome parse peer max_line_bytes text bytes c (err e) c' =
    (e ≡ io_error) × (c' ≡ c) × (peer.writes c ≡ false)

module _ (parse : List ℕ → Option Iec104Message) (peer : Peer) (max_line_bytes : ℕ) (text : List ℕ)
    (bytes : ℕ) (c : Client) where
  abbrev HasOutcome : Result ClientError (Option Iec104Message) × Client → Type 0
  HasOutcome r = Outcome parse peer max_line_bytes text bytes c r.0 r.1

  validated-Outcome :
      (m : Iec104Message) (v : Result ValidationError (Unit {0}))
      → validate_message m ≡ v
      → bytes ≤ max_line_bytes
      → trim_end text ≢ []
      → parse (trim_end text) ≡ some m
      → HasOutcome
          ((validated peer v >>= λ valid c'. if valid then (ok (some m), c') else (ok none, c')) c)
  unfolding validated
  validated-Outcome m (ok u) e hb ht hp = (refl, (hb, ht, hp, (validate_message_iff m).0 e))
  validated-Outcome m (err e') e hb ht hp = elim (Bool-cases (peer.writes c)) [
    | inl w ↦ rw w (error_validation, refl, inr (m, hp, λ k. cc))
    | inr w ↦ rw w (refl, refl, w)
  ]

  parsed-Outcome :
      (o : Option Iec104Message)
      → parse (trim_end text) ≡ o
      → bytes ≤ max_line_bytes
      → trim_end text ≢ []
      → HasOutcome ((parsed peer o >>= λ message. keep_valid parse peer message) c)
  unfolding parsed keep_valid
  parsed-Outcome none e hb ht = elim (Bool-cases (peer.writes c)) [
    | inl w ↦ rw w (error_parse, refl, (hb, inr e))
    | inr w ↦ rw w (refl, refl, w)
  ]
  parsed-Outcome (some m) e hb ht = validated-Outcome m (validate_message m) refl hb ht e

  trimmed-Outcome :
      (t : List ℕ)
      → trim_end text ≡ t
      → bytes ≤ max_line_bytes
      → HasOutcome ((nonempty peer t >>= λ trimmed. parse_trimmed parse peer trimmed) c)
  unfolding nonempty parse_trimmed
  trimmed-Outcome [] e hb = elim (Bool-cases (peer.writes c)) [
    | inl w ↦ rw w (error_parse, refl, (hb, inl e))
    | inr w ↦ rw w (refl, refl, w)
  ]
  trimmed-Outcome (x ∷ xs) e hb =
      subst
        (λ t. HasOutcome ((parsed peer (parse t) >>= λ message. keep_valid parse peer message) c)) e
        (parsed-Outcome (parse (trim_end text)) refl hb (λ k. cc))

  -- Either a line is forwarded with nothing written, and then it is short enough, not empty, parsed
  -- and acceptable; or one error reply is written that says why it is not, and nothing is forwarded;
  -- or that reply could not be written, and nothing has changed.
  pub process_unix_socket_line-Outcome :
      let r = process_unix_socket_line parse peer max_line_bytes text bytes c in
      Outcome parse peer max_line_bytes text bytes c r.0 r.1
  unfolding process_unix_socket_line
  process_unix_socket_line-Outcome = elim (Bool-cases (ltb max_line_bytes bytes)) [
    | inl long ↦ elim (Bool-cases (peer.writes c)) [
      | inl w ↦ rw (long, w) (error_validation, refl, inl (ltb→lt _ _ long))
      | inr w ↦ rw (long, w) (refl, refl, w)
    ]
    | inr short ↦ rw short (trimmed-Outcome (trim_end text) refl (ground arith))
  ]
