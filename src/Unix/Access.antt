-- ===== src/Unix/Access.antt =====
-- Who may send, and what reaches the message loop.
use iec104bridge.Base.{
  ℕ, ◌≡◌, ◌⊎◌, inl, inr, Option, none, some, List, [], ◌∷◌, arith, All, Bool-cases, if◌then◌else◌,
}
use iec104bridge.Base.Result.{Result, ok, err}
use iec104bridge.Message.{Iec104Message}
use iec104bridge.Unix.{
  error_unauthorized, Client, ClientError, io_error, unauthorized, Peer, PeerCred, Read, line,
  read_failed, after_line, forward_unix_client_lines, handle_unix_client,
}
use iec104bridge.Unix.Protocol.{Accepts, Outcome, process_unix_socket_line-Outcome}

-- A setting that is absent allows everyone.
abbrev pub Matches : ℕ → Option ℕ → Type 0
Matches n none = Unit
Matches n (some expected) = n ≡ expected

abbrev pub IsAllowed : PeerCred → Option ℕ → Option ℕ → Type 0
IsAllowed cred allowed_uid allowed_gid = Matches cred.uid allowed_uid × Matches cred.gid allowed_gid

-- A read that is the line of a message to forward.
abbrev pub Gives : (List ℕ → Option Iec104Message) → ℕ → Read → Iec104Message → Type 0
Gives parse max_line_bytes (line text bytes) m = Accepts parse max_line_bytes text bytes m
Gives parse max_line_bytes read_failed m = ⊥

module _ (parse : List ℕ → Option Iec104Message) (peer : Peer) (max_line_bytes : ℕ) where
  -- A client whose user and group are allowed is served line by line. Any other gets the reply
  -- `error unauthorized`, if it can be written, and an error; none of its lines is forwarded.
  pub handle_unix_client_access :
      (cred : PeerCred) (allowed_uid allowed_gid : Option ℕ) (reads : List Read) (c : Client)
      → let r =
          handle_unix_client parse peer
            (some cred)
            allowed_uid
            allowed_gid
            max_line_bytes
            reads
            c in
        (IsAllowed cred allowed_uid allowed_gid
          × (r ≡ forward_unix_client_lines parse peer max_line_bytes reads c))
        ⊎ ((¬ IsAllowed cred allowed_uid allowed_gid)
            × (r ≡ (
                if peer.writes c
                then (err unauthorized, record c { replies = error_unauthorized ∷ c.replies })
                else (err io_error, c))))
  unfolding handle_unix_client
  handle_unix_client_access cred uid gid reads c = ground arith

  after_line-All :
      (P : Iec104Message → Type 0) (text : List ℕ) (bytes : ℕ) (c c' : Client)
      (r : Result ClientError (Option Iec104Message))
      (rest : Client → Result ClientError (Unit {0}) × Client)
      → ((m : Iec104Message) → Accepts parse max_line_bytes text bytes m → P m)
      → Outcome parse peer max_line_bytes text bytes c r c'
      → All P c.forwarded
      → ((d : Client) → All P d.forwarded → All P (rest d).1.forwarded)
      → All P (after_line parse peer r rest c').1.forwarded
  unfolding after_line
  after_line-All P text bytes c c' (err e) rest f o h ih = rw o.1 h
  after_line-All P text bytes c c' (ok none) rest f (reply, e, _) h ih = ih c' (rw e h)
  after_line-All P text bytes c c' (ok (some m)) rest f (e, a) h ih =
      elim (Bool-cases (peer.is_open c')) [
        | inl w ↦ rw w (ih (record c' { forwarded = m ∷ c'.forwarded }) (f m a, rw e h))
        | inr w ↦ rw w (rw e h)
      ]

  -- Every message that is forwarded is that of a line: what holds of those holds of it.
  pub forward_unix_client_lines-All :
      (P : Iec104Message → Type 0) (reads : List Read) (c : Client)
      → All (λ r. (m : Iec104Message) → Gives parse max_line_bytes r m → P m) reads
      → All P c.forwarded
      → All P (forward_unix_client_lines parse peer max_line_bytes reads c).1.forwarded
  unfolding forward_unix_client_lines
  forward_unix_client_lines-All P [] c f h = h
  forward_unix_client_lines-All P (read_failed ∷ reads) c f h = h
  forward_unix_client_lines-All P (line text bytes ∷ reads) c (g, f) h =
      after_line-All P text bytes c _ _ (forward_unix_client_lines parse peer max_line_bytes reads)
        g (process_unix_socket_line-Outcome parse peer max_line_bytes text bytes c) h
        (λ d. forward_unix_client_lines-All P reads d f)
