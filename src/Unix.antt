-- ===== src/Unix.antt =====
-- The clients of the Unix socket (source.rs, `handle_unix_client` and what it calls). A text is its
-- list of characters; the JSON parser, which serde derives, is a parameter. `Peer` says which writes
-- to the socket succeed and whether the channel to the message loop is open.
pub mod Protocol
pub mod Access
pub mod Replies
use iec104bridge.Base.{
  ℕ, Bool, true, false, ◌||◌, not, Option, none, some, List, [], ◌∷◌, ltb, ◌==◌, if◌then◌else◌,
}
use iec104bridge.Base.Result.{Result, ok, err}
use iec104bridge.Message.{Iec104Message}
use iec104bridge.Validation.{ValidationError, validate_message}

pub data Reply : Type 0 where
  ok_reply error_parse error_validation error_unauthorized : Reply

-- A client's connection: the replies written and the messages forwarded, the latest first.
pub record Client : Type 0 where
  pub replies : List Reply
  pub forwarded : List Iec104Message

pub data ClientError : Type 0 where
  io_error no_credentials unauthorized : ClientError

pub record Peer : Type 0 where
  pub writes : Client → Bool
  pub is_open : Client → Bool

pub record PeerCred : Type 0 where
  pub uid : ℕ
  pub gid : ℕ
  pub pid : ℕ

pub data AuthorizationFailure : Type 0 where
  wrong_uid wrong_gid : ℕ → AuthorizationFailure

-- What a read of the socket gives; the end of the list is the end of the stream.
pub data Read : Type 0 where
  line : List ℕ → ℕ → Read
  read_failed : Read

-- An action of the client's task; what was written stays written where it fails.
abbrev pub Task : Type 0 → Type 0
Task A = Client → Result ClientError A × Client

abbrev pub continue : {A B : Type 0} → Result ClientError A → (A → Task B) → Task B
continue (ok a) f c = f a c
continue (err e) f c = (err e, c)

infixl 5 ◌>>=◌ ◌>>◌
abbrev pub ◌>>=◌ : {A B : Type 0} → Task A → (A → Task B) → Task B
◌>>=◌ m f c = let (r, c') = m c in continue r f c'

abbrev pub ◌>>◌ : {A B : Type 0} → Task A → Task B → Task B
m >> k = m >>= λ _. k

abbrev pub pure : {A : Type 0} → A → Task A
pure a c = (ok a, c)

authorization_failure_for_uid : PeerCred → Option ℕ → Option AuthorizationFailure
authorization_failure_for_uid peer none = none
authorization_failure_for_uid peer (some expected) =
    if not (peer.uid == expected) then some (wrong_uid expected) else none

authorization_failure_for_gid : PeerCred → Option ℕ → Option AuthorizationFailure
authorization_failure_for_gid peer none = none
authorization_failure_for_gid peer (some expected) =
    if not (peer.gid == expected) then some (wrong_gid expected) else none

unfoldable pub check_peer_authorization :
    PeerCred → Option ℕ → Option ℕ → Option AuthorizationFailure
unfolding authorization_failure_for_uid authorization_failure_for_gid
check_peer_authorization peer allowed_uid allowed_gid =
    elim (authorization_failure_for_uid peer allowed_uid) [
      | some failure ↦ some failure
      | none ↦ authorization_failure_for_gid peer allowed_gid
    ]

is_eol : ℕ → Bool
is_eol c = c == b'\r' || c == b'\n'

prepend : ℕ → List ℕ → List ℕ
unfolding is_eol
prepend c [] = if is_eol c then [] else c ∷ []
prepend c (d ∷ ds) = c ∷ d ∷ ds

-- `trim_end_matches(['\r', '\n'])`
unfoldable pub trim_end : List ℕ → List ℕ
unfolding prepend
trim_end [] = []
trim_end (c ∷ cs) = prepend c (trim_end cs)

payload_exceeds_limit : ℕ → ℕ → Bool
payload_exceeds_limit bytes max_line_bytes = ltb max_line_bytes bytes

module _ (peer : Peer) where
  write_socket_reply : Reply → Task (Unit {0})
  write_socket_reply r c =
      if peer.writes c then (ok tt, record c { replies = r ∷ c.replies }) else (err io_error, c)

  enforce_line_size_limit : ℕ → ℕ → Task Bool
  unfolding payload_exceeds_limit write_socket_reply
  enforce_line_size_limit bytes max_line_bytes c =
      if payload_exceeds_limit bytes max_line_bytes
      then (do write_socket_reply error_validation; pure false) c
      else pure true c

  nonempty : List ℕ → Task (Option (List ℕ))
  unfolding write_socket_reply
  nonempty [] = do write_socket_reply error_parse; pure none
  nonempty (c ∷ cs) = pure (some (c ∷ cs))

  trim_unix_socket_line : List ℕ → Task (Option (List ℕ))
  unfolding nonempty
  trim_unix_socket_line text = nonempty (trim_end text)

  parsed : Option Iec104Message → Task (Option Iec104Message)
  unfolding write_socket_reply
  parsed none = do write_socket_reply error_parse; pure none
  parsed (some message) = pure (some message)

  validated : Result ValidationError (Unit {0}) → Task Bool
  unfolding write_socket_reply
  validated (err e) = do write_socket_reply error_validation; pure false
  validated (ok _) = pure true

  validate_unix_socket_message : Iec104Message → Task Bool
  unfolding validated
  validate_unix_socket_message message = validated (validate_message message)

module _ (parse : List ℕ → Option Iec104Message) (peer : Peer) where
  parse_unix_socket_message : List ℕ → Task (Option Iec104Message)
  unfolding parsed
  parse_unix_socket_message trimmed = parsed peer (parse trimmed)

  keep_valid : Option Iec104Message → Task (Option Iec104Message)
  unfolding validate_unix_socket_message
  keep_valid none = pure none
  keep_valid (some message) = do
    valid ← validate_unix_socket_message peer message
    λ c. if valid then (ok (some message), c) else (ok none, c)

  parse_trimmed : Option (List ℕ) → Task (Option Iec104Message)
  unfolding keep_valid parse_unix_socket_message
  parse_trimmed none = pure none
  parse_trimmed (some trimmed) = do message ← parse_unix_socket_message trimmed; keep_valid message

  process_fitting : Bool → List ℕ → Task (Option Iec104Message)
  unfolding parse_trimmed trim_unix_socket_line
  process_fitting false text = pure none
  process_fitting true text = do trimmed ← trim_unix_socket_line peer text; parse_trimmed trimmed

  unfoldable pub process_unix_socket_line : ℕ → List ℕ → ℕ → Task (Option Iec104Message)
  unfolding process_fitting enforce_line_size_limit
  process_unix_socket_line max_line_bytes text bytes = do
    fits ← enforce_line_size_limit peer bytes max_line_bytes
    process_fitting fits text

  -- A message goes to the message loop; where that is gone the client is left.
  after_line : Result ClientError (Option Iec104Message) → Task (Unit {0}) → Task (Unit {0})
  after_line (err e) rest c = (err e, c)
  after_line (ok none) rest c = rest c
  after_line (ok (some message)) rest c =
      if peer.is_open c then rest (record c { forwarded = message ∷ c.forwarded }) else (ok tt, c)

  unfoldable pub forward_unix_client_lines : ℕ → List Read → Task (Unit {0})
  unfolding after_line
  forward_unix_client_lines max_line_bytes [] c = (ok tt, c)
  forward_unix_client_lines max_line_bytes (read_failed ∷ reads) c = (err io_error, c)
  forward_unix_client_lines max_line_bytes (line text bytes ∷ reads) c =
      let (r, c') = process_unix_socket_line max_line_bytes text bytes c in
      after_line r (forward_unix_client_lines max_line_bytes reads) c'

  authorize_unix_client : Option AuthorizationFailure → Task (Unit {0})
  unfolding write_socket_reply
  authorize_unix_client none = pure tt
  authorize_unix_client (some failure) = do
    write_socket_reply peer error_unauthorized
    λ c. (err unauthorized, c)

  unfoldable pub handle_unix_client :
      Option PeerCred → Option ℕ → Option ℕ → ℕ → List Read → Task (Unit {0})
  unfolding authorize_unix_client check_peer_authorization
  handle_unix_client none allowed_uid allowed_gid max_line_bytes reads c = (err no_credentials, c)
  handle_unix_client (some cred) allowed_uid allowed_gid max_line_bytes reads c =
      (do
        authorize_unix_client (check_peer_authorization cred allowed_uid allowed_gid)
        forward_unix_client_lines max_line_bytes reads)
        c
