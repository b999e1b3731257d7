-- ===== src/Accept.antt =====
-- The clients of the Unix socket together (source.rs, `UnixSocketSource::into_messages`,
-- `run_unix_socket_accept_loop` and `spawn_unix_client_task`): a task for each client, and one
-- channel of bounded capacity to the message loop. What a client's task forwards is that of Unix. A
-- message in the channel carries the number of its client, which the source's does not have, so
-- that the order can be stated.
pub mod Scripts
pub mod Clients
pub mod Order
pub mod Drain
use iec104bridge.Base.{
  Bool, true, ℕ, suc, ◌+◌, ◌≡◌, ◌<◌, Option, none, some, List, [], ◌∷◌, ◌++◌, length, ◌==◌,
  if◌then◌else◌,
}
use mathlib.Core.List.{reverse}
use iec104bridge.Message.{Iec104Message}
use iec104bridge.Unix.{Peer, PeerCred, Read, Client, handle_unix_client}

-- `UNIX_SOCKET_BACKLOG`
abbrev pub unix_socket_backlog : ℕ
unix_socket_backlog = 64

-- What the listener is set up with (`UnixSocketRuntime`).
pub record UnixSocketRuntime : Type 0 where
  pub allowed_uid : Option ℕ
  pub allowed_gid : Option ℕ
  pub max_line_bytes : ℕ

pub data Item : Type 0 where
  accept_failed : Item
  message : ℕ → Iec104Message → Item

-- A client's task: the messages that it forwards, in their order, and those that it has not yet sent;
-- and whether a reply to the client can be written now, or fails: not while the client leaves its
-- replies unread and its socket has no room for another.
pub record Sender : Type 0 where
  pub script : List Iec104Message
  pub todo : List Iec104Message
  pub takes : Bool

abbrev pub new_client : Client
new_client = record { replies = []; forwarded = [] }

-- The task of a client that connects with such credentials and sends such lines.
unfoldable pub spawn_unix_client_task :
    (List ℕ → Option Iec104Message)
    → UnixSocketRuntime
    → Peer
    → Option PeerCred
    → List Read
    → List Iec104Message
unfolding handle_unix_client
spawn_unix_client_task parse runtime peer cred reads = reverse (
    (handle_unix_client parse peer cred runtime.allowed_uid runtime.allowed_gid
      runtime.max_line_bytes reads new_client).1.forwarded)

-- The tasks by their number, the channel, oldest first, what the message loop has received, oldest
-- first, and the client whose message it acknowledges now: it waits until the reply is written.
pub record Hub : Type 0 where
  pub senders : ℕ → Sender
  pub accepted : ℕ
  pub queue : List Item
  pub received : List Item
  pub answering : Option ℕ

abbrev pub update : (ℕ → Sender) → ℕ → Sender → ℕ → Sender
update f i a j = if i == j then a else f j

abbrev pub no_hub : Hub
no_hub = record {
  senders = λ j. record { script = []; todo = []; takes = true };
  accepted = 0;
  queue = [];
  received = [];
  answering = none;
}

-- The client that waits for the acknowledgement of an item.
abbrev pub asked : Item → Option ℕ
asked accept_failed = none
asked (message i m) = some i

-- A step of a task that is running: a client's task, which may have to write the replies to lines
-- that are refused before, sends its next message, which waits for room in the channel; the message
-- loop receives, once the message before is acknowledged; or the reply of an acknowledgement is
-- written.
pub data Move (s t : Hub) : Type 0 where
  send :
      (i : ℕ) (m : Iec104Message) (rest : List Iec104Message)
      → i < s.accepted
      → (s.senders i).todo ≡ m ∷ rest
      → (s.senders i).takes ≡ true
      → length s.queue < unix_socket_backlog
      → t ≡ record s {
        senders = update s.senders i (record (s.senders i) { todo = rest });
        queue = s.queue ++ message i m ∷ [];
      }
      → Move s t
  receive :
      (i : Item) (rest : List Item)
      → s.answering ≡ none
      → s.queue ≡ i ∷ rest
      → t ≡ record s { queue = rest; received = s.received ++ i ∷ []; answering = asked i }
      → Move s t
  reply :
      (i : ℕ)
      → s.answering ≡ some i
      → (s.senders i).takes ≡ true
      → t ≡ record s { answering = none }
      → Move s t

-- Any step: a move; a client's socket has room for a reply again, or no more; or the accept loop
-- takes a client, or reports an error through the channel.
pub data Step (parse : List ℕ → Option Iec104Message) (runtime : UnixSocketRuntime) (s t : Hub)
    : Type 0 where
  move : Move s t → Step parse runtime s t
  turn :
      (i : ℕ) (b : Bool)
      → t ≡ record s { senders = update s.senders i (record (s.senders i) { takes = b }) }
      → Step parse runtime s t
  accept :
      (peer : Peer) (cred : Option PeerCred) (reads : List Read) (script : List Iec104Message)
      → script ≡ spawn_unix_client_task parse runtime peer cred reads
      → t ≡ record s {
        senders =
            update s.senders s.accepted (record { script = script; todo = script; takes = true });
        accepted = suc s.accepted;
      }
      → Step parse runtime s t
  send_accept_error :
      length s.queue < unix_socket_backlog
      → t ≡ record s { queue = s.queue ++ accept_failed ∷ [] }
      → Step parse runtime s t

pub data Reach (parse : List ℕ → Option Iec104Message) (runtime : UnixSocketRuntime) (s : Hub)
    : Hub → Type 0 where
  here : Reach parse runtime s s
  next : {t u : Hub} → Reach parse runtime s t → Step parse runtime t u → Reach parse runtime s u
