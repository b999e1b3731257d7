-- ===== src/Listener/Traced.antt =====
-- Where the messages come from that the message loop receives from the socket.
use iec104bridge.Base.{
  sym, ℕ, ◌≡◌, ◌⊎◌, inl, inr, refl, ap, Option, none, some, List, [], ◌∷◌, All, All-map,
  All-append_left, Bool-cases, ◌==◌, ==_iff, if◌then◌else◌,
}
use mathlib.Core.Path.{subst}
use iec104bridge.Base.Result.{ok, Result, err}
use iec104bridge.Environment.{Text}
use iec104bridge.Config.{Config}
use iec104bridge.Message.{Iec104Message}
use iec104bridge.Socket.{FilePath, FileSystem, SocketError, bind}
use iec104bridge.Unix.{PeerCred, Read}
use iec104bridge.Unix.Access.{IsAllowed, Gives}
use iec104bridge.Accept.{
  UnixSocketRuntime, Hub, no_hub, Sender, Move, send, receive, reply, move, turn, accept,
  send_accept_error, Reach, here, next, spawn_unix_client_task,
}
use iec104bridge.Accept.Scripts.{spawn_unix_client_task-All}
use iec104bridge.Accept.Clients.{of_client}
use iec104bridge.Accept.Order.{Reach-order}
use iec104bridge.Listener.{UnixSocketSource, from_config, into_messages, source_at}

-- A client as it connected: its credentials, if they could be had, and what is read from it.
abbrev pub Connected : Type 0
Connected = Option PeerCred × List Read

module _ (parse : List ℕ → Option Iec104Message) where
  abbrev pub IsOfReads : ℕ → List Read → Iec104Message → Type 0
  IsOfReads max_line_bytes [] m = ⊥
  IsOfReads max_line_bytes (read ∷ reads) m =
      Gives parse max_line_bytes read m ⊎ IsOfReads max_line_bytes reads m

  -- The client is one that the settings allow, and the message is that of one of its lines.
  abbrev pub IsFrom : Option ℕ → Option ℕ → ℕ → Option Connected → Iec104Message → Type 0
  IsFrom allowed_uid allowed_gid max_line_bytes none m = ⊥
  IsFrom allowed_uid allowed_gid max_line_bytes (some (none, reads)) m = ⊥
  IsFrom allowed_uid allowed_gid max_line_bytes (some (some cred, reads)) m =
      IsAllowed cred allowed_uid allowed_gid × IsOfReads max_line_bytes reads m

  IsOfReads-All :
      (max_line_bytes : ℕ) (reads : List Read)
      → All
          (λ r.
            (m : Iec104Message) → Gives parse max_line_bytes r m → IsOfReads max_line_bytes reads m)
          reads
  IsOfReads-All max_line_bytes [] = tt
  IsOfReads-All max_line_bytes (read ∷ reads) =
      (λ m g. inl g, All-map reads (λ r f m g. inr (f m g)) (IsOfReads-All max_line_bytes reads))

  module _ (runtime : UnixSocketRuntime) where
    -- The client with that number in a run.
    abbrev pub client_at : {s t : Hub} → Reach parse runtime s t → ℕ → Option Connected
    client_at here j = none
    client_at (next r (move mv)) j = client_at r j
    client_at (next r (turn i b k)) j = client_at r j
    client_at (next {t} r (accept peer cred reads script e k)) j =
        if t.accepted == j then some (cred, reads) else client_at r j
    client_at (next r (send_accept_error room k)) j = client_at r j

    abbrev IsTracedTo : Option Connected → Sender → Type 0
    IsTracedTo client sender =
        All (IsFrom runtime.allowed_uid runtime.allowed_gid runtime.max_line_bytes client)
          sender.script

    spawned-IsFrom :
        (peer : _) (cred : Option PeerCred) (reads : List Read)
        → All
            (IsFrom runtime.allowed_uid runtime.allowed_gid runtime.max_line_bytes
              (some (cred, reads)))
            (spawn_unix_client_task parse runtime peer cred reads)
    spawned-IsFrom peer none reads = spawn_unix_client_task-All parse runtime peer _ none reads tt
    spawned-IsFrom peer (some cred) reads =
        spawn_unix_client_task-All parse runtime peer _ (some cred) reads
          (λ a. All-map reads (λ r f m g. (a, f m g)) (IsOfReads-All runtime.max_line_bytes reads))

    -- A move leaves every script.
    Move-script : (s t : Hub) → Move s t → (j : ℕ) → (t.senders j).script ≡ (s.senders j).script
    Move-script s t (send i m rest lt e takes room k) j = elim (Bool-cases (i == j)) [
      | inl y ↦ rw (k, y) (ap (λ n. (s.senders n).script) ((==_iff i j).0 y))
      | inr y ↦ rw (k, y) refl
    ]
    Move-script s t (receive i rest idle e k) j = rw k refl
    Move-script s t (reply i a takes k) j = rw k refl

    Reach-IsTracedTo :
        {s : Hub} (r : Reach parse runtime no_hub s) (j : ℕ)
        → IsTracedTo (client_at r j) (s.senders j)
    Reach-IsTracedTo here j = tt
    Reach-IsTracedTo (next r (move mv)) j = rw (Move-script _ _ mv j) (Reach-IsTracedTo r j)
    Reach-IsTracedTo (next {t} r (turn i b k)) j = elim (Bool-cases (i == j)) [
      | inl y ↦
          rw (k, y)
            (subst (λ n. IsTracedTo (client_at r j) (t.senders n)) (sym ((==_iff i j).0 y))
              (Reach-IsTracedTo r j))
      | inr y ↦ rw (k, y) (Reach-IsTracedTo r j)
    ]
    Reach-IsTracedTo (next {t} r (accept peer cred reads script e k)) j =
        elim (Bool-cases (t.accepted == j)) [
          | inl y ↦ rw (k, y, e) (spawned-IsFrom peer cred reads)
          | inr y ↦ rw (k, y) (Reach-IsTracedTo r j)
        ]
    Reach-IsTracedTo (next r (send_accept_error room k)) j = rw k (Reach-IsTracedTo r j)

-- The accept loop enforces what is configured.
abbrev IsConfigured : Config → UnixSocketRuntime → Type 0
IsConfigured config runtime =
    (config.unix_socket_allowed_uid ≡ runtime.allowed_uid)
    × (config.unix_socket_allowed_gid ≡ runtime.allowed_gid)
    × (config.unix_socket_max_line_bytes ≡ runtime.max_line_bytes)

module _ (fs : FileSystem) (path_of : Text → FilePath) (config : Config) where
  from_config-IsConfigured :
      (st : fs.State) (source : UnixSocketSource) (runtime : UnixSocketRuntime)
      → (from_config fs path_of config st).0 ≡ ok source
      → into_messages source ≡ some runtime
      → IsConfigured config runtime
  unfolding from_config into_messages source_at
  from_config-IsConfigured st source runtime e k =
      go (bind fs (path_of config.unix_socket_path) st) e
    where
      go :
          (r : Result SocketError (Unit {0}) × fs.State)
          → (source_at fs path_of
              (path_of config.unix_socket_path)
              config.unix_socket_allowed_uid
              config.unix_socket_allowed_gid
              config.unix_socket_max_line_bytes
              r).0
            ≡ ok source
          → IsConfigured config runtime
      go (ok u, s) e = (cc (e, k), cc (e, k), cc (e, k))
      go (err x, s) e = absurd (cc e)

  -- Once the source of a configuration is built and its messages are taken, however clients connect
  -- and their tasks interleave: every message that the message loop has received from a client is
  -- that of one of its lines, of no more bytes than configured and acceptable, and that client had
  -- the configured user and group, where these are set, by the credentials it connected with.
  pub received-IsFrom :
      (parse : List ℕ → Option Iec104Message) (st : fs.State) (source : UnixSocketSource)
      (runtime : UnixSocketRuntime) {s : Hub} (r : Reach parse runtime no_hub s) (j : ℕ)
      → (from_config fs path_of config st).0 ≡ ok source
      → into_messages source ≡ some runtime
      → All
          (IsFrom parse config.unix_socket_allowed_uid config.unix_socket_allowed_gid
            config.unix_socket_max_line_bytes
            (client_at parse runtime r j))
          (of_client j s.received)
  received-IsFrom parse st source runtime {s} r j e k =
      let (uid, gid, max) = from_config-IsConfigured st source runtime e k in
      let (_, _, order) = Reach-order parse runtime r j in
      rw (uid, gid, max)
        (All-append_left _ (of_client j s.received) _
          (subst (All _) order (Reach-IsTracedTo parse runtime r j)))
