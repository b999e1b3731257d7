-- ===== src/Accept/Scripts.antt =====
-- What a client's task forwards.
use iec104bridge.Base.{[], ◌∷◌, inl, inr, Option, none, some, List, All, All-reverse, Bool-cases}
use iec104bridge.Validation.Rules.{IsAcceptable}
use iec104bridge.Message.{Iec104Message}
use iec104bridge.Unix.{Peer, PeerCred, Read, handle_unix_client}
use iec104bridge.Unix.{line, read_failed}
use iec104bridge.Unix.Access.{
  IsAllowed, Gives, handle_unix_client_access, forward_unix_client_lines-All,
}
use iec104bridge.Base.{ℕ}
use iec104bridge.Accept.{UnixSocketRuntime, new_client, spawn_unix_client_task}

module _ (parse : List ℕ → Option Iec104Message) (runtime : UnixSocketRuntime) (peer : Peer) where
  -- What holds of the messages that the lines of an allowed client give.
  abbrev pub HoldsOf : (Iec104Message → Type 0) → Option PeerCred → List Read → Type 0
  HoldsOf P none reads = Unit
  HoldsOf P (some cred) reads =
      IsAllowed cred runtime.allowed_uid runtime.allowed_gid
      → All (λ r. (m : Iec104Message) → Gives parse runtime.max_line_bytes r m → P m) reads

  handle_unix_client-All :
      (P : Iec104Message → Type 0) (cred : Option PeerCred) (reads : List Read)
      → HoldsOf P cred reads
      → All P
          (handle_unix_client parse peer cred runtime.allowed_uid runtime.allowed_gid
            runtime.max_line_bytes reads new_client).1.forwarded
  unfolding handle_unix_client
  handle_unix_client-All P none reads f = tt
  handle_unix_client-All P (some cred) reads f =
      elim (handle_unix_client_access parse peer runtime.max_line_bytes cred runtime.allowed_uid
        runtime.allowed_gid reads new_client) [
          | inl (a, e) ↦ rw e (
              forward_unix_client_lines-All parse peer runtime.max_line_bytes P reads new_client
                (f a) tt)
          | inr (_, e) ↦
              rw e
                (elim (Bool-cases (peer.writes new_client)) [ inl w ↦ rw w tt | inr w ↦ rw w tt ])
        ]

  -- Whatever a client sends, what its task forwards are messages of its lines, and none if it is not
  -- allowed.
  pub spawn_unix_client_task-All :
      (P : Iec104Message → Type 0) (cred : Option PeerCred) (reads : List Read)
      → HoldsOf P cred reads
      → All P (spawn_unix_client_task parse runtime peer cred reads)
  unfolding spawn_unix_client_task
  spawn_unix_client_task-All P cred reads f =
      All-reverse P _ (handle_unix_client-All P cred reads f)

  Gives-IsAcceptable :
      (reads : List Read)
      → All
          (λ r. (m : Iec104Message) → Gives parse runtime.max_line_bytes r m → IsAcceptable m)
          reads
  Gives-IsAcceptable [] = tt
  Gives-IsAcceptable (line text bytes ∷ reads) = (λ m a. a.3, Gives-IsAcceptable reads)
  Gives-IsAcceptable (read_failed ∷ reads) = (λ m a. absurd a, Gives-IsAcceptable reads)

  pub spawn_unix_client_task-IsAcceptable :
      (cred : Option PeerCred) (reads : List Read)
      → All IsAcceptable (spawn_unix_client_task parse runtime peer cred reads)
  spawn_unix_client_task-IsAcceptable none reads =
      spawn_unix_client_task-All IsAcceptable none reads tt
  spawn_unix_client_task-IsAcceptable (some cred) reads =
      spawn_unix_client_task-All IsAcceptable (some cred) reads (λ _. Gives-IsAcceptable reads)
