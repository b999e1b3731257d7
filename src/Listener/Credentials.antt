-- ===== src/Listener/Credentials.antt =====
-- Who is served, by what the kernel says of the other end of the socket.
use iec104bridge.Base.{
  ℕ, zero, suc, ◌≡◌, ◌≢◌, ◌⊎◌, inl, inr, refl, Option, List, ◌∷◌, if◌then◌else◌,
}
use iec104bridge.Base.Int.{ℤ, pos, negsuc}
use iec104bridge.Base.Result.{Result, err}
use iec104bridge.Message.{Iec104Message}
use iec104bridge.Unix.{
  error_unauthorized, Client, ClientError, io_error, no_credentials, unauthorized, Peer, Read,
  forward_unix_client_lines, handle_unix_client,
}
use iec104bridge.Unix.Access.{Matches, handle_unix_client_access}
use iec104bridge.Listener.{Ucred, as_u32, default_peer_cred_lookup}

-- The kernel's answer has the user and the group that are set.
abbrev pub IsAdmittedBy : Ucred → Option ℕ → Option ℕ → Type 0
IsAdmittedBy raw allowed_uid allowed_gid = Matches raw.uid allowed_uid × Matches raw.gid allowed_gid

module _ (parse : List ℕ → Option Iec104Message) (peer : Peer) (max_line_bytes : ℕ)
    (allowed_uid allowed_gid : Option ℕ) where
  -- What the task of a client comes to: it is served, turned away, or left.
  abbrev pub Admission :
      ℤ → Ucred → List Read → Client → Result ClientError (Unit {0}) × Client → Type 0
  Admission rc raw reads c r =
      ((rc ≡ pos 0)
        × IsAdmittedBy raw allowed_uid allowed_gid
        × (r ≡ forward_unix_client_lines parse peer max_line_bytes reads c))
      ⊎ ((rc ≡ pos 0)
          × (¬ IsAdmittedBy raw allowed_uid allowed_gid)
          × (r ≡ (
              if peer.writes c
              then (err unauthorized, record c { replies = error_unauthorized ∷ c.replies })
              else (err io_error, c))))
      ⊎ ((rc ≢ pos 0) × (r ≡ (err no_credentials, c)))

  -- A client whose user and group, as `getsockopt` reports them, are those that are set, is served
  -- line by line. Where they are not, it gets the reply `error unauthorized`, if that can be
  -- written, and an error; where `getsockopt` fails, an error and no reply. In both cases none of
  -- its lines is forwarded.
  pub handle_unix_client-credentials :
      (rc : ℤ) (raw : Ucred) (reads : List Read) (c : Client)
      → Admission rc raw reads c (
          handle_unix_client parse peer
            (default_peer_cred_lookup rc raw)
            allowed_uid
            allowed_gid
            max_line_bytes
            reads
            c)
  unfolding default_peer_cred_lookup handle_unix_client
  handle_unix_client-credentials (pos zero) raw reads c =
      elim (handle_unix_client_access parse peer max_line_bytes
        (record { uid = raw.uid; gid = raw.gid; pid = as_u32 raw.pid }) allowed_uid allowed_gid
        reads c) [ inl (a, e) ↦ inl (refl, a, e) | inr (a, e) ↦ inr (inl (refl, a, e)) ]
  handle_unix_client-credentials (pos (suc n)) raw reads c = inr (inr (λ e. cc e, refl))
  handle_unix_client-credentials (negsuc n) raw reads c = inr (inr (λ e. cc e, refl))
