-- ===== src/Listener/Permitted.antt =====
-- From the environment to the message loop: whose messages arrive, by the variables.
use mathlib.Core.Path.{subst}
use iec104bridge.Base.{ℕ, ◌≡◌, sym, Option, none, some, List, All, All-map, unwrap_or}
use iec104bridge.Base.Result.{ok}
use iec104bridge.Environment.{Text, codes, Key, Lookup}
use iec104bridge.Environment.Numeral.{IsNumeral}
use iec104bridge.Config.{Config, from_lookup, u32_max, u64_max}
use iec104bridge.Config.Described.{Numbers}
use iec104bridge.Config.Whole.{from_lookup_iff}
use iec104bridge.Message.{Iec104Message}
use iec104bridge.Socket.{FilePath, FileSystem}
use iec104bridge.Unix.Access.{Matches}
use iec104bridge.Accept.{UnixSocketRuntime, Hub, no_hub, Reach}
use iec104bridge.Accept.Clients.{of_client}
use iec104bridge.Listener.{UnixSocketSource, from_config, into_messages}
use iec104bridge.Listener.Traced.{Connected, IsOfReads, IsFrom, client_at, received-IsFrom}

-- The number is the one that the variable names, if it is set.
abbrev pub IsNamedBy : Option Text → ℕ → Type 0
IsNamedBy none n = Unit
IsNamedBy (some t) n = IsNumeral u32_max t n

Matches-IsNamedBy :
    (o : Option Text) (allowed : Option ℕ) (n : ℕ)
    → Numbers u32_max o allowed
    → Matches n allowed
    → IsNamedBy o n
Matches-IsNamedBy none allowed n d h = tt
Matches-IsNamedBy (some t) allowed n (k, v, e) h =
    subst (IsNumeral u32_max t) (sym (subst (Matches n) e h)) v

module _ (parse : List ℕ → Option Iec104Message) (get : Lookup) where
  -- The client has the user and the group that the variables name, and the message is that of one of
  -- its lines, within the limit that the variable names.
  abbrev pub IsPermitted : Option Connected → Iec104Message → Type 0
  IsPermitted none m = ⊥
  IsPermitted (some (none, reads)) m = ⊥
  IsPermitted (some (some cred, reads)) m =
      IsNamedBy (get Key.unix_socket_allowed_uid) cred.uid
      × IsNamedBy (get Key.unix_socket_allowed_gid) cred.gid
      × ((max_line_bytes : ℕ) × IsNumeral u64_max
            (unwrap_or (get Key.unix_socket_max_line_bytes) (codes "65536")) max_line_bytes
          × IsOfReads parse max_line_bytes reads m)

  IsFrom-IsPermitted :
      (config : Config) (client : Option Connected) (m : Iec104Message)
      → from_lookup get ≡ ok config
      → IsFrom parse config.unix_socket_allowed_uid config.unix_socket_allowed_gid
          config.unix_socket_max_line_bytes client m
      → IsPermitted client m
  IsFrom-IsPermitted config none m e h = h
  IsFrom-IsPermitted config (some (none, reads)) m e h = h
  IsFrom-IsPermitted config (some (some cred, reads)) m e ((u, g), l) =
      let (_, _, (_, uid, gid, max, _), _, _) = (from_lookup_iff get config).0 e in
      (
        Matches-IsNamedBy _ _ cred.uid uid u,
        Matches-IsNamedBy _ _ cred.gid gid g,
        (config.unix_socket_max_line_bytes, max, l),
      )

  -- Once the source of the socket is built on what an environment configures and its messages are
  -- taken, however clients connect and their tasks interleave: every message that the message loop
  -- has received from a client is that of one of its lines, acceptable and of no more bytes than
  -- the variable of the limit says, 65536 if it is not set; and that client connected with the user
  -- and the group that the variables of these name, where they are set.
  pub received-IsPermitted :
      (config : Config) (fs : FileSystem) (path_of : Text → FilePath) (st : fs.State)
      (source : UnixSocketSource) (runtime : UnixSocketRuntime) {s : Hub}
      (r : Reach parse runtime no_hub s) (j : ℕ)
      → from_lookup get ≡ ok config
      → (from_config fs path_of config st).0 ≡ ok source
      → into_messages source ≡ some runtime
      → All (IsPermitted (client_at parse runtime r j)) (of_client j s.received)
  received-IsPermitted config fs path_of st source runtime r j e k l =
      All-map _ (λ m. IsFrom-IsPermitted config (client_at parse runtime r j) m e)
        (received-IsFrom fs path_of config parse st source runtime r j k l)
