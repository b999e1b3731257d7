-- ===== src/Listener.antt =====
-- The source of the Unix socket (source.rs, `UnixSocketSource` and `UnixSocketRuntime`): what it
-- takes from the configuration, and what its accept loop takes from it; and the credentials of a
-- client as the kernel reports them.
pub mod Traced
pub mod Credentials
pub mod Permitted
use iec104bridge.Base.{
  if◌then◌else◌, zero, ℕ, ◌-◌, ◌%◌, ◌^◌, Bool, true, false, Option, none, some, List,
}
use iec104bridge.Base.Int.{ℤ, pos, negsuc}
use iec104bridge.Base.Result.{Result, ok, err}
use iec104bridge.Environment.{Text}
use iec104bridge.Config.{Config}
use iec104bridge.Socket.{FilePath, FileSystem, SocketError, bind}
use iec104bridge.Unix.{PeerCred}
use iec104bridge.Accept.{UnixSocketRuntime}

-- `listener` is whether the listener has not been taken yet.
pub record UnixSocketSource : Type 0 where
  pub listener : Bool
  pub socket_path : FilePath
  pub allowed_uid : Option ℕ
  pub allowed_gid : Option ℕ
  pub max_line_bytes : ℕ

-- `PathBuf::from` is the parameter `path_of`.
module _ (fs : FileSystem) (path_of : Text → FilePath) where
  pub source_at :
      FilePath
      → Option ℕ
      → Option ℕ
      → ℕ
      → Result SocketError (Unit {0}) × fs.State
      → Result SocketError UnixSocketSource × fs.State
  source_at path allowed_uid allowed_gid max_line_bytes (err e, s) = (err e, s)
  source_at path allowed_uid allowed_gid max_line_bytes (ok _, s) = (
    ok (record {
      listener = true;
      socket_path = path;
      allowed_uid = allowed_uid;
      allowed_gid = allowed_gid;
      max_line_bytes = max_line_bytes;
    }),
    s,
  )

  unfoldable pub from_config : Config → fs.State → Result SocketError UnixSocketSource × fs.State
  unfolding source_at
  from_config config s =
      source_at (path_of config.unix_socket_path) config.unix_socket_allowed_uid
        config.unix_socket_allowed_gid config.unix_socket_max_line_bytes
        (bind fs (path_of config.unix_socket_path) s)

abbrev pub from_source : UnixSocketSource → UnixSocketRuntime
from_source source = record {
  allowed_uid = source.allowed_uid;
  allowed_gid = source.allowed_gid;
  max_line_bytes = source.max_line_bytes;
}

-- What the accept loop is started with; `none` is the panic where the listener was taken before.
unfoldable pub into_messages : UnixSocketSource → Option UnixSocketRuntime
into_messages source = if source.listener then some (from_source source) else none

-- `libc::ucred`, and what `getsockopt` returns with it.
pub record Ucred : Type 0 where
  pub pid : ℤ
  pub uid : ℕ
  pub gid : ℕ

-- `i32 as u32`
abbrev as_u32 : ℤ → ℕ
as_u32 (pos n) = n % 2 ^ 32
as_u32 (negsuc n) = 2 ^ 32 - 1 - n % 2 ^ 32

unfoldable pub default_peer_cred_lookup : ℤ → Ucred → Option PeerCred
default_peer_cred_lookup (pos zero) raw =
    some (record { uid = raw.uid; gid = raw.gid; pid = as_u32 raw.pid })
default_peer_cred_lookup rc raw = none
