-- ===== src/Config.antt =====
-- The configuration (config.rs): the settings, and how they are read from the environment, part by
-- part in the order of the code, with the first error that is met. Paths and names are texts; a
-- duration is a number of nanoseconds.
pub mod Described
pub mod Reading
pub mod Loading
pub mod Serving
pub mod Securing
pub mod Whole
use iec104bridge.Base.{
  ℕ, ◌*◌, Bool, true, false, Option, none, some, List, [], ◌∷◌, ◌==◌, if◌then◌else◌, unwrap_or,
}
use iec104bridge.Base.Result.{Result, ok, err, ◌>>=◌, ◌>>◌, bail_if}
use iec104bridge.Environment.{
  Text, codes, Key, Lookup, ConfigError, unknown_transport, must_be_positive, same, is_truthy,
  require_present, required, parse_optional, parse_with_default, parse_bool_with_default,
  Option-map,
}

pub data InputTransport : Type 0 where
  nats unix_socket : InputTransport

-- The greatest numbers of 16, 32 and 64 bits.
abbrev pub u16_max : ℕ
u16_max = 65_535

abbrev pub u32_max : ℕ
u32_max = 4_294_967_295

abbrev pub u64_max : ℕ
u64_max = 18_446_744_073_709_551_615

pub record Config : Type 0 where
  pub input_transport : InputTransport
  pub nats_url : Text
  pub nats_stream : Text
  pub nats_consumer : Text
  pub nats_subject_filter : Option Text
  pub nats_credentials_path : Option Text
  pub unix_socket_path : Text
  pub unix_socket_allowed_uid : Option ℕ
  pub unix_socket_allowed_gid : Option ℕ
  pub unix_socket_max_line_bytes : ℕ
  pub iec104_bind_addr : Text
  pub iec104_port : ℕ
  pub iec104_default_ca : ℕ
  pub iec104_gi_only : Bool
  pub iec104_timestamps : Bool
  pub iec104_max_age : Option ℕ
  pub iec104_queue_size : ℕ
  pub metrics_port : ℕ
  pub tls_enabled : Bool
  pub tls_cert_path : Option Text
  pub tls_key_path : Option Text
  pub tls_ca_cert_path : Option Text
  pub tls_port : ℕ

abbrev pub NatsConfigParts : Type 0
NatsConfigParts = Text × Text × Text × Option Text × Option Text

abbrev pub UnixSocketConfigParts : Type 0
UnixSocketConfigParts = Text × Option ℕ × Option ℕ × ℕ

abbrev pub ServerConfigParts : Type 0
ServerConfigParts = Text × ℕ × ℕ × Bool × ℕ × ℕ × Bool × Option ℕ

abbrev pub TlsConfigParts : Type 0
TlsConfigParts = Bool × Option Text × Option Text × Option Text × ℕ

pub record ConfigParts : Type 0 where
  pub transport : InputTransport
  pub nats_parts : NatsConfigParts
  pub unix_socket_parts : UnixSocketConfigParts
  pub server : ServerConfigParts
  pub tls : TlsConfigParts

parse_transport : Text → Result ConfigError InputTransport
unfolding same
parse_transport value =
    if same value (codes "nats")
    then ok nats
    else if same value (codes "unix_socket")
    then ok unix_socket
    else err unknown_transport

is_zero : Option ℕ → Bool
is_zero none = false
is_zero (some n) = n == 0

-- `Duration::from_secs`
abbrev pub from_secs : ℕ → ℕ
from_secs n = n * 1_000_000_000

require_all : List (Option Text × Key) → Result ConfigError (Unit {0})
unfolding require_present
require_all [] = ok tt
require_all ((value, key) ∷ rest) = do require_present value key; require_all rest

validate_tls_paths : Bool → Option Text → Option Text → Option Text → Result ConfigError (Unit {0})
unfolding require_all
validate_tls_paths false cert key ca = ok tt
validate_tls_paths true cert key ca =
    require_all
      ((cert, Key.tls_cert_path) ∷ (key, Key.tls_key_path) ∷ (ca, Key.tls_ca_cert_path) ∷ [])

module _ (get : Lookup) where
  pub load_input_transport : Result ConfigError InputTransport
  unfolding parse_transport
  load_input_transport = parse_transport (unwrap_or (get Key.input_transport) (codes "nats"))

  load_nats_consumer_parts : InputTransport → Result ConfigError (Text × Text)
  unfolding required
  load_nats_consumer_parts nats = do
    stream ← required get Key.nats_stream
    consumer ← required get Key.nats_consumer
    ok (stream, consumer)
  load_nats_consumer_parts unix_socket = ok ([], [])

  pub load_nats_config : InputTransport → Result ConfigError NatsConfigParts
  unfolding load_nats_consumer_parts
  load_nats_config transport = do
    (stream, consumer) ← load_nats_consumer_parts transport
    ok (
      unwrap_or (get Key.nats_url) (codes "nats://localhost:4222"),
      stream,
      consumer,
      get Key.nats_subject_filter,
      get Key.nats_credentials,
    )

  load_unix_socket_max_line_bytes : Result ConfigError ℕ
  unfolding parse_with_default
  load_unix_socket_max_line_bytes = do
    max_line_bytes ← parse_with_default get u64_max Key.unix_socket_max_line_bytes (codes "65536")
    bail_if (max_line_bytes == 0) (must_be_positive Key.unix_socket_max_line_bytes)
    ok max_line_bytes

  pub load_unix_socket_config : Result ConfigError UnixSocketConfigParts
  unfolding load_unix_socket_max_line_bytes parse_optional
  load_unix_socket_config = do
    max_line_bytes ← load_unix_socket_max_line_bytes
    uid ← parse_optional get u32_max Key.unix_socket_allowed_uid
    gid ← parse_optional get u32_max Key.unix_socket_allowed_gid
    ok (
      unwrap_or (get Key.unix_socket_path) (codes "/run/iec104bridge/input.sock"),
      uid,
      gid,
      max_line_bytes,
    )

  pub load_server_config : Result ConfigError ServerConfigParts
  unfolding parse_with_default parse_optional parse_bool_with_default is_truthy is_zero
  load_server_config = do
    queue_size ← parse_with_default get u16_max Key.iec104_queue_size (codes "1024")
    bail_if (queue_size == 0) (must_be_positive Key.iec104_queue_size)
    max_age ← parse_optional get u64_max Key.iec104_max_age_seconds
    bail_if (is_zero max_age) (must_be_positive Key.iec104_max_age_seconds)
    port ← parse_with_default get u16_max Key.iec104_port (codes "2404")
    ca ← parse_with_default get u16_max Key.iec104_ca (codes "1")
    metrics_port ← parse_with_default get u16_max Key.metrics_port (codes "9091")
    timestamps ← parse_bool_with_default get Key.iec104_timestamps true
    ok (
      unwrap_or (get Key.iec104_bind_addr) (codes "0.0.0.0"),
      port,
      ca,
      is_truthy (get Key.iec104_gi_only),
      metrics_port,
      queue_size,
      timestamps,
      Option-map from_secs max_age,
    )

  pub load_tls_config : Result ConfigError TlsConfigParts
  unfolding is_truthy validate_tls_paths parse_with_default
  load_tls_config = do
    validate_tls_paths (is_truthy (get Key.tls_enabled)) (get Key.tls_cert_path)
        (get Key.tls_key_path) (get Key.tls_ca_cert_path)
    port ← parse_with_default get u16_max Key.tls_port (codes "19998")
    ok (
      is_truthy (get Key.tls_enabled),
      get Key.tls_cert_path,
      get Key.tls_key_path,
      get Key.tls_ca_cert_path,
      port,
    )

  pub load_config_parts : Result ConfigError ConfigParts
  unfolding load_input_transport load_nats_config load_unix_socket_config load_server_config
      load_tls_config
  load_config_parts = do
    transport ← load_input_transport
    nats_parts ← load_nats_config transport
    unix_socket_parts ← load_unix_socket_config
    server ← load_server_config
    tls ← load_tls_config
    ok (record {
      transport = transport;
      nats_parts = nats_parts;
      unix_socket_parts = unix_socket_parts;
      server = server;
      tls = tls;
    })

abbrev pub config_of : ConfigParts → Config
config_of parts =
    let (nats_url, nats_stream, nats_consumer, nats_subject_filter, nats_credentials_path) =
      parts.nats_parts in
    let (path, allowed_uid, allowed_gid, max_line_bytes) = parts.unix_socket_parts in
    let (bind_addr, port, default_ca, gi_only, metrics_port, queue_size, timestamps, max_age) =
      parts.server in
    let (tls_enabled, tls_cert_path, tls_key_path, tls_ca_cert_path, tls_port) = parts.tls in
    record {
      input_transport = parts.transport;
      nats_url = nats_url;
      nats_stream = nats_stream;
      nats_consumer = nats_consumer;
      nats_subject_filter = nats_subject_filter;
      nats_credentials_path = nats_credentials_path;
      unix_socket_path = path;
      unix_socket_allowed_uid = allowed_uid;
      unix_socket_allowed_gid = allowed_gid;
      unix_socket_max_line_bytes = max_line_bytes;
      iec104_bind_addr = bind_addr;
      iec104_port = port;
      iec104_default_ca = default_ca;
      iec104_gi_only = gi_only;
      iec104_timestamps = timestamps;
      iec104_max_age = max_age;
      iec104_queue_size = queue_size;
      metrics_port = metrics_port;
      tls_enabled = tls_enabled;
      tls_cert_path = tls_cert_path;
      tls_key_path = tls_key_path;
      tls_ca_cert_path = tls_ca_cert_path;
      tls_port = tls_port;
    }

unfoldable pub from_lookup : Lookup → Result ConfigError Config
unfolding load_config_parts
from_lookup get = do parts ← load_config_parts get; ok (config_of parts)
