-- ===== src/Suite/Settings.antt =====
-- The tests of the configuration (config.rs).
pub mod Defaults
pub mod Overrides
pub mod Refusals
pub mod Securing
use iec104bridge.Base.{Option, none, some, List, [], ◌∷◌, if◌then◌else◌}
use iec104bridge.Base.Result.{Result, ok, err}
use iec104bridge.Environment.{Text, codes, same, Key, ConfigError}
use iec104bridge.Config.{Config, from_lookup}

abbrev pub StrMap : Type 0
StrMap = List (Text × Text)

-- `HashMap::insert`, `HashMap::remove` and `HashMap::get`
abbrev pub insert : Text → Text → StrMap → StrMap
insert k v map = (k, v) ∷ map

abbrev pub remove : Text → StrMap → StrMap
remove k [] = []
remove k ((k', v) ∷ map) = let rest = remove k map in if same k k' then rest else (k', v) ∷ rest

abbrev get : StrMap → Text → Option Text
get [] k = none
get ((k', v) ∷ map) k = let rest = get map k in if same k k' then some v else rest

-- The variables as the environment spells them.
name : Key → Text
name Key.input_transport = codes "INPUT_TRANSPORT"
name Key.nats_url = codes "NATS_URL"
name Key.nats_stream = codes "NATS_STREAM"
name Key.nats_consumer = codes "NATS_CONSUMER"
name Key.nats_subject_filter = codes "NATS_SUBJECT_FILTER"
name Key.nats_credentials = codes "NATS_CREDENTIALS"
name Key.unix_socket_path = codes "UNIX_SOCKET_PATH"
name Key.unix_socket_allowed_uid = codes "UNIX_SOCKET_ALLOWED_UID"
name Key.unix_socket_allowed_gid = codes "UNIX_SOCKET_ALLOWED_GID"
name Key.unix_socket_max_line_bytes = codes "UNIX_SOCKET_MAX_LINE_BYTES"
name Key.iec104_bind_addr = codes "IEC104_BIND_ADDR"
name Key.iec104_port = codes "IEC104_PORT"
name Key.iec104_ca = codes "IEC104_CA"
name Key.iec104_gi_only = codes "IEC104_GI_ONLY"
name Key.iec104_queue_size = codes "IEC104_QUEUE_SIZE"
name Key.iec104_timestamps = codes "IEC104_TIMESTAMPS"
name Key.iec104_max_age_seconds = codes "IEC104_MAX_AGE_SECONDS"
name Key.metrics_port = codes "METRICS_PORT"
name Key.tls_enabled = codes "TLS_ENABLED"
name Key.tls_cert_path = codes "TLS_CERT_PATH"
name Key.tls_key_path = codes "TLS_KEY_PATH"
name Key.tls_ca_cert_path = codes "TLS_CA_CERT_PATH"
name Key.tls_port = codes "TLS_PORT"

unfoldable pub from_map : StrMap → Result ConfigError Config
unfolding from_lookup same name
from_map map = from_lookup (λ key. get map (name key))

abbrev pub required : StrMap
required =
    insert (codes "NATS_CONSUMER") (codes "bridge")
      (insert (codes "NATS_STREAM") (codes "sensors") [])
