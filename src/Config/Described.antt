-- ===== src/Config/Described.antt =====
-- The specification of the configuration: which settings an environment describes, and which errors
-- it may be blamed for.
use iec104bridge.Base.{
  ℕ, ◌≡◌, ◌≢◌, ◌⊎◌, ◌↔◌, ◌<◌, Bool, true, false, Option, none, some, [], unwrap_or,
}
use iec104bridge.Environment.{
  Text, codes, Key, Lookup, ConfigError, unknown_transport, must_be_set, must_be_set_for_tls,
  must_be_positive, must_be_number, must_be_boolean, to_lowercase, Option-map,
}
use iec104bridge.Environment.Numeral.{IsNumeral}
use iec104bridge.Config.{
  InputTransport, ConfigParts, NatsConfigParts, UnixSocketConfigParts, ServerConfigParts,
  TlsConfigParts, nats, unix_socket, Config, u16_max, u32_max, u64_max, from_secs,
}

abbrev pub IsYes : Text → Type 0
IsYes v =
    (to_lowercase v ≡ codes "true") ⊎ (to_lowercase v ≡ codes "1") ⊎ (to_lowercase v ≡ codes "yes")

abbrev pub IsNo : Text → Type 0
IsNo v =
    (to_lowercase v ≡ codes "false") ⊎ (to_lowercase v ≡ codes "0") ⊎ (to_lowercase v ≡ codes "no")

-- A switch is on if its variable says yes, and off for every other value.
abbrev pub Switches : Option Text → Bool → Type 0
Switches o b = (b ≡ true) ↔ ((v : Text) × (o ≡ some v) × IsYes v)

-- A flag that is on unless its variable says no, and must say yes or no.
abbrev pub Flags : Option Text → Bool → Type 0
Flags none b = b ≡ true
Flags (some v) b = (IsYes v × (b ≡ true)) ⊎ (IsNo v × (b ≡ false))

abbrev pub Numbers : ℕ → Option Text → Option ℕ → Type 0
Numbers max none o = o ≡ none
Numbers max (some t) o = (n : ℕ) × IsNumeral max t n × (o ≡ some n)

abbrev pub Transports : Text → InputTransport → Type 0
Transports t nats = t ≡ codes "nats"
Transports t unix_socket = t ≡ codes "unix_socket"

-- The stream and the consumer are required of NATS, and empty for the socket.
abbrev pub Consumes : Lookup → InputTransport → Text → Text → Type 0
Consumes get nats stream consumer =
    (get Key.nats_stream ≡ some stream) × (get Key.nats_consumer ≡ some consumer)
Consumes get unix_socket stream consumer = (stream ≡ []) × (consumer ≡ [])

-- With TLS the three paths are present.
abbrev pub Secures : Bool → Option Text → Option Text → Option Text → Type 0
Secures false cert key ca = Unit
Secures true cert key ca = (cert ≢ none) × (key ≢ none) × (ca ≢ none)

-- The settings that an environment describes, part by part.
abbrev pub DescribesNats : Lookup → InputTransport → NatsConfigParts → Type 0
DescribesNats get transport (url, stream, consumer, subject_filter, credentials_path) =
    Consumes get transport stream consumer
    × (url ≡ unwrap_or (get Key.nats_url) (codes "nats://localhost:4222"))
    × (subject_filter ≡ get Key.nats_subject_filter)
    × (credentials_path ≡ get Key.nats_credentials)

abbrev pub DescribesSocket : Lookup → UnixSocketConfigParts → Type 0
DescribesSocket get (path, uid, gid, max_line_bytes) =
    (path ≡ unwrap_or (get Key.unix_socket_path) (codes "/run/iec104bridge/input.sock"))
    × Numbers u32_max (get Key.unix_socket_allowed_uid) uid
    × Numbers u32_max (get Key.unix_socket_allowed_gid) gid
    × IsNumeral u64_max (unwrap_or (get Key.unix_socket_max_line_bytes) (codes "65536"))
        max_line_bytes
    × (0 < max_line_bytes)

abbrev pub DescribesServer : Lookup → ServerConfigParts → Type 0
DescribesServer get (addr, port, ca, gi_only, metrics, queue, timestamps, age) =
    (addr ≡ unwrap_or (get Key.iec104_bind_addr) (codes "0.0.0.0"))
    × IsNumeral u16_max (unwrap_or (get Key.iec104_port) (codes "2404")) port
    × IsNumeral u16_max (unwrap_or (get Key.iec104_ca) (codes "1")) ca
    × Switches (get Key.iec104_gi_only) gi_only
    × IsNumeral u16_max (unwrap_or (get Key.metrics_port) (codes "9091")) metrics
    × IsNumeral u16_max (unwrap_or (get Key.iec104_queue_size) (codes "1024")) queue
    × (0 < queue)
    × Flags (get Key.iec104_timestamps) timestamps
    × (seconds : Option ℕ) × Numbers u64_max (get Key.iec104_max_age_seconds) seconds
    × (seconds ≢ some 0)
    × (age ≡ Option-map from_secs seconds)

abbrev pub DescribesTls : Lookup → TlsConfigParts → Type 0
DescribesTls get (enabled, cert_path, key_path, ca_cert_path, port) =
    Switches (get Key.tls_enabled) enabled
    × (cert_path ≡ get Key.tls_cert_path)
    × (key_path ≡ get Key.tls_key_path)
    × (ca_cert_path ≡ get Key.tls_ca_cert_path)
    × Secures enabled cert_path key_path ca_cert_path
    × IsNumeral u16_max (unwrap_or (get Key.tls_port) (codes "19998")) port

abbrev pub DescribesParts : Lookup → ConfigParts → Type 0
DescribesParts get parts =
    Transports (unwrap_or (get Key.input_transport) (codes "nats")) parts.transport
    × DescribesNats get parts.transport parts.nats_parts
    × DescribesSocket get parts.unix_socket_parts
    × DescribesServer get parts.server
    × DescribesTls get parts.tls

abbrev pub parts_of : Config → ConfigParts
parts_of c = record {
  transport = c.input_transport;
  nats_parts =
      (c.nats_url, c.nats_stream, c.nats_consumer, c.nats_subject_filter, c.nats_credentials_path);
  unix_socket_parts = (
    c.unix_socket_path, c.unix_socket_allowed_uid, c.unix_socket_allowed_gid,
    c.unix_socket_max_line_bytes,
  );
  server = (
    c.iec104_bind_addr, c.iec104_port, c.iec104_default_ca, c.iec104_gi_only, c.metrics_port,
    c.iec104_queue_size, c.iec104_timestamps, c.iec104_max_age,
  );
  tls = (c.tls_enabled, c.tls_cert_path, c.tls_key_path, c.tls_ca_cert_path, c.tls_port);
}

abbrev pub Describes : Lookup → Config → Type 0
Describes get c = DescribesParts get (parts_of c)

-- The variables of each kind, and the bound of each number.
pub data NumberKey : Key → ℕ → Type 0 where
  max_line : NumberKey Key.unix_socket_max_line_bytes u64_max
  allowed_uid : NumberKey Key.unix_socket_allowed_uid u32_max
  allowed_gid : NumberKey Key.unix_socket_allowed_gid u32_max
  queue_size : NumberKey Key.iec104_queue_size u16_max
  max_age : NumberKey Key.iec104_max_age_seconds u64_max
  server_port : NumberKey Key.iec104_port u16_max
  common_address : NumberKey Key.iec104_ca u16_max
  metrics : NumberKey Key.metrics_port u16_max
  tls : NumberKey Key.tls_port u16_max

abbrev pub IsPositiveKey : Key → Type 0
IsPositiveKey key =
    (key ≡ Key.unix_socket_max_line_bytes)
    ⊎ (key ≡ Key.iec104_queue_size)
    ⊎ (key ≡ Key.iec104_max_age_seconds)

-- The environment is at fault for the error: a variable that the error names is missing, or its value
-- is not what it must be.
abbrev pub Blames : Lookup → ConfigError → Type 0
Blames get unknown_transport =
    (t : Text) × (get Key.input_transport ≡ some t) × ((i : InputTransport) → ¬ Transports t i)
Blames get (must_be_set key) =
    ((key ≡ Key.nats_stream) ⊎ (key ≡ Key.nats_consumer))
    × (get key ≡ none)
    × (unwrap_or (get Key.input_transport) (codes "nats") ≡ codes "nats")
Blames get (must_be_set_for_tls key) =
    ((key ≡ Key.tls_cert_path) ⊎ (key ≡ Key.tls_key_path) ⊎ (key ≡ Key.tls_ca_cert_path))
    × (get key ≡ none)
    × Switches (get Key.tls_enabled) true
Blames get (must_be_positive key) =
    IsPositiveKey key × (t : Text) × (get key ≡ some t) × (max : ℕ) × IsNumeral max t 0
Blames get (must_be_number key) =
    (max : ℕ) × NumberKey key max
    × (t : Text) × (get key ≡ some t)
    × ((n : ℕ) → ¬ IsNumeral max t n)
Blames get (must_be_boolean key) =
    (key ≡ Key.iec104_timestamps) × (v : Text) × (get key ≡ some v) × (¬ IsYes v) × (¬ IsNo v)
