-- ===== src/Config/Whole.antt =====
-- The configuration that is read is the one that the environment describes.
use iec104bridge.Config.Described.{DescribesParts, parts_of, Describes, Blames}
use mathlib.Core.Path.{subst}
use iec104bridge.Base.{◌≡◌, ◌↔◌, refl}
use iec104bridge.Base.Result.{ok, err, Meets, bind-Meets, bind-ok}
use iec104bridge.Environment.{Lookup, ConfigError}
use iec104bridge.Config.{
  Config, ConfigParts, load_input_transport, load_nats_config, load_unix_socket_config,
  load_server_config, load_tls_config, load_config_parts, from_lookup,
}
use iec104bridge.Config.Loading.{
  load_input_transport-Meets, load_input_transport-ok, load_nats_config-Meets, load_nats_config-ok,
  load_unix_socket_config-Meets, load_unix_socket_config-ok,
}
use iec104bridge.Config.Serving.{load_server_config-Meets, load_server_config-ok}
use iec104bridge.Config.Securing.{load_tls_config-Meets, load_tls_config-ok}
use iec104bridge.Base.{◌≢◌, some, none, true, false, unwrap_or, arith}
use iec104bridge.Environment.{Text, Key, codes, unsigned}
use iec104bridge.Environment.Numeral.{IsNumeral, decimal_value}
use iec104bridge.Config.{u64_max, nats}

zero_value : decimal_value (unsigned (codes "0")) ≡ 0
unfolding unsigned
zero_value = refl

module _ (get : Lookup) where
  load_config_parts-Meets : Meets (DescribesParts get) (Blames get) (load_config_parts get)
  unfolding load_config_parts
  load_config_parts-Meets =
      bind-Meets _ _ (load_input_transport get) _ (load_input_transport-Meets get) λ transport t.
        bind-Meets _ _ (load_nats_config get transport) _ (load_nats_config-Meets get transport t)
          λ nats_parts n.
            bind-Meets _ _ (load_unix_socket_config get) _ (load_unix_socket_config-Meets get)
              λ unix_socket_parts u.
                bind-Meets _ _ (load_server_config get) _ (load_server_config-Meets get) λ server s.
                  bind-Meets _ _ (load_tls_config get) _ (load_tls_config-Meets get)
                    λ tls l. (t, n, u, s, l)

  load_config_parts-ok :
      (parts : ConfigParts) → DescribesParts get parts → load_config_parts get ≡ ok parts
  unfolding load_config_parts
  load_config_parts-ok parts (t, n, u, s, l) =
      bind-ok _ _ parts.transport _ (load_input_transport-ok get parts.transport t) (
        bind-ok _ _ parts.nats_parts _ (load_nats_config-ok get parts.transport parts.nats_parts n)
          (bind-ok _ _ parts.unix_socket_parts _
            (load_unix_socket_config-ok get parts.unix_socket_parts u)
            (bind-ok _ _ parts.server _ (load_server_config-ok get parts.server s)
              (bind-ok _ _ parts.tls _ (load_tls_config-ok get parts.tls l) refl))))

  from_lookup-Meets : Meets (Describes get) (Blames get) (from_lookup get)
  unfolding from_lookup
  from_lookup-Meets = bind-Meets _ _ (load_config_parts get) _ load_config_parts-Meets λ parts d. d

  -- The environment yields a configuration exactly if it describes it: every variable that is set is
  -- read as its type, the unset ones have their defaults, NATS has its stream and consumer, sizes are
  -- positive, and TLS has its three paths.
  pub from_lookup_iff : (c : Config) → (from_lookup get ≡ ok c) ↔ Describes get c
  unfolding from_lookup
  from_lookup_iff c = (
    λ e. subst (Meets (Describes get) (Blames get)) e from_lookup-Meets,
    λ d. bind-ok _ _ (parts_of c) _ (load_config_parts-ok (parts_of c) d) refl,
  )

  -- Where the environment yields an error, it is at fault: the variable that the error names is
  -- missing although it is required, or its value is not what it must be.
  pub from_lookup-Blames : (e : ConfigError) → from_lookup get ≡ err e → Blames get e
  from_lookup-Blames e h = subst (Meets (Describes get) (Blames get)) h from_lookup-Meets

  -- A limit of zero for the lines of the socket is an error, whichever transport is chosen.
  zero_limit_refused :
      get Key.unix_socket_max_line_bytes ≡ some (codes "0") → (c : Config) → from_lookup get ≢ ok c
  zero_limit_refused h c e =
      let (_, _, (_, _, _, n, p), _, _) = (from_lookup_iff c).0 e in
      let (_, _, v, _) =
        subst (λ o. IsNumeral u64_max (unwrap_or o (codes "65536")) c.unix_socket_max_line_bytes) h
          n in
      absurd (omega (arith, zero_value, v, p))

-- An environment that sets the stream and the consumer only.
abbrev pub only_nats : Text → Text → Lookup
only_nats stream consumer Key.nats_stream = some stream
only_nats stream consumer Key.nats_consumer = some consumer
only_nats stream consumer _ = none

abbrev pub default_config : Text → Text → Config
default_config stream consumer = record {
  input_transport = nats;
  nats_url = codes "nats://localhost:4222";
  nats_stream = stream;
  nats_consumer = consumer;
  nats_subject_filter = none;
  nats_credentials_path = none;
  unix_socket_path = codes "/run/iec104bridge/input.sock";
  unix_socket_allowed_uid = none;
  unix_socket_allowed_gid = none;
  unix_socket_max_line_bytes = 65536;
  iec104_bind_addr = codes "0.0.0.0";
  iec104_port = 2404;
  iec104_default_ca = 1;
  iec104_gi_only = false;
  iec104_timestamps = true;
  iec104_max_age = none;
  iec104_queue_size = 1024;
  metrics_port = 9091;
  tls_enabled = false;
  tls_cert_path = none;
  tls_key_path = none;
  tls_ca_cert_path = none;
  tls_port = 19998;
}

-- With nothing set but the stream and the consumer, the configuration is that of the documented
-- defaults.
pub from_lookup-only_nats :
    (stream consumer : Text)
    → from_lookup (only_nats stream consumer) ≡ ok (default_config stream consumer)
unfolding from_lookup
from_lookup-only_nats stream consumer = refl
