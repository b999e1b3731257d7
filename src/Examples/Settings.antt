-- ===== src/Examples/Settings.antt =====
-- The configuration at concrete environments.
use iec104bridge.Base.{true, false, ◌≡◌, ◌↔◌, refl, none, some, []}
use iec104bridge.Base.Result.{ok, err}
use iec104bridge.Environment.{codes, Key, Lookup, must_be_set_for_tls}
use iec104bridge.Config.{Config, unix_socket, from_lookup}
use iec104bridge.Config.Described.{Describes, Blames}
use iec104bridge.Config.Whole.{from_lookup_iff, from_lookup-Blames}

-- The socket as input, with every kind of value, and TLS.
abbrev pub full : Lookup
full Key.input_transport = some (codes "unix_socket")
full Key.unix_socket_allowed_uid = some (codes "1000")
full Key.unix_socket_max_line_bytes = some (codes "4096")
full Key.iec104_port = some (codes "+2405")
full Key.iec104_timestamps = some (codes "No")
full Key.iec104_max_age_seconds = some (codes "60")
full Key.tls_enabled = some (codes "YES")
full Key.tls_cert_path = some (codes "cert.pem")
full Key.tls_key_path = some (codes "key.pem")
full Key.tls_ca_cert_path = some (codes "ca.pem")
full _ = none

abbrev pub full_config : Config
full_config = record {
  input_transport = unix_socket;
  nats_url = codes "nats://localhost:4222";
  nats_stream = [];
  nats_consumer = [];
  nats_subject_filter = none;
  nats_credentials_path = none;
  unix_socket_path = codes "/run/iec104bridge/input.sock";
  unix_socket_allowed_uid = some 1000;
  unix_socket_allowed_gid = none;
  unix_socket_max_line_bytes = 4096;
  iec104_bind_addr = codes "0.0.0.0";
  iec104_port = 2405;
  iec104_default_ca = 1;
  iec104_gi_only = false;
  iec104_timestamps = false;
  iec104_max_age = some 60_000_000_000;
  iec104_queue_size = 1024;
  metrics_port = 9091;
  tls_enabled = true;
  tls_cert_path = some (codes "cert.pem");
  tls_key_path = some (codes "key.pem");
  tls_ca_cert_path = some (codes "ca.pem");
  tls_port = 19998;
}

pub full_read : from_lookup full ≡ ok full_config
unfolding from_lookup
full_read = refl

from_lookup_iff_example : (from_lookup full ≡ ok full_config) ↔ Describes full full_config
from_lookup_iff_example = from_lookup_iff full full_config

-- TLS without the path of the key.
abbrev keyless : Lookup
keyless Key.tls_key_path = none
keyless k = full k

keyless_refused : from_lookup keyless ≡ err (must_be_set_for_tls Key.tls_key_path)
unfolding from_lookup
keyless_refused = refl

from_lookup-Blames_example : Blames keyless (must_be_set_for_tls Key.tls_key_path)
from_lookup-Blames_example =
    from_lookup-Blames keyless (must_be_set_for_tls Key.tls_key_path) keyless_refused
