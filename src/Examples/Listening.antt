-- ===== src/Examples/Listening.antt =====
-- Examples of the source of the socket.
use iec104bridge.Base.{true, false, true, refl, ◌≡◌, none, some, [], ◌∷◌, All}
use iec104bridge.Base.Result.{ok}
use iec104bridge.Environment.{codes, Key, Lookup, same}
use iec104bridge.Config.{Config, from_lookup}
use iec104bridge.Socket.{bind, prepare_socket_path, set_socket_permissions}
use iec104bridge.Accept.Clients.{of_client}
use iec104bridge.Listener.{UnixSocketSource, from_config, into_messages}
use iec104bridge.Listener.Traced.{client_at}
use iec104bridge.Listener.Permitted.{IsPermitted, received-IsPermitted}
use iec104bridge.Examples.Samples.{parser}
use iec104bridge.Examples.Files.{memory, stale}
use iec104bridge.Examples.Outside.{runtime, delivered, Reach-delivered}
use iec104bridge.Examples.Settings.{full_config}

-- The socket as input, for the group 100 and lines of 64 bytes.
abbrev variables : Lookup
variables Key.input_transport = some (codes "unix_socket")
variables Key.unix_socket_allowed_gid = some (codes "100")
variables Key.unix_socket_max_line_bytes = some (codes "64")
variables _ = none

abbrev config : Config
config = record full_config {
  unix_socket_allowed_uid = none;
  unix_socket_allowed_gid = some 100;
  unix_socket_max_line_bytes = 64;
  iec104_port = 2404;
  iec104_timestamps = true;
  iec104_max_age = none;
  tls_enabled = false;
  tls_cert_path = none;
  tls_key_path = none;
  tls_ca_cert_path = none;
}

configured : from_lookup variables ≡ ok config
unfolding from_lookup
configured = refl

abbrev source : UnixSocketSource
source = record {
  listener = true;
  socket_path = 1 ∷ 5 ∷ [];
  allowed_uid = none;
  allowed_gid = some 100;
  max_line_bytes = 64;
}

opened : (from_config memory (λ t. 1 ∷ 5 ∷ []) config stale).0 ≡ ok source
unfolding from_config bind prepare_socket_path set_socket_permissions same
opened = refl

started : into_messages source ≡ some runtime
unfolding into_messages
started = refl

received-IsPermitted_example :
    All
      (IsPermitted parser variables (client_at parser runtime Reach-delivered 0))
      (of_client 0 delivered.received)
received-IsPermitted_example =
    received-IsPermitted parser variables config memory (λ t. 1 ∷ 5 ∷ []) stale source runtime
      Reach-delivered 0 configured opened started
