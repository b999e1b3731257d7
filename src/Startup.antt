-- ===== src/Startup.antt =====
-- The start of the bridge (main.rs, `main` up to the supervision of the source): the IEC-104
-- server, the TLS listener and the metrics listener, as a recorded sequence of calls. What the
-- calls answer is a parameter; logging is left out.
pub mod Runs
pub mod Steps
pub mod Sequence
pub mod Confined
use iec104bridge.Base.{ℕ, Bool, true, false, Option, none, some, List, [], ◌∷◌, ◌++◌, if◌then◌else◌}
use iec104bridge.Base.Result.{Result, ok, err}
use iec104bridge.Environment.{Text, codes}
use iec104bridge.Policy.{OutputPolicy}
use iec104bridge.Server.{Settings}
use iec104bridge.Config.{Config}
use iec104bridge.Endpoint.{decimal}
use iec104bridge.Tls.{TlsLibrary, TlsConfig, TlsError, builder_panicked, Network, build_acceptor}

-- What `ServerBuilder` is given.
pub record ServerSpec : Type 0 where
  pub local_address : Text
  pub local_port : ℕ
  pub low_priority_queue : ℕ
  pub high_priority_queue : ℕ

pub data StartError : Type 0 where
  panicked server_failed bad_address tls_bind_failed : StartError
  tls_failed : TlsError → StartError

-- The answers of the calls: whether the server is built, what an address is parsed to, whether the
-- TLS listener can be bound.
pub record Host : Type 1 where
  pub lib : TlsLibrary
  pub net : Network lib
  pub builds : ServerSpec → Bool
  pub parse : Text → Option net.SocketAddr
  pub binds : Text → Bool

module _ (host : Host) where
  -- The TLS listener gives each of its connections to `spawn_tls_proxy`, with this acceptor and
  -- address.
  pub data StartCall : Type 0 where
    server_built : ServerSpec → StartCall
    connection_handlers_installed server_started : StartCall
    interrogation_handler_installed : ℕ → OutputPolicy → StartCall
    tls_listening : Text → host.lib.Acceptor → host.net.SocketAddr → StartCall
    metrics_listening : Text → StartCall
    supervising : Settings → StartCall

  -- An action on the calls so far, the latest first.
  abbrev pub Start : Type 0 → Type 0
  Start A = List StartCall → Result StartError A × List StartCall

abbrev pub then_after :
    {host : Host} {A B : Type 0}
    → Result StartError A × List (StartCall host)
    → (A → Start host B)
    → Result StartError B × List (StartCall host)
then_after (ok a, calls) f = f a calls
then_after (err e, calls) f = (err e, calls)

infixl 5 ◌>>=◌ ◌>>◌
abbrev pub ◌>>=◌ : {host : Host} {A B : Type 0} → Start host A → (A → Start host B) → Start host B
◌>>=◌ m f calls = then_after (m calls) f

abbrev pub ◌>>◌ : {host : Host} {A B : Type 0} → Start host A → Start host B → Start host B
m >> k = m >>= λ _. k

abbrev pub pure : {host : Host} {A : Type 0} → A → Start host A
pure a calls = (ok a, calls)

abbrev pub fail : {host : Host} {A : Type 0} → StartError → Start host A
fail e calls = (err e, calls)

abbrev pub call : {host : Host} → StartCall host → Start host (Unit {0})
call c calls = (ok tt, c ∷ calls)

abbrev pub demand : {host : Host} {A : Type 0} → StartError → Option A → Start host A
demand e none = fail e
demand e (some a) = pure a

-- A panic of rustls is one of the start.
abbrev pub tls_failure : TlsError → StartError
tls_failure builder_panicked = panicked
tls_failure e = tls_failed e

abbrev pub lift_tls : {host : Host} {A : Type 0} → Result TlsError A → Start host A
lift_tls (ok a) = pure a
lift_tls (err e) = fail (tls_failure e)

abbrev pub output_policy : Config → OutputPolicy
output_policy config = record {
  send_timestamps = config.iec104_timestamps;
  max_age = config.iec104_max_age;
}

unfoldable pub effective_iec104_bind_addr : Config → Text
effective_iec104_bind_addr config =
    if config.tls_enabled then codes "127.0.0.1" else config.iec104_bind_addr

abbrev pub server_spec : Config → ServerSpec
server_spec config = record {
  local_address = effective_iec104_bind_addr config;
  local_port = config.iec104_port;
  low_priority_queue = config.iec104_queue_size;
  high_priority_queue = config.iec104_queue_size;
}

-- What the supervisor passes to the message loop.
abbrev pub settings_of : Config → Settings
settings_of config = record {
  default_ca = config.iec104_default_ca;
  gi_only = config.iec104_gi_only;
  policy = output_policy config;
}

module _ (host : Host) where
  pub build_iec_server : Config → Start host (Unit {0})
  build_iec_server config = do
    call (server_built (server_spec config))
    if host.builds (server_spec config) then pure tt else fail server_failed
    call connection_handlers_installed
    call (interrogation_handler_installed config.iec104_default_ca (output_policy config))
    call server_started

  -- The three paths, with `expect`.
  tls_config : Config → Start host TlsConfig
  tls_config config = do
    cert ← demand panicked config.tls_cert_path
    key ← demand panicked config.tls_key_path
    ca ← demand panicked config.tls_ca_cert_path
    pure (record { cert_path = cert; key_path = key; ca_cert_path = ca })

  abbrev pub tls_bind : Config → Text
  tls_bind config = config.iec104_bind_addr ++ b':' ∷ decimal config.tls_port

  abbrev pub iec104_local : Config → Text
  iec104_local config = codes "127.0.0.1:" ++ decimal config.iec104_port

  spawn_tls_listener : Config → Start host (Unit {0})
  unfolding tls_config
  spawn_tls_listener config = do
    tls_cfg ← tls_config config
    acceptor ← lift_tls (build_acceptor host.lib tls_cfg)
    address ← demand bad_address (host.parse (iec104_local config))
    if host.binds (tls_bind config) then pure tt else fail tls_bind_failed
    call (tls_listening (tls_bind config) acceptor address)

  pub spawn_tls_listener_if_enabled : Config → Start host (Unit {0})
  unfolding spawn_tls_listener
  spawn_tls_listener_if_enabled config =
      if config.tls_enabled then spawn_tls_listener config else pure tt

  -- The task tries to listen on this address; the start goes on whether it can or not.
  pub spawn_metrics_http_server : ℕ → Start host (Unit {0})
  spawn_metrics_http_server metrics_port =
      call (metrics_listening (codes "0.0.0.0:" ++ decimal metrics_port))

  pub main : Config → Start host (Unit {0})
  unfolding build_iec_server spawn_tls_listener_if_enabled spawn_metrics_http_server
  main config = do
    build_iec_server config
    spawn_tls_listener_if_enabled config
    spawn_metrics_http_server config.metrics_port
    call (supervising (settings_of config))
