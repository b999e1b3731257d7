-- ===== src/Startup/Confined.antt =====
-- What a bridge that was started exposes, and when its start panics.
use mathlib.Core.Path.{subst}
use iec104bridge.Base.{
  Bool-cases, inl, inr, ◌≡◌, ◌⊎◌, ◌++◌, refl, Bool, true, false, some, [], All, if◌then◌else◌,
}
use iec104bridge.Base.Result.{ok, err, Meets}
use iec104bridge.Environment.{Text, codes, Lookup}
use iec104bridge.Config.{Config, from_lookup}
use iec104bridge.Config.Described.{Secures}
use iec104bridge.Config.Whole.{from_lookup_iff}
use iec104bridge.Endpoint.{decimal}
use iec104bridge.Tls.{
  TlsLibrary, TlsError, loading_ca, loading_cert, loading_key, adding_ca, verifier_failed,
  inconsistent, builder_panicked, TlsConfig, spawn_tls_proxy, build_acceptor,
}
use iec104bridge.Tls.Acceptor.{PanicsFor, build_acceptor-PanicsFor}
use iec104bridge.Tls.Clients.{IsWebPki, IsAuthentic, IsVouchedFor, spawn_tls_proxy-IsAuthentic}
use iec104bridge.Startup.{
  Host, StartError, panicked, bad_address, tls_bind_failed, StartCall, server_built, tls_listening,
  supervising, iec104_local, main, build_iec_server, tls_config, tls_bind, spawn_tls_listener,
  spawn_tls_listener_if_enabled, spawn_metrics_http_server, effective_iec104_bind_addr, server_spec,
  settings_of, call, demand, pure, lift_tls, tls_failure, ◌>>◌,
}
use iec104bridge.Startup.Runs.{Runs, bind-Runs, demand-Runs, lift_tls-Runs, test-Runs, if-Runs}

-- The address of the IEC-104 server: of this machine only with TLS, the configured one without.
abbrev pub ServesAt : Bool → Config → Text → Type 0
ServesAt true config address = address ≡ codes "127.0.0.1"
ServesAt false config address = address ≡ config.iec104_bind_addr

abbrev Nothing : Unit {0} → Type 0
Nothing _ = Unit

-- The start panics only where rustls cannot determine its provider, with TLS.
abbrev pub NoPanic : Host → Config → StartError → Type 0
NoPanic host config e =
    e ≡ panicked → (config.tls_enabled ≡ true) × (host.lib.determines_provider ≡ false)

effective_iec104_bind_addr-ServesAt :
    (config : Config) (b : Bool)
    → ServesAt b config (if b then codes "127.0.0.1" else config.iec104_bind_addr)
effective_iec104_bind_addr-ServesAt config true = refl
effective_iec104_bind_addr-ServesAt config false = refl

tls_failure-panicked :
    (lib : TlsLibrary) (cfg : TlsConfig) (e : TlsError)
    → build_acceptor lib cfg ≡ err e
    → tls_failure e ≡ panicked
    → lib.determines_provider ≡ false
tls_failure-panicked lib cfg e k q =
    subst (Meets (λ a. Unit) (PanicsFor lib)) k (build_acceptor-PanicsFor lib cfg) (only e q)
  where
    only : (e : TlsError) → tls_failure e ≡ panicked → e ≡ builder_panicked
    only (loading_ca x) q = absurd (cc q)
    only (loading_cert x) q = absurd (cc q)
    only (loading_key x) q = absurd (cc q)
    only adding_ca q = absurd (cc q)
    only verifier_failed q = absurd (cc q)
    only inconsistent q = absurd (cc q)
    only builder_panicked q = refl

module _ (host : Host) (w : IsWebPki host.net) (config : Config) where
  -- Every client of a listener with this acceptor is turned away, or has a chain that a certificate
  -- of the configured CA file validates and is connected to this address only.
  abbrev pub Admits : host.lib.Acceptor → host.net.SocketAddr → Type 0
  Admits acceptor address =
      (cfg : TlsConfig) × (config.tls_ca_cert_path ≡ some cfg.ca_cert_path)
      × ((tcp : host.net.Tcp)
          → (spawn_tls_proxy host.net tcp acceptor address ≡ [])
            ⊎ ((stream : host.net.TlsStream) × (host.net.accept acceptor tcp ≡ some stream)
                × IsAuthentic w cfg stream
                × All (IsVouchedFor w stream address)
                    (spawn_tls_proxy host.net tcp acceptor address)))

  -- What each call of the start exposes.
  abbrev pub IsConfined : StartCall host → Type 0
  IsConfined (server_built spec) =
      ServesAt config.tls_enabled config spec.local_address × (spec.local_port ≡ config.iec104_port)
  IsConfined (tls_listening bound acceptor address) =
      (config.tls_enabled ≡ true)
      × (host.parse (codes "127.0.0.1:" ++ decimal config.iec104_port) ≡ some address)
      × Admits acceptor address
  IsConfined c = Unit

  build_iec_server-Runs :
      Runs IsConfined (NoPanic host config) Nothing (build_iec_server host config)
  unfolding build_iec_server effective_iec104_bind_addr
  build_iec_server-Runs calls c =
      let at = effective_iec104_bind_addr-ServesAt config config.tls_enabled in
      elim (Bool-cases (host.builds (server_spec config))) [
        | inl y ↦ rw y ((tt, (tt, (tt, ((at, refl), c)))), tt)
        | inr n ↦ rw n (((at, refl), c), λ k. absurd (cc k))
      ]

  spawn_tls_listener-Runs :
      config.tls_enabled ≡ true
      → Secures true config.tls_cert_path config.tls_key_path config.tls_ca_cert_path
      → Runs IsConfined (NoPanic host config) Nothing (spawn_tls_listener host config)
  unfolding spawn_tls_listener tls_config
  spawn_tls_listener-Runs enabled (c, k, a) =
      bind-Runs IsConfined (NoPanic host config)
        (λ cfg. config.tls_ca_cert_path ≡ some cfg.ca_cert_path) _ (tls_config host config) _
        (bind-Runs IsConfined (NoPanic host config) _ _ (demand panicked config.tls_cert_path) _
          (demand-Runs IsConfined (NoPanic host config) panicked config.tls_cert_path
            (λ n. absurd (c n)))
          λ cert _.
            bind-Runs IsConfined (NoPanic host config) _ _ (demand panicked config.tls_key_path) _
              (demand-Runs IsConfined (NoPanic host config) panicked config.tls_key_path
                (λ n. absurd (k n)))
              λ key _.
                bind-Runs IsConfined (NoPanic host config) _ _
                  (demand panicked config.tls_ca_cert_path) _
                  (demand-Runs IsConfined (NoPanic host config) panicked config.tls_ca_cert_path
                    (λ n. absurd (a n)))
                  λ ca e calls h. (h, e))
        λ cfg ca.
          bind-Runs IsConfined (NoPanic host config) _ _ (lift_tls (build_acceptor host.lib cfg)) _
            (lift_tls-Runs IsConfined (NoPanic host config) (build_acceptor host.lib cfg)
              (λ e k q. (enabled, tls_failure-panicked host.lib cfg e k q)))
            λ acceptor built.
              bind-Runs IsConfined (NoPanic host config) _ _
                (demand bad_address (host.parse (iec104_local host config))) _
                (demand-Runs IsConfined (NoPanic host config) bad_address
                  (host.parse (iec104_local host config)) (λ _ k. absurd (cc k)))
                λ address e.
                  test-Runs IsConfined (NoPanic host config) (host.binds (tls_bind host config))
                    tls_bind_failed (tls_listening (tls_bind host config) acceptor address)
                    (λ k. absurd (cc k))
                    (
                      enabled,
                      e,
                      (
                        cfg,
                        ca,
                        λ tcp. spawn_tls_proxy-IsAuthentic w cfg acceptor tcp address built,
                      ),
                    )

  spawn_tls_listener_if_enabled-Runs :
      Secures config.tls_enabled config.tls_cert_path config.tls_key_path config.tls_ca_cert_path
      → Runs IsConfined (NoPanic host config) Nothing (spawn_tls_listener_if_enabled host config)
  unfolding spawn_tls_listener_if_enabled
  spawn_tls_listener_if_enabled-Runs secured =
      if-Runs IsConfined (NoPanic host config) Nothing config.tls_enabled
        (spawn_tls_listener host config) (pure tt)
        (λ e. spawn_tls_listener-Runs e (
          subst (λ b. Secures b config.tls_cert_path config.tls_key_path config.tls_ca_cert_path) e
            secured))
        λ _ calls c. (c, tt)

  last-Runs : Runs IsConfined (NoPanic host config) Nothing (
      spawn_metrics_http_server host config.metrics_port >> call (supervising (settings_of config)))
  unfolding spawn_metrics_http_server
  last-Runs calls c = ((tt, (tt, c)), tt)

  -- If rustls does what it documents: the start of a bridge on the configuration of any environment
  -- panics at most with TLS, and then only where rustls cannot determine its provider of the
  -- cryptography; with TLS its IEC-104 server is on 127.0.0.1, and a client of its TLS listener is
  -- turned away or has a certificate chain that the configured CA file validates, and is connected
  -- to that server only; without TLS the server is on the configured address, and there is no TLS
  -- listener.
  pub main-IsConfined :
      (get : Lookup)
      → from_lookup get ≡ ok config
      → All IsConfined (main host config []).1
        × ((main host config []).0 ≡ err panicked
            → (config.tls_enabled ≡ true) × (host.lib.determines_provider ≡ false))
  unfolding main
  main-IsConfined get e =
      let (_, _, _, _, (_, _, _, _, secured, _)) = (from_lookup_iff get config).0 e in
      let (confined, outcome) =
        bind-Runs IsConfined (NoPanic host config) Nothing Nothing (build_iec_server host config)
          (λ _.
            spawn_tls_listener_if_enabled host config
            >> (spawn_metrics_http_server host config.metrics_port
                >> call (supervising (settings_of config))))
          build_iec_server-Runs
          (λ _ _.
            bind-Runs IsConfined (NoPanic host config) Nothing Nothing
              (spawn_tls_listener_if_enabled host config)
              (λ _.
                spawn_metrics_http_server host config.metrics_port
                >> call (supervising (settings_of config)))
              (spawn_tls_listener_if_enabled-Runs secured) λ _ _. last-Runs)
          [] tt in
      (confined, λ k. subst (Meets Nothing (NoPanic host config)) k outcome refl)
