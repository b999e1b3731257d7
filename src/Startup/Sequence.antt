-- ===== src/Startup/Sequence.antt =====
-- When the bridge comes to supervise its source, and the calls that it has made until then.
use iec104bridge.Base.{
  ◌≡◌, ◌↔◌, ◌++◌, refl, Bool, true, false, Option, none, some, List, [], ◌∷◌, if◌then◌else◌, inl,
  inr, Bool-cases,
}
use iec104bridge.Base.Result.{ok}
use iec104bridge.Environment.{Text, codes}
use iec104bridge.Endpoint.{decimal}
use iec104bridge.Config.{Config}
use iec104bridge.Tls.{TlsConfig, build_acceptor}
use iec104bridge.Startup.{
  Host, panicked, bad_address, tls_bind_failed, StartCall, server_built,
  connection_handlers_installed, server_started, interrogation_handler_installed, tls_listening,
  metrics_listening, supervising, Start, iec104_local, main, build_iec_server, tls_config, tls_bind,
  spawn_tls_listener, spawn_tls_listener_if_enabled, spawn_metrics_http_server, server_spec,
  output_policy, settings_of, call, demand, pure, fail, lift_tls, ◌>>◌, ◌>>=◌,
}
use iec104bridge.Startup.Steps.{Yields, bind-Yields, demand-Yields, lift_tls-Yields, test-Yields}

module _ (host : Host) (config : Config) where
  -- The calls for TLS: none if it is off, and otherwise a listener with the acceptor for the three
  -- files and the address of the server.
  abbrev pub TlsCalls : Bool → List (StartCall host) → Type 0
  TlsCalls false calls = calls ≡ []
  TlsCalls true calls =
      (cfg : TlsConfig) × (config.tls_cert_path ≡ some cfg.cert_path)
      × (config.tls_key_path ≡ some cfg.key_path)
      × (config.tls_ca_cert_path ≡ some cfg.ca_cert_path)
      × (acceptor : host.lib.Acceptor) × (build_acceptor host.lib cfg ≡ ok acceptor)
      × (address : host.net.SocketAddr) × (host.parse (iec104_local host config) ≡ some address)
      × (host.binds (tls_bind host config) ≡ true)
      × (calls ≡ tls_listening (tls_bind host config) acceptor address ∷ [])

  abbrev pub server_calls : List (StartCall host)
  server_calls =
      server_started
      ∷ interrogation_handler_installed config.iec104_default_ca (output_policy config)
      ∷ connection_handlers_installed
      ∷ server_built (server_spec config)
      ∷ []

  build_iec_server-Yields :
      (after : List (StartCall host))
      → Yields (build_iec_server host config) [] tt after
        ↔ ((host.builds (server_spec config) ≡ true) × (server_calls ≡ after))
  unfolding build_iec_server
  build_iec_server-Yields after = elim (Bool-cases (host.builds (server_spec config))) [
    | inl y ↦ rw y (λ k. (refl, cc k), λ (_, k). cc k)
    | inr n ↦ rw n (λ k. absurd (cc k), λ (k, _). absurd (cc k))
  ]

  tls_config-Yields :
      (cfg : TlsConfig) (calls after : List (StartCall host))
      → Yields (tls_config host config) calls cfg after ↔ (
          (config.tls_cert_path ≡ some cfg.cert_path)
          × (config.tls_key_path ≡ some cfg.key_path)
          × (config.tls_ca_cert_path ≡ some cfg.ca_cert_path)
          × (calls ≡ after))
  unfolding tls_config
  tls_config-Yields cfg calls after =
      go config.tls_cert_path config.tls_key_path config.tls_ca_cert_path
    where
      go :
          (c k a : Option Text)
          → ((demand panicked c >>= λ cert. demand panicked k >>= λ key. demand panicked a >>= λ ca.
                  pure (record { cert_path = cert; key_path = key; ca_cert_path = ca }))
                calls
              ≡ (ok cfg, after))
            ↔ ((c ≡ some cfg.cert_path)
                × (k ≡ some cfg.key_path)
                × (a ≡ some cfg.ca_cert_path)
                × (calls ≡ after))
      go none k a = (λ e. absurd (cc e), λ h. absurd (cc (h.0)))
      go (some c) none a = (λ e. absurd (cc e), λ h. absurd (cc (h.1)))
      go (some c) (some k) none = (λ e. absurd (cc e), λ h. absurd (cc (h.2)))
      go (some c) (some k) (some a) =
          (λ e. (cc e, cc e, cc e, cc e), λ (x, y, z, e). cc (x, y, z, e))

  -- The rest of `spawn_tls_listener`, from each of its steps on.
  abbrev listen : host.lib.Acceptor → host.net.SocketAddr → Start host (Unit {0})
  listen acceptor address =
      (if host.binds (tls_bind host config) then pure tt else fail tls_bind_failed)
      >> call (tls_listening (tls_bind host config) acceptor address)

  abbrev with_acceptor : host.lib.Acceptor → Start host (Unit {0})
  with_acceptor acceptor = demand bad_address (host.parse (iec104_local host config)) >>= λ address.
      listen acceptor address

  abbrev with_config : TlsConfig → Start host (Unit {0})
  with_config cfg = lift_tls (build_acceptor host.lib cfg) >>= λ acceptor. with_acceptor acceptor

  abbrev address_of : Start host host.net.SocketAddr
  address_of = demand bad_address (host.parse (iec104_local host config))

  abbrev acceptor_of : TlsConfig → Start host host.lib.Acceptor
  acceptor_of cfg = lift_tls (build_acceptor host.lib cfg)

  spawn_tls_listener-Yields :
      (calls after : List (StartCall host))
      → Yields (spawn_tls_listener host config) calls tt after
        ↔ ((made : List (StartCall host)) × TlsCalls true made × (made ++ calls ≡ after))
  unfolding spawn_tls_listener
  spawn_tls_listener-Yields calls after = (
    λ e.
        let (cfg, u, y, e1) =
          (bind-Yields (tls_config host config) with_config calls after tt).0 e in
        let (c, k, a, same) = (tls_config-Yields cfg calls u).0 y in
        let (acceptor, v, y1, e2) = (bind-Yields (acceptor_of cfg) with_acceptor u after tt).0 e1 in
        let (built, same1) = (lift_tls-Yields (build_acceptor host.lib cfg) u v acceptor).0 y1 in
        let (address, x, y2, e3) = (bind-Yields address_of (listen acceptor) v after tt).0 e2 in
        let (parsed, same2) =
          (demand-Yields bad_address (host.parse (iec104_local host config)) v x address).0 y2 in
        let (bound, last) =
          (test-Yields (host.binds (tls_bind host config)) tls_bind_failed
              (tls_listening (tls_bind host config) acceptor address) x after).0
            e3 in
        (
          tls_listening (tls_bind host config) acceptor address ∷ [],
          (cfg, c, k, a, acceptor, built, address, parsed, bound, refl),
          cc (last, same, same1, same2),
        ),
    λ (made, (cfg, c, k, a, acceptor, built, address, parsed, bound, e), h).
        (bind-Yields (tls_config host config) with_config calls after tt).1 (
          cfg,
          calls,
          (tls_config-Yields cfg calls calls).1 (c, k, a, refl),
          (bind-Yields (acceptor_of cfg) with_acceptor calls after tt).1 (
            acceptor,
            calls,
            (lift_tls-Yields (build_acceptor host.lib cfg) calls calls acceptor).1 (built, refl),
            (bind-Yields address_of (listen acceptor) calls after tt).1 (
              address,
              calls,
              (demand-Yields bad_address (host.parse (iec104_local host config)) calls calls
                    address).1
                  (parsed, refl),
              (test-Yields (host.binds (tls_bind host config)) tls_bind_failed
                    (tls_listening (tls_bind host config) acceptor address) calls after).1
                  (bound, cc (e, h)),
            ),
          ),
        ),
  )

  spawn_tls_listener_if_enabled-Yields :
      (calls after : List (StartCall host))
      → Yields (spawn_tls_listener_if_enabled host config) calls tt after ↔ (
          (made : List (StartCall host)) × TlsCalls config.tls_enabled made
          × (made ++ calls ≡ after))
  unfolding spawn_tls_listener_if_enabled
  spawn_tls_listener_if_enabled-Yields calls after = go config.tls_enabled
    where
      go :
          (b : Bool)
          → ((if b then spawn_tls_listener host config else pure tt) calls ≡ (ok tt, after))
            ↔ ((made : List (StartCall host)) × TlsCalls b made × (made ++ calls ≡ after))
      go true = spawn_tls_listener-Yields calls after
      go false = (λ e. ([], refl, cc e), λ (made, k, h). cc (k, h))

  -- The rest of `main`.
  abbrev after_tls : Unit {0} → Start host (Unit {0})
  after_tls _ =
      spawn_metrics_http_server host config.metrics_port >> call (supervising (settings_of config))

  abbrev after_server : Unit {0} → Start host (Unit {0})
  after_server _ = spawn_tls_listener_if_enabled host config >>= after_tls

  -- The bridge comes to supervise its source exactly if the IEC-104 server is built and, with TLS,
  -- the acceptor for the three files is built, the server's address is parsed and the listener is
  -- bound; and then it has made these calls, the latest first: the handlers were installed before
  -- the server was started, and the server before any listener.
  pub main_iff :
      (calls : List (StartCall host))
      → (main host config [] ≡ (ok tt, calls)) ↔ (
          (host.builds (server_spec config) ≡ true)
          × (made : List (StartCall host)) × TlsCalls config.tls_enabled made
          × (calls
              ≡ supervising (settings_of config)
                ∷ metrics_listening (codes "0.0.0.0:" ++ decimal config.metrics_port)
                ∷ (made ++ server_calls)))
  unfolding main spawn_metrics_http_server
  main_iff calls = (
    λ e.
        let (_, u, y, e1) =
          (bind-Yields (build_iec_server host config) after_server [] calls tt).0 e in
        let (built, same) = (build_iec_server-Yields u).0 y in
        let (_, v, y1, e2) =
          (bind-Yields (spawn_tls_listener_if_enabled host config) after_tls u calls tt).0 e1 in
        let (made, t, same1) = (spawn_tls_listener_if_enabled-Yields u v).0 y1 in
        (built, made, t, cc (e2, same, same1)),
    λ (built, made, t, e). (bind-Yields (build_iec_server host config) after_server [] calls tt).1 (
      tt,
      server_calls,
      (build_iec_server-Yields server_calls).1 (built, refl),
      (bind-Yields (spawn_tls_listener_if_enabled host config) after_tls server_calls calls tt).1 (
        tt,
        made ++ server_calls,
        (spawn_tls_listener_if_enabled-Yields server_calls (made ++ server_calls)).1
            (made, t, refl),
        cc e,
      ),
    ),
  )
