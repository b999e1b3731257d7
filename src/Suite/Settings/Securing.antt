-- ===== src/Suite/Settings/Securing.antt =====
-- The tests of the configuration of TLS (config.rs).
use iec104bridge.Base.{All, ◌≡◌, refl, true, false, none, some, [], ◌∷◌}
use iec104bridge.Environment.{codes}
use iec104bridge.Suite.{IsOk, IsErr}
use iec104bridge.Suite.Settings.{insert, required, from_map}

TlsDisabledByDefault : Type 0
TlsDisabledByDefault = IsOk (from_map required) (λ cfg.
    (cfg.tls_enabled ≡ false)
    × (cfg.tls_port ≡ 19998)
    × (cfg.tls_cert_path ≡ none)
    × (cfg.tls_key_path ≡ none)
    × (cfg.tls_ca_cert_path ≡ none))

tls_disabled_by_default : TlsDisabledByDefault
unfolding TlsDisabledByDefault from_map
tls_disabled_by_default = (refl, refl, refl, refl, refl)

TlsEnabledRequiresCertPath : Type 0
TlsEnabledRequiresCertPath = IsErr (
    from_map (
      insert (codes "TLS_CA_CERT_PATH") (codes "/ca.pem") (
        insert (codes "TLS_KEY_PATH") (codes "/key.pem")
          (insert (codes "TLS_ENABLED") (codes "true") required))))

tls_enabled_requires_cert_path : TlsEnabledRequiresCertPath
unfolding TlsEnabledRequiresCertPath from_map
tls_enabled_requires_cert_path = tt

TlsEnabledRequiresKeyPath : Type 0
TlsEnabledRequiresKeyPath = IsErr (
    from_map (
      insert (codes "TLS_CA_CERT_PATH") (codes "/ca.pem") (
        insert (codes "TLS_CERT_PATH") (codes "/cert.pem")
          (insert (codes "TLS_ENABLED") (codes "true") required))))

tls_enabled_requires_key_path : TlsEnabledRequiresKeyPath
unfolding TlsEnabledRequiresKeyPath from_map
tls_enabled_requires_key_path = tt

TlsEnabledRequiresCaCertPath : Type 0
TlsEnabledRequiresCaCertPath = IsErr (
    from_map (
      insert (codes "TLS_KEY_PATH") (codes "/key.pem") (
        insert (codes "TLS_CERT_PATH") (codes "/cert.pem")
          (insert (codes "TLS_ENABLED") (codes "true") required))))

tls_enabled_requires_ca_cert_path : TlsEnabledRequiresCaCertPath
unfolding TlsEnabledRequiresCaCertPath from_map
tls_enabled_requires_ca_cert_path = tt

TlsEnabledWithAllPathsOk : Type 0
TlsEnabledWithAllPathsOk =
    IsOk
      (from_map (
        insert (codes "TLS_CA_CERT_PATH") (codes "/ca.pem") (
          insert (codes "TLS_KEY_PATH") (codes "/key.pem") (
            insert (codes "TLS_CERT_PATH") (codes "/cert.pem")
              (insert (codes "TLS_ENABLED") (codes "true") required)))))
      (λ cfg.
        (cfg.tls_enabled ≡ true)
        × (cfg.tls_cert_path ≡ some (codes "/cert.pem"))
        × (cfg.tls_key_path ≡ some (codes "/key.pem"))
        × (cfg.tls_ca_cert_path ≡ some (codes "/ca.pem")))

tls_enabled_with_all_paths_ok : TlsEnabledWithAllPathsOk
unfolding TlsEnabledWithAllPathsOk from_map
tls_enabled_with_all_paths_ok = (refl, refl, refl, refl)

TlsEnabledTruthyValues : Type 0
TlsEnabledTruthyValues =
    All
      (λ val.
        IsOk
          (from_map (
            insert (codes "TLS_CA_CERT_PATH") (codes "/ca.pem") (
              insert (codes "TLS_KEY_PATH") (codes "/k.pem") (
                insert (codes "TLS_CERT_PATH") (codes "/c.pem")
                  (insert (codes "TLS_ENABLED") val required)))))
          (λ cfg. cfg.tls_enabled ≡ true))
      (codes "true" ∷ codes "1" ∷ codes "yes" ∷ codes "True" ∷ codes "TRUE" ∷ codes "YES" ∷ [])

tls_enabled_truthy_values : TlsEnabledTruthyValues
unfolding TlsEnabledTruthyValues from_map
tls_enabled_truthy_values = (refl, (refl, (refl, (refl, (refl, (refl, tt))))))

CustomTlsPort : Type 0
CustomTlsPort =
    IsOk (from_map (insert (codes "TLS_PORT") (codes "8883") required))
      (λ cfg. (cfg.tls_port ≡ 8883))

custom_tls_port : CustomTlsPort
unfolding CustomTlsPort from_map
custom_tls_port = refl
