-- ===== src/Config/Securing.antt =====
-- The settings of TLS against the specification.
use iec104bridge.Config.Described.{Switches, Secures, DescribesTls, Blames, NumberKey}
use iec104bridge.Base.{◌≡◌, ◌≢◌, ◌⊎◌, inl, inr, refl, sym, Bool, true, false, Option, none, some}
use iec104bridge.Base.Result.{ok, Meets, bind-Meets, bind-ok}
use iec104bridge.Environment.{
  Text, codes, Key, Lookup, is_truthy, from_str, parse_with_default, require_present,
}
use iec104bridge.Config.{u16_max, TlsConfigParts, validate_tls_paths, load_tls_config}
use iec104bridge.Config.Reading.{
  is_truthy-Switches, Switches-is_truthy, parse_with_default-Meets, parse_with_default-ok,
}

module _ (get : Lookup) where
  require_present-Meets :
      (key : Key)
      → (key ≡ Key.tls_cert_path) ⊎ (key ≡ Key.tls_key_path) ⊎ (key ≡ Key.tls_ca_cert_path)
      → Switches (get Key.tls_enabled) true
      → Meets (λ _. get key ≢ none) (Blames get) (require_present (get key) key)
  unfolding require_present
  require_present-Meets key k t = go (get key) refl
    where
      go :
          (o : Option Text)
          → get key ≡ o
          → Meets (λ _. get key ≢ none) (Blames get) (require_present o key)
      go none e = (k, e, t)
      go (some v) e = λ h. cc (e, h)

  validate_tls_paths-Meets :
      (b : Bool)
      → Switches (get Key.tls_enabled) b
      → Meets
          (λ _. Secures b (get Key.tls_cert_path) (get Key.tls_key_path) (get Key.tls_ca_cert_path))
          (Blames get)
          (validate_tls_paths b
            (get Key.tls_cert_path)
            (get Key.tls_key_path)
            (get Key.tls_ca_cert_path))
  unfolding validate_tls_paths
  validate_tls_paths-Meets false t = tt
  validate_tls_paths-Meets true t =
      bind-Meets _ _ (require_present (get Key.tls_cert_path) Key.tls_cert_path) _
        (require_present-Meets Key.tls_cert_path (inl refl) t)
        λ _ a.
          bind-Meets _ _ (require_present (get Key.tls_key_path) Key.tls_key_path) _
            (require_present-Meets Key.tls_key_path (inr (inl refl)) t)
            λ _ b.
              bind-Meets _ _ (require_present (get Key.tls_ca_cert_path) Key.tls_ca_cert_path) _
                (require_present-Meets Key.tls_ca_cert_path (inr (inr refl)) t) λ _ c. (a, b, c)

  pub load_tls_config-Meets : Meets (DescribesTls get) (Blames get) (load_tls_config get)
  unfolding load_tls_config from_str
  load_tls_config-Meets =
      let switched = is_truthy-Switches (get Key.tls_enabled) in
      bind-Meets _ _
        (validate_tls_paths (is_truthy (get Key.tls_enabled)) (get Key.tls_cert_path)
          (get Key.tls_key_path) (get Key.tls_ca_cert_path))
        _ (validate_tls_paths-Meets (is_truthy (get Key.tls_enabled)) switched)
        λ _ a.
          bind-Meets _ _ (parse_with_default get u16_max Key.tls_port (codes "19998")) _
            (parse_with_default-Meets get u16_max Key.tls_port (codes "19998") 19998 NumberKey.tls
              refl)
            λ port p. (switched, refl, refl, refl, a, p)

require_present-ok : (o : Option Text) (key : Key) → o ≢ none → require_present o key ≡ ok tt
unfolding require_present
require_present-ok none key h = absurd (h refl)
require_present-ok (some v) key h = refl

validate_tls_paths-ok :
    (b : Bool) (cert key ca : Option Text)
    → Secures b cert key ca
    → validate_tls_paths b cert key ca ≡ ok tt
unfolding validate_tls_paths
validate_tls_paths-ok false cert key ca h = refl
validate_tls_paths-ok true cert key ca (a, b, c) =
    bind-ok _ _ tt _ (require_present-ok cert Key.tls_cert_path a) (
      bind-ok _ _ tt _ (require_present-ok key Key.tls_key_path b)
        (bind-ok _ _ tt _ (require_present-ok ca Key.tls_ca_cert_path c) refl))

pub load_tls_config-ok :
    (get : Lookup) (parts : TlsConfigParts)
    → DescribesTls get parts
    → load_tls_config get ≡ ok parts
unfolding load_tls_config
load_tls_config-ok get parts (s, a, b, c, secured, p) =
    let (enabled, cert, key, ca, port) = parts in
    let k = Switches-is_truthy (get Key.tls_enabled) enabled s in
    let valid : validate_tls_paths (is_truthy (get Key.tls_enabled)) (get Key.tls_cert_path)
          (get Key.tls_key_path) (get Key.tls_ca_cert_path)
        ≡ ok tt =
      rw (k, sym a, sym b, sym c) (validate_tls_paths-ok enabled cert key ca secured) in
    bind-ok _ _ tt _ valid (
      bind-ok _ _ port _ (parse_with_default-ok get u16_max Key.tls_port (codes "19998") port p)
        (rw (a, b, c, k) refl))
