-- ===== src/Config/Loading.antt =====
-- The input settings (transport, NATS and socket) against the specification.
use iec104bridge.Config.Described.{
  IsPositiveKey, Transports, Consumes, DescribesNats, DescribesSocket, Blames, NumberKey,
}
use mathlib.Core.Path.{subst}
use mathlib.Core.Option.{some-injective}
use iec104bridge.Base.{
  ℕ, suc, ◌≡◌, ◌⊎◌, inl, inr, refl, sym, ◌∙◌, ◌<◌, Bool, true, false, Option, none, some, unwrap_or,
  Bool-cases, arith, ◌==◌, ==_iff,
}
use iec104bridge.Base.Result.{ok, Meets, bind-Meets, bail-Meets, bind-ok, ◌>>=◌, bail_if}
use iec104bridge.Environment.{
  Text, codes, Key, Lookup, ConfigError, must_be_positive, same, from_str, parse_with_default,
  parse_optional, required, present,
}
use iec104bridge.Environment.Numeral.{IsNumeral, from_str_iff}
use iec104bridge.Config.{
  InputTransport, nats, unix_socket, u32_max, u64_max, NatsConfigParts, UnixSocketConfigParts,
  parse_transport, load_input_transport, load_nats_consumer_parts, load_nats_config,
  load_unix_socket_max_line_bytes, load_unix_socket_config,
}
use iec104bridge.Config.Reading.{
  same_iff, parse_with_default-Meets, parse_with_default-ok, parse_optional-Meets,
  parse_optional-ok,
}

neither :
    (t : Text)
    → same t (codes "nats") ≡ false
    → same t (codes "unix_socket") ≡ false
    → (i : InputTransport) → ¬ Transports t i
neither t y z nats k = cc (y, (same_iff t (codes "nats")).1 k)
neither t y z unix_socket k = cc (z, (same_iff t (codes "unix_socket")).1 k)

present-some : (key : Key) (o : Option Text) (v : Text) → o ≡ some v → present key o ≡ ok v
unfolding present
present-some key o v e = rw e refl

pub bail-false : (b : Bool) (e : ConfigError) → b ≡ false → bail_if b e ≡ ok tt
bail-false b e h = rw h refl

pub bail-positive : (n : ℕ) (e : ConfigError) → 0 < n → bail_if (n == 0) e ≡ ok tt
bail-positive n e h = bail-false (n == 0) e (ground arith)

module _ (get : Lookup) where
  pub load_input_transport-Meets :
      Meets
        (Transports (unwrap_or (get Key.input_transport) (codes "nats")))
        (Blames get)
        (load_input_transport get)
  unfolding load_input_transport parse_transport same
  load_input_transport-Meets = go (get Key.input_transport) refl
    where
      read :
          (t : Text)
          → get Key.input_transport ≡ some t
          → Meets (Transports t) (Blames get) (parse_transport t)
      read t h = elim (Bool-cases (same t (codes "nats"))) [
        | inl y ↦ rw y ((same_iff t (codes "nats")).0 y)
        | inr y ↦ elim (Bool-cases (same t (codes "unix_socket"))) [
          | inl z ↦ rw (y, z) ((same_iff t (codes "unix_socket")).0 z)
          | inr z ↦ rw (y, z) (t, h, neither t y z)
        ]
      ]

      go :
          (o : Option Text)
          → get Key.input_transport ≡ o
          → Meets
              (Transports (unwrap_or o (codes "nats")))
              (Blames get)
              (parse_transport (unwrap_or o (codes "nats")))
      go none e = refl
      go (some t) e = read t e

  pub load_input_transport-ok :
      (t : InputTransport)
      → Transports (unwrap_or (get Key.input_transport) (codes "nats")) t
      → load_input_transport get ≡ ok t
  unfolding load_input_transport parse_transport same
  load_input_transport-ok nats e = rw e refl
  load_input_transport-ok unix_socket e = rw e refl

  required-Meets :
      (key : Key)
      → (key ≡ Key.nats_stream) ⊎ (key ≡ Key.nats_consumer)
      → unwrap_or (get Key.input_transport) (codes "nats") ≡ codes "nats"
      → Meets (λ v. get key ≡ some v) (Blames get) (required get key)
  unfolding required present
  required-Meets key k t = go (get key) refl
    where
      go :
          (o : Option Text)
          → get key ≡ o
          → Meets (λ v. get key ≡ some v) (Blames get) (present key o)
      go none e = (k, e, t)
      go (some v) e = e

  pub load_nats_config-Meets :
      (t : InputTransport)
      → Transports (unwrap_or (get Key.input_transport) (codes "nats")) t
      → Meets (DescribesNats get t) (Blames get) (load_nats_config get t)
  unfolding load_nats_config load_nats_consumer_parts
  load_nats_config-Meets nats h =
      bind-Meets {P = λ p. Consumes get nats p.0 p.1} _ _
        (do
          stream ← required get Key.nats_stream
          consumer ← required get Key.nats_consumer
          ok (stream, consumer))
        _
        (bind-Meets _ _ (required get Key.nats_stream) _
          (required-Meets Key.nats_stream (inl refl) h)
          λ stream a.
            bind-Meets _ _ (required get Key.nats_consumer) _
              (required-Meets Key.nats_consumer (inr refl) h) λ consumer b. (a, b))
        (λ p a. (a, refl, refl, refl))
  load_nats_config-Meets unix_socket h = ((refl, refl), refl, refl, refl)

  pub load_nats_config-ok :
      (t : InputTransport) (parts : NatsConfigParts)
      → DescribesNats get t parts
      → load_nats_config get t ≡ ok parts
  unfolding load_nats_config load_nats_consumer_parts required present
  load_nats_config-ok nats parts ((a, b), c, d, e) = rw (a, b, c, d, e) refl
  load_nats_config-ok unix_socket parts ((a, b), c, d, e) = rw (a, b, c, d, e) refl

  -- A number that must be positive and is zero was written so.
  pub zero-Blames :
      (max : ℕ) (key : Key) (d : Text) (m n : ℕ)
      → IsPositiveKey key
      → from_str max d ≡ some (suc m)
      → IsNumeral max (unwrap_or (get key) d) n
      → (n == 0) ≡ true
      → Blames get (must_be_positive key)
  zero-Blames max key d m n k e a z = go (get key) refl a
    where
      n_zero : n ≡ 0
      n_zero = (==_iff n 0).0 z

      go :
          (o : Option Text)
          → get key ≡ o
          → IsNumeral max (unwrap_or o d) n
          → Blames get (must_be_positive key)
      go none h b =
          let c = (from_str_iff max d n).1 b in
          let k' : suc m ≡ n = some-injective _ _ (sym e ∙ c) in absurd (omega (arith, k', n_zero))
      go (some t) h b = (k, t, h, max, subst (IsNumeral max t) n_zero b)

  max_line_bytes-Meets :
      Meets
        (λ n.
          IsNumeral u64_max (unwrap_or (get Key.unix_socket_max_line_bytes) (codes "65536")) n
          × (0 < n))
        (Blames get)
        (load_unix_socket_max_line_bytes get)
  unfolding load_unix_socket_max_line_bytes from_str
  max_line_bytes-Meets =
      bind-Meets _ _ (parse_with_default get u64_max Key.unix_socket_max_line_bytes (codes "65536"))
        _
        (parse_with_default-Meets get u64_max Key.unix_socket_max_line_bytes (codes "65536") 65536
          NumberKey.max_line refl)
        λ n a.
          bail-Meets _ _ (n == 0) (must_be_positive Key.unix_socket_max_line_bytes) (ok n)
            (zero-Blames u64_max Key.unix_socket_max_line_bytes (codes "65536") 65535 n (inl refl)
              refl a)
            λ z. (a, ground arith)

  pub load_unix_socket_config-Meets :
      Meets (DescribesSocket get) (Blames get) (load_unix_socket_config get)
  unfolding load_unix_socket_config
  load_unix_socket_config-Meets =
      bind-Meets _ _ (load_unix_socket_max_line_bytes get) _ max_line_bytes-Meets λ n (a, p).
        bind-Meets _ _ (parse_optional get u32_max Key.unix_socket_allowed_uid) _
          (parse_optional-Meets get u32_max Key.unix_socket_allowed_uid NumberKey.allowed_uid)
          λ uid b.
            bind-Meets _ _ (parse_optional get u32_max Key.unix_socket_allowed_gid) _
              (parse_optional-Meets get u32_max Key.unix_socket_allowed_gid NumberKey.allowed_gid)
              λ gid c. (refl, b, c, a, p)

  pub load_unix_socket_config-ok :
      (parts : UnixSocketConfigParts)
      → DescribesSocket get parts
      → load_unix_socket_config get ≡ ok parts
  unfolding load_unix_socket_config load_unix_socket_max_line_bytes
  load_unix_socket_config-ok parts (a, b, c, d, e) =
      let (path, uid, gid, n) = parts in
      bind-ok _ _ n _
        (bind-ok _ _ n _
          (parse_with_default-ok get u64_max Key.unix_socket_max_line_bytes (codes "65536") n d)
          (bind-ok _ _ tt _ (bail-positive n (must_be_positive Key.unix_socket_max_line_bytes) e)
            refl))
        (bind-ok _ _ uid _ (parse_optional-ok get u32_max Key.unix_socket_allowed_uid uid b) (
          bind-ok _ _ gid _ (parse_optional-ok get u32_max Key.unix_socket_allowed_gid gid c)
            (rw a refl)))
