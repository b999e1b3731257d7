-- ===== src/Config/Serving.antt =====
-- The settings of the server against the specification.
use iec104bridge.Config.Described.{Numbers, DescribesServer, Blames, NumberKey}
use mathlib.Core.Path.{subst}
use mathlib.Core.Option.{some-injective}
use iec104bridge.Base.{
  ℕ, ◌≡◌, ◌≢◌, inl, inr, ◌↔◌, refl, sym, ◌∙◌, ◌<◌, true, false, Option, none, some, unwrap_or,
  arith, ◌==◌, ==_iff,
}
use iec104bridge.Base.Result.{ok, Meets, bind-Meets, bail-Meets, bind-ok, ◌>>=◌}
use iec104bridge.Environment.{
  Text, codes, Key, Lookup, must_be_positive, Option-map, is_truthy, from_str, parse_with_default,
  parse_optional, parse_bool_with_default,
}
use iec104bridge.Environment.Numeral.{IsNumeral}
use iec104bridge.Config.{
  u16_max, u64_max, from_secs, ServerConfigParts, is_zero, load_server_config,
}
use iec104bridge.Config.Reading.{
  is_truthy-Switches, Switches-is_truthy, parse_with_default-Meets, parse_with_default-ok,
  parse_optional-Meets, parse_optional-ok, parse_bool_with_default-Meets,
  parse_bool_with_default-ok,
}
use iec104bridge.Config.Loading.{zero-Blames, bail-positive, bail-false}

age-Blames :
    (get : Lookup) (age : Option ℕ)
    → Numbers u64_max (get Key.iec104_max_age_seconds) age
    → is_zero age ≡ true
    → Blames get (must_be_positive Key.iec104_max_age_seconds)
unfolding is_zero
age-Blames get none a z = absurd (cc z)
age-Blames get (some n) a z = go (get Key.iec104_max_age_seconds) refl a
  where
    go :
        (o : Option Text)
        → get Key.iec104_max_age_seconds ≡ o
        → Numbers u64_max o (some n)
        → Blames get (must_be_positive Key.iec104_max_age_seconds)
    go none h b = absurd (cc b)
    go (some t) h (m, i, e) =
        let k : m ≡ 0 = sym (some-injective _ _ e) ∙ (==_iff n 0).0 z in
        (inr (inr refl), t, h, u64_max, subst (IsNumeral u64_max t) k i)

is_zero_iff : (o : Option ℕ) → (is_zero o ≡ false) ↔ (o ≢ some 0)
unfolding is_zero
is_zero_iff none = ground arith
is_zero_iff (some n) = ground arith

module _ (get : Lookup) where
  pub load_server_config-Meets : Meets (DescribesServer get) (Blames get) (load_server_config get)
  unfolding load_server_config from_str
  load_server_config-Meets =
      bind-Meets _ _ (parse_with_default get u16_max Key.iec104_queue_size (codes "1024")) _
        (parse_with_default-Meets get u16_max Key.iec104_queue_size (codes "1024") 1024
          NumberKey.queue_size refl)
        λ queue q.
          bail-Meets _ _ (queue == 0) (must_be_positive Key.iec104_queue_size) _
            (zero-Blames get u16_max Key.iec104_queue_size (codes "1024") 1023 queue
              (inr (inl refl)) refl q)
            λ qz.
              bind-Meets _ _ (parse_optional get u64_max Key.iec104_max_age_seconds) _
                (parse_optional-Meets get u64_max Key.iec104_max_age_seconds NumberKey.max_age)
                λ age a.
                  bail-Meets _ _ (is_zero age) (must_be_positive Key.iec104_max_age_seconds) _
                    (age-Blames get age a)
                    λ az. ports-Meets queue age q (ground arith) a ((is_zero_iff age).0 az)
    where
      ports-Meets :
          (queue : ℕ) (age : Option ℕ)
          → IsNumeral u16_max (unwrap_or (get Key.iec104_queue_size) (codes "1024")) queue
          → 0 < queue
          → Numbers u64_max (get Key.iec104_max_age_seconds) age
          → age ≢ some 0
          → Meets (DescribesServer get) (Blames get) (do
            port ← parse_with_default get u16_max Key.iec104_port (codes "2404")
            ca ← parse_with_default get u16_max Key.iec104_ca (codes "1")
            metrics_port ← parse_with_default get u16_max Key.metrics_port (codes "9091")
            timestamps ← parse_bool_with_default get Key.iec104_timestamps true
            ok (
              unwrap_or (get Key.iec104_bind_addr) (codes "0.0.0.0"),
              port,
              ca,
              is_truthy (get Key.iec104_gi_only),
              metrics_port,
              queue,
              timestamps,
              Option-map from_secs age,
            ))
      ports-Meets queue age q qz a az =
          bind-Meets _ _ (parse_with_default get u16_max Key.iec104_port (codes "2404")) _
            (parse_with_default-Meets get u16_max Key.iec104_port (codes "2404") 2404
              NumberKey.server_port refl)
            λ port p.
              bind-Meets _ _ (parse_with_default get u16_max Key.iec104_ca (codes "1")) _
                (parse_with_default-Meets get u16_max Key.iec104_ca (codes "1") 1
                  NumberKey.common_address refl)
                λ ca c.
                  bind-Meets _ _ (parse_with_default get u16_max Key.metrics_port (codes "9091")) _
                    (parse_with_default-Meets get u16_max Key.metrics_port (codes "9091") 9091
                      NumberKey.metrics refl)
                    λ metrics m.
                      bind-Meets _ _ (parse_bool_with_default get Key.iec104_timestamps true) _
                        (parse_bool_with_default-Meets get)
                        λ timestamps t. (
                          refl,
                          p,
                          c,
                          is_truthy-Switches (get Key.iec104_gi_only),
                          m,
                          q,
                          qz,
                          t,
                          age,
                          a,
                          az,
                          refl,
                        )

  pub load_server_config-ok :
      (parts : ServerConfigParts) → DescribesServer get parts → load_server_config get ≡ ok parts
  unfolding load_server_config
  load_server_config-ok parts (a, p, c, g, m, q, qz, t, seconds, s, sz, e) =
      let (addr, port, ca, gi_only, metrics, queue, timestamps, age) = parts in
      bind-ok _ _ queue _
        (parse_with_default-ok get u16_max Key.iec104_queue_size (codes "1024") queue q)
        (bind-ok _ _ tt _ (bail-positive queue (must_be_positive Key.iec104_queue_size) qz) (
          bind-ok _ _ seconds _ (parse_optional-ok get u64_max Key.iec104_max_age_seconds seconds s)
            (bind-ok _ _ tt _ (bail-false _ _ ((is_zero_iff seconds).1 sz)) (
              bind-ok _ _ port _
                (parse_with_default-ok get u16_max Key.iec104_port (codes "2404") port p)
                (bind-ok _ _ ca _ (parse_with_default-ok get u16_max Key.iec104_ca (codes "1") ca c)
                  (bind-ok _ _ metrics _
                    (parse_with_default-ok get u16_max Key.metrics_port (codes "9091") metrics m)
                    (bind-ok _ _ timestamps _ (parse_bool_with_default-ok get timestamps t)
                      (rw (a, e, Switches-is_truthy (get Key.iec104_gi_only) gi_only g) refl))))))))
