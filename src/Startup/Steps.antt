-- ===== src/Startup/Steps.antt =====
-- What the actions of the start yield, step by step.
use iec104bridge.Base.{
  ◌≡◌, ◌↔◌, refl, ap, ◌∙◌, Bool, true, false, Option, none, some, List, ◌∷◌, if◌then◌else◌,
}
use iec104bridge.Base.Result.{Result, ok, err}
use iec104bridge.Tls.{TlsError}
use iec104bridge.Startup.{
  Host, StartError, StartCall, Start, then_after, call, demand, pure, fail, lift_tls, ◌>>◌, ◌>>=◌,
}

module _ {host : Host} where
  -- The action yields the value, and these are the calls after it.
  abbrev pub Yields :
      {A : Type 0} → Start host A → List (StartCall host) → A → List (StartCall host) → Type 0
  Yields m calls a after = m calls ≡ (ok a, after)

  pub bind-Yields :
      {A B : Type 0} (m : Start host A) (f : A → Start host B) (calls after : List (StartCall host))
      (b : B)
      → Yields (m >>= f) calls b after ↔ (
          (a : A) × (mid : List (StartCall host)) × Yields m calls a mid × Yields (f a) mid b after)
  bind-Yields m f calls after b = go (m calls)
    where
      go :
          (r : Result StartError _ × List (StartCall host))
          → (then_after r f ≡ (ok b, after)) ↔ (
              (a : _) × (mid : List (StartCall host)) × (r ≡ (ok a, mid))
              × (f a mid ≡ (ok b, after)))
      go (ok a, u) = (λ e. (a, u, refl, e), λ (x, v, k, e). ap (λ r. then_after r f) k ∙ e)
      go (err e, u) = (λ k. absurd (cc k), λ (x, v, k, _). absurd (cc k))

  pub demand-Yields :
      {A : Type 0} (e : StartError) (o : Option A) (calls after : List (StartCall host)) (a : A)
      → Yields (demand e o) calls a after ↔ ((o ≡ some a) × (calls ≡ after))
  demand-Yields e none calls after a = (λ k. absurd (cc k), λ (k, _). absurd (cc k))
  demand-Yields e (some x) calls after a = (λ k. (cc k, cc k), λ (k, l). cc (k, l))

  pub lift_tls-Yields :
      {A : Type 0} (r : Result TlsError A) (calls after : List (StartCall host)) (a : A)
      → Yields (lift_tls r) calls a after ↔ ((r ≡ ok a) × (calls ≡ after))
  lift_tls-Yields (err e) calls after a = (λ k. absurd (cc k), λ (k, _). absurd (cc k))
  lift_tls-Yields (ok x) calls after a = (λ k. (cc k, cc k), λ (k, l). cc (k, l))

  pub test-Yields :
      (b : Bool) (e : StartError) (c : StartCall host) (calls after : List (StartCall host))
      → Yields ((if b then pure tt else fail e) >> call c) calls tt after
        ↔ ((b ≡ true) × (c ∷ calls ≡ after))
  test-Yields true e c calls after = (λ k. (refl, cc k), λ (_, k). cc k)
  test-Yields false e c calls after = (λ k. absurd (cc k), λ (k, _). absurd (cc k))
