-- ===== src/Startup/Runs.antt =====
-- Reasoning about actions of the start: what holds of every call that is made, of the value and of
-- the error.
use iec104bridge.Base.{◌≡◌, refl, Bool, true, false, Option, none, some, List, All, if◌then◌else◌}
use iec104bridge.Base.Result.{Result, ok, err, Meets}
use iec104bridge.Tls.{TlsError}
use iec104bridge.Startup.{
  Host, StartError, tls_failure, StartCall, Start, then_after, ◌>>=◌, ◌>>◌, pure, fail, call,
  demand, lift_tls,
}

module _ {host : Host} (P : StartCall host → Type 0) (E : StartError → Type 0) where
  -- All calls have `P` if those before have, a value has `Q`, and an error has `E`.
  abbrev pub Runs : {A : Type 0} → (A → Type 0) → Start host A → Type 0
  Runs Q m =
      (calls : List (StartCall host)) → All P calls → All P (m calls).1 × Meets Q E (m calls).0

  pub bind-Runs :
      {A B : Type 0} (Q : A → Type 0) (R : B → Type 0) (m : Start host A) (f : A → Start host B)
      → Runs Q m
      → ((a : A) → Q a → Runs R (f a))
      → Runs R (m >>= f)
  bind-Runs Q R m f h k calls c = go (m calls) (h calls c)
    where
      go :
          (r : Result StartError _ × List (StartCall host))
          → All P r.1 × Meets Q E r.0
          → All P (then_after r f).1 × Meets R E (then_after r f).0
      go (ok a, u) (c, q) = k a q u c
      go (err e, u) (c, q) = (c, q)

  pub demand-Runs :
      {A : Type 0} (e : StartError) (o : Option A)
      → (o ≡ none → E e)
      → Runs (λ a. o ≡ some a) (demand e o)
  demand-Runs e none h calls c = (c, h refl)
  demand-Runs e (some a) h calls c = (c, refl)

  pub lift_tls-Runs :
      {A : Type 0} (m : Result TlsError A)
      → ((e : TlsError) → m ≡ err e → E (tls_failure e))
      → Runs (λ a. m ≡ ok a) (lift_tls m)
  lift_tls-Runs (ok a) h calls c = (c, refl)
  lift_tls-Runs (err e) h calls c = (c, h e refl)

  -- A call that is made if a test succeeds.
  pub test-Runs :
      (b : Bool) (e : StartError) (c : StartCall host)
      → E e
      → P c
      → Runs (λ _. Unit) ((if b then pure tt else fail e) >> call c)
  test-Runs true e c h p calls k = ((p, k), tt)
  test-Runs false e c h p calls k = (k, h)

  pub if-Runs :
      {A : Type 0} (Q : A → Type 0) (b : Bool) (m n : Start host A)
      → (b ≡ true → Runs Q m)
      → (b ≡ false → Runs Q n)
      → Runs Q (if b then m else n)
  if-Runs Q true m n h k = h refl
  if-Runs Q false m n h k = k refl
