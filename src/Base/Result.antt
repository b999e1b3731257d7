-- ===== src/Base/Result.antt =====
-- `Result`, and the `?` of the source as a bind.
use mathlib.Core.Path.{◌≡◌, refl, ap, ◌∙◌}
use mathlib.Core.Logic.{◌↔◌}
use mathlib.Core.Option.{Option, none, some}
use mathlib.Core.Bool.{Bool, true, false}

pub data Result {ℓ} (E : Type 0) (A : Type ℓ) : Type ℓ where
  ok : A → Result E A
  err : E → Result E A

infixl 5 ◌>>=◌ ◌>>◌
abbrev pub ◌>>=◌ {ℓ κ} :
    {E : Type 0} {A : Type ℓ} {B : Type κ} → Result E A → (A → Result E B) → Result E B
ok a >>= f = f a
err e >>= f = err e

abbrev pub ◌>>◌ {ℓ} : {E : Type 0} {B : Type ℓ} → Result E (Unit {0}) → Result E B → Result E B
m >> k = m >>= λ _. k

-- `if test { bail!(e) }`
abbrev pub bail_if : {E : Type 0} → Bool → E → Result E (Unit {0})
bail_if true e = err e
bail_if false e = ok tt

-- A result is a value with the one property or an error with the other.
abbrev pub Meets {ℓ} : {E : Type 0} {A : Type ℓ} → (A → Type 0) → (E → Type 0) → Result E A → Type 0
Meets P Q (ok a) = P a
Meets P Q (err e) = Q e

pub bind-Meets {ℓ κ} :
    {E : Type 0} {A : Type ℓ} {B : Type κ} {P : A → Type 0} (R : B → Type 0) (Q : E → Type 0)
    (m : Result E A) (f : A → Result E B)
    → Meets P Q m
    → ((a : A) → P a → Meets R Q (f a))
    → Meets R Q (m >>= f)
bind-Meets R Q (ok a) f p h = h a p
bind-Meets R Q (err e) f q h = q

pub bail-Meets {ℓ} :
    {E : Type 0} {A : Type ℓ} (R : A → Type 0) (Q : E → Type 0) (b : Bool) (e : E) (m : Result E A)
    → (b ≡ true → Q e)
    → (b ≡ false → Meets R Q m)
    → Meets R Q (bail_if b e >> m)
bail-Meets R Q true e m q h = q refl
bail-Meets R Q false e m q h = h refl

pub bind-ok {ℓ κ} :
    {E : Type 0} {A : Type ℓ} {B : Type κ} (m : Result E A) (f : A → Result E B) (a : A)
    (r : Result E B)
    → m ≡ ok a
    → f a ≡ r
    → (m >>= f) ≡ r
bind-ok m f a r e h = rw e h

-- `ok_or` of an option.
abbrev pub ok_or : {E A : Type 0} → Option A → E → Result E A
ok_or none e = err e
ok_or (some a) e = ok a

pub bind_iff :
    {E A B : Type 0} (m : Result E A) (f : A → Result E B) (b : B)
    → ((m >>= f) ≡ ok b) ↔ ((a : A) × (m ≡ ok a) × (f a ≡ ok b))
bind_iff (ok a) f b = (λ e. (a, refl, e), λ (x, k, e). ap f (cc k) ∙ e)
bind_iff (err e) f b = (λ k. absurd (cc k), λ (x, k, _). absurd (cc k))

pub ok_or_iff : {E A : Type 0} (o : Option A) (e : E) (a : A) → (ok_or o e ≡ ok a) ↔ (o ≡ some a)
ok_or_iff none e a = (λ k. absurd (cc k), λ k. absurd (cc k))
ok_or_iff (some x) e a = (λ k. cc k, λ k. cc k)
