-- ===== src/Environment/Numeral.antt =====
-- Which texts are numbers.
use native.Mathlib.Numerals.{unary_clauses}
use iec104bridge.Base.{
  ℕ, zero, suc, ◌+◌, ◌-◌, ◌*◌, ◌^◌, ◌≤◌, ◌≡◌, ◌≢◌, ◌↔◌, ap, ◌∙◌, ◌⊎◌, inl, inr, ◌&&◌, refl, true,
  false, some, [], ◌∷◌, All, length, arith, leb,
}
use iec104bridge.Environment.{Text, is_digit, digits, nonempty_digits, unsigned, from_str}

-- The digits' sum, each times its power of ten.
abbrev pub decimal_value : Text → ℕ
decimal_value [] = 0
decimal_value (c ∷ cs) = (c - b'0') * 10 ^ length cs + decimal_value cs

abbrev pub IsDigit : ℕ → Type 0
IsDigit c = (b'0' ≤ c) × (c ≤ b'9')

-- The text, less a plus sign, is digits that write `n`, which is at most `max`.
abbrev pub IsNumeral : ℕ → Text → ℕ → Type 0
IsNumeral max t n =
    (unsigned t ≢ []) × All IsDigit (unsigned t) × (decimal_value (unsigned t) ≡ n) × (n ≤ max)

pow_pos : (n : ℕ) → 1 ≤ 10 ^ n
pow_pos zero = omega arith
pow_pos (suc n) = let ih = pow_pos n in omega arith

distributed : (a d p : ℕ) → (a * 10 + d) * p ≡ a * (p * 10) + d * p
distributed a d p = omega arith

horner : (acc d n : ℕ) → (acc * 10 + d) * 10 ^ n ≡ acc * 10 ^ suc n + d * 10 ^ n
horner acc d n = simp unary_clauses (distributed acc d (10 ^ n))

le_mul : (a p : ℕ) → 1 ≤ p → a ≤ a * p
le_mul a zero h = omega arith
le_mul a (suc p) h = omega arith

fits_cases :
    (max acc c : ℕ)
    → (((is_digit c && leb (acc * 10 + (c - b'0')) max) ≡ true)
        × IsDigit c
        × (acc * 10 + (c - b'0') ≤ max))
      ⊎ (((is_digit c && leb (acc * 10 + (c - b'0')) max) ≡ false)
          × (¬ (IsDigit c × (acc * 10 + (c - b'0') ≤ max))))
unfolding is_digit
fits_cases max acc c = ground arith

digits-IsDigit :
    (max acc : ℕ) (t : Text) (n : ℕ)
    → digits max acc t ≡ some n
    → acc ≤ max
    → All IsDigit t × (acc * 10 ^ length t + decimal_value t ≡ n) × (n ≤ max)
unfolding digits
digits-IsDigit max acc [] n e h = ground arith
digits-IsDigit max acc (c ∷ cs) n e h = elim (fits_cases max acc c) [
  | inl (w, d, l) ↦
      let (a, v, b) = digits-IsDigit max (acc * 10 + (c - b'0')) cs n (cc (w, e)) l in
      ((d, a), omega (arith, v, horner acc (c - b'0') (length cs)), b)
  | inr (w, _) ↦ absurd (cc (w, e))
]

digits-some :
    (max acc : ℕ) (t : Text)
    → All IsDigit t
    → acc * 10 ^ length t + decimal_value t ≤ max
    → digits max acc t ≡ some (acc * 10 ^ length t + decimal_value t)
unfolding digits
digits-some max acc [] a h = ground arith
digits-some max acc (c ∷ cs) (d, a) h =
    let k = horner acc (c - b'0') (length cs) in
    let l : acc * 10 + (c - b'0') ≤ max =
      omega (arith, k, h, le_mul (acc * 10 + (c - b'0')) (10 ^ length cs) (pow_pos (length cs))) in
    elim (fits_cases max acc c) [
      | inl (w, _, _) ↦ rw w (
          digits-some max (acc * 10 + (c - b'0')) cs a (omega (arith, k, h))
          ∙ ap some (omega (arith, k)))
      | inr (_, never) ↦ absurd (never (d, l))
    ]

nonempty_digits_iff :
    (max : ℕ) (t : Text) (n : ℕ)
    → (nonempty_digits max t ≡ some n)
      ↔ ((t ≢ []) × All IsDigit t × (decimal_value t ≡ n) × (n ≤ max))
unfolding nonempty_digits
nonempty_digits_iff max [] n = (λ e. cc, λ (h, _, _, _). absurd (h refl))
nonempty_digits_iff max (c ∷ cs) n = (
  λ e.
      let (a, v, b) = digits-IsDigit max 0 (c ∷ cs) n e (omega arith) in
      ((λ k. cc), a, omega (arith, v), b),
  λ (_, a, v, b). digits-some max 0 (c ∷ cs) a (omega (arith, v, b)) ∙ ap some (omega (arith, v)),
)

-- A text is read as a number exactly if, less a plus sign at its front, it is at least one digit and
-- nothing else, and the digits write that number, which is at most the bound of its type.
pub from_str_iff : (max : ℕ) (t : Text) (n : ℕ) → (from_str max t ≡ some n) ↔ IsNumeral max t n
unfolding from_str
from_str_iff max t n = nonempty_digits_iff max (unsigned t) n
