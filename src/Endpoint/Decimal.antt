-- ===== src/Endpoint/Decimal.antt =====
-- What is printed is read back.
use native.Mathlib.Numerals.{unary_clauses}
use iec104bridge.Base.{
  ℕ, zero, suc, ◌+◌, ◌-◌, ◌*◌, ◌/◌, ◌%◌, ◌^◌, ◌≤◌, ◌<◌, ◌≡◌, ◌≢◌, refl, inl, inr, some, [], ◌∷◌,
  ◌++◌, All, All-append, length, length-append, ltb, ltb→lt, lt→ltb, Bool-cases, arith, ap, ◌∙◌,
}
use iec104bridge.Environment.{Text, from_str, unsigned}
use iec104bridge.Environment.Numeral.{IsDigit, decimal_value, from_str_iff}
use iec104bridge.Config.{u64_max}
use iec104bridge.Endpoint.{digits_of, decimal}

regroup : (d p : ℕ) → d * (p * 10) ≡ d * p * 10
regroup d p = omega arith

tenth-lt : (n p : ℕ) → n < p * 10 → n / 10 < p
tenth-lt n p h = omega arith

tenth-lt-power : (n f : ℕ) → n < 10 ^ suc f → n / 10 < 10 ^ f
tenth-lt-power n f h = tenth-lt n (10 ^ f) (simp unary_clauses at h)

power_step : (d n : ℕ) → d * 10 ^ suc n ≡ d * 10 ^ n * 10
power_step d n = simp unary_clauses (regroup d (10 ^ n))

decimal_value-append :
    (xs : Text) (c : ℕ) → decimal_value (xs ++ c ∷ []) ≡ decimal_value xs * 10 + (c - b'0')
decimal_value-append [] c = omega arith
decimal_value-append (x ∷ xs) c =
    let n = length-append xs (c ∷ []) in
    let e : length (xs ++ c ∷ []) ≡ suc (length xs) = omega (arith, n) in
    rw e (omega (arith, power_step (x - b'0') (length xs), decimal_value-append xs c))

digits_of-IsDigit : (f n : ℕ) → All IsDigit (digits_of f n)
unfolding digits_of
digits_of-IsDigit zero n = tt
digits_of-IsDigit (suc f) n = elim (Bool-cases (ltb n 10)) [
  | inl y ↦ rw y ((omega arith, omega (arith, ltb→lt n 10 y)), tt)
  | inr y ↦
      rw y
        (All-append IsDigit (digits_of f (n / 10)) _ (digits_of-IsDigit f (n / 10)) (omega arith))
]

decimal_value-digits_of : (f n : ℕ) → n < 10 ^ suc f → decimal_value (digits_of (suc f) n) ≡ n
unfolding digits_of
decimal_value-digits_of zero n h = rw (lt→ltb n 10 h) (omega arith)
decimal_value-digits_of (suc f) n h = elim (Bool-cases (ltb n 10)) [
  | inl y ↦ rw y (omega arith)
  | inr y ↦ rw y (
      decimal_value-append (digits_of (suc f) (n / 10)) (b'0' + n % 10)
      ∙ omega (arith, decimal_value-digits_of f (n / 10) (tenth-lt-power n (suc f) h)))
]

length-digits_of : (f n : ℕ) → length (digits_of f n) ≤ f
unfolding digits_of
length-digits_of zero n = omega arith
length-digits_of (suc f) n = ground (
  arith,
  length-digits_of f (n / 10),
  length-append (digits_of f (n / 10)) ((b'0' + n % 10) ∷ []),
)

-- A print is one to twenty digits.
pub decimal-IsDigit : (n : ℕ) → All IsDigit (decimal n)
unfolding decimal
decimal-IsDigit n = digits_of-IsDigit 20 n

pub length-decimal : (n : ℕ) → length (decimal n) ≤ 20
unfolding decimal
length-decimal n = length-digits_of 20 n

unsigned-digits : (t : Text) → All IsDigit t → unsigned t ≡ t
unfolding unsigned
unsigned-digits [] h = refl
unsigned-digits (c ∷ cs) (h, _) = ground arith

digits_of-ne-nil : (f n : ℕ) → digits_of (suc f) n ≢ []
unfolding digits_of
digits_of-ne-nil f n e =
    let k = ap (λ (t : Text). length t) e in
    ground (arith, k, length-append (digits_of f (n / 10)) ((b'0' + n % 10) ∷ []))

-- Every `u64` is read back from its print.
pub from_str-decimal : (n : ℕ) → n ≤ u64_max → from_str u64_max (decimal n) ≡ some n
unfolding decimal
from_str-decimal n h =
    let plain = unsigned-digits (digits_of 20 n) (digits_of-IsDigit 20 n) in
    (from_str_iff u64_max (digits_of 20 n) n).1 (
      rw plain (
        digits_of-ne-nil 19 n,
        digits_of-IsDigit 20 n,
        decimal_value-digits_of 19 n (omega arith),
        h,
      ))
