-- ===== src/Config/Reading.antt =====
-- Each reader of a variable against the specification of what it reads.
use mathlib.Core.Path.{subst}
use mathlib.Core.Option.{some-injective}
use iec104bridge.Base.{
  ℕ, ◌≡◌, inl, inr, ◌↔◌, refl, sym, Bool, true, false, Option, none, some, [], ◌∷◌, unwrap_or,
  Bool-cases, arith,
}
use iec104bridge.Base.Result.{ok, Meets}
use iec104bridge.Environment.{
  Text, codes, Key, Lookup, to_lowercase, Option-map, same, says_yes, says_no, is_truthy, or_error,
  some_number, transposed, read_bool, from_str, parse_with_default, parse_optional,
  parse_bool_with_default,
}
use iec104bridge.Environment.Numeral.{IsNumeral, from_str_iff}
use iec104bridge.Config.Described.{Numbers, IsYes, IsNo, Switches, Flags, Blames, NumberKey}

pub same_iff : (s t : Text) → (same s t ≡ true) ↔ (s ≡ t)
unfolding same
same_iff [] [] = ground arith
same_iff [] (d ∷ ds) = ground arith
same_iff (c ∷ cs) [] = ground arith
same_iff (c ∷ cs) (d ∷ ds) = let ih = same_iff cs ds in ground arith

says_yes_iff : (v : Text) → (says_yes (to_lowercase v) ≡ true) ↔ IsYes v
unfolding says_yes
says_yes_iff v = ground (
  arith,
  same_iff (to_lowercase v) (codes "true"),
  same_iff (to_lowercase v) (codes "1"),
  same_iff (to_lowercase v) (codes "yes"),
)

says_no_iff : (v : Text) → (says_no (to_lowercase v) ≡ true) ↔ IsNo v
unfolding says_no
says_no_iff v = ground (
  arith,
  same_iff (to_lowercase v) (codes "false"),
  same_iff (to_lowercase v) (codes "0"),
  same_iff (to_lowercase v) (codes "no"),
)

no-says_yes : (v : Text) → IsNo v → says_yes (to_lowercase v) ≡ false
unfolding says_yes same
no-says_yes v (inl e) = rw e refl
no-says_yes v (inr (inl e)) = rw e refl
no-says_yes v (inr (inr e)) = rw e refl

pub is_truthy-Switches : (o : Option Text) → Switches o (is_truthy o)
unfolding is_truthy
is_truthy-Switches none = (λ e. cc, λ (v, e, _). cc)
is_truthy-Switches (some v) =
    let h = says_yes_iff v in
    (λ e. (v, refl, h.0 e), λ (x, e, y). h.1 (subst IsYes (sym (some-injective _ _ e)) y))

bool_ext : (a b : Bool) → (a ≡ true → b ≡ true) → (b ≡ true → a ≡ true) → a ≡ b
bool_ext true b f g = sym (f refl)
bool_ext false true f g = g refl
bool_ext false false f g = refl

-- A switch has one position.
pub Switches-is_truthy : (o : Option Text) (b : Bool) → Switches o b → is_truthy o ≡ b
Switches-is_truthy o b h =
    let k = is_truthy-Switches o in bool_ext (is_truthy o) b (λ e. h.1 (k.0 e)) (λ e. k.1 (h.0 e))

module _ (get : Lookup) (max : ℕ) (key : Key) where
  pub parse_with_default-Meets :
      (d : Text) (n : ℕ)
      → NumberKey key max
      → from_str max d ≡ some n
      → Meets
          (IsNumeral max (unwrap_or (get key) d))
          (Blames get)
          (parse_with_default get max key d)
  unfolding parse_with_default or_error
  parse_with_default-Meets d n k e = go (get key) refl
    where
      read :
          (t : Text) (r : Option ℕ)
          → from_str max t ≡ r
          → (r ≡ none → get key ≡ some t)
          → Meets (IsNumeral max t) (Blames get) (or_error key r)
      read t none h a = (max, k, t, a refl, λ m p. cc (h, (from_str_iff max t m).1 p))
      read t (some m) h a = (from_str_iff max t m).0 h

      go :
          (o : Option Text)
          → get key ≡ o
          → Meets
              (IsNumeral max (unwrap_or o d))
              (Blames get)
              (or_error key (from_str max (unwrap_or o d)))
      go none h = read d (from_str max d) refl (λ x. cc (x, e))
      go (some t) h = read t (from_str max t) refl (λ _. h)

  pub parse_with_default-ok :
      (d : Text) (n : ℕ)
      → IsNumeral max (unwrap_or (get key) d) n
      → parse_with_default get max key d ≡ ok n
  unfolding parse_with_default
  parse_with_default-ok d n h = rw ((from_str_iff max (unwrap_or (get key) d) n).1 h) refl

  pub parse_optional-Meets :
      NumberKey key max → Meets (Numbers max (get key)) (Blames get) (parse_optional get max key)
  unfolding parse_optional transposed some_number
  parse_optional-Meets k = go (get key) refl
    where
      read :
          (t : Text) (r : Option ℕ)
          → from_str max t ≡ r
          → get key ≡ some t
          → Meets (Numbers max (some t)) (Blames get) (some_number key r)
      read t none h a = (max, k, t, a, λ m p. cc (h, (from_str_iff max t m).1 p))
      read t (some m) h a = (m, (from_str_iff max t m).0 h, refl)

      go :
          (o : Option Text)
          → get key ≡ o
          → Meets (Numbers max o) (Blames get) (transposed key max o)
      go none h = refl
      go (some t) h = read t (from_str max t) refl h

  pub parse_optional-ok :
      (o : Option ℕ) → Numbers max (get key) o → parse_optional get max key ≡ ok o
  unfolding parse_optional transposed some_number
  parse_optional-ok o h = go (get key) h
    where
      go : (t : Option Text) → Numbers max t o → transposed key max t ≡ ok o
      go none e = rw e refl
      go (some t) (n, p, e) = rw ((from_str_iff max t n).1 p, e) refl

module _ (get : Lookup) where
  pub parse_bool_with_default-Meets :
      Meets
        (Flags (get Key.iec104_timestamps))
        (Blames get)
        (parse_bool_with_default get Key.iec104_timestamps true)
  unfolding parse_bool_with_default read_bool
  parse_bool_with_default-Meets = go (get Key.iec104_timestamps) refl
    where
      go :
          (o : Option Text)
          → get Key.iec104_timestamps ≡ o
          → Meets
              (Flags o)
              (Blames get)
              (read_bool Key.iec104_timestamps true (Option-map to_lowercase o))
      go none e = refl
      go (some v) e = elim (Bool-cases (says_yes (to_lowercase v))) [
        | inl y ↦ rw y (inl ((says_yes_iff v).0 y, refl))
        | inr y ↦ elim (Bool-cases (says_no (to_lowercase v))) [
          | inl z ↦ rw (y, z) (inr ((says_no_iff v).0 z, refl))
          | inr z ↦
              rw (y, z)
                (refl, v, e, (λ p. cc (y, (says_yes_iff v).1 p)), λ p. cc (z, (says_no_iff v).1 p))
        ]
      ]

  pub parse_bool_with_default-ok :
      (b : Bool)
      → Flags (get Key.iec104_timestamps) b
      → parse_bool_with_default get Key.iec104_timestamps true ≡ ok b
  unfolding parse_bool_with_default read_bool
  parse_bool_with_default-ok b h = go (get Key.iec104_timestamps) h
    where
      go :
          (o : Option Text)
          → Flags o b
          → read_bool Key.iec104_timestamps true (Option-map to_lowercase o) ≡ ok b
      go none e = rw e refl
      go (some v) (inl (y, e)) = rw ((says_yes_iff v).1 y, e) refl
      go (some v) (inr (y, e)) = rw (no-says_yes v y, (says_no_iff v).1 y, e) refl
