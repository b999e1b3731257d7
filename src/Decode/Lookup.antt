-- ===== src/Decode/Lookup.antt =====
-- The fields of an object by their names: what the lookup of the values finds.
use iec104bridge.Decode.Described.{Absent, Once, Required, Defaulted}
use iec104bridge.Decode.{Serde, Value, Fields, values_of, required, defaulted}
use iec104bridge.Base.{
  ◌≡◌, ◌≢◌, ◌↔◌, ◌⊎◌, inl, inr, refl, sym, ap, ◌∙◌, Option, some, List, [], ◌∷◌, ◌++◌, Bool-cases,
}
use iec104bridge.Environment.{Text, same}
use iec104bridge.Config.Reading.{same_iff}

key-cases : (key name : Text) → (key ≡ name) ⊎ (key ≢ name)
key-cases key name =
    let h = same_iff key name in
    elim (Bool-cases (same key name)) [
      | inl t ↦ inl (h.0 t)
      | inr f ↦ inr (λ e. absurd (cc (f, h.1 e)))
    ]

module _ {serde : Serde} where
  pub values_of-append :
      (name : Text) (xs ys : Fields serde)
      → values_of name (xs ++ ys) ≡ values_of name xs ++ values_of name ys
  unfolding values_of
  values_of-append name [] ys = refl
  values_of-append name ((key, v) ∷ xs) ys =
      let ih = values_of-append name xs ys in
      elim (Bool-cases (same key name)) [ inl t ↦ rw t (ap (λ vs. v ∷ vs) ih) | inr f ↦ rw f ih ]

  -- The first field of a list: its value counts if it has the name.
  values_of-here :
      (name key : Text) (v : Value serde) (fields : Fields serde)
      → key ≡ name
      → values_of name ((key, v) ∷ fields) ≡ v ∷ values_of name fields
  unfolding values_of
  values_of-here name key v fields h = rw ((same_iff key name).1 h) refl

  pub values_of-there :
      (name key : Text) (v : Value serde) (fields : Fields serde)
      → key ≢ name
      → values_of name ((key, v) ∷ fields) ≡ values_of name fields
  unfolding values_of
  values_of-there name key v fields h = elim (Bool-cases (same key name)) [
    | inl t ↦ absurd (h ((same_iff key name).0 t))
    | inr f ↦ rw f refl
  ]

  values_of-Absent :
      (name : Text) (fields : Fields serde) → (values_of name fields ≡ []) ↔ Absent name fields
  unfolding values_of
  values_of-Absent name [] = (λ _. tt, λ _. refl)
  values_of-Absent name ((key, v) ∷ fields) =
      let (to, from) = values_of-Absent name fields in
      (
        λ e. elim (key-cases key name) [
          | inl k ↦ absurd (cc (values_of-here name key v fields k, e))
          | inr k ↦ (k, to (sym (values_of-there name key v fields k) ∙ e))
        ],
        λ (k, h). values_of-there name key v fields k ∙ from h,
      )

  values_of-Once_only :
      (name : Text) (v : Value serde) (fields : Fields serde)
      → values_of name fields ≡ v ∷ []
      → Once name v fields
  unfolding values_of
  values_of-Once_only name v [] e = absurd (cc e)
  values_of-Once_only name v ((key, w) ∷ fields) e = elim (key-cases key name) [
    | inl k ↦
        let q = sym (values_of-here name key w fields k) ∙ e in
        ([], fields, cc (k, q), tt, (values_of-Absent name fields).0 (cc q))
    | inr k ↦
        let (before, after, p, h, i) =
          values_of-Once_only name v fields (sym (values_of-there name key w fields k) ∙ e) in
        ((key, w) ∷ before, after, ap (λ fs. (key, w) ∷ fs) p, (k, h), i)
  ]

  values_of-Once :
      (name : Text) (v : Value serde) (fields : Fields serde)
      → (values_of name fields ≡ v ∷ []) ↔ Once name v fields
  values_of-Once name v fields = (
    values_of-Once_only name v fields,
    λ (before, after, p, h, i).
        let q = values_of-append name before ((name, v) ∷ after) in
        let b = (values_of-Absent name before).1 h in
        let a = (values_of-Absent name after).1 i in
        ap (values_of name) p ∙ rw (q, b, values_of-here name name v after refl, a) refl,
  )

  required-some_iff :
      {A : Type 0} (read : Value serde → Option A) (vs : List (Value serde)) (a : A)
      → (required read vs ≡ some a) ↔ ((v : Value serde) × (vs ≡ v ∷ []) × (read v ≡ some a))
  unfolding required
  required-some_iff read [] a = (λ k. absurd (cc k), λ (v, k, _). absurd (cc k))
  required-some_iff read (v ∷ []) a = (λ k. (v, refl, k), λ (w, k, e). ap read (cc k) ∙ e)
  required-some_iff read (v ∷ w ∷ vs) a = (λ k. absurd (cc k), λ (x, k, _). absurd (cc k))

  defaulted-some_iff :
      {A : Type 0} (d : A) (read : Value serde → Option A) (vs : List (Value serde)) (a : A)
      → (defaulted d read vs ≡ some a) ↔ (((vs ≡ []) × (a ≡ d)) ⊎ (required read vs ≡ some a))
  unfolding defaulted required
  defaulted-some_iff d read [] a =
      (λ k. inl (refl, cc k), λ h. elim h [ inl (_, k) ↦ cc k | inr k ↦ absurd (cc k) ])
  defaulted-some_iff d read (v ∷ []) a =
      (λ k. inr k, λ h. elim h [ inl (k, _) ↦ absurd (cc k) | inr k ↦ k ])
  defaulted-some_iff d read (v ∷ w ∷ vs) a =
      (λ k. absurd (cc k), λ h. elim h [ inl (k, _) ↦ absurd (cc k) | inr k ↦ absurd (cc k) ])

  module _ {A : Type 0} (name : Text) (read : Value serde → Option A) (P : Value serde → A → Type 0)
      (h : (v : Value serde) (a : A) → (read v ≡ some a) ↔ P v a) (fields : Fields serde) where
    pub required_iff :
        (a : A) → (required read (values_of name fields) ≡ some a) ↔ Required name P fields a
    required_iff a =
        let (to, from) = required-some_iff read (values_of name fields) a in
        (
          λ e. let (v, p, q) = to e in (v, (values_of-Once name v fields).0 p, (h v a).0 q),
          λ (v, p, q). from (v, (values_of-Once name v fields).1 p, (h v a).1 q),
        )

    pub defaulted_iff :
        (d a : A)
        → (defaulted d read (values_of name fields) ≡ some a) ↔ Defaulted d name P fields a
    defaulted_iff d a =
        let (to, from) = defaulted-some_iff d read (values_of name fields) a in
        let (out, into) = values_of-Absent name fields in
        let (there, back) = required_iff a in
        (
          λ e. elim (to e) [ inl (p, q) ↦ inl (out p, q) | inr q ↦ inr (there q) ],
          λ k. from (elim k [ inl (p, q) ↦ inl (into p, q) | inr q ↦ inr (back q) ]),
        )
