-- ===== src/Decode/Reading.antt =====
-- Each reader of a value or of a field against the specification of what it reads.
use iec104bridge.Base.{
  if◌then◌else◌, map, ℕ, ◌≤◌, ◌≡◌, ◌↔◌, ◌⊎◌, inl, inr, refl, ap, ◌∙◌, Bool, true, false, Option,
  none, some, List, [], ◌∷◌, arith,
}
use iec104bridge.Base.Int.{ℤ}
use iec104bridge.Environment.{Text, same, lower, is_upper, Option-map}
use iec104bridge.Config.Reading.{same_iff}
use iec104bridge.Message.{DataValue, DataType, QualityField, CotField}
use iec104bridge.Decode.{
  Serde, Value, snake_case, snake_tail, variant_in, data_types, qualities, causes, at_most,
  unsigned_to, data_value, enum_value, optional, deserialize_optional_timestamp, ◌>>=◌,
}
use iec104bridge.Decode.Value.{null, boolean, number, string, compound}
use iec104bridge.Decode.Described.{
  type_name, quality_name, cause_name, Unsigned, IsData, Names, Optionally, Dates,
}

pub some_bind_iff :
    {A B : Type 0} (m : Option A) (f : A → Option B) (b : B)
    → ((m >>= f) ≡ some b) ↔ ((a : A) × (m ≡ some a) × (f a ≡ some b))
some_bind_iff none f b = (λ k. absurd (cc k), λ (x, k, _). absurd (cc k))
some_bind_iff (some a) f b = (λ e. (a, refl, e), λ (x, k, e). ap f (cc k) ∙ e)

map_some_iff :
    {A : Type 0} (m : Option A) (o : Option A)
    → (Option-map some m ≡ some o) ↔ ((a : A) × (o ≡ some a) × (m ≡ some a))
map_some_iff none o = (λ k. absurd (cc k), λ (x, _, k). absurd (cc k))
map_some_iff (some a) o = (λ k. (a, cc k, refl), λ (x, e, k). cc (e, k))

mapped_iff :
    {A : Type 0} {Q : A → Type 0} (m : Option A) (o : Option A)
    → ((a : A) → (m ≡ some a) ↔ Q a)
    → (Option-map some m ≡ some o) ↔ ((a : A) × (o ≡ some a) × Q a)
mapped_iff m o h =
    let k = map_some_iff m o in
    (λ e. let (a, p, q) = k.0 e in (a, p, (h a).0 q), λ (a, p, q). k.1 (a, p, (h a).1 q))

at_most_iff :
    (max : ℕ) (o : Option ℕ) (n : ℕ) → (at_most max o ≡ some n) ↔ ((o ≡ some n) × (n ≤ max))
at_most_iff max none n = (λ k. absurd (cc k), λ (k, _). absurd (cc k))
at_most_iff max (some x) n = ground arith

chosen :
    {A : Type 0} (b : Bool) (x : A) (o : Option A) (a : A)
    → (if b then some x else o) ≡ some a
    → ((b ≡ true) × (x ≡ a)) ⊎ (o ≡ some a)
chosen true x o a e = inl (refl, cc e)
chosen false x o a e = inr e

-- The words of an enumeration are the names of its variants.
variant_in-name :
    {A : Type 0} (name_of : A → Text) (variants : List (Text × A)) (name : Text) (a : A)
    → map (λ e. snake_case e.0) variants ≡ map (λ e. name_of e.1) variants
    → variant_in variants name ≡ some a
    → name ≡ name_of a
unfolding variant_in
variant_in-name name_of [] name a h e = absurd (cc e)
variant_in-name name_of ((ident, b) ∷ variants) name a h e =
    elim (chosen (same name (snake_case ident)) b (variant_in variants name) a e) [
      | inl (t, k) ↦ (same_iff name (snake_case ident)).0 t ∙ cc h ∙ ap name_of k
      | inr k ↦ variant_in-name name_of variants name a (cc h) k
    ]

-- The three tables.
abbrev pub IsTable : {A : Type 0} → (A → Text) → List (Text × A) → Type 0
IsTable name_of variants =
    (name : Text) (a : _) → (variant_in variants name ≡ some a) ↔ (name ≡ name_of a)

pub data_types-IsTable : IsTable type_name data_types
unfolding variant_in snake_case snake_tail lower is_upper same
data_types-IsTable name a =
    (variant_in-name type_name data_types name a refl, λ e. ap (variant_in data_types) e ∙ found a)
  where
    found : (t : DataType) → variant_in data_types (type_name t) ≡ some t
    found DataType.float = refl
    found DataType.scaled = refl
    found DataType.normalized = refl
    found DataType.single_point = refl
    found DataType.double_point = refl

pub qualities-IsTable : IsTable quality_name qualities
unfolding variant_in snake_case snake_tail lower is_upper same
qualities-IsTable name a =
    (variant_in-name quality_name qualities name a refl, λ e. ap (variant_in qualities) e ∙ found a)
  where
    found : (t : QualityField) → variant_in qualities (quality_name t) ≡ some t
    found QualityField.good = refl
    found QualityField.invalid = refl
    found QualityField.not_topical = refl
    found QualityField.substituted = refl
    found QualityField.blocked = refl
    found QualityField.overflow = refl

pub causes-IsTable : IsTable cause_name causes
unfolding variant_in snake_case snake_tail lower is_upper same
causes-IsTable name a =
    (variant_in-name cause_name causes name a refl, λ e. ap (variant_in causes) e ∙ found a)
  where
    found : (t : CotField) → variant_in causes (cause_name t) ≡ some t
    found CotField.spontaneous = refl
    found CotField.periodic = refl
    found CotField.background_scan = refl
    found CotField.interrogated = refl
    found CotField.return_info_remote = refl
    found CotField.return_info_local = refl

module _ {serde : Serde} where
  pub unsigned_to_iff :
      (max : ℕ) (v : Value serde) (n : ℕ) → (unsigned_to max v ≡ some n) ↔ Unsigned max v n
  unfolding unsigned_to
  unsigned_to_iff max null n = (λ k. cc k, λ h. absurd h)
  unsigned_to_iff max (boolean b) n = (λ k. cc k, λ h. absurd h)
  unsigned_to_iff max (number x) n = at_most_iff max (serde.as_u64 x) n
  unsigned_to_iff max (string t) n = (λ k. cc k, λ h. absurd h)
  unsigned_to_iff max (compound c) n = (λ k. cc k, λ h. absurd h)

  pub data_value_iff : (v : Value serde) (d : DataValue) → (data_value v ≡ some d) ↔ IsData v d
  unfolding data_value
  data_value_iff null d = (λ k. cc k, λ h. absurd h)
  data_value_iff (boolean b) d = (λ k. cc k, λ h. cc h)
  data_value_iff (number x) d = (λ k. cc k, λ h. cc h)
  data_value_iff (string t) d = (λ k. cc k, λ h. absurd h)
  data_value_iff (compound c) d = (λ k. cc k, λ h. absurd h)

  pub enum_value_iff :
      {A : Type 0} (name_of : A → Text) (variants : List (Text × A))
      (table : IsTable name_of variants) (v : Value serde) (a : A)
      → (enum_value variants v ≡ some a) ↔ Names name_of v a
  unfolding enum_value
  enum_value_iff name_of variants table null a = (λ k. cc k, λ h. absurd h)
  enum_value_iff name_of variants table (boolean b) a = (λ k. cc k, λ h. absurd h)
  enum_value_iff name_of variants table (number x) a = (λ k. cc k, λ h. absurd h)
  enum_value_iff name_of variants table (string t) a = table t a
  enum_value_iff name_of variants table (compound c) a =
      let k = some_bind_iff (serde.variant c) (variant_in variants) a in
      (
        λ e. let (name, p, q) = k.0 e in p ∙ ap some ((table name a).0 q),
        λ p. k.1 (name_of a, p, (table (name_of a) a).1 refl),
      )

  pub optional_iff :
      {A : Type 0} (read : Value serde → Option A) (P : Value serde → A → Type 0)
      → ((v : Value serde) (a : A) → (read v ≡ some a) ↔ P v a)
      → (v : Value serde) (o : Option A) → (optional read v ≡ some o) ↔ Optionally P v o
  unfolding optional
  optional_iff read P h null o = (λ k. cc k, λ k. cc k)
  optional_iff read P h (boolean b) o = mapped_iff (read (boolean b)) o (h (boolean b))
  optional_iff read P h (number x) o = mapped_iff (read (number x)) o (h (number x))
  optional_iff read P h (string t) o = mapped_iff (read (string t)) o (h (string t))
  optional_iff read P h (compound c) o = mapped_iff (read (compound c)) o (h (compound c))

  pub deserialize_optional_timestamp_iff :
      (v : Value serde) (o : Option ℤ) → (deserialize_optional_timestamp v ≡ some o) ↔ Dates v o
  unfolding deserialize_optional_timestamp
  deserialize_optional_timestamp_iff null o = (λ k. cc k, λ k. cc k)
  deserialize_optional_timestamp_iff (boolean b) o = (λ k. cc k, λ h. absurd h)
  deserialize_optional_timestamp_iff (number x) o = (λ k. cc k, λ h. absurd h)
  deserialize_optional_timestamp_iff (string t) o = map_some_iff (serde.parse_rfc3339 t) o
  deserialize_optional_timestamp_iff (compound c) o = (λ k. cc k, λ h. absurd h)
