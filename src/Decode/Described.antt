-- ===== src/Decode/Described.antt =====
-- The specification of the JSON form (the documentation of message.rs and of its fields): which
-- messages the fields of an object describe.
use iec104bridge.Base.{ℕ, ◌≤◌, ◌≡◌, ◌≢◌, ◌⊎◌, Option, none, some, ◌∷◌, ◌++◌, All}
use iec104bridge.Base.Int.{ℤ}
use iec104bridge.Environment.{Text, codes}
use iec104bridge.Config.{u16_max, u32_max}
use iec104bridge.Message.{Iec104Message, DataValue, DataType, QualityField, CotField}
use iec104bridge.Decode.{Serde, Value, Fields}
use iec104bridge.Decode.Value.{null, boolean, number, string, compound}

-- The words of the three enumerations.
abbrev pub type_name : DataType → Text
type_name DataType.float = codes "float"
type_name DataType.scaled = codes "scaled"
type_name DataType.normalized = codes "normalized"
type_name DataType.single_point = codes "single_point"
type_name DataType.double_point = codes "double_point"

abbrev pub quality_name : QualityField → Text
quality_name QualityField.good = codes "good"
quality_name QualityField.invalid = codes "invalid"
quality_name QualityField.not_topical = codes "not_topical"
quality_name QualityField.substituted = codes "substituted"
quality_name QualityField.blocked = codes "blocked"
quality_name QualityField.overflow = codes "overflow"

abbrev pub cause_name : CotField → Text
cause_name CotField.spontaneous = codes "spontaneous"
cause_name CotField.periodic = codes "periodic"
cause_name CotField.background_scan = codes "background_scan"
cause_name CotField.interrogated = codes "interrogated"
cause_name CotField.return_info_remote = codes "return_info_remote"
cause_name CotField.return_info_local = codes "return_info_local"

module _ {serde : Serde} where
  -- What a value stands for.
  abbrev pub Unsigned : ℕ → Value serde → ℕ → Type 0
  Unsigned max (number x) n = (serde.as_u64 x ≡ some n) × (n ≤ max)
  Unsigned max v n = ⊥

  abbrev pub IsData : Value serde → DataValue → Type 0
  IsData (boolean b) d = d ≡ DataValue.bool b
  IsData (number x) d = d ≡ DataValue.number (serde.as_f64 x)
  IsData v d = ⊥

  abbrev pub Names : {A : Type 0} → (A → Text) → Value serde → A → Type 0
  Names name_of (string t) a = t ≡ name_of a
  Names name_of (compound c) a = serde.variant c ≡ some (name_of a)
  Names name_of v a = ⊥

  abbrev pub Optionally :
      {A : Type 0} → (Value serde → A → Type 0) → Value serde → Option A → Type 0
  Optionally P null o = o ≡ none
  Optionally {A} P v o = (a : A) × (o ≡ some a) × P v a

  abbrev pub Dates : Value serde → Option ℤ → Type 0
  Dates null o = o ≡ none
  Dates (string t) o = (time : ℤ) × (o ≡ some time) × (serde.parse_rfc3339 t ≡ some time)
  Dates v o = ⊥

  -- No field has the name, or just one has.
  abbrev pub Absent : Text → Fields serde → Type 0
  Absent name fields = All (λ f. f.0 ≢ name) fields

  abbrev pub Once : Text → Value serde → Fields serde → Type 0
  Once name v fields =
      (before : Fields serde) × (after : Fields serde) × (fields ≡ before ++ (name, v) ∷ after)
      × Absent name before
      × Absent name after

  abbrev pub Required : {A : Type 0} → Text → (Value serde → A → Type 0) → Fields serde → A → Type 0
  Required name P fields a = (v : Value serde) × Once name v fields × P v a

  abbrev pub Defaulted :
      {A : Type 0} → A → Text → (Value serde → A → Type 0) → Fields serde → A → Type 0
  Defaulted d name P fields a = (Absent name fields × (a ≡ d)) ⊎ Required name P fields a

  pub record Describes (fields : Fields serde) (m : Iec104Message) : Type 0 where
    pub addressed : Required (codes "ioa") (Unsigned u32_max) fields m.ioa
    pub valued : Required (codes "value") IsData fields m.value
    pub typed : Defaulted none (codes "type") (Optionally (Names type_name)) fields m.data_type
    pub stationed : Defaulted none (codes "ca") (Optionally (Unsigned u16_max)) fields m.ca
    pub qualified :
        Defaulted QualityField.good (codes "quality") (Names quality_name) fields m.quality
    pub caused : Defaulted CotField.spontaneous (codes "cot") (Names cause_name) fields m.cot
    pub dated : Defaulted none (codes "timestamp") Dates fields m.timestamp
