-- ===== src/Decode.antt =====
-- The JSON form of a message (message.rs, the `Deserialize` derives with their attributes): which
-- fields an object has, which may be missing, and what each is read as. The library serde, which
-- reads the text and carries the derives out, is a parameter in what its numbers and its other
-- values mean.
pub mod Described
pub mod Reading
pub mod Lookup
pub mod Encoding
pub mod Messages
pub mod Written
pub mod RoundTrip
use iec104bridge.Base.{
  ℕ, ◌+◌, Bool, true, false, ◌&&◌, Option, none, some, List, [], ◌∷◌, leb, length, if◌then◌else◌,
}
use iec104bridge.Base.Int.{ℤ}
use iec104bridge.Number.{F64}
use iec104bridge.Environment.{Text, codes, same, lower, is_upper, Option-map}
use iec104bridge.Config.{u16_max, u32_max}
use iec104bridge.Message.{Iec104Message, DataValue, DataType, QualityField, CotField}

-- `as_u64` is the value of a number that is written as an integer from 0 to 2^64 - 1. Arrays and
-- objects are `Compound`; one of them may name a variant. The times are those of the library time.
pub record Serde : Type 1 where
  pub Number : Type 0
  pub as_u64 : Number → Option ℕ
  pub as_f64 : Number → F64
  pub Compound : Type 0
  pub variant : Compound → Option Text
  pub parse_rfc3339 : Text → Option ℤ

pub data Value (serde : Serde) : Type 0 where
  null : Value serde
  boolean : Bool → Value serde
  number : serde.Number → Value serde
  string : Text → Value serde
  compound : serde.Compound → Value serde

abbrev pub Fields : Serde → Type 0
Fields serde = List (Text × Value serde)

-- What a text of JSON is: an object, an array, or something else.
pub data Document (serde : Serde) : Type 0 where
  object : Fields serde → Document serde
  array : List (Value serde) → Document serde
  other : Document serde

infixl 5 ◌>>=◌
abbrev pub ◌>>=◌ : {A B : Type 0} → Option A → (A → Option B) → Option B
none >>= f = none
some a >>= f = f a

-- `rename_all = "snake_case"`: an underscore before each capital but the first, and all in lower
-- case.
snake_tail : Text → Text
unfolding lower is_upper
snake_tail [] = []
snake_tail (c ∷ cs) =
    let rest = snake_tail cs in if is_upper c then b'_' ∷ lower c ∷ rest else c ∷ rest

snake_case : Text → Text
unfolding snake_tail lower
snake_case [] = []
snake_case (c ∷ cs) = lower c ∷ snake_tail cs

-- The variant with that name.
unfoldable pub variant_in : {A : Type 0} → List (Text × A) → Text → Option A
unfolding snake_case same
variant_in [] name = none
variant_in ((ident, a) ∷ variants) name =
    let rest = variant_in variants name in if same name (snake_case ident) then some a else rest

abbrev pub data_types : List (Text × DataType)
data_types =
    (codes "Float", DataType.float)
    ∷ (codes "Scaled", DataType.scaled)
    ∷ (codes "Normalized", DataType.normalized)
    ∷ (codes "SinglePoint", DataType.single_point)
    ∷ (codes "DoublePoint", DataType.double_point)
    ∷ []

abbrev pub qualities : List (Text × QualityField)
qualities =
    (codes "Good", QualityField.good)
    ∷ (codes "Invalid", QualityField.invalid)
    ∷ (codes "NotTopical", QualityField.not_topical)
    ∷ (codes "Substituted", QualityField.substituted)
    ∷ (codes "Blocked", QualityField.blocked)
    ∷ (codes "Overflow", QualityField.overflow)
    ∷ []

abbrev pub causes : List (Text × CotField)
causes =
    (codes "Spontaneous", CotField.spontaneous)
    ∷ (codes "Periodic", CotField.periodic)
    ∷ (codes "BackgroundScan", CotField.background_scan)
    ∷ (codes "Interrogated", CotField.interrogated)
    ∷ (codes "ReturnInfoRemote", CotField.return_info_remote)
    ∷ (codes "ReturnInfoLocal", CotField.return_info_local)
    ∷ []

abbrev pub at_most : ℕ → Option ℕ → Option ℕ
at_most max none = none
at_most max (some n) = if leb n max then some n else none

module _ {serde : Serde} where
  -- An unsigned integer up to a bound.
  unfoldable pub unsigned_to : ℕ → Value serde → Option ℕ
  unsigned_to max (number n) = at_most max (serde.as_u64 n)
  unsigned_to max v = none

  -- `#[serde(untagged)]`: a boolean or else a number.
  unfoldable pub data_value : Value serde → Option DataValue
  data_value (boolean b) = some (DataValue.bool b)
  data_value (number n) = some (DataValue.number (serde.as_f64 n))
  data_value v = none

  -- A variant without fields.
  unfoldable pub enum_value : {A : Type 0} → List (Text × A) → Value serde → Option A
  unfolding variant_in
  enum_value variants (string name) = variant_in variants name
  enum_value variants (compound c) = serde.variant c >>= λ name. variant_in variants name
  enum_value variants v = none

  -- `Option<T>`
  unfoldable pub optional :
      {A : Type 0} → (Value serde → Option A) → Value serde → Option (Option A)
  optional read null = some none
  optional read v = Option-map some (read v)

  unfoldable pub deserialize_optional_timestamp : Value serde → Option (Option ℤ)
  deserialize_optional_timestamp null = some none
  deserialize_optional_timestamp (string t) = Option-map some (serde.parse_rfc3339 t)
  deserialize_optional_timestamp v = none

  unfoldable pub values_of : Text → Fields serde → List (Value serde)
  unfolding same
  values_of name [] = []
  values_of name ((key, v) ∷ fields) =
      let rest = values_of name fields in if same key name then v ∷ rest else rest

  -- A field that must be there, once.
  unfoldable pub required : {A : Type 0} → (Value serde → Option A) → List (Value serde) → Option A
  required read (v ∷ []) = read v
  required read vs = none

  -- A field with a default, once at most.
  unfoldable pub defaulted :
      {A : Type 0} → A → (Value serde → Option A) → List (Value serde) → Option A
  defaulted a read [] = some a
  defaulted a read (v ∷ []) = read v
  defaulted a read vs = none

  -- The message of an object; fields with other names are skipped.
  unfoldable pub deserialize_message : Fields serde → Option Iec104Message
  unfolding values_of required defaulted unsigned_to data_value enum_value optional
      deserialize_optional_timestamp
  deserialize_message fields = do
    ioa ← required (unsigned_to u32_max) (values_of (codes "ioa") fields)
    value ← required data_value (values_of (codes "value") fields)
    data_type ← defaulted none (optional (enum_value data_types)) (values_of (codes "type") fields)
    ca ← defaulted none (optional (unsigned_to u16_max)) (values_of (codes "ca") fields)
    quality ←
        defaulted QualityField.good (enum_value qualities) (values_of (codes "quality") fields)
    cot ← defaulted CotField.spontaneous (enum_value causes) (values_of (codes "cot") fields)
    timestamp ← defaulted none deserialize_optional_timestamp (values_of (codes "timestamp") fields)
    some (record {
      ioa = ioa;
      value = value;
      data_type = data_type;
      ca = ca;
      quality = quality;
      cot = cot;
      timestamp = timestamp;
    })

  labelled : List Text → List (Value serde) → Fields serde
  labelled [] vs = []
  labelled (name ∷ names) [] = []
  labelled (name ∷ names) (v ∷ vs) = (name, v) ∷ labelled names vs

  -- The elements of an array are the fields in the order of the struct.
  unfoldable pub fields_in_order : List (Value serde) → Fields serde
  unfolding labelled
  fields_in_order elements =
      labelled
        (codes "ioa"
          ∷ codes "value"
          ∷ codes "type"
          ∷ codes "ca"
          ∷ codes "quality"
          ∷ codes "cot"
          ∷ codes "timestamp"
          ∷ [])
        elements

  -- The derive takes an array as well. There the common address must not be missing, since it has no
  -- `#[serde(default)]`, and more elements than fields are an error.
  unfoldable pub deserialize_document : Document serde → Option Iec104Message
  unfolding deserialize_message fields_in_order
  deserialize_document (object fields) = deserialize_message fields
  deserialize_document (array elements) =
      let m = deserialize_message (fields_in_order elements) in
      if leb 4 (length elements) && leb (length elements) 7 then m else none
  deserialize_document other = none
