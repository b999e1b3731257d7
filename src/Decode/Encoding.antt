-- ===== src/Decode/Encoding.antt =====
-- A writer of the JSON form, for producers: the fields that a message needs, and those whose value is
-- not the default (the examples in the documentation of message.rs).
use iec104bridge.Base.{ℕ, ◌≤◌, ◌≡◌, ◌≢◌, Option, none, some, List, [], ◌∷◌, All}
use iec104bridge.Base.Int.{ℤ}
use iec104bridge.Number.{F64}
use iec104bridge.Environment.{Text, codes, Option-map}
use iec104bridge.Config.{u16_max, u32_max}
use iec104bridge.Message.{Iec104Message, DataValue, QualityField, CotField}
use iec104bridge.Decode.{Serde, Value, Fields}
use iec104bridge.Decode.Value.{boolean, number, string}
use iec104bridge.Decode.Described.{type_name, quality_name, cause_name}

-- How a producer writes numbers and times.
pub record Printer (serde : Serde) : Type 0 where
  pub from_u64 : ℕ → serde.Number
  pub from_f64 : F64 → serde.Number
  pub rfc3339 : ℤ → Text

abbrev pub field_names : List Text
field_names =
    codes "ioa"
    ∷ codes "value"
    ∷ codes "type"
    ∷ codes "ca"
    ∷ codes "quality"
    ∷ codes "cot"
    ∷ codes "timestamp"
    ∷ []

module _ {serde : Serde} where
  -- What the writer gives reads back, and the integers fit their types.
  pub record IsReadable (printer : Printer serde) (m : Iec104Message) : Type 0 where
    pub ioa_fits : m.ioa ≤ u32_max
    pub ca_fits : (n : ℕ) → m.ca ≡ some n → n ≤ u16_max
    pub integers : (n : ℕ) → n ≤ u32_max → serde.as_u64 (printer.from_u64 n) ≡ some n
    pub value_back :
        (x : F64) → m.value ≡ DataValue.number x → serde.as_f64 (printer.from_f64 x) ≡ x
    pub time_back :
        (t : ℤ) → m.timestamp ≡ some t → serde.parse_rfc3339 (printer.rfc3339 t) ≡ some t

  abbrev pub write_value : Printer serde → DataValue → Value serde
  write_value printer (DataValue.bool b) = boolean b
  write_value printer (DataValue.number x) = number (printer.from_f64 x)

  -- Nothing is written for a default.
  abbrev pub write_quality : QualityField → Option (Value serde)
  write_quality QualityField.good = none
  write_quality q = some (string (quality_name q))

  abbrev pub write_cause : CotField → Option (Value serde)
  write_cause CotField.spontaneous = none
  write_cause c = some (string (cause_name c))

  abbrev pub entries : Printer serde → Iec104Message → List (Text × Option (Value serde))
  entries printer m =
      (codes "ioa", some (number (printer.from_u64 m.ioa)))
      ∷ (codes "value", some (write_value printer m.value))
      ∷ (codes "type", Option-map (λ t. string (type_name t)) m.data_type)
      ∷ (codes "ca", Option-map (λ n. number (printer.from_u64 n)) m.ca)
      ∷ (codes "quality", write_quality m.quality)
      ∷ (codes "cot", write_cause m.cot)
      ∷ (codes "timestamp", Option-map (λ t. string (printer.rfc3339 t)) m.timestamp)
      ∷ []

  abbrev pub gather : List (Text × Option (Value serde)) → Fields serde
  gather [] = []
  gather ((name, none) ∷ es) = gather es
  gather ((name, some v) ∷ es) = (name, v) ∷ gather es

  abbrev pub encode : Printer serde → Iec104Message → Fields serde
  encode printer m = gather (entries printer m)

  -- The second object has the fields of the first, in an order of its own, and fields with names that
  -- a message does not have.
  pub data Rearranges : Fields serde → Fields serde → Type 0 where
    kept : {fields : Fields serde} → Rearranges fields fields
    swapped :
        {f g : Text × Value serde} {fields : Fields serde}
        → f.0 ≢ g.0
        → Rearranges (f ∷ g ∷ fields) (g ∷ f ∷ fields)
    skipped :
        {key : Text} {v : Value serde} {fields : Fields serde}
        → All (λ name. key ≢ name) field_names
        → Rearranges fields ((key, v) ∷ fields)
    under :
        {f : Text × Value serde} {fields others : Fields serde}
        → Rearranges fields others
        → Rearranges (f ∷ fields) (f ∷ others)
    followed :
        {fields others rest : Fields serde}
        → Rearranges fields others
        → Rearranges others rest
        → Rearranges fields rest
