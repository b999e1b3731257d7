-- ===== src/Decode/Written.antt =====
-- Each field of the JSON form, read from what a producer writes of it.
use iec104bridge.Decode.Value.{number, string}
use iec104bridge.Number.{F64}
use iec104bridge.Base.Int.{ℤ}
use iec104bridge.Base.{ℕ, ◌≤◌, ◌≡◌, refl, ap, Option, none, some, List, [], ◌∷◌, ◌++◌}
use iec104bridge.Environment.{Option-map}
use iec104bridge.Config.{u16_max}
use iec104bridge.Message.{DataValue, DataType, QualityField, CotField}
use iec104bridge.Decode.{
  Serde, Value, defaulted, unsigned_to, data_value, enum_value, optional,
  deserialize_optional_timestamp, data_types, qualities, causes,
}
use iec104bridge.Decode.Encoding.{Printer, write_value, write_quality, write_cause}
use iec104bridge.Decode.Described.{type_name, quality_name, cause_name}
use iec104bridge.Decode.Reading.{
  unsigned_to_iff, data_types-IsTable, qualities-IsTable, causes-IsTable,
}

module _ (serde : Serde) where
  abbrev pub listed : Option (Value serde) → List (Value serde)
  listed none = []
  listed (some v) = v ∷ []

  pub number_back :
      (max : ℕ) (x : serde.Number) (n : ℕ)
      → n ≤ max
      → serde.as_u64 x ≡ some n
      → unsigned_to {serde = serde} max (number x) ≡ some n
  number_back max x n h e = (unsigned_to_iff max (number x) n).1 (e, h)

  pub value_back :
      (printer : Printer serde) (d : DataValue)
      → ((x : F64) → d ≡ DataValue.number x → serde.as_f64 (printer.from_f64 x) ≡ x)
      → data_value (write_value printer d) ≡ some d
  unfolding data_value
  value_back printer (DataValue.bool b) h = refl
  value_back printer (DataValue.number x) h = ap (λ y. some (DataValue.number y)) (h x refl)

  -- A value that is written from an option.
  option_back :
      {A : Type 0} (read : Value serde → Option A) (write : A → Value serde) (o : Option A)
      → ((a : A) → o ≡ some a → optional read (write a) ≡ some (some a))
      → defaulted none (optional read) (listed (Option-map write o) ++ []) ≡ some o
  unfolding defaulted
  option_back read write none h = refl
  option_back read write (some a) h = h a refl

  pub type_back :
      (o : Option DataType)
      → defaulted none
          (optional (enum_value data_types))
          (listed (Option-map (λ t. string (type_name t)) o) ++ [])
        ≡ some o
  unfolding optional enum_value
  type_back o =
      option_back (enum_value data_types) (λ t. string (type_name t)) o
        (λ t _. ap (Option-map some) ((data_types-IsTable (type_name t) t).1 refl))

  pub ca_back :
      (printer : Printer serde) (o : Option ℕ)
      → ((n : ℕ) → o ≡ some n → n ≤ u16_max)
      → ((n : ℕ) → o ≡ some n → serde.as_u64 (printer.from_u64 n) ≡ some n)
      → defaulted none
          (optional (unsigned_to u16_max))
          (listed (Option-map (λ n. number (printer.from_u64 n)) o) ++ [])
        ≡ some o
  unfolding optional
  ca_back printer o h k =
      option_back (unsigned_to u16_max) (λ n. number (printer.from_u64 n)) o
        (λ n e. ap (Option-map some) (number_back u16_max (printer.from_u64 n) n (h n e) (k n e)))

  pub quality_back :
      (q : QualityField)
      → defaulted QualityField.good (enum_value qualities) (listed (write_quality q) ++ []) ≡ some q
  unfolding defaulted enum_value
  quality_back QualityField.good = refl
  quality_back QualityField.invalid =
      (qualities-IsTable (quality_name QualityField.invalid) QualityField.invalid).1 refl
  quality_back QualityField.not_topical =
      (qualities-IsTable (quality_name QualityField.not_topical) QualityField.not_topical).1 refl
  quality_back QualityField.substituted =
      (qualities-IsTable (quality_name QualityField.substituted) QualityField.substituted).1 refl
  quality_back QualityField.blocked =
      (qualities-IsTable (quality_name QualityField.blocked) QualityField.blocked).1 refl
  quality_back QualityField.overflow =
      (qualities-IsTable (quality_name QualityField.overflow) QualityField.overflow).1 refl

  pub cause_back :
      (c : CotField)
      → defaulted CotField.spontaneous (enum_value causes) (listed (write_cause c) ++ []) ≡ some c
  unfolding defaulted enum_value
  cause_back CotField.spontaneous = refl
  cause_back CotField.periodic =
      (causes-IsTable (cause_name CotField.periodic) CotField.periodic).1 refl
  cause_back CotField.background_scan =
      (causes-IsTable (cause_name CotField.background_scan) CotField.background_scan).1 refl
  cause_back CotField.interrogated =
      (causes-IsTable (cause_name CotField.interrogated) CotField.interrogated).1 refl
  cause_back CotField.return_info_remote =
      (causes-IsTable (cause_name CotField.return_info_remote) CotField.return_info_remote).1 refl
  cause_back CotField.return_info_local =
      (causes-IsTable (cause_name CotField.return_info_local) CotField.return_info_local).1 refl

  pub time_back :
      (printer : Printer serde) (o : Option ℤ)
      → ((t : ℤ) → o ≡ some t → serde.parse_rfc3339 (printer.rfc3339 t) ≡ some t)
      → defaulted none deserialize_optional_timestamp
          (listed (Option-map (λ t. string (printer.rfc3339 t)) o) ++ [])
        ≡ some o
  unfolding defaulted deserialize_optional_timestamp
  time_back printer none h = refl
  time_back printer (some t) h = ap (Option-map some) (h t refl)
