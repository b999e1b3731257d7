-- ===== src/Decode/RoundTrip.antt =====
-- What a producer writes is what the bridge reads.
use iec104bridge.Decode.Lookup.{values_of-there}
use iec104bridge.Config.Reading.{same_iff}
use iec104bridge.Decode.Written.{
  listed, number_back, value_back, type_back, ca_back, quality_back, cause_back, time_back,
}
use iec104bridge.Base.{
  ◌≡◌, ◌≢◌, refl, sym, ◌∙◌, Bool-cases, Option, none, some, List, [], ◌∷◌, ◌++◌, All, arith,
  if◌then◌else◌, inl, inr,
}
use iec104bridge.Environment.{Text, codes, same}
use iec104bridge.Config.{u32_max}
use iec104bridge.Message.{Iec104Message}
use iec104bridge.Decode.{Serde, Value, Fields, deserialize_message, values_of, required}
use iec104bridge.Decode.Encoding.{
  Printer, field_names, IsReadable, entries, gather, encode, Rearranges, kept, swapped, skipped,
  under, followed,
}

module _ {serde : Serde} where
  -- The values under a name, from the entries that they are written from.
  abbrev values_in : Text → List (Text × Option (Value serde)) → List (Value serde)
  unfolding same
  values_in name [] = []
  values_in name ((key, o) ∷ es) =
      let rest = values_in name es in if same key name then listed serde o ++ rest else rest

  values_of-gather :
      (name : Text) (es : List (Text × Option (Value serde)))
      → values_of name (gather es) ≡ values_in name es
  unfolding values_of
  values_of-gather name [] = refl
  values_of-gather name ((key, none) ∷ es) =
      let ih = values_of-gather name es in
      elim (Bool-cases (same key name)) [ inl t ↦ rw t ih | inr f ↦ rw f ih ]
  values_of-gather name ((key, some v) ∷ es) = rw (values_of-gather name es) refl

  values_of-Rearranges :
      (name : Text)
      → ((key : Text) → All (λ n. key ≢ n) field_names → key ≢ name)
      → {fields others : Fields serde} → Rearranges fields others
      → values_of name others ≡ values_of name fields
  unfolding values_of
  values_of-Rearranges name known kept = refl
  values_of-Rearranges name known (swapped {f} {g} {fields} h) = elim (Bool-cases (same f.0 name)) [
    | inl s ↦ elim (Bool-cases (same g.0 name)) [
      | inl t ↦ absurd (h ((same_iff f.0 name).0 s ∙ sym ((same_iff g.0 name).0 t)))
      | inr t ↦ rw (s, t) refl
    ]
    | inr s ↦ rw s refl
  ]
  values_of-Rearranges name known (skipped {key} {v} {fields} u) =
      values_of-there name key v fields (known key u)
  values_of-Rearranges name known (under {f} r) = rw (values_of-Rearranges name known r) refl
  values_of-Rearranges name known (followed r s) =
      values_of-Rearranges name known s ∙ values_of-Rearranges name known r

  deserialize_message-Rearranges :
      {fields others : Fields serde}
      → Rearranges fields others
      → deserialize_message others ≡ deserialize_message fields
  unfolding deserialize_message
  deserialize_message-Rearranges r =
      rw
        (
          values_of-Rearranges (codes "ioa") (λ key u. u.0) r,
          values_of-Rearranges (codes "value") (λ key u. u.1.0) r,
          values_of-Rearranges (codes "type") (λ key u. u.1.1.0) r,
          values_of-Rearranges (codes "ca") (λ key u. u.1.1.1.0) r,
          values_of-Rearranges (codes "quality") (λ key u. u.1.1.1.1.0) r,
          values_of-Rearranges (codes "cot") (λ key u. u.1.1.1.1.1.0) r,
          values_of-Rearranges (codes "timestamp") (λ key u. u.1.1.1.1.1.1.0) r,
        )
        refl

  module _ (printer : Printer serde) (m : Iec104Message) where
    deserialize_message-encode :
        IsReadable printer m → deserialize_message (encode printer m) ≡ some m
    unfolding deserialize_message required same values_in
    deserialize_message-encode h =
        rw
          (
            values_of-gather (codes "ioa") (entries printer m),
            values_of-gather (codes "value") (entries printer m),
            values_of-gather (codes "type") (entries printer m),
            values_of-gather (codes "ca") (entries printer m),
            values_of-gather (codes "quality") (entries printer m),
            values_of-gather (codes "cot") (entries printer m),
            values_of-gather (codes "timestamp") (entries printer m),
            number_back serde u32_max (printer.from_u64 m.ioa) m.ioa h.ioa_fits
                (h.integers m.ioa h.ioa_fits),
            value_back serde printer m.value h.value_back,
            type_back serde m.data_type,
            ca_back serde printer m.ca h.ca_fits
                (λ n e. h.integers n (omega (arith, h.ca_fits n e))),
            quality_back serde m.quality,
            cause_back serde m.cot,
            time_back serde printer m.timestamp h.time_back,
          )
          refl

    pub deserialize_message-rearranged :
        (fields : Fields serde)
        → IsReadable printer m
        → Rearranges (encode printer m) fields
        → deserialize_message fields ≡ some m
    deserialize_message-rearranged fields h r =
        deserialize_message-Rearranges r ∙ deserialize_message-encode h
