-- ===== src/Pinned/Stable.antt =====
-- That the copy is on its own.
use iec104bridge.Base.{ℕ, zero, suc, ◌+◌, ◌≡◌, ap, Option, none, some, List, [], ◌∷◌, arith}
use iec104bridge.Pinned.{BytePointer, StaticAsdu, Memory, pinned}

abbrev pub drop : ℕ → List ℕ → List ℕ
drop zero bytes = bytes
drop (suc n) [] = []
drop (suc n) (b ∷ bytes) = drop n bytes

-- What a pointer leads to, in a memory; nothing if the ASDU is not alive.
abbrev pub bytes_from : Option StaticAsdu → ℕ → Option (List ℕ)
bytes_from none n = none
bytes_from (some asdu) n = some (drop n asdu.encoded_data)

abbrev pub read : Memory → BytePointer → Option (List ℕ)
read m p = bytes_from (m p.object) p.offset

-- The bytes and the payload as lib60870 reads them, through the pointers of the ASDU at an address.
abbrev pub through : Memory → Option StaticAsdu → Option (List ℕ) × Option (List ℕ)
through m none = (none, none)
through m (some asdu) = (read m asdu.asdu, read m asdu.payload)

abbrev pub seen_at : Memory → ℕ → Option (List ℕ) × Option (List ℕ)
seen_at m address = through m (m address)

pub seen_at-pinned :
    (address : ℕ) (m : Memory) (asdu : StaticAsdu)
    → m address ≡ some (pinned address asdu)
    → seen_at m address
      ≡ (some asdu.encoded_data, some (drop asdu.asdu_header_length asdu.encoded_data))
unfolding pinned
seen_at-pinned address m asdu e =
    let at_header : 0 + asdu.asdu_header_length ≡ asdu.asdu_header_length = omega arith in
    rw (e, e) (ap (λ n. (some asdu.encoded_data, some (drop n asdu.encoded_data))) at_header)
