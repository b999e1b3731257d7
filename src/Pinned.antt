-- ===== src/Pinned.antt =====
-- `PinnedAsdu` (asdu.rs), the copy of a request that the handler of an interrogation confirms with.
-- In lib60870 an ASDU has its bytes within it, and pointers to them, which a copy has to be given
-- anew.
pub mod Stable
pub mod Requests
pub mod Carried
use iec104bridge.Base.{ℕ, zero, suc, ◌+◌, Option, none, some, List, [], ◌∷◌, ◌==◌, if◌then◌else◌}

-- A pointer into the bytes of the ASDU at an address.
pub record BytePointer : Type 0 where
  pub object : ℕ
  pub offset : ℕ

-- What the code uses of `sCS101_StaticASDU`: the bytes, where they and the payload among them
-- begin, and the length of the header.
pub record StaticAsdu : Type 0 where
  pub encoded_data : List ℕ
  pub asdu : BytePointer
  pub payload : BytePointer
  pub asdu_header_length : ℕ

-- The ASDUs that are alive, by their address.
abbrev pub Memory : Type 0
Memory = ℕ → Option StaticAsdu

abbrev pub write : Memory → ℕ → Option StaticAsdu → Memory
write m a v b = if a == b then v else m b

-- `encodedData.as_mut_ptr()`
abbrev pub as_mut_ptr : ℕ → BytePointer
as_mut_ptr address = record { object = address; offset = 0 }

-- `base.add(n)`
abbrev pub add : BytePointer → ℕ → BytePointer
add base n = record base { offset = base.offset + n }

-- The copy in the box: the struct as it is read, with its two pointers set to its own bytes.
unfoldable pub pinned : ℕ → StaticAsdu → StaticAsdu
pinned address inner =
    let base = as_mut_ptr address in
    record inner { asdu = base; payload = add base inner.asdu_header_length }

copied : ℕ → Memory → Option StaticAsdu → Option (ℕ × Memory)
unfolding pinned
copied address m none = none
copied address m (some asdu) = some (address, write m address (some (pinned address asdu)))

-- `Box::new` gives the address; `none` is the read of an ASDU that is not alive. The box is moved
-- around afterwards, but not what it points to; `as_ptr` is its address.
unfoldable pub copy_of : ℕ → ℕ → Memory → Option (ℕ × Memory)
unfolding copied
copy_of address source m = copied address m (m source)
