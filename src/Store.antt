-- ===== src/Store.antt =====
-- The data cache (main.rs, `CachedPoint` and `DataStore`): the latest point of each address. The
-- source's `HashMap` is a list of entries here; the order in which it gives its values is not that of
-- the list, and is a parameter where the values are read (Server).
pub mod Laws
pub mod Counting
use iec104bridge.Base.{ℕ, Bool, ◌&&◌, Option, none, some, List, [], ◌∷◌, map, ◌==◌, if◌then◌else◌}
use iec104bridge.Base.Int.{ℤ}
use iec104bridge.Message.{Iec104Message}

pub record CachedPoint : Type 0 where
  pub message : Iec104Message
  pub received_at : ℤ

-- An entry under its key, the common address and the object address.
pub record Entry : Type 0 where
  pub ca : ℕ
  pub ioa : ℕ
  pub cached : CachedPoint

abbrev pub DataStore : Type 0
DataStore = List Entry

abbrev pub has_key : ℕ → ℕ → Entry → Bool
has_key ca ioa e = e.ca == ca && e.ioa == ioa

unfoldable pub find : ℕ → ℕ → DataStore → Option CachedPoint
find ca ioa [] = none
find ca ioa (e ∷ s) = if has_key ca ioa e then some e.cached else find ca ioa s

-- `HashMap::insert`
unfoldable pub insert : ℕ → ℕ → CachedPoint → DataStore → DataStore
insert ca ioa cached [] = record { ca = ca; ioa = ioa; cached = cached } ∷ []
insert ca ioa cached (e ∷ s) =
    if has_key ca ioa e then record e { cached = cached } ∷ s else e ∷ insert ca ioa cached s

-- `HashMap::values`, up to their order.
abbrev pub values : DataStore → List CachedPoint
values [] = []
values (e ∷ s) = e.cached ∷ values s
