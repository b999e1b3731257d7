-- ===== src/Store/Laws.antt =====
-- The cache is a map with one entry for each address, and an entry stands under the address that its
-- message is sent with.
use iec104bridge.Base.{ℕ, ◌≡◌, ◌&&◌, some, [], ◌∷◌, arith, ◌==◌, if◌then◌else◌, unwrap_or, All}
use iec104bridge.Store.{CachedPoint, Entry, DataStore, find, insert}

-- Reading after a write.
pub find-insert :
    (ca ioa ca' ioa' : ℕ) (v : CachedPoint) (s : DataStore)
    → find ca' ioa' (insert ca ioa v s)
      ≡ (if ca == ca' && ioa == ioa' then some v else find ca' ioa' s)
unfolding find insert
find-insert ca ioa ca' ioa' v [] = ground arith
find-insert ca ioa ca' ioa' v (e ∷ s) = ground (arith, find-insert ca ioa ca' ioa' v s)

abbrev pub Differs : Entry → Entry → Type 0
Differs e f = (e.ca ≡ f.ca) → ¬ (e.ioa ≡ f.ioa)

-- No two entries have the same key.
abbrev pub HasDistinctKeys : DataStore → Type 0
HasDistinctKeys [] = Unit
HasDistinctKeys (e ∷ s) = All (Differs e) s × HasDistinctKeys s

-- Each entry stands under the address of its message, the default standing in for a missing one.
abbrev pub IsKeyed : ℕ → DataStore → Type 0
IsKeyed default_ca =
    All (λ e. (e.ca ≡ unwrap_or e.cached.message.ca default_ca) × (e.ioa ≡ e.cached.message.ioa))

insert-Differs :
    (f : Entry) (ca ioa : ℕ) (v : CachedPoint) (s : DataStore)
    → (f.ca ≡ ca → ¬ (f.ioa ≡ ioa))
    → All (Differs f) s
    → All (Differs f) (insert ca ioa v s)
unfolding insert
insert-Differs f ca ioa v [] d h = (d, tt)
insert-Differs f ca ioa v (e ∷ s) d h = ground (arith, insert-Differs f ca ioa v s d)

pub insert-HasDistinctKeys :
    (ca ioa : ℕ) (v : CachedPoint) (s : DataStore)
    → HasDistinctKeys s
    → HasDistinctKeys (insert ca ioa v s)
unfolding insert
insert-HasDistinctKeys ca ioa v [] h = (tt, tt)
insert-HasDistinctKeys ca ioa v (e ∷ s) h =
    ground (arith, insert-HasDistinctKeys ca ioa v s, insert-Differs e ca ioa v s)

pub insert-IsKeyed :
    (default_ca : ℕ) (v : CachedPoint) (s : DataStore)
    → IsKeyed default_ca s
    → IsKeyed default_ca (insert (unwrap_or v.message.ca default_ca) v.message.ioa v s)
unfolding insert
insert-IsKeyed d v [] h = ground arith
insert-IsKeyed d v (e ∷ s) h = ground (arith, insert-IsKeyed d v s)
