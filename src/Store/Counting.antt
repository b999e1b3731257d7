-- ===== src/Store/Counting.antt =====
-- How many points the cache holds: as many as addresses were seen.
use iec104bridge.Base.{
  ℕ, ◌+◌, ◌≤◌, ◌≡◌, refl, ◌∙◌, ap, Bool, false, ◌&&◌, ◌||◌, List, [], ◌∷◌, ◌++◌, arith, length,
  ◌==◌, if◌then◌else◌, unwrap_or,
}
use iec104bridge.Store.{CachedPoint, DataStore, has_key, insert}

abbrev pub holds : ℕ → ℕ → DataStore → Bool
holds ca ioa [] = false
holds ca ioa (e ∷ s) = has_key ca ioa e || holds ca ioa s

-- Points that arrive one after another.
abbrev pub insert_all : ℕ → List CachedPoint → DataStore → DataStore
insert_all default_ca [] s = s
insert_all default_ca (c ∷ cs) s =
    insert_all default_ca cs (insert (unwrap_or c.message.ca default_ca) c.message.ioa c s)

pub insert_all-append :
    (d : ℕ) (xs ys : List CachedPoint) (s : DataStore)
    → insert_all d (xs ++ ys) s ≡ insert_all d ys (insert_all d xs s)
insert_all-append d [] ys s = refl
insert_all-append d (x ∷ xs) ys s = insert_all-append d xs ys _

-- The number of addresses among them that were not seen before.
abbrev pub new_addresses : ℕ → List CachedPoint → (ℕ → ℕ → Bool) → ℕ
new_addresses default_ca [] seen = 0
new_addresses default_ca (c ∷ cs) seen =
    let ca = unwrap_or c.message.ca default_ca in
    let ioa = c.message.ioa in
    (if seen ca ioa then 0 else 1)
    + new_addresses default_ca cs (λ x y. ca == x && ioa == y || seen x y)

pub new_addresses-le :
    (d : ℕ) (cs : List CachedPoint) (seen : ℕ → ℕ → Bool) → new_addresses d cs seen ≤ length cs
new_addresses-le d [] seen = omega arith
new_addresses-le d (c ∷ cs) seen =
    let ca = unwrap_or c.message.ca d in
    let ioa = c.message.ioa in
    let rest = new_addresses-le d cs (λ x y. ca == x && ioa == y || seen x y) in ground arith

holds-insert :
    (ca ioa x y : ℕ) (v : CachedPoint) (s : DataStore)
    → holds x y (insert ca ioa v s) ≡ (ca == x && ioa == y || holds x y s)
unfolding insert
holds-insert ca ioa x y v [] = ground arith
holds-insert ca ioa x y v (e ∷ s) = ground (arith, holds-insert ca ioa x y v s)

length-insert :
    (ca ioa : ℕ) (v : CachedPoint) (s : DataStore)
    → length (insert ca ioa v s) ≡ (if holds ca ioa s then 0 else 1) + length s
unfolding insert
length-insert ca ioa v [] = refl
length-insert ca ioa v (e ∷ s) = ground (arith, length-insert ca ioa v s)

pub length-insert_all :
    (d : ℕ) (cs : List CachedPoint) (s : DataStore) (seen : ℕ → ℕ → Bool)
    → ((x y : ℕ) → holds x y s ≡ seen x y)
    → length (insert_all d cs s) ≡ new_addresses d cs seen + length s
length-insert_all d [] s seen h = omega arith
length-insert_all d (c ∷ cs) s seen h =
    let ca = unwrap_or c.message.ca d in
    let ioa = c.message.ioa in
    let rest =
      length-insert_all d cs (insert ca ioa c s) (λ x y. ca == x && ioa == y || seen x y)
        (λ x y. holds-insert ca ioa x y c s ∙ ap (λ b. ca == x && ioa == y || b) (h x y)) in
    let here = length-insert ca ioa c s in let same = h ca ioa in ground arith
