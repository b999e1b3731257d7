-- ===== src/Nats/Connect/Urls.antt =====
-- The list of servers: what is written in NATS_URL is read back.
use iec104bridge.Nats.Connect.{
  before_first, is_whitespace, trim_start, put_before, trim_end, trim, split_at_commas, nats_urls,
}
use mathlib.Core.List.{append-nil, append_assoc}
use iec104bridge.Base.{
  ℕ, ◌≡◌, refl, sym, ap, ◌∙◌, true, false, List, [], ◌∷◌, ◌++◌, map, ◌==◌, All, All-map, All-append,
  Bool-cases, inl, inr, ==_iff, arith,
}
use iec104bridge.Environment.{Text}

abbrev pub IsBlank : Text → Type 0
IsBlank t = All (λ c. is_whitespace c ≡ true) t

abbrev pub StartsSolid : Text → Type 0
StartsSolid [] = Unit
StartsSolid (c ∷ cs) = is_whitespace c ≡ false

abbrev pub EndsSolid : Text → Type 0
EndsSolid [] = Unit
EndsSolid (c ∷ []) = is_whitespace c ≡ false
EndsSolid (c ∷ d ∷ ds) = EndsSolid (d ∷ ds)

abbrev pub HasNoComma : Text → Type 0
HasNoComma t = All (λ c. (c == b',') ≡ false) t

-- An address as it stands in the list, with the white space around it.
pub record Listed : Type 0 where
  pub before : Text
  pub url : Text
  pub after : Text

-- The address has no comma, and no white space at its ends.
pub record IsListed (l : Listed) : Type 0 where
  pub before_blank : IsBlank l.before
  pub after_blank : IsBlank l.after
  pub starts : StartsSolid l.url
  pub ends : EndsSolid l.url
  pub one_url : HasNoComma l.url

abbrev pub padded : Listed → Text
padded l = l.before ++ (l.url ++ l.after)

-- The addresses with commas between them.
abbrev pub joined : Listed → List Listed → Text
joined l [] = padded l
joined l (m ∷ ms) = padded l ++ b',' ∷ joined m ms

trim_end-blank : (t : Text) → IsBlank t → trim_end t ≡ []
unfolding trim_end put_before
trim_end-blank [] h = refl
trim_end-blank (c ∷ cs) (b, h) = rw (trim_end-blank cs h, b) refl

trim_end-append : (t after : Text) → IsBlank after → trim_end (t ++ after) ≡ trim_end t
unfolding trim_end
trim_end-append [] after h = trim_end-blank after h
trim_end-append (c ∷ cs) after h = ap (put_before c) (trim_end-append cs after h)

trim_end-solid : (c : ℕ) (cs : Text) → EndsSolid (c ∷ cs) → trim_end (c ∷ cs) ≡ c ∷ cs
unfolding trim_end put_before
trim_end-solid c [] h = rw h refl
trim_end-solid c (d ∷ ds) h = ap (put_before c) (trim_end-solid d ds h)

trim_end-prepend :
    (before : Text) (c : ℕ) (cs : Text)
    → EndsSolid (c ∷ cs)
    → trim_end (before ++ c ∷ cs) ≡ before ++ c ∷ cs
unfolding trim_end put_before
trim_end-prepend [] c cs h = trim_end-solid c cs h
trim_end-prepend (b ∷ []) c cs h = ap (put_before b) (trim_end-solid c cs h)
trim_end-prepend (b ∷ d ∷ before) c cs h = ap (put_before b) (trim_end-prepend (d ∷ before) c cs h)

trim_start-prepend :
    (before t : Text) → IsBlank before → StartsSolid t → trim_start (before ++ t) ≡ t
unfolding trim_start
trim_start-prepend [] [] b s = refl
trim_start-prepend [] (c ∷ cs) b s = rw s refl
trim_start-prepend (c ∷ cs) t (b, h) s = rw b (trim_start-prepend cs t h s)

trim-prepend :
    (before url : Text)
    → IsBlank before
    → StartsSolid url
    → EndsSolid url
    → trim_start (trim_end (before ++ url)) ≡ url
unfolding trim_start
trim-prepend before [] b s e =
    ap trim_start (ap trim_end (append-nil before) ∙ trim_end-blank before b)
trim-prepend before (c ∷ cs) b s e =
    ap trim_start (trim_end-prepend before c cs e) ∙ trim_start-prepend before (c ∷ cs) b s

trim-padded : (l : Listed) → IsListed l → trim (padded l) ≡ l.url
unfolding trim
trim-padded l v =
    ap (λ t. trim_start (trim_end t)) (sym (append_assoc l.before l.url l.after))
    ∙ ap trim_start (trim_end-append (l.before ++ l.url) l.after v.after_blank)
    ∙ trim-prepend l.before l.url v.before_blank v.starts v.ends

comma-not_blank : (c : ℕ) → is_whitespace c ≡ true → (c == b',') ≡ false
unfolding is_whitespace
comma-not_blank c h = ground arith

HasNoComma-padded : (l : Listed) → IsListed l → HasNoComma (padded l)
HasNoComma-padded l v =
    All-append _ l.before (l.url ++ l.after) (All-map l.before comma-not_blank v.before_blank)
      (All-append _ l.url l.after v.one_url (All-map l.after comma-not_blank v.after_blank))

split-part :
    (t : Text) (rest : Text)
    → HasNoComma t
    → split_at_commas (t ++ b',' ∷ rest) ≡ t ∷ split_at_commas rest
unfolding split_at_commas
split-part [] rest h = refl
split-part (c ∷ cs) rest (n, h) = rw (n, split-part cs rest h) refl

split-last : (t : Text) → HasNoComma t → split_at_commas t ≡ t ∷ []
unfolding split_at_commas
split-last [] h = refl
split-last (c ∷ cs) (n, h) = rw (n, split-last cs h) refl

-- Every list of addresses, one at least, with commas between them and any white space around them, is
-- read back as these addresses in their order, if none has a comma or white space at an end.
pub nats_urls-joined :
    (l : Listed) (ls : List Listed)
    → IsListed l
    → All IsListed ls
    → nats_urls (joined l ls) ≡ map (λ k. k.url) (l ∷ ls)
unfolding nats_urls
nats_urls-joined l [] v h =
    ap (map trim) (split-last (padded l) (HasNoComma-padded l v))
    ∙ ap (λ u. u ∷ []) (trim-padded l v)
nats_urls-joined l (m ∷ ms) v (w, h) =
    ap (map trim) (split-part (padded l) (joined m ms) (HasNoComma-padded l v))
    ∙ ap (λ u. u ∷ nats_urls (joined m ms)) (trim-padded l v)
    ∙ ap (λ us. l.url ∷ us) (nats_urls-joined m ms w h)

-- The parts with commas between them.
abbrev pub with_commas : Text → List Text → Text
with_commas part [] = part
with_commas part (next ∷ parts) = part ++ b',' ∷ with_commas next parts

-- The parts that stand between the commas of a text, each without the white space at its ends.
abbrev pub Lists : Text → List Text → Type 0
Lists t urls =
    (part : Text) × (parts : List Text) × (with_commas part parts ≡ t)
    × All HasNoComma (part ∷ parts)
    × (urls ≡ map trim (part ∷ parts))

split-with_commas :
    (part : Text) (parts : List Text)
    → All HasNoComma (part ∷ parts)
    → split_at_commas (with_commas part parts) ≡ part ∷ parts
split-with_commas part [] (h, _) = split-last part h
split-with_commas part (next ∷ parts) (h, hs) =
    split-part part (with_commas next parts) h
    ∙ ap (λ ps. part ∷ ps) (split-with_commas next parts hs)

abbrev IsSplit : Text → List Text → Type 0
IsSplit t [] = ⊥
IsSplit t (part ∷ parts) = (with_commas part parts ≡ t) × All HasNoComma (part ∷ parts)

-- One more character in front.
IsSplit-before_first :
    (c : ℕ) (t : Text) (parts : List Text)
    → (c == b',') ≡ false
    → IsSplit t parts
    → IsSplit (c ∷ t) (before_first c parts)
IsSplit-before_first c t [] n h = absurd h
IsSplit-before_first c t (part ∷ []) n (e, (h, hs)) = (ap (λ u. c ∷ u) e, ((n, h), hs))
IsSplit-before_first c t (part ∷ next ∷ parts) n (e, (h, hs)) = (ap (λ u. c ∷ u) e, ((n, h), hs))

IsSplit-comma :
    (c : ℕ) (t : Text) (parts : List Text)
    → (c == b',') ≡ true
    → IsSplit t parts
    → IsSplit (c ∷ t) ([] ∷ parts)
IsSplit-comma c t [] y h = absurd h
IsSplit-comma c t (part ∷ parts) y (e, hs) =
    (ap (λ u. b',' ∷ u) e ∙ ap (λ d. d ∷ t) (sym ((==_iff c b',').0 y)), (tt, hs))

split_at_commas-IsSplit : (t : Text) → IsSplit t (split_at_commas t)
unfolding split_at_commas
split_at_commas-IsSplit [] = (refl, (tt, tt))
split_at_commas-IsSplit (c ∷ cs) = elim (Bool-cases (c == b',')) [
  | inl y ↦ rw y (IsSplit-comma c cs (split_at_commas cs) y (split_at_commas-IsSplit cs))
  | inr n ↦ rw n (IsSplit-before_first c cs (split_at_commas cs) n (split_at_commas-IsSplit cs))
]

pub nats_urls-Lists : (t : Text) → Lists t (nats_urls t)
unfolding nats_urls
nats_urls-Lists t = go (split_at_commas t) (split_at_commas-IsSplit t)
  where
    go : (parts : List Text) → IsSplit t parts → Lists t (map trim parts)
    go [] h = absurd h
    go (part ∷ parts) (e, h) = (part, parts, e, h, refl)

pub Lists-nats_urls : (t : Text) (urls : List Text) → Lists t urls → nats_urls t ≡ urls
unfolding nats_urls
Lists-nats_urls t urls (part, parts, e, h, k) =
    ap (λ u. map trim (split_at_commas u)) (sym e)
    ∙ ap (map trim) (split-with_commas part parts h)
    ∙ sym k
