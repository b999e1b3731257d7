-- ===== src/Endpoint/Scrape.antt =====
-- What a scraper reads in the body: an independent reader of the text format of Prometheus.
use iec104bridge.Base.{
  ap, ◌∙◌, ℕ, ◌≤◌, ◌≡◌, refl, Option, none, some, List, [], ◌∷◌, ◌++◌, All, arith, ◌==◌,
  if◌then◌else◌,
}
use iec104bridge.Endpoint.{
  before_cache_size, before_dispatched, before_gi_responses, decimal, metrics_body,
}
use iec104bridge.Environment.{Text, codes, from_str}
use iec104bridge.Environment.Numeral.{IsDigit}
use iec104bridge.Config.{u64_max}
use iec104bridge.Endpoint.Decimal.{decimal-IsDigit, from_str-decimal}

abbrev pub cache_help : Text
cache_help = codes "# HELP iec104bridge_cache_size Number of data points currently cached"

abbrev pub cache_kind : Text
cache_kind = codes "# TYPE iec104bridge_cache_size gauge"

abbrev pub cache_name : Text
cache_name = codes "iec104bridge_cache_size "

abbrev pub dispatched_help : Text
dispatched_help =
    codes "# HELP iec104bridge_messages_dispatched_total Total IEC-104 messages dispatched"

abbrev pub dispatched_kind : Text
dispatched_kind = codes "# TYPE iec104bridge_messages_dispatched_total counter"

abbrev pub dispatched_name : Text
dispatched_name = codes "iec104bridge_messages_dispatched_total "

abbrev pub gi_help : Text
gi_help = codes "# HELP iec104bridge_gi_responses_total Total General Interrogation responses"

abbrev pub gi_kind : Text
gi_kind = codes "# TYPE iec104bridge_gi_responses_total counter"

abbrev pub gi_name : Text
gi_name = codes "iec104bridge_gi_responses_total "

abbrev pub put_first : ℕ → List Text → List Text
put_first c [] = (c ∷ []) ∷ []
put_first c (l ∷ ls) = (c ∷ l) ∷ ls

-- A text as its lines, each without its end.
unfoldable pub lines : Text → List Text
lines [] = []
lines (c ∷ cs) = if c == b'\n' then [] ∷ lines cs else put_first c (lines cs)

-- What follows a prefix.
unfoldable pub strip_prefix : Text → Text → Option Text
strip_prefix [] t = some t
strip_prefix (c ∷ cs) [] = none
strip_prefix (c ∷ cs) (d ∷ ds) = if c == d then strip_prefix cs ds else none

abbrev pub or_else : Option Text → Option ℕ → Option ℕ
or_else none rest = rest
or_else (some value) rest = from_str u64_max value

-- The value of a sample: the number behind the name and a space, on the first line that has them.
unfoldable pub sample : Text → List Text → Option ℕ
unfolding strip_prefix
sample name [] = none
sample name (l ∷ ls) = or_else (strip_prefix name l) (sample name ls)

abbrev pub scrape_lines : List Text → Option ℕ × Option ℕ × Option ℕ
unfolding sample
scrape_lines ls = (sample cache_name ls, sample dispatched_name ls, sample gi_name ls)

-- The cache size and the two counters of a body.
unfoldable pub scrape : Text → Option ℕ × Option ℕ × Option ℕ
unfolding lines scrape_lines
scrape body = scrape_lines (lines body)

lines_nil : lines [] ≡ []
unfolding lines
lines_nil = refl

lines-digits : (t r : Text) → All IsDigit t → lines (t ++ b'\n' ∷ r) ≡ t ∷ lines r
unfolding lines
lines-digits [] r h = refl
lines-digits (c ∷ cs) r (d, h) = ground (arith, lines-digits cs r h)

-- The first line of a text that stands behind another with no line end.
abbrev join : Text → List Text → List Text
join [] ls = ls
join (c ∷ cs) ls = put_first c (join cs ls)

join-cons : (t d : Text) (ls : List Text) → join t (d ∷ ls) ≡ (t ++ d) ∷ ls
join-cons [] d ls = refl
join-cons (c ∷ cs) d ls = ap (put_first c) (join-cons cs d ls)

-- A header is two comments and the name of the sample.
abbrev IsHeader : Text → Text → Text → Text → Type 0
IsHeader header help kind name =
    (x : Text) → lines (header ++ x) ≡ help ∷ kind ∷ join name (lines x)

sample_lines :
    (header help kind name : Text) (n : ℕ) (r : Text) (ls : List Text)
    → IsHeader header help kind name
    → lines r ≡ ls
    → lines (header ++ (decimal n ++ b'\n' ∷ r)) ≡ help ∷ kind ∷ (name ++ decimal n) ∷ ls
sample_lines header help kind name n r ls h e =
    h (decimal n ++ b'\n' ∷ r)
    ∙ ap (λ k. help ∷ kind ∷ join name k) (lines-digits (decimal n) r (decimal-IsDigit n))
    ∙ ap (λ k. help ∷ kind ∷ k) (join-cons name (decimal n) (lines r))
    ∙ ap (λ k. help ∷ kind ∷ (name ++ decimal n) ∷ k) e

cache_size-IsHeader : IsHeader before_cache_size cache_help cache_kind cache_name
unfolding lines before_cache_size
cache_size-IsHeader x = refl

dispatched-IsHeader : IsHeader before_dispatched dispatched_help dispatched_kind dispatched_name
unfolding lines before_dispatched
dispatched-IsHeader x = refl

gi_responses-IsHeader : IsHeader before_gi_responses gi_help gi_kind gi_name
unfolding lines before_gi_responses
gi_responses-IsHeader x = refl

abbrev lines_of : ℕ → ℕ → ℕ → List Text
lines_of n m g =
    cache_help
    ∷ cache_kind
    ∷ (cache_name ++ decimal n)
    ∷ dispatched_help
    ∷ dispatched_kind
    ∷ (dispatched_name ++ decimal m)
    ∷ gi_help
    ∷ gi_kind
    ∷ (gi_name ++ decimal g)
    ∷ []

metrics_lines : (n m g : ℕ) → lines (metrics_body n m g) ≡ lines_of n m g
unfolding metrics_body
metrics_lines n m g =
    sample_lines before_cache_size cache_help cache_kind cache_name n _ _ cache_size-IsHeader (
      sample_lines before_dispatched dispatched_help dispatched_kind dispatched_name m _ _
        dispatched-IsHeader
        (sample_lines before_gi_responses gi_help gi_kind gi_name g [] [] gi_responses-IsHeader
          lines_nil))

scrape_lines_lem :
    (n m g : ℕ)
    → scrape_lines (lines_of n m g)
      ≡ (from_str u64_max (decimal n), from_str u64_max (decimal m), from_str u64_max (decimal g))
unfolding scrape_lines
scrape_lines_lem n m g = refl

-- What is put into the body is read there.
pub scrape-metrics_body :
    (n m g : ℕ)
    → n ≤ u64_max
    → m ≤ u64_max
    → g ≤ u64_max
    → scrape (metrics_body n m g) ≡ (some n, some m, some g)
unfolding scrape
scrape-metrics_body n m g hn hm hg =
    ap scrape_lines (metrics_lines n m g)
    ∙ scrape_lines_lem n m g
    ∙ rw (from_str-decimal n hn, from_str-decimal m hm, from_str-decimal g hg) refl
