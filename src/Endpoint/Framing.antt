-- ===== src/Endpoint/Framing.antt =====
-- What an HTTP client receives: an independent reader of the response.
use iec104bridge.Base.{
  ℕ, zero, suc, ◌≤◌, ◌≡◌, refl, ap, ◌∙◌, Option, none, some, [], ◌∷◌, ◌++◌, All, arith, length,
  length-append, ◌==◌, if◌then◌else◌,
}
use iec104bridge.Environment.{Text, codes, from_str, same}
use iec104bridge.Environment.Numeral.{IsDigit}
use iec104bridge.Config.{u64_max}
use iec104bridge.Platform.{Platform}
use iec104bridge.Server.{Shared}
use iec104bridge.Endpoint.{
  decimal, metrics_body, http_response, before_length, serve_metrics_connection,
}
use iec104bridge.Endpoint.Decimal.{decimal-IsDigit, from_str-decimal, length-decimal}
use iec104bridge.Endpoint.Scrape.{strip_prefix, scrape, scrape-metrics_body}

abbrev pub take : ℕ → Text → Text
take zero t = []
take (suc n) [] = []
take (suc n) (c ∷ cs) = c ∷ take n cs

take-length : (t : Text) → take (length t) t ≡ t
take-length [] = refl
take-length (c ∷ cs) = ap (λ (k : Text). c ∷ k) (take-length cs)

-- The first line, without its line feed, and what follows it.
unfoldable pub next_line : Text → Text × Text
next_line [] = ([], [])
next_line (c ∷ cs) = if c == b'\n' then ([], cs) else (c ∷ (next_line cs).0, (next_line cs).1)

unfoldable pub before_cr : Text → Text
before_cr [] = []
before_cr (c ∷ cs) = if c == b'\r' then [] else c ∷ before_cr cs

abbrev pub number_or : Option Text → Option ℕ → Option ℕ
unfolding before_cr
number_or none known = known
number_or (some value) known = from_str u64_max (before_cr value)

abbrev pub framed : Option ℕ → Text → Option Text
framed none t = none
framed (some n) t = some (take n t)

-- The body of a response of at most so many header lines: behind the empty line, as many bytes as the
-- header `Content-Length` says.
unfoldable pub receive : ℕ → Option ℕ → Text → Option Text
unfolding next_line strip_prefix number_or same
receive zero size t = none
receive (suc k) size t =
    let rest =
      receive k (number_or (strip_prefix (codes "Content-Length: ") (next_line t).0) size)
        (next_line t).1 in
    if same (next_line t).0 (codes "\r") then framed size (next_line t).1 else rest

next_line-digits :
    (t r : Text) → All IsDigit t → next_line (t ++ b'\r' ∷ b'\n' ∷ r) ≡ (t ++ b'\r' ∷ [], r)
unfolding next_line
next_line-digits [] r h = refl
next_line-digits (c ∷ cs) r (d, h) = ground (arith, next_line-digits cs r h)

before_cr-digits : (t : Text) → All IsDigit t → before_cr (t ++ b'\r' ∷ []) ≡ t
unfolding before_cr
before_cr-digits [] h = refl
before_cr-digits (c ∷ cs) (d, h) = ground (arith, before_cr-digits cs h)

status_lines :
    (k : ℕ) (x : Text)
    → receive (suc (suc k)) none (before_length ++ x)
      ≡ receive k none (codes "Content-Length: " ++ x)
unfolding receive before_length
status_lines k x = refl

length_line :
    (k n : ℕ) (x : Text)
    → n ≤ u64_max
    → receive (suc k) none (codes "Content-Length: " ++ (decimal n ++ b'\r' ∷ b'\n' ∷ x))
      ≡ receive k (some n) x
unfolding receive
length_line k n x h =
    rw
      (
        next_line-digits (decimal n) x (decimal-IsDigit n),
        before_cr-digits (decimal n) (decimal-IsDigit n),
        from_str-decimal n h,
      )
      refl

last_lines :
    (k n : ℕ) (x : Text)
    → receive (suc (suc k)) (some n) (codes "Connection: close\r\n\r\n" ++ x) ≡ some (take n x)
unfolding receive
last_lines k n x = refl

-- A client receives the body.
pub receive-http_response :
    (body : Text) → length body ≤ u64_max → receive 100 none (http_response body) ≡ some body
unfolding http_response
receive-http_response body h =
    status_lines 98 _
    ∙ length_line 97 (length body) (codes "Connection: close\r\n\r\n" ++ body) h
    ∙ last_lines 95 (length body) body
    ∙ ap some (take-length body)

length-metrics_body : (n m g : ℕ) → length (metrics_body n m g) ≤ 1000
unfolding metrics_body
length-metrics_body n m g =
    omega (arith, length-decimal n, length-decimal m, length-decimal g, length-append {0})

abbrev pub scraped : Option Text → Option ℕ × Option ℕ × Option ℕ
scraped none = (none, none, none)
scraped (some body) = scrape body

-- If the number of cached points and the two counters are each below 2^64: whoever asks the endpoint,
-- and reads the headers and the body by its length, reads these three numbers behind their names.
pub scrape-serve_metrics_connection :
    {p : Platform} (s : Shared p)
    → length s.store ≤ u64_max
    → s.metrics.messages_dispatched ≤ u64_max
    → s.metrics.gi_responses ≤ u64_max
    → scraped (receive 100 none (serve_metrics_connection s))
      ≡ (some (length s.store), some s.metrics.messages_dispatched, some s.metrics.gi_responses)
unfolding serve_metrics_connection
scrape-serve_metrics_connection s a b c =
    ap scraped (
      receive-http_response
        (metrics_body (length s.store) s.metrics.messages_dispatched s.metrics.gi_responses)
        (omega (
          arith,
          length-metrics_body (length s.store) s.metrics.messages_dispatched s.metrics.gi_responses,
        )))
    ∙ scrape-metrics_body (length s.store) s.metrics.messages_dispatched s.metrics.gi_responses a b
        c
