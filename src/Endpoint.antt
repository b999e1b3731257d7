-- ===== src/Endpoint.antt =====
-- The metrics endpoint (main.rs, `serve_metrics_connection`): the response to every connection, with
-- the size of the cache and the two counters in the text format of Prometheus. The listener, and the
-- write of the response, are calls of tokio.
pub mod Decimal
pub mod Scrape
pub mod Framing
pub mod Observed
use iec104bridge.Base.{ℕ, zero, suc, ◌+◌, ◌/◌, ◌%◌, List, [], ◌∷◌, ◌++◌, length, ltb, if◌then◌else◌}
use iec104bridge.Environment.{Text, codes}
use iec104bridge.Platform.{Platform}
use iec104bridge.Server.{Shared}

-- The decimal print of a number of at most so many digits.
digits_of : ℕ → ℕ → Text
digits_of zero n = []
digits_of (suc f) n =
    let rest = digits_of f (n / 10) in
    if ltb n 10 then (b'0' + n) ∷ [] else rest ++ (b'0' + n % 10) ∷ []

-- `{}` of a `u64`, which has at most twenty digits.
pub decimal : ℕ → Text
unfolding digits_of
decimal n = digits_of 20 n

-- What stands before each number of the body.
before_cache_size : Text
before_cache_size =
    codes "# HELP iec104bridge_cache_size Number of data points currently cached\n"
    ++ (codes "# TYPE iec104bridge_cache_size gauge\n" ++ codes "iec104bridge_cache_size ")

before_dispatched : Text
before_dispatched =
    codes "# HELP iec104bridge_messages_dispatched_total Total IEC-104 messages dispatched\n"
    ++ (codes "# TYPE iec104bridge_messages_dispatched_total counter\n"
        ++ codes "iec104bridge_messages_dispatched_total ")

before_gi_responses : Text
before_gi_responses =
    codes "# HELP iec104bridge_gi_responses_total Total General Interrogation responses\n"
    ++ (codes "# TYPE iec104bridge_gi_responses_total counter\n"
        ++ codes "iec104bridge_gi_responses_total ")

unfoldable pub metrics_body : ℕ → ℕ → ℕ → Text
unfolding decimal before_cache_size before_dispatched before_gi_responses
metrics_body cache_size msgs_dispatched gi_responses =
    before_cache_size
    ++ (decimal cache_size
        ++ b'\n'
          ∷ (before_dispatched
              ++ (decimal msgs_dispatched
                  ++ b'\n' ∷ (before_gi_responses ++ (decimal gi_responses ++ b'\n' ∷ [])))))

before_length : Text
before_length =
    codes "HTTP/1.1 200 OK\r\n"
    ++ (codes "Content-Type: text/plain; version=0.0.4\r\n" ++ codes "Content-Length: ")

after_length : Text
after_length = codes "\r\nConnection: close\r\n\r\n"

-- The text is ASCII, so its length is that of its bytes.
unfoldable pub http_response : Text → Text
unfolding decimal before_length after_length
http_response body = before_length ++ (decimal (length body) ++ (after_length ++ body))

unfoldable pub serve_metrics_connection : {p : Platform} → Shared p → Text
unfolding metrics_body http_response
serve_metrics_connection s =
    http_response
      (metrics_body (length s.store) s.metrics.messages_dispatched s.metrics.gi_responses)
