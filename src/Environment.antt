-- ===== src/Environment.antt =====
-- Reading the environment (config.rs, the helpers at the end of `impl Config`): lookups of texts,
-- the numbers that Rust's `str::parse` reads from them, and the words for true and false. A text is
-- the list of its code points. `std::env::var` is the parameter `get`, on the keys that the code
-- asks for.
pub mod Numeral
use Prim.Native.Char.{code}
use Prim.Native.String.{String}
use iec104bridge.Base.{
  ℕ, ◌+◌, ◌-◌, ◌*◌, Bool, true, false, ◌&&◌, ◌||◌, Option, none, some, List, [], ◌∷◌, map, leb,
  ◌==◌, if◌then◌else◌, unwrap_or,
}
use iec104bridge.Base.Result.{Result, ok, err}

abbrev pub Text : Type 0
Text = List ℕ

abbrev pub codes : String → Text
codes String.[] = []
codes (String.◌∷◌ c s) = code c ∷ codes s

-- The names of the variables.
pub data Key : Type 0 where
  input_transport nats_url nats_stream nats_consumer nats_subject_filter : Key
  nats_credentials unix_socket_path unix_socket_allowed_uid unix_socket_allowed_gid : Key
  unix_socket_max_line_bytes iec104_bind_addr iec104_port iec104_ca iec104_gi_only : Key
  iec104_queue_size iec104_timestamps iec104_max_age_seconds metrics_port : Key
  tls_enabled tls_cert_path tls_key_path tls_ca_cert_path tls_port : Key

abbrev pub Lookup : Type 0
Lookup = Key → Option Text

-- The errors, by the variable that their text names.
pub data ConfigError : Type 0 where
  unknown_transport : ConfigError
  must_be_set must_be_set_for_tls must_be_positive must_be_number must_be_boolean :
      Key → ConfigError

unfoldable pub same : Text → Text → Bool
same [] [] = true
same [] (d ∷ ds) = false
same (c ∷ cs) [] = false
same (c ∷ cs) (d ∷ ds) = c == d && same cs ds

abbrev pub Option-map : {A B : Type 0} → (A → B) → Option A → Option B
Option-map f none = none
Option-map f (some a) = some (f a)

unfoldable pub is_upper : ℕ → Bool
is_upper c = leb b'A' c && leb c b'Z'

unfoldable pub lower : ℕ → ℕ
unfolding is_upper
lower c = if is_upper c then c + 32 else c

-- `str::to_lowercase` on ASCII; no other character's lower case is a letter or digit of the words
-- that the result is compared with.
unfoldable pub to_lowercase : Text → Text
unfolding lower
to_lowercase t = map lower t

unfoldable pub is_digit : ℕ → Bool
is_digit c = leb b'0' c && leb c b'9'

-- `str::parse` of an unsigned integer of at most `max`: an optional plus sign and at least one digit;
-- a number that grows beyond `max` is an error.
digits : ℕ → ℕ → Text → Option ℕ
unfolding is_digit
digits max acc [] = some acc
digits max acc (c ∷ cs) =
    let next = acc * 10 + (c - b'0') in
    let rest = digits max next cs in if is_digit c && leb next max then rest else none

nonempty_digits : ℕ → Text → Option ℕ
unfolding digits
nonempty_digits max [] = none
nonempty_digits max (c ∷ cs) = digits max 0 (c ∷ cs)

unfoldable pub unsigned : Text → Text
unsigned [] = []
unsigned (c ∷ cs) = if c == b'+' then cs else c ∷ cs

unfoldable pub from_str : ℕ → Text → Option ℕ
unfolding nonempty_digits unsigned
from_str max t = nonempty_digits max (unsigned t)

unfoldable pub or_error : Key → Option ℕ → Result ConfigError ℕ
or_error key none = err (must_be_number key)
or_error key (some n) = ok n

unfoldable pub some_number : Key → Option ℕ → Result ConfigError (Option ℕ)
some_number key none = err (must_be_number key)
some_number key (some n) = ok (some n)

unfoldable pub transposed : Key → ℕ → Option Text → Result ConfigError (Option ℕ)
unfolding some_number from_str
transposed key max none = ok none
transposed key max (some value) = some_number key (from_str max value)

-- `true`, `1` or `yes`.
unfoldable pub says_yes : Text → Bool
unfolding same
says_yes v = same v (codes "true") || same v (codes "1") || same v (codes "yes")

unfoldable pub says_no : Text → Bool
unfolding same
says_no v = same v (codes "false") || same v (codes "0") || same v (codes "no")

unfoldable pub is_truthy : Option Text → Bool
unfolding to_lowercase says_yes
is_truthy none = false
is_truthy (some v) = says_yes (to_lowercase v)

unfoldable pub read_bool : Key → Bool → Option Text → Result ConfigError Bool
unfolding says_yes says_no
read_bool key default none = ok default
read_bool key default (some v) =
    if says_yes v then ok true else if says_no v then ok false else err (must_be_boolean key)

unfoldable pub present : Key → Option Text → Result ConfigError Text
present key none = err (must_be_set key)
present key (some value) = ok value

unfoldable pub require_present : Option Text → Key → Result ConfigError (Unit {0})
require_present none key = err (must_be_set_for_tls key)
require_present (some value) key = ok tt

module _ (get : Lookup) where
  unfoldable pub required : Key → Result ConfigError Text
  unfolding present
  required key = present key (get key)

  unfoldable pub parse_optional : ℕ → Key → Result ConfigError (Option ℕ)
  unfolding transposed
  parse_optional max key = transposed key max (get key)

  unfoldable pub parse_with_default : ℕ → Key → Text → Result ConfigError ℕ
  unfolding or_error from_str
  parse_with_default max key default = or_error key (from_str max (unwrap_or (get key) default))

  unfoldable pub parse_bool_with_default : Key → Bool → Result ConfigError Bool
  unfolding read_bool to_lowercase
  parse_bool_with_default key default = read_bool key default (Option-map to_lowercase (get key))
