-- ===== src/Examples/Samples.antt =====
-- A platform, a library that always succeeds, and messages, for the examples.
use Prim.Native.Nat.{bit_or}
use iec104bridge.Base.{ℕ, ◌*◌, ◌==◌, if◌then◌else◌, Option, List, true, false, none, some, [], ◌∷◌}
use iec104bridge.Base.Int.{pos}
use iec104bridge.Number.{F64, scale}
use iec104bridge.Message.{Iec104Message, DataType, DataValue, QualityField, CotField}
use iec104bridge.Platform.{Platform}
use iec104bridge.Policy.{OutputPolicy}
use iec104bridge.Sys.{Answers}
use iec104bridge.Store.{CachedPoint, DataStore}
use iec104bridge.Server.{Settings, Shared}
use iec104bridge.Unix.{Client, Peer, PeerCred, Read, line}

-- Quality flags and causes by their codes in IEC 60870-5, times by their milliseconds.
abbrev pub platform : Platform
platform = record {
  F32 = F64;
  f32_zero = record { negative = false; units = 0 };
  f32_one = record { negative = false; units = scale };
  as_f32 = λ x. x;
  Timestamp = ℕ;
  from_ms = λ n. n;
  Quality = ℕ;
  good_quality = 0;
  invalid_quality = 128;
  not_topical_quality = 64;
  substituted_quality = 32;
  blocked_quality = 16;
  overflow_quality = 1;
  union = bit_or;
  Cause = ℕ;
  spontaneous_cause = 3;
  periodic_cause = 1;
  background_cause = 2;
  interrogated_by_station_cause = 20;
  return_remote_cause = 11;
  return_local_cause = 12;
  ServerPtr = ℕ;
  Connection = ℕ;
  qoi_station = 20;
}

abbrev pub willing : Answers platform
willing = record {
  new_object = λ h. some 1;
  new_asdu = λ h. some 2;
  sends = λ h. true;
  confirms = λ h. true;
  terminates = λ h. true;
  acknowledges = λ h. true;
}

abbrev pub policy : OutputPolicy
policy = record { send_timestamps = true; max_age = some 1_000_000_000 }

abbrev pub settings : Settings
settings = record { default_ca = 1; gi_only = false; policy = policy }

-- A breaker that is on, with a source time one second after the epoch.
abbrev pub breaker : Iec104Message
breaker = record {
  ioa = 1001;
  value = DataValue.bool true;
  data_type = some DataType.single_point;
  ca = none;
  quality = QualityField.good;
  cot = CotField.spontaneous;
  timestamp = some (pos 1_000_000_000);
}

abbrev pub cached_breaker : CachedPoint
cached_breaker = record { message = breaker; received_at = pos 2_000_000_000 }

abbrev pub one_point : DataStore
one_point = record { ca = 1; ioa = 1001; cached = cached_breaker } ∷ []

abbrev pub shared : Shared platform
shared = record {
  store = one_point;
  metrics = record { messages_dispatched = 0; gi_responses = 0 };
  history = [];
}

-- 42.0
abbrev pub forty_two : F64
forty_two = record { negative = false; units = 42 * scale }

-- A parser that knows one message, `b`, and one with the address 0, `z`.
abbrev pub parser : List ℕ → Option Iec104Message
parser [] = none
parser (c ∷ cs) =
    if c == b'b'
    then some breaker
    else if c == b'z'
    then some (record breaker { ioa = 0 })
    else none

abbrev pub peer : Peer
peer = record { writes = λ c. true; is_open = λ c. true }

abbrev pub fresh : Client
fresh = record { replies = []; forwarded = [] }

abbrev pub good_line : List ℕ
good_line = b'b' ∷ b'\n' ∷ []

abbrev pub bad_line : List ℕ
bad_line = b'x' ∷ b'\n' ∷ []

abbrev pub reads : List Read
reads = line good_line 2 ∷ line (b'z' ∷ []) 1 ∷ line bad_line 2 ∷ line good_line 2 ∷ []

abbrev pub cred : PeerCred
cred = record { uid = 1000; gid = 100; pid = 7 }
