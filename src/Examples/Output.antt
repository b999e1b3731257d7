-- ===== src/Examples/Output.antt =====
-- Examples of the output policy, of dispatch, and of the objects on the wire.
use iec104bridge.Base.{ℕ, List, ◌==◌, if◌then◌else◌, none, ◌∷◌, ◌≡◌, ◌≢◌, refl, ◌↔◌, true, some, []}
use iec104bridge.Base.Int.{pos}
use iec104bridge.Message.{DataType, DataValue, QualityField}
use iec104bridge.Policy.{prepare_for_output, Outgoing}
use iec104bridge.Policy.Staleness.{TooOld, not_topical_iff}
use iec104bridge.Bridge.{dispatch_outgoing, TimedDispatch}
use iec104bridge.Bridge.Dispatch.{perform, call_of, dispatch-call_of}
use iec104bridge.Pinned.{StaticAsdu, Memory, write}
use iec104bridge.Pinned.Requests.{Confirmation, act_con, act_term, handle_request}
use iec104bridge.Pinned.Stable.{drop}
use iec104bridge.Pinned.Carried.{Confirms, reply, handle_request-Confirms}
use iec104bridge.Server.{handle_interrogation}
use iec104bridge.Sys.{History}
use iec104bridge.Asdu.{
  single_value, enqueue_timed_asdu, send_timed_to_connection, send_untimed_to_connection,
}
use iec104bridge.Asdu.Ownership.{Heap, after, sends_keep_heap}
use iec104bridge.Sinks.{live_sink}
use iec104bridge.Examples.Samples.{
  platform, willing, policy, breaker, settings, shared, cached_breaker,
}

not_topical_iff_example :
    ((prepare_for_output breaker (pos 0) (pos 5_000_000_000) policy).not_topical ≡ true) ↔ (
      TooOld breaker (pos 0) (pos 5_000_000_000) policy.max_age
      × (breaker.quality ≢ QualityField.invalid))
not_topical_iff_example = not_topical_iff breaker (pos 0) (pos 5_000_000_000) policy

abbrev outgoing : Outgoing
outgoing = record { message = breaker; not_topical = true }

dispatch-call_of_example :
    dispatch_outgoing platform (live_sink willing 5) outgoing 1 []
    ≡ perform platform (live_sink willing 5) (call_of platform outgoing 1) []
dispatch-call_of_example = dispatch-call_of platform (live_sink willing 5) outgoing 1 []

abbrev timed_message : TimedDispatch platform
timed_message = record {
  server_ptr = some 5;
  cot = 3;
  ca = 1;
  ioa = 7;
  value = DataValue.bool true;
  data_type = DataType.single_point;
  quality = 0;
  timestamp = 99;
}

abbrev empty_heap : Heap
empty_heap = record { objects = []; asdus = [] }

nothing_alive : after {p = platform} [] empty_heap ≡ some empty_heap
unfolding after
nothing_alive = refl

sends_keep_heap_example :
    (after (send_timed_to_connection willing 9 timed_message []).1 empty_heap ≡ some empty_heap)
    × (after (send_untimed_to_connection willing 9 3 1 7 (single_value true) 0 []).1 empty_heap
        ≡ some empty_heap)
    × (after (enqueue_timed_asdu willing timed_message []).1 empty_heap ≡ some empty_heap)
sends_keep_heap_example =
    sends_keep_heap willing [] empty_heap empty_heap nothing_alive 9 timed_message 3 1 7
      (single_value true) 0

-- A request at address 5 whose own pointers lead to an ASDU that is gone.
abbrev request : StaticAsdu
request = record {
  encoded_data = 100 ∷ 1 ∷ 6 ∷ 0 ∷ 1 ∷ 0 ∷ 0 ∷ 0 ∷ 0 ∷ 20 ∷ [];
  asdu = record { object = 99; offset = 0 };
  payload = record { object = 99; offset = 6 };
  asdu_header_length = 6;
}

abbrev memory : Memory
memory = write (λ address. none) 5 (some request)

-- While the interrogation runs, everything but the copy at address 6 is freed.
abbrev freed : History platform → Memory → Memory
freed h m address = if address == 6 then m 6 else none

-- The cause and the flag of a negative confirmation are in the third byte.
abbrev stamps : Confirmation → List ℕ → List ℕ
stamps (act_con negative) (type_id ∷ vsq ∷ cause ∷ bytes) =
    type_id ∷ vsq ∷ (if negative then 71 else 7) ∷ bytes
stamps act_term (type_id ∷ vsq ∷ cause ∷ bytes) = type_id ∷ vsq ∷ 10 ∷ bytes
stamps k bytes = bytes

stamps-header_only : (k : Confirmation) (bytes : List ℕ) → drop 6 (stamps k bytes) ≡ drop 6 bytes
stamps-header_only (act_con negative) [] = refl
stamps-header_only act_term [] = refl
stamps-header_only (act_con negative) (a ∷ []) = refl
stamps-header_only act_term (a ∷ []) = refl
stamps-header_only (act_con negative) (a ∷ b ∷ []) = refl
stamps-header_only act_term (a ∷ b ∷ []) = refl
stamps-header_only (act_con negative) (a ∷ b ∷ c ∷ bytes) = refl
stamps-header_only act_term (a ∷ b ∷ c ∷ bytes) = refl

handle_request-Confirms_example :
    Confirms
      (handle_interrogation willing settings 9 20 (pos 7) (cached_breaker ∷ []) shared).1
      (reply request (100 ∷ 1 ∷ 10 ∷ 0 ∷ 1 ∷ 0 ∷ 0 ∷ 0 ∷ 0 ∷ 20 ∷ [])
        ∷ reply request (100 ∷ 1 ∷ 7 ∷ 0 ∷ 1 ∷ 0 ∷ 0 ∷ 0 ∷ 0 ∷ 20 ∷ [])
        ∷ [])
      (handle_request willing settings freed stamps 9 5 6 20
        (pos 7)
        (cached_breaker ∷ [])
        shared
        memory)
handle_request-Confirms_example =
    handle_request-Confirms willing settings freed stamps 9 6 (λ h m. refl) request
      stamps-header_only 5 20 (pos 7) (cached_breaker ∷ []) shared memory refl
