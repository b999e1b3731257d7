-- ===== src/Examples/Delivering.antt =====
-- Examples of a payload from NATS on its way to the server.
use iec104bridge.Base.{ℕ, true, inl, Option, none, some, List, [], ◌∷◌}
use iec104bridge.Base.Int.{pos}
use iec104bridge.Decode.{Document, object, array}
use iec104bridge.Decode.Value.{null, boolean, number}
use iec104bridge.Nats.{payload, into_messages}
use iec104bridge.Loop.{run_message_loop}
use iec104bridge.Pipeline.Payload.{from_slice, IsSentOrDropped, payload-IsSentOrDropped}
use iec104bridge.Examples.Decoding.{serde, fields}
use iec104bridge.Examples.Samples.{willing, settings, shared}

-- A payload of one byte holds an array of the first four fields, a longer one an object, and the
-- empty one nothing.
abbrev document_in : List ℕ → Option (Document serde)
document_in [] = none
document_in (b ∷ []) = some (array (number (inl 100) ∷ boolean true ∷ null ∷ number (inl 1) ∷ []))
document_in (b ∷ c ∷ bytes) = some (object fields)

payload-IsSentOrDropped_example :
    let (events, calls) =
      into_messages (from_slice document_in) ((pos 7, payload (91 ∷ [])) ∷ []) [] in
    IsSentOrDropped document_in willing settings 5
      (pos 7)
      (91 ∷ [])
      shared
      calls
      (run_message_loop willing settings 5 events shared).1
payload-IsSentOrDropped_example =
    payload-IsSentOrDropped document_in willing settings 5 (pos 7) (91 ∷ []) shared
