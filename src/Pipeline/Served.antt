-- ===== src/Pipeline/Served.antt =====
-- From the input to the wire: what the masters are served.
use iec104bridge.Base.{
  ℕ, suc, ◌+◌, ◌⊎◌, inl, inr, ◌≡◌, ◌≤◌, refl, Option, none, some, List, [], ◌∷◌, map, All, All-map,
  arith, unwrap_or,
}
use iec104bridge.Base.Int.{ℤ, pos}
use iec104bridge.Message.{Iec104Message}
use iec104bridge.Validation.Rules.{IsAcceptable, CaFits}
use iec104bridge.Platform.{Platform}
use iec104bridge.Sys.{Answers}
use iec104bridge.Asdu.{as_i32}
use iec104bridge.Asdu.Delivery.{Frame, frames}
use iec104bridge.Sinks.{ConnState, connection_sink}
use iec104bridge.Sinks.Wire.{SentOrCounted}
use iec104bridge.Store.{CachedPoint, Entry, DataStore, insert}
use iec104bridge.Server.{Shared, Settings, replay_point, handle_incoming_message}
use iec104bridge.Server.Incoming.{handle_incoming_message_store}
use iec104bridge.Server.Replay.{IsPointAt, replay_frame-IsPointAt, replay_point-SentOrCounted}
use iec104bridge.Loop.{
  LoopEvent, ctrl_c, stream_ended, receive_error, ctrl_c_unheard, received, run_message_loop,
  run_sources,
}
use iec104bridge.Nats.Filter.{IsSourceEvent, into_messages-IsSourceEvent}
use iec104bridge.Accept.{Item, accept_failed, message, no_hub, Reach, UnixSocketRuntime}
use iec104bridge.Accept.Order.{IsAdmitted, Reach-order}
use iec104bridge.Pipeline.{Input, from_nats, from_socket, socket_events, events}

-- An input that can come about: for the socket, a state that its listener and clients can reach.
abbrev pub IsInput : (List ℕ → Option Iec104Message) → UnixSocketRuntime → Input → Type 0
IsInput parse runtime (from_nats ds) = Unit
IsInput parse runtime (from_socket clock s) = Reach parse runtime no_hub s

-- An entry under the address of its message, which is acceptable.
abbrev IsGood : ℕ → Entry → Type 0
IsGood default_ca e =
    (e.ca ≡ unwrap_or e.cached.message.ca default_ca)
    × (e.ioa ≡ e.cached.message.ioa)
    × IsAcceptable e.cached.message

socket_events-IsSourceEvent :
    (clock : ℕ → ℤ) (n : ℕ) (items : List Item)
    → All IsAdmitted items
    → All IsSourceEvent (socket_events clock n items)
unfolding socket_events
socket_events-IsSourceEvent clock n [] h = tt
socket_events-IsSourceEvent clock n (accept_failed ∷ items) (_, h) =
    (tt, socket_events-IsSourceEvent clock (suc n) items h)
socket_events-IsSourceEvent clock n (message i m ∷ items) (a, h) =
    ((a, refl), socket_events-IsSourceEvent clock (suc n) items h)

events-IsSourceEvent :
    (parse : List ℕ → Option Iec104Message) (runtime : UnixSocketRuntime) (input : Input)
    → IsInput parse runtime input
    → All IsSourceEvent (events parse input)
unfolding events
events-IsSourceEvent parse runtime (from_nats ds) h = into_messages-IsSourceEvent parse ds []
events-IsSourceEvent parse runtime (from_socket clock s) h =
    let (_, arrived, _) = Reach-order parse runtime h 0 in
    socket_events-IsSourceEvent clock 0 s.received arrived

insert-IsGood :
    (d : ℕ) (v : CachedPoint) (s : DataStore)
    → IsAcceptable v.message
    → All (IsGood d) s
    → All (IsGood d) (insert (unwrap_or v.message.ca d) v.message.ioa v s)
unfolding insert
insert-IsGood d v [] a h = ((refl, refl, a), tt)
insert-IsGood d v (e ∷ s) a (g, h) = ground (arith, insert-IsGood d v s a h)

module _ {p : Platform} (answers : Answers p) (settings : Settings) (server : p.ServerPtr) where
  run_message_loop-IsGood :
      (es : List LoopEvent) (s : Shared p)
      → All IsSourceEvent es
      → All (IsGood settings.default_ca) s.store
      → All (IsGood settings.default_ca) (run_message_loop answers settings server es s).1.store
  unfolding run_message_loop
  run_message_loop-IsGood [] s h g = g
  run_message_loop-IsGood (ctrl_c ∷ es) s h g = g
  run_message_loop-IsGood (stream_ended ∷ es) s h g = g
  run_message_loop-IsGood (receive_error ∷ es) s (_, h) g = run_message_loop-IsGood es s h g
  run_message_loop-IsGood (ctrl_c_unheard ∷ es) s (_, h) g = run_message_loop-IsGood es s h g
  run_message_loop-IsGood (received now incoming ∷ es) s ((a, _), h) g =
      run_message_loop-IsGood es (handle_incoming_message answers settings server now incoming s).1
        h
        (rw (handle_incoming_message_store answers settings server now incoming s) (
          insert-IsGood settings.default_ca
            (record { message = incoming.message; received_at = now }) s.store a g))

  run_sources-IsGood :
      (parse : List ℕ → Option Iec104Message) (runtime : UnixSocketRuntime) (inputs : List Input)
      (s : Shared p)
      → All (IsInput parse runtime) inputs
      → All (IsGood settings.default_ca) s.store
      → All
          (IsGood settings.default_ca)
          (run_sources answers settings server (map (events parse) inputs) s).store
  unfolding run_sources
  run_sources-IsGood parse runtime [] s h g = g
  run_sources-IsGood parse runtime (i ∷ inputs) s (h, hs) g =
      run_sources-IsGood parse runtime inputs
        (run_message_loop answers settings server (events parse i) s).1 hs
        (run_message_loop-IsGood (events parse i) s (events-IsSourceEvent parse runtime i h) g)

-- What the replay of a point has done: put this point on the wire of the connection, or counted it as
-- dropped.
abbrev pub IsReplayedAt :
    {p : Platform} → p.Connection → (ca ioa : ℕ) → ConnState p → ConnState p → Type 0
IsReplayedAt {p} conn ca ioa before after =
    ((f : Frame p) × IsPointAt conn p.interrogated_by_station_cause (pos ca) (pos ioa) f
      × (after.failed ≡ before.failed)
      × (frames after.history ≡ f ∷ frames before.history))
    ⊎ ((after.failed ≡ before.failed + 1) × (frames after.history ≡ frames before.history))

-- What a master is served for an entry, whatever was sent before: a point of this address, in the
-- ranges of the protocol, from a message that passed validation.
abbrev pub IsServed : {p : Platform} → Answers p → Settings → ℤ → p.Connection → Entry → Type 0
IsServed {p} answers settings now conn e =
    IsAcceptable e.cached.message
    × (1 ≤ e.ca)
    × (e.ca ≤ 65534)
    × (1 ≤ e.ioa)
    × (e.ioa ≤ 16777215)
    × ((before : ConnState p)
        → IsReplayedAt conn e.ca e.ioa before (
            replay_point p (connection_sink answers conn) settings.default_ca settings.policy now
              e.cached before))

ca_in_range :
    (ca : Option ℕ) (d : ℕ)
    → 1 ≤ d
    → d ≤ 65534
    → CaFits ca
    → (1 ≤ unwrap_or ca d) × (unwrap_or ca d ≤ 65534)
ca_in_range none d l h f = (l, h)
ca_in_range (some ca) d l h f = f

as_i32_in_range : (ioa : ℕ) → ioa ≤ 16777215 → as_i32 ioa ≡ pos ioa
as_i32_in_range ioa h = ground arith

replayed-IsReplayedAt :
    {p : Platform} (conn : p.Connection) (ca ioa : ℕ) (before after : ConnState p) (f : Frame p)
    → IsPointAt conn p.interrogated_by_station_cause (pos ca) (pos ioa) f
    → SentOrCounted f before after
    → IsReplayedAt conn ca ioa before after
replayed-IsReplayedAt conn ca ioa before after f at (inl (n, g)) = inl (f, at, n, g)
replayed-IsReplayedAt conn ca ioa before after f at (inr (n, g)) = inr (n, g)

IsGood-IsServed :
    {p : Platform} (answers : Answers p) (settings : Settings) (now : ℤ) (conn : p.Connection)
    → 1 ≤ settings.default_ca
    → settings.default_ca ≤ 65534
    → (e : Entry) → IsGood settings.default_ca e
    → IsServed answers settings now conn e
IsGood-IsServed {p} answers settings now conn low high e (hc, hi, a) =
    let (l, h) = ca_in_range e.cached.message.ca settings.default_ca low high a.ca_fits in
    let (m, n) = a.ioa_fits in
    (
      a,
      rw hc l,
      rw hc h,
      rw hi m,
      rw hi n,
      λ before.
          replayed-IsReplayedAt conn e.ca e.ioa before _ _
            (rw (← as_i32_in_range e.ioa (rw hi n))
              (replay_frame-IsPointAt p settings.default_ca settings.policy now conn e hc hi))
            (replay_point-SentOrCounted answers conn settings.default_ca settings.policy now
              e.cached before),
    )

-- From the input to the wire: over any number of sources, from NATS or from any clients of the
-- socket, with any answers of the library, and with a default common address of 1 to 65534, every
-- point that the cache holds comes from a message that passed validation; and its replay on a
-- connection, whatever was sent there before, puts a point at the point's own common address, 1 to
-- 65534, and object address, 1 to 16777215, on the wire, with the cause of a station interrogation,
-- or counts it as dropped.
pub run_sources-IsServed :
    {p : Platform} (answers : Answers p) (settings : Settings) (server : p.ServerPtr)
    (parse : List ℕ → Option Iec104Message) (runtime : UnixSocketRuntime) (inputs : List Input)
    (now : ℤ) (conn : p.Connection) (s : Shared p)
    → s.store ≡ []
    → All (IsInput parse runtime) inputs
    → 1 ≤ settings.default_ca
    → settings.default_ca ≤ 65534
    → All
        (IsServed answers settings now conn)
        (run_sources answers settings server (map (events parse) inputs) s).store
run_sources-IsServed {p} answers settings server parse runtime inputs now conn s empty h low high =
    All-map _ (IsGood-IsServed answers settings now conn low high)
      (run_sources-IsGood answers settings server parse runtime inputs s h (rw empty tt))
