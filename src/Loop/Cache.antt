-- ===== src/Loop/Cache.antt =====
-- The cache after any run: the latest message for each address, and one entry for each address.
use iec104bridge.Base.{
  sym, ℕ, ◌≡◌, refl, Option, some, List, [], ◌∷◌, ◌++◌, unwrap_or, ◌==◌, ◌&&◌, if◌then◌else◌, ◌∙◌,
  ap,
}
use iec104bridge.Base.Int.{ℤ}
use iec104bridge.Platform.{Platform}
use iec104bridge.Sys.{Answers}
use iec104bridge.Store.{CachedPoint, DataStore, find}
use iec104bridge.Store.Laws.{HasDistinctKeys, IsKeyed, insert-HasDistinctKeys, insert-IsKeyed}
use iec104bridge.Server.{Shared, Settings, IncomingMessage, handle_incoming_message}
use iec104bridge.Server.Incoming.{find-handle_incoming_message, handle_incoming_message_store}
use iec104bridge.Loop.{
  LoopEvent, ctrl_c, stream_ended, receive_error, ctrl_c_unheard, received, run_message_loop,
  run_sources,
}

-- The messages that a source yields before it ends or the bridge is stopped, with their times.
abbrev pub arrivals : List LoopEvent → List CachedPoint
arrivals [] = []
arrivals (ctrl_c ∷ es) = []
arrivals (stream_ended ∷ es) = []
arrivals (receive_error ∷ es) = arrivals es
arrivals (ctrl_c_unheard ∷ es) = arrivals es
arrivals (received now incoming ∷ es) =
    record { message = incoming.message; received_at = now } ∷ arrivals es

abbrev pub all_arrivals : List (List LoopEvent) → List CachedPoint
all_arrivals [] = []
all_arrivals (es ∷ rest) = arrivals es ++ all_arrivals rest

-- The last of the points at an address, or else what was there before.
abbrev pub last_at : ℕ → ℕ → ℕ → List CachedPoint → Option CachedPoint → Option CachedPoint
last_at default_ca ca ioa [] before = before
last_at default_ca ca ioa (c ∷ cs) before =
    last_at default_ca ca ioa cs
      (if unwrap_or c.message.ca default_ca == ca && c.message.ioa == ioa then some c else before)

pub last_at-append :
    (d ca ioa : ℕ) (xs ys : List CachedPoint) (before : Option CachedPoint)
    → last_at d ca ioa (xs ++ ys) before ≡ last_at d ca ioa ys (last_at d ca ioa xs before)
last_at-append d ca ioa [] ys before = refl
last_at-append d ca ioa (x ∷ xs) ys before =
    last_at-append d ca ioa xs ys
      (if unwrap_or x.message.ca d == ca && x.message.ioa == ioa then some x else before)

-- What an address has: one entry for each key, under the key of its message.
pub record IsSound (default_ca : ℕ) (s : DataStore) : Type 0 where
  pub distinct : HasDistinctKeys s
  pub keyed : IsKeyed default_ca s

module _ {p : Platform} (answers : Answers p) (settings : Settings) (server : p.ServerPtr) where
  pub find-run_message_loop :
      (ca ioa : ℕ) (es : List LoopEvent) (s : Shared p)
      → find ca ioa (run_message_loop answers settings server es s).1.store
        ≡ last_at settings.default_ca ca ioa (arrivals es) (find ca ioa s.store)
  unfolding run_message_loop
  find-run_message_loop ca ioa [] s = refl
  find-run_message_loop ca ioa (ctrl_c ∷ es) s = refl
  find-run_message_loop ca ioa (stream_ended ∷ es) s = refl
  find-run_message_loop ca ioa (receive_error ∷ es) s = find-run_message_loop ca ioa es s
  find-run_message_loop ca ioa (ctrl_c_unheard ∷ es) s = find-run_message_loop ca ioa es s
  find-run_message_loop ca ioa (received now incoming ∷ es) s =
      find-run_message_loop ca ioa es
        (handle_incoming_message answers settings server now incoming s).1
      ∙ ap (last_at settings.default_ca ca ioa (arrivals es))
          (find-handle_incoming_message answers settings server now incoming s ca ioa)

  -- Over any number of sources, with errors and refused acknowledgements among their events, the
  -- cache holds for each address the last message that arrived for it, or what it held at the
  -- start.
  pub find-run_sources :
      (ca ioa : ℕ) (sources : List (List LoopEvent)) (s : Shared p)
      → find ca ioa (run_sources answers settings server sources s).store
        ≡ last_at settings.default_ca ca ioa (all_arrivals sources) (find ca ioa s.store)
  unfolding run_sources
  find-run_sources ca ioa [] s = refl
  find-run_sources ca ioa (es ∷ rest) s =
      find-run_sources ca ioa rest (run_message_loop answers settings server es s).1
      ∙ ap (last_at settings.default_ca ca ioa (all_arrivals rest))
          (find-run_message_loop ca ioa es s)
      ∙ sym (
          last_at-append settings.default_ca ca ioa (arrivals es) (all_arrivals rest)
            (find ca ioa s.store))

  handle-IsSound :
      (now : ℤ) (incoming : IncomingMessage) (s : Shared p)
      → IsSound settings.default_ca s.store
      → IsSound settings.default_ca
          (handle_incoming_message answers settings server now incoming s).1.store
  handle-IsSound now incoming s v = rw handle_incoming_message_store (record {
    distinct = insert-HasDistinctKeys _ _ _ s.store v.distinct;
    keyed =
        insert-IsKeyed settings.default_ca
          (record { message = incoming.message; received_at = now }) s.store v.keyed;
  })

  run_message_loop-IsSound :
      (es : List LoopEvent) (s : Shared p)
      → IsSound settings.default_ca s.store
      → IsSound settings.default_ca (run_message_loop answers settings server es s).1.store
  unfolding run_message_loop
  run_message_loop-IsSound [] s v = v
  run_message_loop-IsSound (ctrl_c ∷ es) s v = v
  run_message_loop-IsSound (stream_ended ∷ es) s v = v
  run_message_loop-IsSound (receive_error ∷ es) s v = run_message_loop-IsSound es s v
  run_message_loop-IsSound (ctrl_c_unheard ∷ es) s v = run_message_loop-IsSound es s v
  run_message_loop-IsSound (received now incoming ∷ es) s v =
      run_message_loop-IsSound es (handle_incoming_message answers settings server now incoming s).1
        (handle-IsSound now incoming s v)

  -- Any run keeps one entry for each address, each under the address that its message is sent with.
  pub run_sources-IsSound :
      (sources : List (List LoopEvent)) (s : Shared p)
      → IsSound settings.default_ca s.store
      → IsSound settings.default_ca (run_sources answers settings server sources s).store
  unfolding run_sources
  run_sources-IsSound [] s v = v
  run_sources-IsSound (es ∷ rest) s v =
      run_sources-IsSound rest (run_message_loop answers settings server es s).1
        (run_message_loop-IsSound es s v)
