-- ===== src/Concurrent.antt =====
-- The message loop and the interrogations at once (main.rs, `handle_incoming_message` and
-- `replay_cached_values`). The loop handles one message after another; between the two locks that it
-- takes for a message, and between two messages, lib60870 may call the interrogation handler, which
-- replays the cache under the lock. What a call puts on the wire for a point is that of Server.
pub mod Current
use iec104bridge.Base.{
  ℕ, ◌≡◌, Bool, Option, none, some, List, [], ◌∷◌, ◌++◌, unwrap_or, if◌then◌else◌,
}
use iec104bridge.Store.{CachedPoint, DataStore, insert, values}
use iec104bridge.Server.{Settings}

-- A point that was sent, live or replayed, and what had arrived until then.
pub record Shown : Type 0 where
  pub point : CachedPoint
  pub arrived : List CachedPoint

-- The cache, the messages that have arrived, oldest first, the one that is cached but not yet
-- dispatched, and the points that were sent, the latest first.
pub record Bridge : Type 0 where
  pub store : DataStore
  pub arrived : List CachedPoint
  pub pending : Option CachedPoint
  pub shown : List Shown

abbrev pub replay : List CachedPoint → List CachedPoint → List Shown → List Shown
replay arrived [] shown = shown
replay arrived (c ∷ cs) shown = replay arrived cs (record { point = c; arrived = arrived } ∷ shown)

-- The points of the second list, one at a time, in any order.
pub data Reads : List CachedPoint → List CachedPoint → Type 0 where
  none_left : Reads [] []
  pick :
      {points : List CachedPoint} (c : CachedPoint) (before after : List CachedPoint)
      → Reads points (before ++ after)
      → Reads (c ∷ points) (before ++ c ∷ after)

pub data Step (settings : Settings) (s t : Bridge) : Type 0 where
  -- A message is cached, under the lock of the cache.
  cache_point :
      (c : CachedPoint)
      → s.pending ≡ none
      → t ≡ record s {
        store = insert (unwrap_or c.message.ca settings.default_ca) c.message.ioa c s.store;
        arrived = s.arrived ++ c ∷ [];
        pending = some c;
      }
      → Step settings s t
  -- It is dispatched, unless points are kept for interrogations.
  dispatch :
      (c : CachedPoint)
      → s.pending ≡ some c
      → t ≡ record s {
        pending = none;
        shown =
            if settings.gi_only
            then s.shown
            else record { point = c; arrived = s.arrived } ∷ s.shown;
      }
      → Step settings s t
  -- The cached points are replayed, under the lock of the cache, in any order.
  interrogate :
      (points : List CachedPoint)
      → Reads points (values s.store)
      → t ≡ record s { shown = replay s.arrived points s.shown }
      → Step settings s t

abbrev pub empty_bridge : Bridge
empty_bridge = record { store = []; arrived = []; pending = none; shown = [] }

pub data Reach (settings : Settings) : Bridge → Type 0 where
  here : Reach settings empty_bridge
  next : {s t : Bridge} → Reach settings s → Step settings s t → Reach settings t
