-- ===== src/Pipeline/Latest.antt =====
-- From the sources to the reply of an interrogation: the latest message of each address, once.
use mathlib.Core.List.{Perm}
use iec104bridge.Base.{ℕ, ◌≡◌, ◌∙◌, ap, refl, true, false, none, List, [], ◌∷◌, ◌++◌}
use iec104bridge.Base.Int.{ℤ}
use iec104bridge.Platform.{Platform}
use iec104bridge.Sys.{Answers}
use iec104bridge.Asdu.Delivery.{Frame, frames, confirmation, termination}
use iec104bridge.Store.{CachedPoint, DataStore, find, values}
use iec104bridge.Store.Laws.{HasDistinctKeys}
use iec104bridge.Server.{Shared, Settings, interrogate_station, handle_interrogation}
use iec104bridge.Server.Interrogation.{point_frames, gi_reply_complete}
use iec104bridge.Loop.{LoopEvent, run_sources}
use iec104bridge.Loop.Cache.{all_arrivals, last_at, find-run_sources, run_sources-IsSound}

-- The points of the addresses for which a message arrived, each address once, with its last message.
pub record IsLatest (default_ca : ℕ) (arrived : List CachedPoint) (s : DataStore) : Type 0 where
  pub once : HasDistinctKeys s
  pub latest : (ca ioa : ℕ) → find ca ioa s ≡ last_at default_ca ca ioa arrived none

find-empty : (ca ioa : ℕ) (s : DataStore) → s ≡ [] → find ca ioa s ≡ none
unfolding find
find-empty ca ioa s empty = rw empty refl

-- After any run of the message loop over any sources, from an empty cache: a station interrogation
-- that reads the cache in any order and has nothing to report puts on the wire, between its
-- confirmation and its termination, for each address for which a message arrived one point, that of
-- the last message which arrived for it, and no other point.
pub gi_reply-IsLatest :
    {p : Platform} (answers : Answers p) (settings : Settings) (server : p.ServerPtr)
    (conn : p.Connection) (now : ℤ) (sources : List (List LoopEvent)) (points : List CachedPoint)
    (s : Shared p)
    → s.store ≡ []
    → let s' = run_sources answers settings server sources s in
      Perm points (values s'.store)
      → (interrogate_station answers settings conn now points s').0
        ≡ record { confirmed = true; dropped = 0; terminated = true }
      → (replayed : List (Frame p)) × (latest : DataStore) × IsLatest settings.default_ca
          (all_arrivals sources)
          latest
        × Perm replayed (point_frames settings conn now (values latest))
        × (frames (handle_interrogation answers settings conn p.qoi_station now points s').1.history
            ≡ termination conn ∷ (replayed ++ confirmation conn false ∷ frames s'.history))
gi_reply-IsLatest answers settings server conn now sources points s empty order quiet =
    let s' = run_sources answers settings server sources s in
    let sound =
      run_sources-IsSound answers settings server sources s
        (rw empty (record { distinct = tt; keyed = tt })) in
    let (replayed, all, e) = gi_reply_complete answers settings conn now points s' order quiet in
    (
      replayed,
      s'.store,
      record {
        once = sound.distinct;
        latest = λ ca ioa.
            find-run_sources answers settings server ca ioa sources s
            ∙ ap (last_at settings.default_ca ca ioa (all_arrivals sources))
                (find-empty ca ioa s.store empty);
      },
      all,
      e,
    )
