-- ===== src/Server/Interrogation.antt =====
-- The reply to a General Interrogation.
use mathlib.Core.List.{Perm, reverse, reverse-cons, reverse_perm, append_assoc}
use mathlib.Core.List.Perm
use mathlib.Core.Path.{subst}
use iec104bridge.Base.{ℕ, Bool, true, false, ◌≡◌, ◌≢◌, inl, inr, List, [], ◌∷◌, ◌++◌, map, arith}
use iec104bridge.Base.Int.{ℤ}
use iec104bridge.Platform.{Platform}
use iec104bridge.Sys.{Answers, History, act_con_sent, act_term_sent}
use iec104bridge.Asdu.Delivery.{Frame, frames, confirmation, termination}
use iec104bridge.Store.{CachedPoint, values}
use iec104bridge.Sinks.{fresh, connection_sink}
use iec104bridge.Server.{
  Shared, Settings, interrogate_station, handle_interrogation, replay_cached_values,
}
use iec104bridge.Server.Replay.{Loses, replay_frame, replay_cached_values-Loses}

-- A frame that is there if the library took it.
abbrev pub if_taken {ℓ} : {A : Type ℓ} → Bool → A → List A → List A
if_taken true f fs = f ∷ fs
if_taken false f fs = fs

Loses-zero {ℓ} :
    {A : Type ℓ} (fs before now : List A) → Loses fs 0 before now → now ≡ reverse fs ++ before
Loses-zero [] before now (_, e) = e
Loses-zero (f ∷ fs) before now (inl r) =
    rw (reverse-cons f fs, append_assoc) (Loses-zero fs (f ∷ before) now r)
Loses-zero (f ∷ fs) before now (inr (l, e, r)) = absurd (omega arith)

frames-act_con :
    {p : Platform} (conn : p.Connection) (negative r : Bool) (h : History p)
    → frames (act_con_sent conn negative r ∷ h) ≡ if_taken r (confirmation conn negative) (frames h)
unfolding frames
frames-act_con conn negative r h = ground arith

frames-act_term :
    {p : Platform} (conn : p.Connection) (r : Bool) (h : History p)
    → frames (act_term_sent conn r ∷ h) ≡ if_taken r (termination conn) (frames h)
unfolding frames
frames-act_term conn r h = ground arith

module _ {p : Platform} (settings : Settings) (conn : p.Connection) (now : ℤ) where
  -- The frames of the cached points, in the order in which they are read.
  abbrev pub point_frames : List CachedPoint → List (Frame p)
  point_frames = map (replay_frame p settings.default_ca settings.policy now conn)

module _ {p : Platform} (answers : Answers p) (settings : Settings) (conn : p.Connection)
    (now : ℤ) where
  -- Of a station interrogation lib60870 takes, for sending, the confirmation, the cached points in
  -- the order in which they are read, and the termination. Not taken are exactly the confirmation or
  -- the termination that is reported as not queued, and as many points as are reported as dropped.
  -- What lib60870 drops later from a queue that is too small is no part of the report.
  pub gi_reply :
      (points : List CachedPoint) (s : Shared p)
      → let (report, s') = interrogate_station answers settings conn now points s in
        (replayed : List (Frame p)) × Loses
          (point_frames settings conn now points)
          report.dropped
          (if_taken report.confirmed (confirmation conn false) (frames s.history))
          replayed
        × (frames s'.history ≡ if_taken report.terminated (termination conn) replayed)
  unfolding interrogate_station
  gi_reply points s =
      let r = answers.confirms s.history in
      let h = act_con_sent conn false r ∷ s.history in
      let t =
        replay_cached_values p (connection_sink answers conn) settings.default_ca settings.policy
          now points (fresh h) in
      let (lost, e, losses) =
        replay_cached_values-Loses answers conn settings.default_ca settings.policy now points
          (fresh h) in
      (
        frames t.history,
        subst (λ fs. Loses (point_frames settings conn now points) t.failed fs (frames t.history))
            (frames-act_con conn false r s.history)
            (subst
              (λ n. Loses (point_frames settings conn now points) n (frames h) (frames t.history))
              (omega arith) losses),
        frames-act_term conn (answers.terminates t.history) t.history,
      )

  handle_station :
      (points : List CachedPoint) (s : Shared p)
      → handle_interrogation answers settings conn p.qoi_station now points s
        ≡ (true, (interrogate_station answers settings conn now points s).1)
  unfolding handle_interrogation
  handle_station points s = ground arith

  -- An interrogation with nothing to report puts each cached point on the wire exactly once, between
  -- its confirmation and its termination, in whatever order the cache is read.
  pub gi_reply_complete :
      (points : List CachedPoint) (s : Shared p)
      → Perm points (values s.store)
      → (interrogate_station answers settings conn now points s).0
        ≡ record { confirmed = true; dropped = 0; terminated = true }
      → (replayed : List (Frame p)) × Perm replayed
          (point_frames settings conn now (values s.store))
        × (frames (handle_interrogation answers settings conn p.qoi_station now points s).1.history
            ≡ termination conn ∷ (replayed ++ confirmation conn false ∷ frames s.history))
  gi_reply_complete points s order quiet =
      let (replayed, losses, e) = gi_reply points s in
      let all =
        Loses-zero (point_frames settings conn now points)
          (confirmation conn false ∷ frames s.history) replayed
          (subst
            (λ r.
              Loses (point_frames settings conn now points) r.dropped
                (if_taken r.confirmed (confirmation conn false) (frames s.history)) replayed)
            quiet losses) in
      (
        reverse (point_frames settings conn now points),
        Perm.trans (reverse_perm (point_frames settings conn now points))
            (Perm.map (replay_frame p settings.default_ca settings.policy now conn) order),
        rw handle_station (
            rw (← all) (
              subst
                (λ r.
                  frames (interrogate_station answers settings conn now points s).1.history
                  ≡ if_taken r.terminated (termination conn) replayed)
                quiet e)),
      )

  -- An interrogation of a group gets a confirmation that is negative, and no points; the cache and
  -- the counters stay as they were.
  pub gi_group :
      (qoi : ℕ) (points : List CachedPoint) (s : Shared p)
      → qoi ≢ p.qoi_station
      → let (taken, s') = handle_interrogation answers settings conn qoi now points s in
        (taken ≡ true)
        × (s'.store ≡ s.store)
        × (s'.metrics ≡ s.metrics)
        × (frames s'.history
            ≡ if_taken (answers.confirms s.history) (confirmation conn true) (frames s.history))
  unfolding handle_interrogation frames
  gi_group qoi points s h = ground arith

  -- No interrogation changes the cache.
  pub gi_keeps_store :
      (qoi : ℕ) (points : List CachedPoint) (s : Shared p)
      → (handle_interrogation answers settings conn qoi now points s).1.store ≡ s.store
  unfolding handle_interrogation
  gi_keeps_store qoi points s = ground arith
