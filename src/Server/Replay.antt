-- ===== src/Server/Replay.antt =====
-- Replaying the cache on a connection: what is sent for each point, and what is counted as dropped.
use iec104bridge.Bridge.{map_cot, DataSink}
use iec104bridge.Sys.{InfoObject, Answers}
use iec104bridge.Sys.{
  InfoObject, single, short, scaled_value, single_time, double_time, scaled_time, short_time,
  normalized_time,
}
use iec104bridge.Asdu.Delivery.{confirmation, termination, point}
use iec104bridge.Asdu.{timed_object, untimed_object, as_i32}
use iec104bridge.Base.Int.{pos}
use iec104bridge.Bridge.{map_cot}
use iec104bridge.Store.{Entry}
use iec104bridge.Base.{
  unwrap_or, arith, ℕ, suc, ◌+◌, ◌≡◌, refl, ◌⊎◌, inl, inr, List, [], ◌∷◌, map, arith, unwrap_or,
}
use iec104bridge.Base.Int.{ℤ}
use iec104bridge.Message.{CotField}
use iec104bridge.Platform.{Platform}
use iec104bridge.Policy.{OutputPolicy, prepare_for_output}
use iec104bridge.Bridge.Dispatch.{SinkCall, perform, call_of, dispatch-call_of}
use iec104bridge.Asdu.Delivery.{Frame, frames}
use iec104bridge.Sinks.{ConnState, connection_sink}
use iec104bridge.Sinks.Wire.{frame_of, connection_sink_counts, SentOrCounted}
use iec104bridge.Store.{CachedPoint}
use iec104bridge.Server.{replay_point, replay_cached_values}

module _ (p : Platform) (default_ca : ℕ) (policy : OutputPolicy) (now : ℤ) where
  -- The call of the sink for a cached point.
  pub replay_call : CachedPoint → SinkCall p
  replay_call c =
      let out = prepare_for_output c.message c.received_at now policy in
      call_of p (record out { message = record out.message { cot = CotField.interrogated } })
        (unwrap_or c.message.ca default_ca)

  pub replay_point-perform :
      {S : Type 0} (sink : DataSink p S) (c : CachedPoint) (s : S)
      → replay_point p sink default_ca policy now c s ≡ perform p sink (replay_call c) s
  unfolding replay_point replay_call
  replay_point-perform sink c s = dispatch-call_of p sink _ _ s

  -- The frame for a cached point.
  pub replay_frame : p.Connection → CachedPoint → Frame p
  replay_frame conn c = frame_of p conn (replay_call c)

-- From `before` the frames of `fs` were added in their order, all but `lost` of them.
abbrev pub Loses {ℓ} : {A : Type ℓ} → List A → ℕ → List A → List A → Type ℓ
Loses [] lost before now = (lost ≡ 0) × (now ≡ before)
Loses (f ∷ fs) lost before now =
    Loses fs lost (f ∷ before) now ⊎ ((l : ℕ) × (lost ≡ suc l) × Loses fs l before now)

Loses-SentOrCounted :
    {p : Platform} (f : Frame p) (fs : List (Frame p)) (s t u : ConnState p)
    → SentOrCounted f s t
    → (lost : ℕ) × (u.failed ≡ t.failed + lost)
      × Loses fs lost (frames t.history) (frames u.history)
    → (lost : ℕ) × (u.failed ≡ s.failed + lost)
      × Loses (f ∷ fs) lost (frames s.history) (frames u.history)
Loses-SentOrCounted f fs s t u (inl (n, g)) (l, k, r) = (l, omega arith, inl (rw (← g) r))
Loses-SentOrCounted f fs s t u (inr (n, g)) (l, k, r) =
    (suc l, omega arith, inr (l, refl, rw (← g) r))

module _ {p : Platform} (answers : Answers p) (conn : p.Connection) (default_ca : ℕ)
    (policy : OutputPolicy) (now : ℤ) where
  pub replay_point-SentOrCounted :
      (c : CachedPoint) (s : ConnState p)
      → SentOrCounted
          (replay_frame p default_ca policy now conn c)
          s
          (replay_point p (connection_sink answers conn) default_ca policy now c s)
  unfolding replay_frame
  replay_point-SentOrCounted c s =
      rw (replay_point-perform p default_ca policy now (connection_sink answers conn) c s)
        (connection_sink_counts answers conn (replay_call p default_ca policy now c) s)

  -- Replaying the points adds their frames in order, and counts each one that is missing.
  pub replay_cached_values-Loses :
      (cs : List CachedPoint) (s : ConnState p)
      → let s' = replay_cached_values p (connection_sink answers conn) default_ca policy now cs s in
        (lost : ℕ) × (s'.failed ≡ s.failed + lost)
        × Loses
            (map (replay_frame p default_ca policy now conn) cs)
            lost
            (frames s.history)
            (frames s'.history)
  unfolding replay_cached_values
  replay_cached_values-Loses [] s = (0, omega arith, (refl, refl))
  replay_cached_values-Loses (c ∷ cs) s =
      let t = replay_point p (connection_sink answers conn) default_ca policy now c s in
      Loses-SentOrCounted (replay_frame p default_ca policy now conn c)
        (map (replay_frame p default_ca policy now conn) cs) s t
        (replay_cached_values p (connection_sink answers conn) default_ca policy now cs t)
        (replay_point-SentOrCounted c s) (replay_cached_values-Loses cs t)

-- The address in an object.
abbrev pub object_address : {p : Platform} → InfoObject p → ℤ
object_address (single a v q) = a
object_address (short a v q) = a
object_address (scaled_value a v q) = a
object_address (single_time a v q t) = a
object_address (double_time a v q t) = a
object_address (scaled_time a v q t) = a
object_address (short_time a v q t) = a
object_address (normalized_time a v q t) = a

-- A point for that connection, cause, common address and object address.
abbrev pub IsPointAt : {p : Platform} → p.Connection → p.Cause → ℤ → ℤ → Frame p → Type 0
IsPointAt conn cause ca ioa (confirmation c n) = ⊥
IsPointAt conn cause ca ioa (termination c) = ⊥
IsPointAt conn cause ca ioa (point c d o) =
    (c ≡ conn) × (d.cause ≡ cause) × (d.common_address ≡ ca) × (object_address o ≡ ioa)

-- A point of the cache is replayed as interrogated by station, whatever cause its message had, at the
-- address under which it stands.
pub replay_frame-IsPointAt :
    (p : Platform) (default_ca : ℕ) (policy : OutputPolicy) (now : ℤ) (conn : p.Connection)
    (e : Entry)
    → e.ca ≡ unwrap_or e.cached.message.ca default_ca
    → e.ioa ≡ e.cached.message.ioa
    → IsPointAt conn p.interrogated_by_station_cause
        (pos e.ca)
        (as_i32 e.ioa)
        (replay_frame p default_ca policy now conn e.cached)
unfolding replay_frame replay_call call_of prepare_for_output map_cot timed_object untimed_object
replay_frame-IsPointAt p default_ca policy now conn e hc hi = ground arith
