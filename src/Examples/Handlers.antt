-- ===== src/Examples/Handlers.antt =====
-- Examples of the handlers, the message loop and the supervisor.
use iec104bridge.Bridge.{dispatch_outgoing}
use iec104bridge.Policy.{prepare_for_output}
use iec104bridge.Sinks.{connection_sink}
use iec104bridge.Base.Int.{◌-ℤ◌}
use mathlib.Core.List.{Perm}
use mathlib.Core.List.Perm
use iec104bridge.Base.{◌≡◌, refl, true, false, none, some, All, arith, List, [], ◌∷◌, ◌++◌}
use iec104bridge.Base.Int.{pos, ◌-ℤ◌}
use iec104bridge.Asdu.{send_timed_to_connection}
use iec104bridge.Asdu.Delivery.{Frame, frames, confirmation, termination}
use iec104bridge.Store.{CachedPoint, DataStore, insert, values}
use iec104bridge.Concurrent.{
  Bridge, Shown, pick, none_left, cache_point, interrogate, dispatch, Reach, here, next,
}
use iec104bridge.Concurrent.Current.{IsCurrent, Reach-IsCurrent}
use iec104bridge.Pipeline.Latest.{IsLatest, gi_reply-IsLatest}
use mathlib.Core.Path.{subst}
use iec104bridge.Server.{
  Shared, handle_incoming_message, interrogate_station, handle_interrogation, replay_cached_values,
}
use iec104bridge.Server.Replay.{Loses}
use iec104bridge.Server.Interrogation.{if_taken, point_frames, gi_reply}
use iec104bridge.Loop.{
  LoopEvent, received, stream_ended, receive_error, run_sources, run_message_loop, source_ended,
}
use iec104bridge.Loop.Cache.{all_arrivals}
use iec104bridge.Supervisor.{SupervisorEvent, running, waiting, woke, loop_returned, run}
use iec104bridge.Supervisor.Backoff.{run-outage, failures}
use iec104bridge.Examples.Samples.{
  platform, willing, settings, breaker, cached_breaker, one_point, shared,
}

abbrev sources : List (List LoopEvent)
sources =
    (receive_error
      ∷ received (pos 7) (record { message = breaker; has_ack = true })
      ∷ stream_ended
      ∷ [])
    ∷ []
    ∷ []

gi_reply_example :
    (replayed : List (Frame platform)) × Loses
      (point_frames {p = platform} settings 9 (pos 7) (cached_breaker ∷ []))
      (interrogate_station willing settings 9 (pos 7) (cached_breaker ∷ []) shared).0.dropped
      (if_taken
        (interrogate_station willing settings 9 (pos 7) (cached_breaker ∷ []) shared).0.confirmed
        (confirmation 9 false)
        (frames shared.history))
      replayed
    × (frames
          (interrogate_station willing settings 9 (pos 7) (cached_breaker ∷ []) shared).1.history
        ≡ if_taken
            (interrogate_station willing settings 9
              (pos 7)
              (cached_breaker ∷ [])
              shared).0.terminated
            (termination 9)
            replayed)
gi_reply_example = gi_reply willing settings 9 (pos 7) (cached_breaker ∷ []) shared

abbrev after_sources : Shared platform
after_sources = run_sources willing settings 5 sources (record shared { store = [] })

abbrev points : List CachedPoint
points = record { message = breaker; received_at = pos 7 } ∷ []

points_read : points ≡ values after_sources.store
unfolding run_sources run_message_loop handle_incoming_message insert
points_read = refl

nothing_to_report :
    (interrogate_station willing settings 9 (pos 8) points after_sources).0
    ≡ record { confirmed = true; dropped = 0; terminated = true }
unfolding interrogate_station replay_cached_values dispatch_outgoing connection_sink
    prepare_for_output ◌-ℤ◌ send_timed_to_connection
nothing_to_report = refl

gi_reply-IsLatest_example :
    (replayed : List (Frame platform)) × (latest : DataStore) × IsLatest 1
      (all_arrivals sources)
      latest
    × Perm replayed (point_frames {p = platform} settings 9 (pos 8) (values latest))
    × (frames (handle_interrogation willing settings 9 20 (pos 8) points after_sources).1.history
        ≡ termination 9 ∷ (replayed ++ confirmation 9 false ∷ frames after_sources.history))
gi_reply-IsLatest_example =
    gi_reply-IsLatest willing settings 5 9 (pos 8) sources points (record shared { store = [] })
      refl (subst (λ vs. Perm points vs) points_read (Perm.refl points)) nothing_to_report

abbrev outage : List SupervisorEvent
outage = loop_returned source_ended 10 ∷ woke false ∷ woke true ∷ []

run-outage_example :
    run (running 800) (loop_returned source_ended 31000 ∷ failures 3) ≡ waiting 1600
run-outage_example = run-outage 3 800 31000 (omega arith)

-- A message is cached, an interrogation replays it, and then it is dispatched.
abbrev cached_first : Bridge
cached_first = record {
  store = one_point;
  arrived = cached_breaker ∷ [];
  pending = some cached_breaker;
  shown = [];
}

abbrev sent : Shown
sent = record { point = cached_breaker; arrived = cached_breaker ∷ [] }

abbrev sent_twice : Bridge
sent_twice = record cached_first { pending = none; shown = sent ∷ sent ∷ [] }

Reach-sent_twice : Reach settings sent_twice
unfolding insert
Reach-sent_twice =
    next
      (next (next here (cache_point cached_breaker refl refl))
        (interrogate (cached_breaker ∷ []) (pick cached_breaker [] [] none_left) refl))
      (dispatch cached_breaker refl refl)

Reach-IsCurrent_example : All (IsCurrent 1) sent_twice.shown
Reach-IsCurrent_example = Reach-IsCurrent settings Reach-sent_twice
