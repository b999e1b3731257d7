-- ===== src/Sinks/Wire.antt =====
-- What a connection's sink puts on the wire, and what it counts as failed.
use iec104bridge.Base.{Bool, true, false, ◌≡◌, refl, ◌⊎◌, inl, inr, ◌+◌, ◌∷◌}
use iec104bridge.Base.Int.{pos}
use iec104bridge.Platform.{Platform}
use iec104bridge.Bridge.Dispatch.{
  SinkCall, single_call, float_call, scaled_call, timed_call, perform,
}
use iec104bridge.Sys.{History, Answers}
use iec104bridge.Asdu.{single_value, float_value, int_value, timed_object, untimed_object}
use iec104bridge.Asdu.Delivery.{
  Frame, point, frames, Adds, send_timed_delivers, send_untimed_delivers,
}
use iec104bridge.Sinks.{ConnState, connection_sink, count_failure}

-- The frame for a call of the sink.
abbrev pub frame_of : (p : Platform) → p.Connection → SinkCall p → Frame p
frame_of p conn (single_call cot ca ioa v q) =
    point conn (record { cause = cot; common_address = pos ca })
      (untimed_object p ioa (single_value v) q)
frame_of p conn (float_call cot ca ioa v q) =
    point conn (record { cause = cot; common_address = pos ca })
      (untimed_object p ioa (float_value v) q)
frame_of p conn (scaled_call cot ca ioa v q) =
    point conn (record { cause = cot; common_address = pos ca })
      (untimed_object p ioa (int_value v) q)
frame_of p conn (timed_call d) =
    point conn (record { cause = d.cot; common_address = pos d.ca })
      (timed_object p d.ioa d.value d.data_type d.quality d.timestamp)

-- Either the frame was accepted, or nothing was and one more point is counted as failed.
abbrev pub SentOrCounted : {p : Platform} → Frame p → ConnState p → ConnState p → Type 0
SentOrCounted f before now =
    ((now.failed ≡ before.failed) × (frames now.history ≡ f ∷ frames before.history))
    ⊎ ((now.failed ≡ before.failed + 1) × (frames now.history ≡ frames before.history))

SentOrCounted-count_failure :
    {p : Platform} (f : Frame p) (s : ConnState p) (sent : Bool) (h : History p)
    → Adds f sent (frames s.history) (frames h)
    → SentOrCounted f s (count_failure s (sent, h))
SentOrCounted-count_failure f s true h e = inl (refl, e)
SentOrCounted-count_failure f s false h e = inr (refl, e)

-- Each call of a connection's sink sends the call's frame, or counts one failure and sends nothing.
pub connection_sink_counts :
    {p : Platform} (answers : Answers p) (conn : p.Connection) (c : SinkCall p) (s : ConnState p)
    → SentOrCounted (frame_of p conn c) s (perform p (connection_sink answers conn) c s)
unfolding perform connection_sink
connection_sink_counts answers conn (single_call cot ca ioa v q) s =
    SentOrCounted-count_failure _ s _ _
      (send_untimed_delivers answers s.history conn cot ca ioa (single_value v) q)
connection_sink_counts answers conn (float_call cot ca ioa v q) s =
    SentOrCounted-count_failure _ s _ _
      (send_untimed_delivers answers s.history conn cot ca ioa (float_value v) q)
connection_sink_counts answers conn (scaled_call cot ca ioa v q) s =
    SentOrCounted-count_failure _ s _ _
      (send_untimed_delivers answers s.history conn cot ca ioa (int_value v) q)
connection_sink_counts answers conn (timed_call d) s =
    SentOrCounted-count_failure _ s _ _ (send_timed_delivers answers s.history conn d)
