-- ===== src/Asdu.antt =====
-- Building ASDUs and handing them to lib60870 (asdu.rs). `PinnedAsdu`, the copy of a request that the
-- confirmations of an interrogation carry, is modelled in Pinned.
pub mod Ownership
pub mod Delivery
pub mod Encoding
use iec104bridge.Base.{ℕ, ◌-◌, ◌^◌, Bool, true, false, Option, none, some, ltb, if◌then◌else◌}
use iec104bridge.Base.Int.{ℤ, pos, negsuc}
use iec104bridge.Number.{F64, is_nonzero, of_ℤ, clamp, as_signed}
use iec104bridge.Message.{
  DataType, DataValue, bool, number, float, scaled, normalized, single_point, double_point,
}
use iec104bridge.Platform.{Platform}
use iec104bridge.Bridge.{TimedDispatch}
use iec104bridge.Sys.{
  DoublePointValue, point_on, point_off, InfoObject, single, short, scaled_value, single_time,
  double_time, scaled_time, short_time, normalized_time, Header, SysCall, object_destroyed,
  object_added, asdu_destroyed, asdu_enqueued, Answers, Act, ◌>>=◌, ◌>>◌, pure, record_call,
  create_object, create_asdu, send_asdu,
}

-- `ioa as i32`, of a `u32`.
abbrev pub as_i32 : ℕ → ℤ
as_i32 n = if ltb n (2 ^ 31) then pos n else negsuc (2 ^ 32 - 1 - n)

pub data UntimedValue (p : Platform) : Type 0 where
  single_value : Bool → UntimedValue p
  float_value : p.F32 → UntimedValue p
  int_value : ℤ → UntimedValue p

is_on : DataValue → Bool
is_on (bool b) = b
is_on (number x) = is_nonzero x

timed_scaled : DataValue → ℤ
timed_scaled (bool b) = if b then pos 1 else pos 0
timed_scaled (number x) = as_signed (2 ^ 31) (clamp x (of_ℤ (negsuc 32767)) (of_ℤ (pos 32767)))

timed_float : (p : Platform) → DataValue → p.F32
timed_float p (bool b) = if b then p.f32_one else p.f32_zero
timed_float p (number x) = p.as_f32 x

-- The object that `create_information_object` asks for.
unfoldable pub timed_object :
    (p : Platform) → ℕ → DataValue → DataType → p.Quality → p.Timestamp → InfoObject p
unfolding is_on timed_scaled timed_float
timed_object p ioa value single_point quality ts = single_time (as_i32 ioa) (is_on value) quality ts
timed_object p ioa value double_point quality ts =
    double_time (as_i32 ioa) (if is_on value then point_on else point_off) quality ts
timed_object p ioa value scaled quality ts =
    scaled_time (as_i32 ioa) (timed_scaled value) quality ts
timed_object p ioa value float quality ts = short_time (as_i32 ioa) (timed_float p value) quality ts
timed_object p ioa value normalized quality ts =
    normalized_time (as_i32 ioa) (timed_float p value) quality ts

unfoldable pub untimed_object : (p : Platform) → ℕ → UntimedValue p → p.Quality → InfoObject p
untimed_object p ioa (single_value v) quality = single (as_i32 ioa) v quality
untimed_object p ioa (float_value v) quality = short (as_i32 ioa) v quality
untimed_object p ioa (int_value v) quality = scaled_value (as_i32 ioa) v quality

module _ {p : Platform} (answers : Answers p) where
  create_information_object : ℕ → DataValue → DataType → p.Quality → p.Timestamp → Act p (Option ℕ)
  unfolding create_object
  create_information_object ioa value data_type quality timestamp =
      create_object answers (timed_object p ioa value data_type quality timestamp)

  -- A new ASDU with the object in it; the object is destroyed here, the ASDU by the caller.
  fill_asdu : ℕ → Option ℕ → Act p (Option ℕ)
  fill_asdu io none = do record_call (object_destroyed io); pure none
  fill_asdu io (some asdu) = do
    record_call (object_added asdu io)
    record_call (object_destroyed io)
    pure (some asdu)

  single_object_asdu : p.Cause → ℕ → Option ℕ → Act p (Option ℕ)
  unfolding fill_asdu create_asdu
  single_object_asdu cot ca none = pure none
  single_object_asdu cot ca (some io) = do
    asdu ← create_asdu answers (record { cause = cot; common_address = pos ca })
    fill_asdu io asdu

  timed_asdu : TimedDispatch p → Act p (Option ℕ)
  unfolding create_information_object single_object_asdu
  timed_asdu message = do
    io ←
        create_information_object message.ioa message.value message.data_type message.quality
          message.timestamp
    single_object_asdu message.cot message.ca io

  send_to_connection : p.Connection → Option ℕ → Act p Bool
  unfolding send_asdu
  send_to_connection conn none = pure false
  send_to_connection conn (some asdu) = do
    sent ← send_asdu answers conn asdu
    record_call (asdu_destroyed asdu)
    pure sent

  unfoldable pub send_timed_to_connection : p.Connection → TimedDispatch p → Act p Bool
  unfolding timed_asdu send_to_connection
  send_timed_to_connection conn message = do asdu ← timed_asdu message; send_to_connection conn asdu

  unfoldable pub send_untimed_to_connection :
      p.Connection → p.Cause → ℕ → ℕ → UntimedValue p → p.Quality → Act p Bool
  unfolding create_object single_object_asdu send_to_connection
  send_untimed_to_connection conn cot ca ioa value quality = do
    io ← create_object answers (untimed_object p ioa value quality)
    asdu ← single_object_asdu cot ca io
    send_to_connection conn asdu

  enqueue_on : p.ServerPtr → Option ℕ → Act p Bool
  enqueue_on server none = pure false
  enqueue_on server (some asdu) = do
    record_call (asdu_enqueued server asdu)
    record_call (asdu_destroyed asdu)
    pure true

  enqueue_at : Option p.ServerPtr → TimedDispatch p → Act p Bool
  unfolding enqueue_on timed_asdu
  enqueue_at none message = pure false
  enqueue_at (some server) message = do asdu ← timed_asdu message; enqueue_on server asdu

  unfoldable pub enqueue_timed_asdu : TimedDispatch p → Act p Bool
  unfolding enqueue_at
  enqueue_timed_asdu message = enqueue_at message.server_ptr message
