-- ===== src/Asdu/Encoding.antt =====
-- The values on the wire: a point has the same value with its source time as without.
use iec104bridge.Base.{ℕ, ◌≡◌, refl, arith, ap, ◌∙◌, sym}
use iec104bridge.Number.Laws.{as_signed-clamp}
use iec104bridge.Message.{
  DataType, DataValue, bool, number, float, scaled, normalized, single_point, double_point,
}
use iec104bridge.Platform.{Platform}
use iec104bridge.Bridge.{as_single_point_value, as_float_value, as_scaled_value}
use iec104bridge.Bridge.Dispatch.{sent_type}
use iec104bridge.Sys.{
  InfoObject, single, short, scaled_value, single_time, scaled_time, short_time, normalized_time,
}
use iec104bridge.Asdu.{
  UntimedValue, single_value, float_value, int_value, as_i32, timed_scaled, timed_object,
  untimed_object,
}

-- An object without its time; a normalized value is sent as a short float when it has none.
abbrev pub without_time : {p : Platform} → InfoObject p → InfoObject p
without_time (single_time a v q t) = single a v q
without_time (scaled_time a v q t) = scaled_value a v q
without_time (short_time a v q t) = short a v q
without_time (normalized_time a v q t) = short a v q
without_time o = o

-- The value that dispatch sends where a point has no source time.
abbrev pub untimed_value : (p : Platform) → DataType → DataValue → UntimedValue p
untimed_value p single_point v = single_value (as_single_point_value v)
untimed_value p double_point v = single_value (as_single_point_value v)
untimed_value p scaled v = int_value (as_scaled_value v)
untimed_value p float v = float_value (as_float_value p v)
untimed_value p normalized v = float_value (as_float_value p v)

timed_scaled-eq : (v : DataValue) → timed_scaled v ≡ as_scaled_value v
unfolding timed_scaled as_scaled_value
timed_scaled-eq (bool b) = refl
timed_scaled-eq (number x) =
    as_signed-clamp 2147483648 x (omega arith) ∙ sym (as_signed-clamp 32768 x (omega arith))

-- A point of any type has the same address, value and quality in the object that carries its source
-- time as in the one that does not.
pub timed_and_untimed_agree :
    (p : Platform) (ioa : ℕ) (t : DataType) (v : DataValue) (q : p.Quality) (ts : p.Timestamp)
    → without_time (timed_object p ioa v (sent_type t) q ts)
      ≡ untimed_object p ioa (untimed_value p t v) q
unfolding timed_object untimed_object as_single_point_value as_float_value
timed_and_untimed_agree p ioa float (bool b) q ts = refl
timed_and_untimed_agree p ioa float (number x) q ts = refl
timed_and_untimed_agree p ioa normalized (bool b) q ts = refl
timed_and_untimed_agree p ioa normalized (number x) q ts = refl
timed_and_untimed_agree p ioa scaled v q ts =
    ap (λ z. scaled_value (as_i32 ioa) z q) (timed_scaled-eq v)
timed_and_untimed_agree p ioa single_point (bool b) q ts = refl
timed_and_untimed_agree p ioa single_point (number x) q ts = refl
timed_and_untimed_agree p ioa double_point (bool b) q ts = refl
timed_and_untimed_agree p ioa double_point (number x) q ts = refl
