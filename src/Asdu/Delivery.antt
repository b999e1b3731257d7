-- ===== src/Asdu/Delivery.antt =====
-- What reaches a master: the frames that the library took, read off the history.
use iec104bridge.Base.{
  ℕ, Bool, true, false, ◌≡◌, Option, none, some, List, [], ◌∷◌, arith, ◌==◌, if◌then◌else◌,
}
use iec104bridge.Base.Int.{pos}
use iec104bridge.Platform.{Platform}
use iec104bridge.Bridge.{TimedDispatch}
use iec104bridge.Sys.{
  InfoObject, Header, object_created, asdu_created, object_added, asdu_sent, act_con_sent,
  act_term_sent, History, Answers,
}
use iec104bridge.Asdu.{
  UntimedValue, send_timed_to_connection, send_untimed_to_connection, untimed_object, timed_object,
}

-- A frame that the library accepted for a connection: a confirmation of a request (negative or
-- not), its termination, or a point.
pub data Frame (p : Platform) : Type 0 where
  confirmation : p.Connection → Bool → Frame p
  termination : p.Connection → Frame p
  point : p.Connection → Header p → InfoObject p → Frame p

-- The object that a pointer was last given to, the header of an ASDU, and the object that was last
-- added to it.
abbrev pub object_at : {p : Platform} → ℕ → History p → Option (InfoObject p)
object_at a [] = none
object_at a (object_created o (some b) ∷ h) = if b == a then some o else object_at a h
object_at a (c ∷ h) = object_at a h

abbrev pub header_at : {p : Platform} → ℕ → History p → Option (Header p)
header_at a [] = none
header_at a (asdu_created d (some b) ∷ h) = if b == a then some d else header_at a h
header_at a (c ∷ h) = header_at a h

abbrev pub content_at : {p : Platform} → ℕ → History p → Option (InfoObject p)
content_at a [] = none
content_at a (object_added b io ∷ h) = if b == a then object_at io h else content_at a h
content_at a (c ∷ h) = content_at a h

abbrev pub add_point :
    {p : Platform}
    → p.Connection
    → Option (Header p)
    → Option (InfoObject p)
    → List (Frame p)
    → List (Frame p)
add_point conn none o fs = fs
add_point conn (some d) none fs = fs
add_point conn (some d) (some o) fs = point conn d o ∷ fs

-- The accepted frames, the latest first.
unfoldable pub frames : {p : Platform} → History p → List (Frame p)
frames [] = []
frames (asdu_sent conn a true ∷ h) = add_point conn (header_at a h) (content_at a h) (frames h)
frames (act_con_sent conn negative true ∷ h) = confirmation conn negative ∷ frames h
frames (act_term_sent conn true ∷ h) = termination conn ∷ frames h
frames (c ∷ h) = frames h

-- A send that reports success added the frame, and one that reports failure added nothing.
abbrev pub Adds : {p : Platform} → Frame p → Bool → List (Frame p) → List (Frame p) → Type 0
Adds f true before now = now ≡ f ∷ before
Adds f false before now = now ≡ before

module _ {p : Platform} (answers : Answers p) (h : History p) (conn : p.Connection) where
  pub send_untimed_delivers :
      (cot : p.Cause) (ca ioa : ℕ) (v : UntimedValue p) (q : p.Quality)
      → let r = send_untimed_to_connection answers conn cot ca ioa v q h in
        Adds
          (point conn (record { cause = cot; common_address = pos ca }) (untimed_object p ioa v q))
          r.0
          (frames h)
          (frames r.1)
  unfolding send_untimed_to_connection frames
  send_untimed_delivers cot ca ioa v q = ground arith

  pub send_timed_delivers :
      (message : TimedDispatch p)
      → let r = send_timed_to_connection answers conn message h in
        Adds
          (point conn
            (record { cause = message.cot; common_address = pos message.ca })
            (timed_object p message.ioa message.value message.data_type message.quality
              message.timestamp))
          r.0
          (frames h)
          (frames r.1)
  unfolding send_timed_to_connection frames
  send_timed_delivers message = ground arith
