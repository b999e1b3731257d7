-- ===== src/Asdu/Ownership.antt =====
-- Who owns what lib60870 allocates: every function of asdu.rs destroys each object and each ASDU that
-- it creates, once, after its last use.
use iec104bridge.Base.{
  ℕ, Bool, false, ◌≡◌, Option, none, some, List, [], ◌∷◌, arith, ◌==◌, if◌then◌else◌, ◌||◌, ◌&&◌,
}
use iec104bridge.Platform.{Platform}
use iec104bridge.Bridge.{TimedDispatch}
use iec104bridge.Sys.{
  SysCall, object_created, object_destroyed, asdu_created, object_added, asdu_destroyed,
  asdu_enqueued, asdu_sent, History, Answers,
}
use iec104bridge.Asdu.{
  UntimedValue, enqueue_timed_asdu, send_timed_to_connection, send_untimed_to_connection,
}

-- The pointers that are live: objects and ASDUs that were created and not yet destroyed.
pub record Heap : Type 0 where
  pub objects : List ℕ
  pub asdus : List ℕ

pub is_live : ℕ → List ℕ → Bool
is_live a [] = false
is_live a (x ∷ xs) = x == a || is_live a xs

-- One pointer less, the latest of that number.
pub release : ℕ → List ℕ → List ℕ
release a [] = []
release a (x ∷ xs) = if x == a then xs else x ∷ release a xs

-- The heap after a call; `none` is a use of a dead pointer.
pub after_call : {p : Platform} → SysCall p → Heap → Option Heap
after_call (object_created o none) k = some k
after_call (object_created o (some io)) k = some (record k { objects = io ∷ k.objects })
after_call (asdu_created d none) k = some k
after_call (asdu_created d (some a)) k = some (record k { asdus = a ∷ k.asdus })
after_call (object_added a io) k =
    if is_live a k.asdus && is_live io k.objects then some k else none
after_call (object_destroyed io) k =
    if is_live io k.objects then some (record k { objects = release io k.objects }) else none
after_call (asdu_destroyed a) k =
    if is_live a k.asdus then some (record k { asdus = release a k.asdus }) else none
after_call (asdu_enqueued server a) k = if is_live a k.asdus then some k else none
after_call (asdu_sent conn a r) k = if is_live a k.asdus then some k else none
after_call c k = some k

unfoldable pub after : {p : Platform} → History p → Heap → Option Heap
after [] k = some k
after (c ∷ h) k = elim (after h k) [ none ↦ none | some k' ↦ after_call c k' ]

module _ {p : Platform} (answers : Answers p) (h : History p) (before now : Heap)
    (e : after h before ≡ some now) where
  send_timed_keeps_heap :
      (conn : p.Connection) (message : TimedDispatch p)
      → after (send_timed_to_connection answers conn message h).1 before ≡ some now
  unfolding send_timed_to_connection after after_call is_live release
  send_timed_keeps_heap conn message = ground arith

  send_untimed_keeps_heap :
      (conn : p.Connection) (cot : p.Cause) (ca ioa : ℕ) (v : UntimedValue p) (q : p.Quality)
      → after (send_untimed_to_connection answers conn cot ca ioa v q h).1 before ≡ some now
  unfolding send_untimed_to_connection after after_call is_live release
  send_untimed_keeps_heap conn cot ca ioa v q = ground arith

  enqueue_keeps_heap :
      (message : TimedDispatch p) → after (enqueue_timed_asdu answers message h).1 before ≡ some now
  unfolding enqueue_timed_asdu after after_call is_live release
  enqueue_keeps_heap message = ground arith

  -- After a history that used no dead pointer, sending or enqueueing a point uses none either, and
  -- leaves the same objects and ASDUs alive, whatever the library answers.
  pub sends_keep_heap :
      (conn : p.Connection) (message : TimedDispatch p) (cot : p.Cause) (ca ioa : ℕ)
      (v : UntimedValue p) (q : p.Quality)
      → (after (send_timed_to_connection answers conn message h).1 before ≡ some now)
        × (after (send_untimed_to_connection answers conn cot ca ioa v q h).1 before ≡ some now)
        × (after (enqueue_timed_asdu answers message h).1 before ≡ some now)
  sends_keep_heap conn message cot ca ioa v q = (
    send_timed_keeps_heap conn message,
    send_untimed_keeps_heap conn cot ca ioa v q,
    enqueue_keeps_heap message,
  )
