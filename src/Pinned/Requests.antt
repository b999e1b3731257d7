-- ===== src/Pinned/Requests.antt =====
-- The handler of an interrogation with the request that it confirms (main.rs,
-- `install_interrogation_handler`): the copy that it makes at its start, and what lib60870 writes
-- into it and reads in it with each confirmation, while the memory changes around it.
use iec104bridge.Base.{
  ℕ, zero, suc, Bool, true, false, Option, none, some, List, [], ◌∷◌, ◌==◌, if◌then◌else◌,
}
use iec104bridge.Base.Int.{ℤ}
use iec104bridge.Platform.{Platform}
use iec104bridge.Sys.{Answers, History, send_act_con, send_act_term}
use iec104bridge.Sinks.{fresh, connection_sink}
use iec104bridge.Store.{CachedPoint}
use iec104bridge.Server.{Shared, Settings, fetch_add_one, replay_cached_values}
use iec104bridge.Pinned.{BytePointer, StaticAsdu, Memory, write, copy_of}
use iec104bridge.Pinned.Stable.{seen_at}

-- The bytes and the payload of a request, as they are read.
abbrev pub Carried : Type 0
Carried = Option (List ℕ) × Option (List ℕ)

-- The calls that are given the copy: `send_act_con`, negative or not, and `send_act_term`.
pub data Confirmation : Type 0 where
  act_con : Bool → Confirmation
  act_term : Confirmation

-- The bytes from an offset on, as `f` makes them.
abbrev pub written : (List ℕ → List ℕ) → ℕ → List ℕ → List ℕ
written f zero bytes = f bytes
written f (suc n) [] = []
written f (suc n) (b ∷ bytes) = b ∷ written f n bytes

-- The bytes that the pointer leads to, in the ASDU that is alive there.
abbrev pub write_through : (List ℕ → List ℕ) → BytePointer → Memory → Option StaticAsdu → Memory
write_through f p m none = m
write_through f p m (some target) =
    write m p.object
      (some (record target { encoded_data = written f p.offset target.encoded_data }))

-- lib60870 writes through the pointer that the ASDU at the address has to its bytes.
abbrev pub stamped : (List ℕ → List ℕ) → Memory → Option StaticAsdu → Memory
stamped f m none = m
stamped f m (some asdu) = write_through f asdu.asdu m (m asdu.asdu.object)

-- What the handlers share, the memory, and what the confirmations of this request carry, the latest
-- first.
pub record Handling (p : Platform) : Type 0 where
  pub shared : Shared p
  pub memory : Memory
  pub carried : List Carried

-- `changes` is what everybody else does to the memory until the call after that history, and `stamps`
-- what lib60870 makes of the bytes of the ASDU that a call is given: it sets the cause, and with a
-- confirmation whether it is negative.
module _ {p : Platform} (answers : Answers p) (settings : Settings)
    (changes : History p → Memory → Memory) (stamps : Confirmation → List ℕ → List ℕ)
    (conn : p.Connection) where
  -- A call that hands the copy to lib60870, which writes into it and then reads it.
  unfoldable pub carrying : Confirmation → ℕ → Bool × History p → Handling p → Handling p
  carrying kind request (sent, h) s =
      let before = changes s.shared.history s.memory in
      let memory = stamped (stamps kind) before (before request) in
      record {
        shared = record s.shared { history = h };
        memory = memory;
        carried = seen_at memory request ∷ s.carried;
      }

  unfoldable pub confirm : ℕ → Bool → Handling p → Handling p
  unfolding carrying send_act_con
  confirm request negative s =
      carrying (act_con negative) request (send_act_con answers conn negative s.shared.history) s

  unfoldable pub terminate : ℕ → Handling p → Handling p
  unfolding carrying send_act_term
  terminate request s = carrying act_term request (send_act_term answers conn s.shared.history) s

  -- The replay, and the counter.
  unfoldable pub replayed : ℤ → List CachedPoint → Handling p → Handling p
  replayed now points s = record s {
    shared = record s.shared {
      metrics = record s.shared.metrics {
        gi_responses = fetch_add_one s.shared.metrics.gi_responses;
      };
      history =
          (replay_cached_values p (connection_sink answers conn) settings.default_ca settings.policy
            now points (fresh s.shared.history)).history;
    };
  }

  unfoldable pub handled : ℕ → ℤ → List CachedPoint → Handling p → ℕ → Handling p
  unfolding confirm replayed terminate
  handled qoi now points s request =
      if qoi == p.qoi_station
      then terminate request (replayed now points (confirm request false s))
      else confirm request true s

  unfoldable pub pinned_and_handled :
      ℕ → ℤ → List CachedPoint → Shared p → Option (ℕ × Memory) → Option (Handling p)
  unfolding handled
  pinned_and_handled qoi now points s none = none
  pinned_and_handled qoi now points s (some (request, m)) =
      some (handled qoi now points (record { shared = s; memory = m; carried = [] }) request)

  -- The request is at `source`, and `Box::new` gives `address`; `none` is the read of a request that
  -- is not alive.
  unfoldable pub handle_request :
      ℕ → ℕ → ℕ → ℤ → List CachedPoint → Shared p → Memory → Option (Handling p)
  unfolding pinned_and_handled
  handle_request source address qoi now points s m =
      pinned_and_handled qoi now points s (copy_of address source m)
