-- ===== src/Accept/Order.antt =====
-- What the message loop receives, at any time and however the tasks interleave.
use mathlib.Core.Path.{subst}
use iec104bridge.Base.{
  ℕ, ◌≡◌, ◌≤◌, refl, ap, Option, List, [], ◌∷◌, ◌++◌, length, length-append, All, arith,
}
use iec104bridge.Message.{Iec104Message}
use iec104bridge.Validation.Rules.{IsAcceptable}
use iec104bridge.Accept.Scripts.{spawn_unix_client_task-IsAcceptable}
use iec104bridge.Base.{All-append, All-append_right}
use iec104bridge.Accept.{
  unix_socket_backlog, UnixSocketRuntime, Item, accept_failed, message, Hub, no_hub, Move, send,
  receive, reply, Step, move, turn, accept, send_accept_error, Reach, here, next,
}
use iec104bridge.Accept.Clients.{
  of_client, IsInOrder, Move-IsInOrder, joined-IsInOrder, failed-IsInOrder, turned-IsInOrder,
}

abbrev pub IsAdmitted : Item → Type 0
IsAdmitted accept_failed = Unit
IsAdmitted (message i m) = IsAcceptable m

pub record IsOrderly (s : Hub) : Type 0 where
  pub clients : (j : ℕ) → IsInOrder s j
  pub within : length s.queue ≤ unix_socket_backlog
  pub waiting : All IsAdmitted s.queue
  pub arrived : All IsAdmitted s.received

pub no_hub-IsOrderly : IsOrderly no_hub
no_hub-IsOrderly = record {
  clients = λ j. record { order = refl; admitted = tt; absent = λ h. refl };
  within = omega arith;
  waiting = tt;
  arrived = tt;
}

Move-IsOrderly : (s t : Hub) → Move s t → IsOrderly s → IsOrderly t
Move-IsOrderly s t mv v = record {
  clients = λ j. Move-IsInOrder s t mv j (v.clients j);
  within = within t mv;
  waiting = waiting t mv;
  arrived = arrived t mv;
}
  where
    within : (t : Hub) → Move s t → length t.queue ≤ unix_socket_backlog
    within t (send i m rest lt e takes room k) =
        rw k (omega (arith, length-append s.queue (message i m ∷ [])))
    within t (reply i a takes k) = rw k v.within
    within t (receive i rest idle e k) =
        rw k (omega (arith, ap (λ (q : List Item). length q) e, v.within))

    next_message :
        (i : ℕ) (m : Iec104Message) (rest : List Iec104Message)
        → (s.senders i).todo ≡ m ∷ rest
        → IsAcceptable m
    next_message i m rest e =
        let w = v.clients i in
        let all = subst (All IsAcceptable) w.order w.admitted in
        let to_come =
          All-append_right IsAcceptable (of_client i s.queue) (s.senders i).todo
            (All-append_right IsAcceptable (of_client i s.received) _ all) in
        (subst (All IsAcceptable) e to_come).0

    waiting : (t : Hub) → Move s t → All IsAdmitted t.queue
    waiting t (send i m rest lt e takes room k) =
        rw k
          (All-append IsAdmitted s.queue (message i m ∷ []) v.waiting (next_message i m rest e, tt))
    waiting t (reply i a takes k) = rw k v.waiting
    waiting t (receive i rest idle e k) = rw k (subst (All IsAdmitted) e v.waiting).1

    arrived : (t : Hub) → Move s t → All IsAdmitted t.received
    arrived t (send i m rest lt e takes room k) = rw k v.arrived
    arrived t (reply i a takes k) = rw k v.arrived
    arrived t (receive i rest idle e k) = rw k (
        All-append IsAdmitted s.received (i ∷ []) v.arrived
          ((subst (All IsAdmitted) e v.waiting).0, tt))

module _ (parse : List ℕ → Option Iec104Message) (runtime : UnixSocketRuntime) where
  pub Step-IsOrderly : (s t : Hub) → Step parse runtime s t → IsOrderly s → IsOrderly t
  Step-IsOrderly s t (move mv) v = Move-IsOrderly s t mv v
  Step-IsOrderly s t (turn i b k) v = rw k (record {
    clients = λ j. turned-IsInOrder s i b j (v.clients j);
    within = v.within;
    waiting = v.waiting;
    arrived = v.arrived;
  })
  Step-IsOrderly s t (accept peer cred reads script e k) v = rw k (record {
    clients = λ j.
        joined-IsInOrder s script
          (rw e (spawn_unix_client_task-IsAcceptable parse runtime peer cred reads)) j
          (v.clients j);
    within = v.within;
    waiting = v.waiting;
    arrived = v.arrived;
  })
  Step-IsOrderly s t (send_accept_error room k) v = rw k (record {
    clients = λ j. failed-IsInOrder s j (v.clients j);
    within = omega (arith, length-append s.queue (accept_failed ∷ []));
    waiting = All-append IsAdmitted s.queue (accept_failed ∷ []) v.waiting (tt, tt);
    arrived = v.arrived;
  })

  pub Reach-IsOrderly : {s t : Hub} → Reach parse runtime s t → IsOrderly s → IsOrderly t
  Reach-IsOrderly here v = v
  Reach-IsOrderly (next r st) v = Step-IsOrderly _ _ st (Reach-IsOrderly r v)

  -- However clients connect and their tasks interleave from the start of the listener: the channel
  -- never holds more than 64 items, everything received is an error of the listener or an acceptable
  -- message, and the messages of each client that were received are the first that it forwards, in
  -- their order, followed by those in the channel and those that it has yet to send.
  pub Reach-order :
      {s : Hub}
      → Reach parse runtime no_hub s
      → (j : ℕ)
      → (length s.queue ≤ unix_socket_backlog)
        × All IsAdmitted s.received
        × ((s.senders j).script
            ≡ of_client j s.received ++ (of_client j s.queue ++ (s.senders j).todo))
  Reach-order r j =
      let v = Reach-IsOrderly r no_hub-IsOrderly in (v.within, v.arrived, (v.clients j).order)
