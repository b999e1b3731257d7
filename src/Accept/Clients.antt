-- ===== src/Accept/Clients.antt =====
-- What every step leaves true of one client of the socket.
use iec104bridge.Accept.{
  true, Item, accept_failed, message, Hub, update, Move, send, receive, reply,
}
use mathlib.Core.Path.{subst}
use mathlib.Core.List.{append_assoc, append-nil}
use iec104bridge.Base.{
  Bool, ℕ, suc, ◌≡◌, ◌≤◌, refl, sym, ap, ◌∙◌, inl, inr, false, List, [], ◌∷◌, ◌++◌, ◌==◌, ==_iff,
  if◌then◌else◌, Bool-cases, All, arith,
}
use iec104bridge.Message.{Iec104Message}
use iec104bridge.Validation.Rules.{IsAcceptable}

-- The messages of one client.
abbrev pub of_client : ℕ → List Item → List Iec104Message
of_client j [] = []
of_client j (accept_failed ∷ items) = of_client j items
of_client j (message i m ∷ items) = if i == j then m ∷ of_client j items else of_client j items

pub of_client-append :
    (j : ℕ) (xs ys : List Item) → of_client j (xs ++ ys) ≡ of_client j xs ++ of_client j ys
of_client-append j [] ys = refl
of_client-append j (accept_failed ∷ xs) ys = of_client-append j xs ys
of_client-append j (message i m ∷ xs) ys = ground (arith, of_client-append j xs ys)

-- What holds of a client: its messages are those received, those in the channel and those to come, in
-- this order, and all are acceptable.
pub record IsInOrder (s : Hub) (j : ℕ) : Type 0 where
  pub order :
      (s.senders j).script ≡ of_client j s.received ++ (of_client j s.queue ++ (s.senders j).todo)
  pub admitted : All IsAcceptable (s.senders j).script
  pub absent : s.accepted ≤ j → (s.senders j).script ≡ []

abbrev sent : Hub → ℕ → Iec104Message → List Iec104Message → Hub
sent s i m rest = record s {
  senders = update s.senders i (record (s.senders i) { todo = rest });
  queue = s.queue ++ message i m ∷ [];
}

sent-IsInOrder_self :
    (s : Hub) (i : ℕ) (m : Iec104Message) (rest : List Iec104Message)
    → (s.senders i).todo ≡ m ∷ rest
    → IsInOrder s i
    → IsInOrder (sent s i m rest) i
sent-IsInOrder_self s i m rest e v =
    let self = (==_iff i i).1 refl in
    let todo = append_assoc (of_client i s.queue) (m ∷ []) rest in
    record {
      order =
          rw (self, of_client-append i s.queue (message i m ∷ []), self, todo)
            (v.order ∙ rw e refl);
      admitted = rw self v.admitted;
      absent = rw self v.absent;
    }

sent-IsInOrder_other :
    (s : Hub) (i j : ℕ) (m : Iec104Message) (rest : List Iec104Message)
    → (i == j) ≡ false
    → IsInOrder s j
    → IsInOrder (sent s i m rest) j
sent-IsInOrder_other s i j m rest other v =
    let queued = of_client-append j s.queue (message i m ∷ []) in
    record {
      order = rw (other, queued, other, append-nil (of_client j s.queue)) v.order;
      admitted = rw other v.admitted;
      absent = rw other v.absent;
    }

pub Move-IsInOrder : (s t : Hub) → Move s t → (j : ℕ) → IsInOrder s j → IsInOrder t j
Move-IsInOrder s t (send i m rest lt e takes room k) j v = elim (Bool-cases (i == j)) [
  | inl y ↦
      let same = (==_iff i j).0 y in
      rw k (
        subst (IsInOrder (sent s i m rest)) same
          (sent-IsInOrder_self s i m rest e (subst (IsInOrder s) (sym same) v)))
  | inr y ↦ rw k (sent-IsInOrder_other s i j m rest y v)
]
Move-IsInOrder s t (reply i a takes k) j v =
    rw k (record { order = v.order; admitted = v.admitted; absent = v.absent })
Move-IsInOrder s t (receive i rest idle e k) j v = rw k (record {
  order =
      v.order
      ∙ ap (λ q. of_client j s.received ++ (of_client j q ++ (s.senders j).todo)) e
      ∙ rw (of_client-append j (i ∷ []) rest, of_client-append j s.received (i ∷ []))
          (simp append_assoc);
  admitted = v.admitted;
  absent = v.absent;
})

pub nil_parts : (a b c : List Iec104Message) → [] ≡ a ++ (b ++ c) → (a ≡ []) × (b ≡ [])
nil_parts [] [] c e = (refl, refl)
nil_parts [] (x ∷ b) c e = absurd (cc e)
nil_parts (x ∷ a) b c e = absurd (cc e)

abbrev pub joined : Hub → List Iec104Message → Hub
joined s script = record s {
  senders = update s.senders s.accepted (record { script = script; todo = script; takes = true });
  accepted = suc s.accepted;
}

pub joined-IsInOrder :
    (s : Hub) (script : List Iec104Message)
    → All IsAcceptable script
    → (j : ℕ) → IsInOrder s j
    → IsInOrder (joined s script) j
joined-IsInOrder s script a j v = elim (Bool-cases (s.accepted == j)) [
  | inl y ↦
      let same = (==_iff s.accepted j).0 y in
      let (none_received, none_queued) =
        nil_parts (of_client j s.received) (of_client j s.queue) (s.senders j).todo
          (sym (v.absent (omega arith)) ∙ v.order) in
      record {
        order = rw (y, none_received, none_queued) refl;
        admitted = rw y a;
        absent = λ h. absurd (omega arith);
      }
  | inr y ↦ record {
    order = rw y v.order;
    admitted = rw y v.admitted;
    absent = λ h. rw y (v.absent (omega arith));
  }
]

pub failed-IsInOrder :
    (s : Hub) (j : ℕ)
    → IsInOrder s j
    → IsInOrder (record s { queue = s.queue ++ accept_failed ∷ [] }) j
failed-IsInOrder s j v = record {
  order =
      rw (of_client-append j s.queue (accept_failed ∷ []), append-nil (of_client j s.queue))
        v.order;
  admitted = v.admitted;
  absent = v.absent;
}

pub turned-IsInOrder :
    (s : Hub) (i : ℕ) (b : Bool) (j : ℕ)
    → IsInOrder s j
    → IsInOrder (record s { senders = update s.senders i (record (s.senders i) { takes = b }) }) j
turned-IsInOrder s i b j v = elim (Bool-cases (i == j)) [
  | inl y ↦
      let same = (==_iff i j).0 y in
      record {
        order = rw y (
            ap (λ n. (s.senders n).script) same
            ∙ v.order
            ∙ ap (λ n. of_client j s.received ++ (of_client j s.queue ++ (s.senders n).todo))
                (sym same));
        admitted = rw y (subst (λ n. All IsAcceptable (s.senders n).script) (sym same) v.admitted);
        absent = λ h. rw y (ap (λ n. (s.senders n).script) same ∙ v.absent h);
      }
  | inr n ↦ record {
    order = rw n v.order;
    admitted = rw n v.admitted;
    absent = λ h. rw n (v.absent h);
  }
]
