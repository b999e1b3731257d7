-- ===== src/Pinned/Carried.antt =====
-- What the confirmations of an interrogation carry.
use iec104bridge.Base.{
  ==_iff, ℕ, Bool, ◌≡◌, refl, ap, ◌∙◌, sym, true, false, Bool-cases, inl, inr, Option, none, some,
  List, [], ◌∷◌, ◌==◌, if◌then◌else◌,
}
use iec104bridge.Base.Int.{ℤ}
use iec104bridge.Platform.{Platform}
use iec104bridge.Sys.{Answers, History, send_act_con, send_act_term}
use iec104bridge.Store.{CachedPoint}
use iec104bridge.Server.{Shared, Settings, interrogate_station, handle_interrogation}
use mathlib.Core.Path.{subst}
use iec104bridge.Pinned.{StaticAsdu, Memory, copy_of, copied, pinned, write}
use iec104bridge.Pinned.Stable.{drop, seen_at-pinned}
use iec104bridge.Pinned.Requests.{
  Carried, Confirmation, act_con, act_term, stamped, Handling, handle_request, carrying, confirm,
  terminate, replayed, handled, pinned_and_handled,
}

-- The handler does what `handle_interrogation` does, and its confirmations carry these.
abbrev pub Confirms : {p : Platform} → Shared p → List Carried → Option (Handling p) → Type 0
Confirms shared carried none = ⊥
Confirms shared carried (some s) = (s.shared ≡ shared) × (s.carried ≡ carried)

-- A request, with these bytes.
abbrev bearing : StaticAsdu → List ℕ → StaticAsdu
bearing asdu bytes = record asdu { encoded_data = bytes }

-- What lib60870 sends for a confirmation: the bytes as it has made them, and the payload of the
-- request.
abbrev pub reply : StaticAsdu → List ℕ → Carried
reply asdu bytes = (some bytes, some (drop asdu.asdu_header_length asdu.encoded_data))

copy_of-some :
    (address source : ℕ) (m : Memory) (asdu : StaticAsdu)
    → m source ≡ some asdu
    → (m' : Memory) × (copy_of address source m ≡ some (address, m'))
      × (m' address ≡ some (pinned address asdu))
unfolding copy_of copied
copy_of-some address source m asdu alive = (
  write m address (some (pinned address asdu)),
  ap (copied address m) alive,
  rw ((==_iff address address).1 refl) refl,
)

stamped-pinned :
    (address : ℕ) (f : List ℕ → List ℕ) (m : Memory) (asdu : StaticAsdu)
    → m address ≡ some (pinned address asdu)
    → stamped f m (m address) address ≡ some (pinned address (bearing asdu (f asdu.encoded_data)))
unfolding pinned
stamped-pinned address f m asdu e = rw (e, e, (==_iff address address).1 refl) refl

module _ {p : Platform} (answers : Answers p) (settings : Settings)
    (changes : History p → Memory → Memory) (stamps : Confirmation → List ℕ → List ℕ)
    (conn : p.Connection) (address : ℕ)
    (boxed : (h : History p) (m : Memory) → changes h m address ≡ m address) (asdu : StaticAsdu)
    (header_only : (k : Confirmation) (bytes : List ℕ)
      → drop asdu.asdu_header_length (stamps k bytes) ≡ drop asdu.asdu_header_length bytes) where
  -- The box has the copy, with these bytes and the payload of the request.
  abbrev IsHeld : List ℕ → Memory → Type 0
  IsHeld bytes m =
      (m address ≡ some (pinned address (bearing asdu bytes)))
      × (drop asdu.asdu_header_length bytes ≡ drop asdu.asdu_header_length asdu.encoded_data)

  -- Each call finds the copy, and leaves it with the bytes that it sends.
  carrying-IsHeld :
      (kind : Confirmation) (bytes : List ℕ) (r : Bool × History p) (s : Handling p)
      → IsHeld bytes s.memory
      → let t = carrying answers settings changes stamps conn kind address r s in
        IsHeld (stamps kind bytes) t.memory
        × (t.carried ≡ reply asdu (stamps kind bytes) ∷ s.carried)
  unfolding carrying
  carrying-IsHeld kind bytes r s (held, payload) =
      let before = changes s.shared.history s.memory in
      let now =
        stamped-pinned address (stamps kind) before (bearing asdu bytes)
          (boxed s.shared.history s.memory ∙ held) in
      let same = header_only kind bytes ∙ payload in
      (
        (now, same),
        ap (λ c. c ∷ s.carried)
            (seen_at-pinned address (stamped (stamps kind) before (before address))
                (bearing asdu (stamps kind bytes)) now
              ∙ ap (λ b. (some (stamps kind bytes), some b)) same),
      )

  -- What is sent for a request: to a group one negative confirmation, to the station a confirmation
  -- and a termination, the latest first.
  abbrev pub replies : ℕ → List Carried
  replies qoi =
      if qoi == p.qoi_station
      then (reply asdu (stamps act_term (stamps (act_con false) asdu.encoded_data))
          ∷ reply asdu (stamps (act_con false) asdu.encoded_data)
          ∷ [])
      else reply asdu (stamps (act_con true) asdu.encoded_data) ∷ []

  handled-Confirms :
      (qoi : ℕ) (now : ℤ) (points : List CachedPoint) (s : Handling p)
      → IsHeld asdu.encoded_data s.memory
      → s.carried ≡ []
      → Confirms
          (handle_interrogation answers settings conn qoi now points s.shared).1
          (replies qoi)
          (some (handled answers settings changes stamps conn qoi now points s address))
  unfolding handled handle_interrogation interrogate_station confirm terminate replayed send_act_con
      send_act_term carrying
  handled-Confirms qoi now points s held e = elim (Bool-cases (qoi == p.qoi_station)) [
    | inl y ↦
        let first =
          carrying-IsHeld (act_con false) asdu.encoded_data
            (send_act_con answers conn false s.shared.history) s held in
        let between =
          replayed answers settings changes stamps conn now points
            (confirm answers settings changes stamps conn address false s) in
        let second =
          carrying-IsHeld act_term (stamps (act_con false) asdu.encoded_data)
            (send_act_term answers conn between.shared.history) between first.0 in
        rw y (
          refl,
          second.1
              ∙ ap
                  (λ c. reply asdu (stamps act_term (stamps (act_con false) asdu.encoded_data)) ∷ c)
                  (first.1 ∙ ap (λ c. reply asdu (stamps (act_con false) asdu.encoded_data) ∷ c) e),
        )
    | inr y ↦
        let only =
          carrying-IsHeld (act_con true) asdu.encoded_data
            (send_act_con answers conn true s.shared.history) s held in
        rw y (refl, only.1 ∙ ap (λ c. reply asdu (stamps (act_con true) asdu.encoded_data) ∷ c) e)
  ]

  -- Of a request that is alive, if nobody but lib60870 writes to the box of its copy, and that
  -- changes only the header of an ASDU when it confirms or terminates with it: whatever becomes of
  -- the rest of the memory, the request included, while an interrogation is handled, lib60870 sends
  -- the payload of the request each time, with the bytes of the request as its own changes have
  -- made them: for a group one negative confirmation, for the station a confirmation and then the
  -- termination. And the cache, the counters and the calls become those of `handle_interrogation`.
  pub handle_request-Confirms :
      (source qoi : ℕ) (now : ℤ) (points : List CachedPoint) (s : Shared p) (m : Memory)
      → m source ≡ some asdu
      → Confirms
          (handle_interrogation answers settings conn qoi now points s).1
          (replies qoi)
          (handle_request answers settings changes stamps conn source address qoi now points s m)
  unfolding handle_request pinned_and_handled
  handle_request-Confirms source qoi now points s m alive =
      let (m', q, held) = copy_of-some address source m asdu alive in
      subst
        (λ o.
          Confirms (handle_interrogation answers settings conn qoi now points s).1 (replies qoi)
            (pinned_and_handled answers settings changes stamps conn qoi now points s o))
        (sym q)
        (handled-Confirms qoi now points (record { shared = s; memory = m'; carried = [] })
          (held, refl) refl)
