-- ===== src/Policy/Staleness.antt =====
-- When a point is marked not topical, and what the policy leaves unchanged.
use iec104bridge.Base.{ℕ, ◌+◌, ◌<◌, ◌≡◌, ◌≢◌, ◌⊎◌, ◌↔◌, true, Option, none, some, arith}
use iec104bridge.Base.Int.{◌≤ℤ◌, ℤ, pos_part, neg_part, -ℤ_parts}
use iec104bridge.Message.{Iec104Message, QualityField}
use iec104bridge.Policy.{
  OutputPolicy, prepare_for_output, older_than_limit, any_older, stale_after, is_invalid,
}

-- At `now` the instant `t` lies more than `limit` back.
abbrev pub OlderThan : ℕ → ℤ → ℤ → Type 0
OlderThan limit now t = pos_part t + neg_part now + limit < pos_part now + neg_part t

abbrev pub SourceOlderThan : ℕ → ℤ → Option ℤ → Type 0
SourceOlderThan limit now none = ⊥
SourceOlderThan limit now (some t) = OlderThan limit now t

-- The point is too old by its arrival or by its source time, under a policy with a limit.
abbrev pub TooOld : Iec104Message → ℤ → ℤ → Option ℕ → Type 0
TooOld msg received_at now none = ⊥
TooOld msg received_at now (some limit) =
    OlderThan limit now received_at ⊎ SourceOlderThan limit now msg.timestamp

older_than_limit_iff :
    (limit : ℕ) (now t : ℤ) → (older_than_limit now limit t ≡ true) ↔ OlderThan limit now t
unfolding older_than_limit
older_than_limit_iff limit now t = ground (arith, -ℤ_parts now t)

any_older_iff :
    (limit : ℕ) (now : ℤ) (o : Option ℤ)
    → (any_older now limit o ≡ true) ↔ SourceOlderThan limit now o
unfolding any_older
any_older_iff limit now none = ground arith
any_older_iff limit now (some t) = older_than_limit_iff limit now t

is_invalid_iff : (q : QualityField) → (is_invalid q ≡ true) ↔ (q ≡ QualityField.invalid)
unfolding is_invalid
is_invalid_iff q = ground arith

-- A point is marked not topical exactly when the policy has a limit, the arrival or the source time
-- lies further back than that, and the message's own quality is not `invalid`.
pub not_topical_iff :
    (msg : Iec104Message) (received_at now : ℤ) (policy : OutputPolicy)
    → ((prepare_for_output msg received_at now policy).not_topical ≡ true)
      ↔ (TooOld msg received_at now policy.max_age × (msg.quality ≢ QualityField.invalid))
unfolding prepare_for_output
not_topical_iff msg received_at now policy = go policy.max_age
  where
    go :
        (o : Option ℕ)
        → (stale_after msg received_at now o ≡ true)
          ↔ (TooOld msg received_at now o × (msg.quality ≢ QualityField.invalid))
    go none = ground arith
    go (some limit) = ground (
      arith,
      older_than_limit_iff limit now received_at,
      any_older_iff limit now msg.timestamp,
      is_invalid_iff msg.quality,
    )

-- Once a point is marked it stays marked at every later time, until it arrives again.
pub not_topical_mono :
    (msg : Iec104Message) (received_at now later : ℤ) (policy : OutputPolicy)
    → now ≤ℤ later
    → (prepare_for_output msg received_at now policy).not_topical ≡ true
    → (prepare_for_output msg received_at later policy).not_topical ≡ true
not_topical_mono msg received_at now later policy h marked =
    let old = (not_topical_iff msg received_at now policy).0 marked in
    (not_topical_iff msg received_at later policy).1 (go policy.max_age msg.timestamp old.0, old.1)
  where
    go :
        (o : Option ℕ) (t : Option ℤ)
        → TooOld (record msg { timestamp = t }) received_at now o
        → TooOld (record msg { timestamp = t }) received_at later o
    go none t e = ground arith
    go (some limit) none e = ground arith
    go (some limit) (some t) e = ground arith
