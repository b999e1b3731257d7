-- ===== src/Policy.antt =====
-- The output policy (bridge.rs, `OutputPolicy`, `Outgoing` and `prepare_for_output`): what is done
-- to a cached point just before it is sent. Times and durations are in nanoseconds.
pub mod Staleness
use iec104bridge.Base.{
  ℕ, Bool, true, false, ◌&&◌, ◌||◌, Option, none, some, if◌then◌else◌, not, ltb,
}
use iec104bridge.Base.Int.{ℤ, pos, ◌-ℤ◌, ltb_ℤ}
use iec104bridge.Message.{Iec104Message, QualityField}

pub record OutputPolicy : Type 0 where
  pub send_timestamps : Bool
  pub max_age : Option ℕ

-- `OutputPolicy::default`
abbrev pub default_policy : OutputPolicy
default_policy = record { send_timestamps = true; max_age = none }

pub record Outgoing : Type 0 where
  pub message : Iec104Message
  pub not_topical : Bool

-- `now - t > max_age`
older_than_limit : ℤ → ℕ → ℤ → Bool
older_than_limit now max_age t = ltb_ℤ (pos max_age) (now -ℤ t)

any_older : ℤ → ℕ → Option ℤ → Bool
unfolding older_than_limit
any_older now max_age none = false
any_older now max_age (some t) = older_than_limit now max_age t

is_invalid : QualityField → Bool
is_invalid QualityField.invalid = true
is_invalid q = false

stale_after : Iec104Message → ℤ → ℤ → Option ℕ → Bool
unfolding any_older is_invalid
stale_after msg received_at now none = false
stale_after msg received_at now (some max_age) =
    (older_than_limit now max_age received_at || any_older now max_age msg.timestamp)
    && not (is_invalid msg.quality)

unfoldable pub prepare_for_output : Iec104Message → ℤ → ℤ → OutputPolicy → Outgoing
unfolding stale_after
prepare_for_output msg received_at now policy = record {
  message = if policy.send_timestamps then msg else record msg { timestamp = none };
  not_topical = stale_after msg received_at now policy.max_age;
}
