-- ===== src/Recovery/Config.antt =====
-- The recovery-config editor: apps/minister/src/lib/recovery-config-guardrails.ts and the three
-- actions of apps/minister/src/server/recovery-config-actions.ts. Each action runs under one
-- advisory lock, so the actions are performed one after the other. Times are milliseconds.
pub mod Store
pub mod Actions
pub mod Rules
pub mod Guarded
pub mod Valid
pub mod Easier
pub mod Delay
pub mod Audit
use minister.Common.{
  ℕ, ◌+◌, String, min, max, Bool, not, ◌&&◌, Option, none, some, leb, if◌then◌else◌, string_eq,
}
use minister.Recovery.{credential_quarantine_ms}

-- A JavaScript number: a whole one, `-(n + 1)`, or one that is not an integer.
pub data Number : Type 0 where
  whole : ℕ → Number
  negative : ℕ → Number
  fractional : Number

-- The recovery columns of a BadgeWeight row, and of the RecoveryConfig row.
pub record WeightRow : Type 0 where
  pub badge_type : String
  pub qualifier : String
  pub recovery_weight : ℕ
  pub pending_recovery_weight : Option ℕ
  pub recovery_effective_at : Option ℕ
  pub allow_solo_recovery : Bool

pub record Threshold : Type 0 where
  pub threshold : ℕ
  pub pending_threshold : Option ℕ
  pub threshold_effective_at : Option ℕ

abbrev pub recovery_weaken_delay_ms : ℕ
recovery_weaken_delay_ms = credential_quarantine_ms

-- The value if it is valid: a whole number within the bounds.
unfoldable pub valid_weight : Number → Option ℕ
valid_weight (whole n) = if leb n 100 then some n else none
valid_weight (negative n) = none
valid_weight fractional = none

unfoldable pub valid_threshold : Number → Option ℕ
valid_threshold (whole n) = if leb 100 n && leb n 1000 then some n else none
valid_threshold (negative n) = none
valid_threshold fractional = none

-- soloBlockError gives an error.
unfoldable pub solo_block_error : ℕ → ℕ → Bool → Bool
solo_block_error weight threshold allow_solo = leb threshold weight && not allow_solo

-- A write of one field: the value at once, or the value and the time from which it counts.
pub data Write : Type 0 where
  immediate : ℕ → Write
  scheduled : ℕ → ℕ → Write

unfoldable pub plan_recovery_weight_write : ℕ → ℕ → ℕ → Write
plan_recovery_weight_write current_live requested now =
    if leb requested current_live
    then immediate requested
    else scheduled requested (now + recovery_weaken_delay_ms)

unfoldable pub plan_threshold_write : ℕ → ℕ → ℕ → Write
plan_threshold_write current_live requested now =
    if leb current_live requested
    then immediate requested
    else scheduled requested (now + recovery_weaken_delay_ms)

-- The pending value if its time has come, else the live one.
unfoldable pub effective : ℕ → Option ℕ → Option ℕ → ℕ → ℕ
effective live (some pending) (some at) now = if leb at now then pending else live
effective live (some pending) none now = live
effective live none at now = live

unfoldable pub effective_recovery_weight : WeightRow → ℕ → ℕ
unfolding effective
effective_recovery_weight row now =
    effective row.recovery_weight row.pending_recovery_weight row.recovery_effective_at now

unfoldable pub effective_recovery_threshold : Threshold → ℕ → ℕ
unfolding effective
effective_recovery_threshold cfg now =
    effective cfg.threshold cfg.pending_threshold cfg.threshold_effective_at now

abbrev pub min_of : ℕ → Option ℕ → ℕ
min_of n none = n
min_of n (some k) = min n k

abbrev pub max_of : ℕ → Option ℕ → ℕ
max_of n none = n
max_of n (some k) = max n k

unfoldable pub worst_threshold : Threshold → ℕ
worst_threshold cfg = min_of cfg.threshold cfg.pending_threshold

unfoldable pub worst_weight : WeightRow → ℕ
worst_weight row = max_of row.recovery_weight row.pending_recovery_weight
