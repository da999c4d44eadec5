-- ===== src/Recovery/Config/Store.antt =====
-- The tables of the recovery config, the results and refusals of an action, the gate, and the writes
-- to a row.
use minister.Common.{
  ℕ, ◌+◌, ◌/◌, String, Bool, false, not, ◌&&◌, Option, none, some, List, [], ◌∷◌, ltb, leb, ◌==◌,
  if◌then◌else◌, string_eq,
}
use minister.Recovery.Config.{WeightRow, Threshold, Write, immediate, scheduled}

pub record Session : Type 0 where
  pub user_id : String
  pub is_admin : Bool
  pub aal : ℕ
  pub recovered : Bool
  pub auth_time : Option ℕ

pub data Refusal : Type 0 where
  not_an_admin : Refusal
  recovered_session : Refusal
  invalid_input : Refusal
  not_eligible : Refusal
  out_of_bounds : Refusal
  no_row : Refusal
  not_seeded : Refusal
  solo_blocked : Refusal

-- What an action returns, and what its body throws.
pub data Result (A : Type 0) : Type 0 where
  done : A → Result A
  step_up : ℕ → Result A
  failed : Refusal → Result A

pub data Field : Type 0 where
  weight_field : String → String → Field
  solo_field : String → String → Field
  threshold_field : Field

pub data AuditValue : Type 0 where
  number : ℕ → AuditValue
  flag : Bool → AuditValue

pub record AuditEntry : Type 0 where
  pub user_id : String
  pub field : Field
  pub before : AuditValue
  pub after : AuditValue
  pub effective_at : Option ℕ

-- The BadgeWeight table, the RecoveryConfig singleton, and the audit log with its newest entry first.
pub record Store : Type 0 where
  pub rows : List WeightRow
  pub config : Option Threshold
  pub audits : List AuditEntry

module _ {A : Type 0} {B : Type 0} where
  -- `if (!x) throw ...`
  unfoldable pub need : Option A → Refusal → (A → Result B) → Result B
  need none e k = failed e
  need (some a) e k = k a

  -- The session of a gate that passes, and what a gate throws.
  unfoldable pub gated : Result A → (A → Result B) → Result B
  gated (done a) k = k a
  gated (step_up floor) k = step_up floor
  gated (failed e) k = failed e

-- `if (!ok) throw ...`
unfoldable pub guard : {A : Type 0} → Bool → Refusal → Result A → Result A
guard ok e k = if ok then k else failed e

-- `if (b) return r`
unfoldable pub early : {A : Type 0} → Bool → Result A → Result A → Result A
early b r k = if b then r else k

abbrev recovery_config_max_auth_age_secs : ℕ
recovery_config_max_auth_age_secs = 600

-- requireAuthRecency: a missing time of authentication counts as a stale one.
unfoldable pub is_recent : ℕ → Option ℕ → Bool
is_recent now none = false
is_recent now (some auth_time) = leb (now / 1000) (auth_time + recovery_config_max_auth_age_secs)

unfoldable pub gate_recovery_config : ℕ → Option Session → Result Session
unfolding is_recent
gate_recovery_config now none = failed not_an_admin
gate_recovery_config now (some session) =
    if not session.is_admin
    then failed not_an_admin
    else if ltb session.aal 2
    then step_up 2
    else if session.recovered
    then failed recovered_session
    else if not (is_recent now session.auth_time)
    then step_up 2
    else done session

unfoldable pub is_at : String → String → WeightRow → Bool
is_at badge_type qualifier row = row.badge_type == badge_type && row.qualifier == qualifier

-- The row with a key, which is unique, and the table with a write to it.
unfoldable pub find_row : String → String → List WeightRow → Option WeightRow
find_row badge_type qualifier [] = none
find_row badge_type qualifier (row ∷ rows) =
    if is_at badge_type qualifier row then some row else find_row badge_type qualifier rows

unfoldable pub update_row :
    String → String → (WeightRow → WeightRow) → List WeightRow → List WeightRow
update_row badge_type qualifier f [] = []
update_row badge_type qualifier f (row ∷ rows) =
    if is_at badge_type qualifier row
    then f row ∷ rows
    else row ∷ update_row badge_type qualifier f rows

unfoldable pub write_weight : Write → WeightRow → WeightRow
write_weight (immediate weight) row = record row {
  recovery_weight = weight;
  pending_recovery_weight = none;
  recovery_effective_at = none;
}
write_weight (scheduled weight at) row = record row {
  pending_recovery_weight = some weight;
  recovery_effective_at = some at;
}

unfoldable pub write_solo : Bool → WeightRow → WeightRow
write_solo allow row = record row { allow_solo_recovery = allow }

unfoldable pub write_threshold : Write → Threshold → Threshold
write_threshold (immediate t) cfg = record {
  threshold = t;
  pending_threshold = none;
  threshold_effective_at = none;
}
write_threshold (scheduled t at) cfg = record cfg {
  pending_threshold = some t;
  threshold_effective_at = some at;
}

abbrev pub scheduled_at : Write → Option ℕ
scheduled_at (immediate value) = none
scheduled_at (scheduled value at) = some at
