-- ===== src/Recovery/Config/Actions.antt =====
-- The actions: the gate, the checks, the writes and the audit entry of each, in the order of the
-- code. A throw leaves the transaction, which then writes nothing.
use minister.Common.{
  ℕ, String, Bool, true, false, not, ◌&&◌, Option, none, some, List, [], ◌∷◌, leb, ◌==◌, any,
  string_eq,
}
use minister.Recovery.{is_recovery_eligible}
use minister.Recovery.Config.{
  Number, WeightRow, Threshold, valid_weight, valid_threshold, solo_block_error,
  plan_recovery_weight_write, plan_threshold_write, worst_threshold, worst_weight,
}
use minister.Recovery.Config.Store.{
  Result, Session, Store, done, early, failed, find_row, flag, gate_recovery_config, gated, guard,
  invalid_input, need, no_row, not_eligible, not_seeded, number, out_of_bounds, scheduled_at,
  solo_blocked, solo_field, step_up, threshold_field, update_row, weight_field, write_solo,
  write_threshold, write_weight,
}

-- The write of each action, with its audit entry.
unfoldable pub write_weight_row : ℕ → Session → String → String → ℕ → WeightRow → Store → Store
write_weight_row now session badge_type qualifier weight row store =
    let plan = plan_recovery_weight_write row.recovery_weight weight now in
    record {
      rows = update_row badge_type qualifier (write_weight plan) store.rows;
      config = store.config;
      audits =
          record {
            user_id = session.user_id;
            field = weight_field badge_type qualifier;
            before = number row.recovery_weight;
            after = number weight;
            effective_at = scheduled_at plan;
          }
          ∷ store.audits;
    }

unfoldable pub write_solo_row : Session → String → String → Bool → WeightRow → Store → Store
write_solo_row session badge_type qualifier allow row store = record {
  rows = update_row badge_type qualifier (write_solo allow) store.rows;
  config = store.config;
  audits =
      record {
        user_id = session.user_id;
        field = solo_field badge_type qualifier;
        before = flag row.allow_solo_recovery;
        after = flag allow;
        effective_at = none;
      }
      ∷ store.audits;
}

unfoldable pub write_config : ℕ → Session → ℕ → Threshold → Store → Store
write_config now session threshold cfg store =
    let plan = plan_threshold_write cfg.threshold threshold now in
    record {
      rows = store.rows;
      config = some (write_threshold plan cfg);
      audits =
          record {
            user_id = session.user_id;
            field = threshold_field;
            before = number cfg.threshold;
            after = number threshold;
            effective_at = scheduled_at plan;
          }
          ∷ store.audits;
    }

-- What the body of each action gives: the returned value and the committed store.
unfoldable pub weight_body :
    ℕ → Option Session → String → String → Number → Store → Result (Option ℕ × Store)
weight_body now caller badge_type qualifier requested store =
    gated (gate_recovery_config now caller) (λ session.
      guard (not (badge_type == "") && not (qualifier == "")) invalid_input (
        guard (is_recovery_eligible badge_type) not_eligible (
          need (valid_weight requested) out_of_bounds (λ weight.
            need (find_row badge_type qualifier store.rows) no_row (λ row.
              need store.config not_seeded (λ cfg.
                guard (not (solo_block_error weight (worst_threshold cfg) row.allow_solo_recovery))
                  solo_blocked
                  (done (
                    scheduled_at (plan_recovery_weight_write row.recovery_weight weight now),
                    write_weight_row now session badge_type qualifier weight row store,
                  ))))))))

-- Turning solo recovery off is checked against the threshold.
unfoldable pub may_set_solo : Bool → WeightRow → Option Threshold → Result Bool
may_set_solo true row config = done true
may_set_solo false row config = need config not_seeded (λ cfg.
    guard (not (solo_block_error (worst_weight row) (worst_threshold cfg) false)) solo_blocked
      (done true))

abbrev pub same_flag : Bool → Bool → Bool
same_flag true b = b
same_flag false b = not b

-- Whether something has changed, and the store.
unfoldable pub solo_body :
    ℕ → Option Session → String → String → Bool → Store → Result (Bool × Store)
solo_body now caller badge_type qualifier allow store =
    gated (gate_recovery_config now caller) (λ session.
      guard (not (badge_type == "") && not (qualifier == "")) invalid_input (
        need (find_row badge_type qualifier store.rows) no_row (λ row.
          early (same_flag row.allow_solo_recovery allow) (done (false, store)) (
            gated (may_set_solo allow row store.config) (λ changed.
              done (changed, write_solo_row session badge_type qualifier allow row store))))))

-- A row whose worst-case weight meets the threshold, among those without solo recovery.
unfoldable pub meets_alone : ℕ → WeightRow → Bool
meets_alone threshold row = not row.allow_solo_recovery && leb threshold (worst_weight row)

unfoldable pub threshold_body : ℕ → Option Session → Number → Store → Result (Option ℕ × Store)
threshold_body now caller requested store = gated (gate_recovery_config now caller) (λ session.
    need (valid_threshold requested) out_of_bounds (λ threshold.
      need store.config not_seeded (λ cfg.
        guard (not (any (meets_alone threshold) store.rows)) solo_blocked (
          done (
            scheduled_at (plan_threshold_write cfg.threshold threshold now),
            write_config now session threshold cfg store,
          )))))

-- `run` and the transaction: the returned value, and the store with what was committed.
abbrev pub commit : {A : Type 0} → Store → Result (A × Store) → Result A × Store
commit store (done (a, next)) = (done a, next)
commit store (step_up floor) = (step_up floor, store)
commit store (failed e) = (failed e, store)

unfoldable pub update_recovery_weight :
    ℕ → Option Session → String → String → Number → Store → Result (Option ℕ) × Store
update_recovery_weight now caller badge_type qualifier requested store =
    commit store (weight_body now caller badge_type qualifier requested store)

unfoldable pub set_allow_solo_recovery :
    ℕ → Option Session → String → String → Bool → Store → Result Bool × Store
set_allow_solo_recovery now caller badge_type qualifier allow store =
    commit store (solo_body now caller badge_type qualifier allow store)

unfoldable pub update_recovery_threshold :
    ℕ → Option Session → Number → Store → Result (Option ℕ) × Store
update_recovery_threshold now caller requested store =
    commit store (threshold_body now caller requested store)

-- One call of an action by a caller at a time, and the store after it.
pub data Call : Type 0 where
  weight_call : String → String → Number → Call
  solo_call : String → String → Bool → Call
  threshold_call : Number → Call

unfoldable pub perform : ℕ → Option Session → Call → Store → Store
perform now caller (weight_call badge_type qualifier requested) store =
    (update_recovery_weight now caller badge_type qualifier requested store).1
perform now caller (solo_call badge_type qualifier allow) store =
    (set_allow_solo_recovery now caller badge_type qualifier allow store).1
perform now caller (threshold_call requested) store =
    (update_recovery_threshold now caller requested store).1

-- A run of calls, each with its time and caller.
unfoldable pub perform_all : List (ℕ × Option Session × Call) → Store → Store
perform_all [] store = store
perform_all ((now, caller, call) ∷ calls) store = perform_all calls (perform now caller call store)
