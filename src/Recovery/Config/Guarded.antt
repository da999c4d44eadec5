-- ===== src/Recovery/Config/Guarded.antt =====
-- The solo block: no badge type without solo recovery reaches the threshold alone, whatever the
-- admins do; and the bounds of the stored values.
use minister.Common.{
  ℕ, String, ◌≡◌, ◌<◌, Bool, true, false, not, Option, some, List, [], ◌∷◌, arith, string_eq, In,
  All-at, All, any, inl, inr, Bool-cases,
}
use minister.Recovery.Config.{
  WeightRow, Threshold, solo_block_error, plan_recovery_weight_write, plan_threshold_write,
  worst_threshold, worst_weight, effective, effective_recovery_weight, effective_recovery_threshold,
}
use minister.Recovery.Config.Store.{
  Session, done, Store, find_row, update_row, write_weight, write_solo, write_threshold, need,
  guard, is_at,
}
use minister.Recovery.Config.Actions.{
  Call, weight_call, solo_call, threshold_call, perform, perform_all, write_weight_row,
  write_solo_row, write_config, meets_alone, may_set_solo,
}
use minister.Recovery.Config.Rules.{
  update_recovery_weight-keeps, set_allow_solo_recovery-keeps, update_recovery_threshold-keeps,
}

module _ (P : WeightRow → Type 0) (badge_type qualifier : String) where
  pub update_row-All :
      (f : WeightRow → WeightRow) (row : WeightRow) (rows : List WeightRow)
      → find_row badge_type qualifier rows ≡ some row
      → (P row → P (f row))
      → All P rows
      → All P (update_row badge_type qualifier f rows)
  unfolding find_row update_row
  update_row-All f row [] found step h = tt
  update_row-All f row (r ∷ rows) found step h = elim (Bool-cases (is_at badge_type qualifier r)) [
    | inl at ↦ rw at ((let e : r ≡ row = ground (arith, at, found) in ground (arith, step, e, h)))
    | inr other ↦ rw other (h.0, update_row-All f row rows (ground (arith, other, found)) step h.1)
  ]

  pub find_row-All :
      (row : WeightRow) (rows : List WeightRow)
      → find_row badge_type qualifier rows ≡ some row
      → All P rows
      → P row
  unfolding find_row
  find_row-All row [] found h = cc
  find_row-All row (r ∷ rows) found h = elim (Bool-cases (is_at badge_type qualifier r)) [
    | inl at ↦ let e : r ≡ row = ground (arith, at, found) in rw (← e) h.0
    | inr other ↦ find_row-All row rows (ground (arith, other, found)) h.1
  ]

-- In the worst case that the pending values allow, the row alone stays below the threshold.
unfoldable pub IsBelow : Threshold → WeightRow → Type 0
IsBelow cfg row = row.allow_solo_recovery ≡ false → worst_weight row < worst_threshold cfg

unfoldable pub IsGuarded : Store → Type 0
IsGuarded store = (cfg : Threshold) → store.config ≡ some cfg → All (IsBelow cfg) store.rows

write_weight-IsBelow :
    (now weight : ℕ) (row : WeightRow) (cfg : Threshold)
    → not (solo_block_error weight (worst_threshold cfg) row.allow_solo_recovery) ≡ true
    → IsBelow cfg row
    → IsBelow cfg (write_weight (plan_recovery_weight_write row.recovery_weight weight now) row)
unfolding IsBelow write_weight solo_block_error plan_recovery_weight_write worst_weight
write_weight-IsBelow now weight row cfg ok h = ground arith

write_solo-IsBelow :
    (allow changed : Bool) (row : WeightRow) (cfg : Threshold)
    → may_set_solo allow row (some cfg) ≡ done changed
    → IsBelow cfg (write_solo allow row)
unfolding IsBelow may_set_solo need guard solo_block_error write_solo worst_weight
write_solo-IsBelow allow changed row cfg ok = ground arith

write_threshold-IsBelow :
    (now threshold : ℕ) (cfg : Threshold) (rows : List WeightRow)
    → not (any (meets_alone threshold) rows) ≡ true
    → All (IsBelow (write_threshold (plan_threshold_write cfg.threshold threshold now) cfg)) rows
unfolding IsBelow meets_alone write_threshold plan_threshold_write worst_threshold
write_threshold-IsBelow now threshold cfg [] ok = tt
write_threshold-IsBelow now threshold cfg (row ∷ rows) ok =
    (ground arith, write_threshold-IsBelow now threshold cfg rows (ground arith))

pub perform-IsGuarded :
    (now : ℕ) (caller : Option Session) (call : Call) (store : Store)
    → IsGuarded store
    → IsGuarded (perform now caller call store)
unfolding perform IsGuarded write_weight_row write_solo_row write_config
perform-IsGuarded now caller (weight_call badge_type qualifier requested) store h =
    update_recovery_weight-keeps IsGuarded now caller store h badge_type qualifier requested
      (λ session weight row cfg passed bounded found seeded ok other e.
        let same : other ≡ cfg = ground arith in
        rw same (
          update_row-All (IsBelow cfg) badge_type qualifier
            (write_weight (plan_recovery_weight_write row.recovery_weight weight now)) row
            store.rows found (write_weight-IsBelow now weight row cfg ok) (h cfg seeded)))
perform-IsGuarded now caller (solo_call badge_type qualifier allow) store h =
    set_allow_solo_recovery-keeps IsGuarded now caller store h badge_type qualifier allow
      (λ session row changed passed found ok cfg seeded.
        update_row-All (IsBelow cfg) badge_type qualifier (write_solo allow) row store.rows found
          (λ below. write_solo-IsBelow allow changed row cfg (rw seeded at ok)) (h cfg seeded))
perform-IsGuarded now caller (threshold_call requested) store h =
    update_recovery_threshold-keeps IsGuarded now caller store h requested
      (λ session threshold cfg passed bounded seeded ok other e.
        let same : other ≡ write_threshold (plan_threshold_write cfg.threshold threshold now) cfg =
          ground arith in
        rw same (write_threshold-IsBelow now threshold cfg store.rows ok))

pub perform_all-IsGuarded :
    (calls : List (ℕ × Option Session × Call)) (store : Store)
    → IsGuarded store
    → IsGuarded (perform_all calls store)
unfolding perform_all
perform_all-IsGuarded [] store h = h
perform_all-IsGuarded ((now, caller, call) ∷ calls) store h =
    perform_all-IsGuarded calls (perform now caller call store)
      (perform-IsGuarded now caller call store h)

pub effective-below :
    (cfg : Threshold) (row : WeightRow) (time : ℕ)
    → worst_weight row < worst_threshold cfg
    → effective_recovery_weight row time < effective_recovery_threshold cfg time
unfolding worst_weight worst_threshold effective_recovery_weight effective_recovery_threshold
    effective
effective-below cfg row time h = ground arith

-- Start from a store where every row without solo recovery stays below the threshold in the worst
-- case of the pending values. After any list of calls, by any callers at any times, at every time the
-- effective weight of every row without solo recovery is smaller than the effective threshold.
pub perform_all-no_solo :
    (calls : List (ℕ × Option Session × Call)) (store : Store) (cfg : Threshold) (row : WeightRow)
    (time : ℕ)
    → IsGuarded store
    → (perform_all calls store).config ≡ some cfg
    → In row (perform_all calls store).rows
    → row.allow_solo_recovery ≡ false
    → effective_recovery_weight row time < effective_recovery_threshold cfg time
unfolding IsBelow IsGuarded
perform_all-no_solo calls store cfg row time h seeded member blocked =
    effective-below cfg row time
      (All-at (IsBelow cfg) member (perform_all-IsGuarded calls store h cfg seeded) blocked)
