-- ===== src/Recovery/Config/Valid.antt =====
-- The bounds of the stored values, and the direction of the pending ones.
use minister.Common.{ℕ, ◌≡◌, ◌≤◌, ◌<◌, Bool, Option, some, arith, string_eq, All}
use minister.Recovery.Config.{
  Number, whole, negative, fractional, WeightRow, Threshold, valid_weight, valid_threshold,
  plan_recovery_weight_write, plan_threshold_write,
}
use minister.Recovery.Config.Store.{Session, Store, write_weight, write_solo, write_threshold}
use minister.Recovery.Config.Actions.{
  Call, weight_call, solo_call, threshold_call, perform, write_weight_row, write_solo_row,
  write_config,
}
use minister.Recovery.Config.Rules.{
  update_recovery_weight-keeps, set_allow_solo_recovery-keeps, update_recovery_threshold-keeps,
}
use minister.Recovery.Config.Guarded.{update_row-All}

-- The stored weights and thresholds are within the bounds, and a pending value is the weaker one.
unfoldable pub IsValidRow : WeightRow → Type 0
IsValidRow row =
    (row.recovery_weight ≤ 100)
    × ((p : ℕ) → row.pending_recovery_weight ≡ some p → (row.recovery_weight < p) × (p ≤ 100))

unfoldable pub IsValidThreshold : Threshold → Type 0
IsValidThreshold cfg =
    (100 ≤ cfg.threshold)
    × (cfg.threshold ≤ 1000)
    × ((p : ℕ) → cfg.pending_threshold ≡ some p → (100 ≤ p) × (p < cfg.threshold))

unfoldable pub IsValid : Store → Type 0
IsValid store =
    All IsValidRow store.rows × ((cfg : Threshold) → store.config ≡ some cfg → IsValidThreshold cfg)

write_weight-IsValidRow :
    (now weight : ℕ) (requested : Number) (row : WeightRow)
    → valid_weight requested ≡ some weight
    → IsValidRow row
    → IsValidRow (write_weight (plan_recovery_weight_write row.recovery_weight weight now) row)
unfolding IsValidRow write_weight plan_recovery_weight_write valid_weight
write_weight-IsValidRow now weight (whole n) row bounded h = ground arith
write_weight-IsValidRow now weight (negative n) row bounded h = cc
write_weight-IsValidRow now weight fractional row bounded h = cc

write_solo-IsValidRow :
    (allow : Bool) (row : WeightRow) → IsValidRow row → IsValidRow (write_solo allow row)
unfolding IsValidRow write_solo
write_solo-IsValidRow allow row h = h

write_threshold-IsValidThreshold :
    (now threshold : ℕ) (requested : Number) (cfg : Threshold)
    → valid_threshold requested ≡ some threshold
    → IsValidThreshold cfg
    → IsValidThreshold (write_threshold (plan_threshold_write cfg.threshold threshold now) cfg)
unfolding IsValidThreshold write_threshold plan_threshold_write valid_threshold
write_threshold-IsValidThreshold now threshold (whole n) cfg bounded h = ground arith
write_threshold-IsValidThreshold now threshold (negative n) cfg bounded h = cc
write_threshold-IsValidThreshold now threshold fractional cfg bounded h = cc

-- Every call keeps the stored values within their bounds (weights up to 100, thresholds from 100 to
-- 1000, pending values included), and keeps a pending weight larger than the live weight and a pending
-- threshold smaller than the live one.
pub perform-IsValid :
    (now : ℕ) (caller : Option Session) (call : Call) (store : Store)
    → IsValid store
    → IsValid (perform now caller call store)
unfolding perform IsValid write_weight_row write_solo_row write_config
perform-IsValid now caller (weight_call badge_type qualifier requested) store h =
    update_recovery_weight-keeps IsValid now caller store h badge_type qualifier requested
      (λ session weight row cfg passed bounded found seeded ok. (
        update_row-All IsValidRow badge_type qualifier
            (write_weight (plan_recovery_weight_write row.recovery_weight weight now)) row
            store.rows found (write_weight-IsValidRow now weight requested row bounded) h.0,
        h.1,
      ))
perform-IsValid now caller (solo_call badge_type qualifier allow) store h =
    set_allow_solo_recovery-keeps IsValid now caller store h badge_type qualifier allow
      (λ session row changed passed found ok. (
        update_row-All IsValidRow badge_type qualifier (write_solo allow) row store.rows found
            (write_solo-IsValidRow allow row) h.0,
        h.1,
      ))
perform-IsValid now caller (threshold_call requested) store h =
    update_recovery_threshold-keeps IsValid now caller store h requested
      (λ session threshold cfg passed bounded seeded ok. (
        h.0,
        λ other e.
            let same : other
                ≡ write_threshold (plan_threshold_write cfg.threshold threshold now) cfg =
              ground arith in
            rw same (
              write_threshold-IsValidThreshold now threshold requested cfg bounded
                (h.1 cfg seeded)),
      ))
