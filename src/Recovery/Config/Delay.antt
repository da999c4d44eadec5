-- ===== src/Recovery/Config/Delay.antt =====
-- The delay of a weakening: no call makes recovery easier before the delay is over.
use minister.Common.{
  ℕ, ◌+◌, String, ◌≡◌, refl, ◌≤◌, ◌<◌, Bool, false, Option, none, some, List, [], ◌∷◌, arith,
  string_eq, All,
}
use minister.Recovery.Config.{
  WeightRow, Threshold, plan_recovery_weight_write, plan_threshold_write, effective,
  effective_recovery_weight, effective_recovery_threshold, recovery_weaken_delay_ms,
}
use minister.Recovery.Config.Store.{
  Session, Store, find_row, write_weight, write_solo, write_threshold,
}
use minister.Recovery.Config.Actions.{
  Call, weight_call, solo_call, threshold_call, perform, perform_all, write_weight_row,
  write_solo_row, write_config,
}
use minister.Recovery.Config.Rules.{
  update_recovery_weight-keeps, set_allow_solo_recovery-keeps, update_recovery_threshold-keeps,
}
use minister.Recovery.Config.Valid.{IsValidRow, IsValidThreshold, IsValid, perform-IsValid}
use minister.Recovery.Config.Guarded.{IsBelow, IsGuarded, find_row-All, effective-below}
use minister.Recovery.Config.Easier.{
  IsNoHeavier, IsNoLower, IsNoLowerIn, IsNoEasier, AreNoHeavier-refl, AreNoHeavier-trans,
  IsNoLowerIn-refl, IsNoLowerIn-trans, update_row-AreNoHeavier, find_row-IsNoHeavier,
}

effective-ge :
    (live : ℕ) (pending at : Option ℕ) (time : ℕ)
    → ((p : ℕ) → pending ≡ some p → live < p)
    → live ≤ effective live pending at time
unfolding effective
effective-ge live none at time h = omega arith
effective-ge live (some p) none time h = omega arith
effective-ge live (some p) (some t) time h = ground (arith, h p refl)

effective-le :
    (live : ℕ) (pending at : Option ℕ) (time : ℕ)
    → ((p : ℕ) → pending ≡ some p → p < live)
    → effective live pending at time ≤ live
unfolding effective
effective-le live none at time h = omega arith
effective-le live (some p) none time h = omega arith
effective-le live (some p) (some t) time h = ground (arith, h p refl)

write_weight-IsNoHeavier :
    (start now weight : ℕ) (row : WeightRow)
    → start ≤ now
    → IsValidRow row
    → IsNoHeavier
        (start + recovery_weaken_delay_ms)
        row
        (write_weight (plan_recovery_weight_write row.recovery_weight weight now) row)
unfolding IsNoHeavier IsValidRow write_weight plan_recovery_weight_write effective_recovery_weight
    effective
write_weight-IsNoHeavier start now weight row h valid = (
  ground arith,
  ground arith,
  λ time before.
      let above =
        effective-ge row.recovery_weight row.pending_recovery_weight row.recovery_effective_at time
          (λ p e. (valid.1 p e).0) in
      ground (arith, above),
)

write_solo-IsNoHeavier :
    (limit : ℕ) (allow : Bool) (row : WeightRow) → IsNoHeavier limit row (write_solo allow row)
unfolding IsNoHeavier write_solo effective_recovery_weight
write_solo-IsNoHeavier limit allow row = (refl, refl, λ time before. omega arith)

write_threshold-IsNoLower :
    (start now threshold : ℕ) (cfg : Threshold)
    → start ≤ now
    → IsValidThreshold cfg
    → IsNoLower
        (start + recovery_weaken_delay_ms)
        cfg
        (write_threshold (plan_threshold_write cfg.threshold threshold now) cfg)
unfolding IsNoLower IsValidThreshold write_threshold plan_threshold_write
    effective_recovery_threshold effective
write_threshold-IsNoLower start now threshold cfg h valid = λ time before.
    let below =
      effective-le cfg.threshold cfg.pending_threshold cfg.threshold_effective_at time
        (λ p e. (valid.2 p e).1) in
    ground (arith, below)

IsNoLowerIn-at :
    (limit : ℕ) (a b : Option Threshold) (cfg next : Threshold)
    → IsNoLowerIn limit a b
    → a ≡ some cfg
    → b ≡ some next
    → IsNoLower limit cfg next
unfolding IsNoLowerIn
IsNoLowerIn-at limit a b cfg next h e f = rw (e, f) at h

IsNoEasier-refl : (limit : ℕ) (store : Store) → IsNoEasier limit store store
unfolding IsNoEasier
IsNoEasier-refl limit store =
    (AreNoHeavier-refl limit store.rows, IsNoLowerIn-refl limit store.config)

perform-IsNoEasier :
    (start now : ℕ) (caller : Option Session) (call : Call) (store : Store)
    → start ≤ now
    → IsValid store
    → IsNoEasier (start + recovery_weaken_delay_ms) store (perform now caller call store)
unfolding perform IsValid IsNoEasier IsNoLowerIn write_weight_row write_solo_row write_config
perform-IsNoEasier start now caller (weight_call badge_type qualifier requested) store h valid =
    let limit = start + recovery_weaken_delay_ms in
    update_recovery_weight-keeps (IsNoEasier limit store) now caller store
      (IsNoEasier-refl limit store) badge_type qualifier requested
      (λ session weight row cfg passed bounded found seeded ok. (
        update_row-AreNoHeavier limit badge_type qualifier
            (write_weight (plan_recovery_weight_write row.recovery_weight weight now)) row
            store.rows found
            (write_weight-IsNoHeavier start now weight row h
              (find_row-All IsValidRow badge_type qualifier row store.rows found valid.0)),
        IsNoLowerIn-refl limit store.config,
      ))
perform-IsNoEasier start now caller (solo_call badge_type qualifier allow) store h valid =
    let limit = start + recovery_weaken_delay_ms in
    set_allow_solo_recovery-keeps (IsNoEasier limit store) now caller store
      (IsNoEasier-refl limit store) badge_type qualifier allow
      (λ session row changed passed found ok. (
        update_row-AreNoHeavier limit badge_type qualifier (write_solo allow) row store.rows found
            (write_solo-IsNoHeavier limit allow row),
        IsNoLowerIn-refl limit store.config,
      ))
perform-IsNoEasier start now caller (threshold_call requested) store h valid =
    let limit = start + recovery_weaken_delay_ms in
    update_recovery_threshold-keeps (IsNoEasier limit store) now caller store
      (IsNoEasier-refl limit store) requested
      (λ session threshold cfg passed bounded seeded ok. (
        AreNoHeavier-refl limit store.rows,
        rw seeded (write_threshold-IsNoLower start now threshold cfg h (valid.1 cfg seeded)),
      ))

-- Every call is made at the start or later.
abbrev pub AreSince : ℕ → List (ℕ × Option Session × Call) → Type 0
AreSince start calls = All (λ call. start ≤ call.0) calls

pub perform_all-IsNoEasier :
    (start : ℕ) (calls : List (ℕ × Option Session × Call)) (store : Store)
    → AreSince start calls
    → IsValid store
    → IsNoEasier (start + recovery_weaken_delay_ms) store (perform_all calls store)
unfolding perform_all IsNoEasier
perform_all-IsNoEasier start [] store since valid =
    IsNoEasier-refl (start + recovery_weaken_delay_ms) store
perform_all-IsNoEasier start ((now, caller, call) ∷ calls) store since valid =
    let limit = start + recovery_weaken_delay_ms in
    let next = perform now caller call store in
    let first = perform-IsNoEasier start now caller call store since.0 valid in
    let rest =
      perform_all-IsNoEasier start calls next since.1
        (perform-IsValid now caller call store valid) in
    (
      AreNoHeavier-trans limit store.rows next.rows (perform_all calls next).rows first.0 rest.0,
      IsNoLowerIn-trans limit store.config next.config (perform_all calls next).config first.1
          rest.1,
    )

-- Start from a valid store. For every list of calls made at `start` or later, and every time that is
-- less than 72 hours after `start`, the row of a badge type and qualifier has an effective weight that
-- is not larger than the one that it had, by the first store, at that time, and the effective threshold
-- is not smaller than it was by the first store at that time.
pub perform_all-delay :
    (start : ℕ) (calls : List (ℕ × Option Session × Call)) (store : Store)
    (badge_type qualifier : String) (row next : WeightRow) (cfg now_cfg : Threshold) (time : ℕ)
    → AreSince start calls
    → IsValid store
    → find_row badge_type qualifier store.rows ≡ some row
    → find_row badge_type qualifier (perform_all calls store).rows ≡ some next
    → store.config ≡ some cfg
    → (perform_all calls store).config ≡ some now_cfg
    → time < start + recovery_weaken_delay_ms
    → (effective_recovery_weight next time ≤ effective_recovery_weight row time)
      × (effective_recovery_threshold cfg time ≤ effective_recovery_threshold now_cfg time)
unfolding IsNoEasier IsNoHeavier IsNoLower
perform_all-delay start calls store badge_type qualifier row next cfg now_cfg time since valid found
      later seeded reseeded before =
    let limit = start + recovery_weaken_delay_ms in
    let easier = perform_all-IsNoEasier start calls store since valid in
    (
      (find_row-IsNoHeavier limit badge_type qualifier row next store.rows
            (perform_all calls store).rows easier.0 found later).2
          time before,
      IsNoLowerIn-at limit store.config (perform_all calls store).config cfg now_cfg easier.1 seeded
          reseeded time before,
    )

-- Start from a valid store where every row without solo recovery stays below the threshold in the
-- worst case. A row that has no solo recovery then has, after any list of calls made at `start` or
-- later, an effective weight smaller than the effective threshold at every time less than 72 hours
-- after `start`, also when the calls turn its solo recovery on.
pub perform_all-no_sudden_solo :
    (start : ℕ) (calls : List (ℕ × Option Session × Call)) (store : Store)
    (badge_type qualifier : String) (row next : WeightRow) (cfg now_cfg : Threshold) (time : ℕ)
    → AreSince start calls
    → IsValid store
    → IsGuarded store
    → find_row badge_type qualifier store.rows ≡ some row
    → row.allow_solo_recovery ≡ false
    → find_row badge_type qualifier (perform_all calls store).rows ≡ some next
    → store.config ≡ some cfg
    → (perform_all calls store).config ≡ some now_cfg
    → time < start + recovery_weaken_delay_ms
    → effective_recovery_weight next time < effective_recovery_threshold now_cfg time
unfolding IsGuarded IsBelow
perform_all-no_sudden_solo start calls store badge_type qualifier row next cfg now_cfg time since
      valid guarded found blocked later seeded reseeded before =
    omega (
      arith,
      perform_all-delay start calls store badge_type qualifier row next cfg now_cfg time since valid
          found later seeded reseeded before,
      effective-below cfg row time (
          find_row-All (IsBelow cfg) badge_type qualifier row store.rows found (guarded cfg seeded)
            blocked),
    )
