-- ===== src/Recovery/Tests.antt =====
-- Concrete runs of the recovery components.
use minister.Common.{
  ℕ, ◌≤◌, ◌<◌, ◌⊎◌, String, ◌≡◌, refl, true, false, Option, none, some, List, [], ◌∷◌, arith, here,
  string_eq,
}
use minister.Recovery.{is_recovery_eligible}
use minister.Recovery.Config.{
  whole, WeightRow, Threshold, valid_weight, valid_threshold, solo_block_error,
  plan_recovery_weight_write, plan_threshold_write, worst_threshold, worst_weight,
  effective_recovery_weight, effective_recovery_threshold,
}
use minister.Recovery.Config.Store.{
  Session, failed, solo_blocked, Store, find_row, update_row, is_at, write_weight, write_solo,
  write_threshold, need, gated, guard, early, is_recent, gate_recovery_config,
}
use minister.Recovery.Config.Actions.{
  Call, weight_call, solo_call, threshold_call, perform, perform_all, write_weight_row,
  write_solo_row, write_config, may_set_solo, weight_body, solo_body, threshold_body, meets_alone,
  update_recovery_weight, set_allow_solo_recovery, update_recovery_threshold,
}
use minister.Recovery.Config.Guarded.{IsBelow, IsGuarded, perform_all-no_solo}
use minister.Recovery.Config.Valid.{IsValidRow, IsValidThreshold, IsValid}
use minister.Recovery.Config.Delay.{perform_all-delay, perform_all-no_sudden_solo}
use minister.Recovery.Config.Audit.{IsLogged, perform-IsLogged}

abbrev row_of : String → ℕ → WeightRow
row_of badge_type weight = record {
  badge_type = badge_type;
  qualifier = "*";
  recovery_weight = weight;
  pending_recovery_weight = none;
  recovery_effective_at = none;
  allow_solo_recovery = false;
}

abbrev oauth : WeightRow
oauth = row_of "oauth-account" 20

abbrev seeded : Threshold
seeded = record { threshold = 100; pending_threshold = none; threshold_effective_at = none }

abbrev store : Store
store = record { rows = oauth ∷ []; config = some seeded; audits = [] }

abbrev admin : Session
admin = record {
  user_id = "root";
  is_admin = true;
  aal = 2;
  recovered = false;
  auth_time = some 1000;
}

-- Solo recovery is turned on, and the weight raised to 100 three minutes later.
abbrev calls : List (ℕ × Option Session × Call)
calls =
    (1000000, some admin, solo_call "oauth-account" "*" true)
    ∷ (1180000, some admin, weight_call "oauth-account" "*" (whole 100))
    ∷ []

abbrev raised : WeightRow
raised = record oauth {
  allow_solo_recovery = true;
  pending_recovery_weight = some 100;
  recovery_effective_at = some 260380000;
}

refused :
    (update_recovery_weight 1000000 (some admin) "oauth-account" "*" (whole 100) store).0
    ≡ failed solo_blocked
unfolding update_recovery_weight weight_body gated gate_recovery_config is_recent guard need
    is_recovery_eligible valid_weight find_row is_at solo_block_error worst_threshold
refused = refl

store-IsValid : IsValid store
unfolding IsValid IsValidRow IsValidThreshold
store-IsValid = (
  ((omega arith, λ p e. ground arith), tt),
  λ cfg e.
      let same : cfg ≡ seeded = ground arith in
      rw same (omega arith, omega arith, λ p f. ground arith),
)

store-IsGuarded : IsGuarded store
unfolding IsGuarded IsBelow worst_weight worst_threshold
store-IsGuarded =
    λ cfg e. let same : cfg ≡ seeded = ground arith in rw same ((λ blocked. omega arith), tt)

calls-row : find_row "oauth-account" "*" (perform_all calls store).rows ≡ some raised
unfolding perform_all perform update_recovery_weight weight_body set_allow_solo_recovery solo_body
    update_recovery_threshold threshold_body gated gate_recovery_config is_recent guard need early
    may_set_solo is_recovery_eligible valid_weight valid_threshold find_row update_row is_at
    solo_block_error worst_threshold worst_weight meets_alone write_weight_row write_solo_row
    write_config write_weight write_solo write_threshold plan_recovery_weight_write
    plan_threshold_write
calls-row = refl

calls-config : (perform_all calls store).config ≡ some seeded
unfolding perform_all perform update_recovery_weight weight_body set_allow_solo_recovery solo_body
    update_recovery_threshold threshold_body gated gate_recovery_config is_recent guard need early
    may_set_solo is_recovery_eligible valid_weight valid_threshold find_row update_row is_at
    solo_block_error worst_threshold worst_weight meets_alone write_weight_row write_solo_row
    write_config write_weight write_solo write_threshold plan_recovery_weight_write
    plan_threshold_write
calls-config = refl

-- The threshold is raised, which counts at once.
abbrev raise : List (ℕ × Option Session × Call)
raise = (1000000, some admin, threshold_call (whole 300)) ∷ []

raise-config :
    (perform_all raise store).config
    ≡ some (record { threshold = 300; pending_threshold = none; threshold_effective_at = none })
unfolding perform_all perform update_recovery_weight weight_body set_allow_solo_recovery solo_body
    update_recovery_threshold threshold_body gated gate_recovery_config is_recent guard need early
    may_set_solo is_recovery_eligible valid_weight valid_threshold find_row update_row is_at
    solo_block_error worst_threshold worst_weight meets_alone write_weight_row write_solo_row
    write_config write_weight write_solo write_threshold plan_recovery_weight_write
    plan_threshold_write
raise-config = refl

raise-rows : (perform_all raise store).rows ≡ oauth ∷ []
unfolding perform_all perform update_recovery_weight weight_body set_allow_solo_recovery solo_body
    update_recovery_threshold threshold_body gated gate_recovery_config is_recent guard need early
    may_set_solo is_recovery_eligible valid_weight valid_threshold find_row update_row is_at
    solo_block_error worst_threshold worst_weight meets_alone write_weight_row write_solo_row
    write_config write_weight write_solo write_threshold plan_recovery_weight_write
    plan_threshold_write
raise-rows = refl

perform_all-no_solo_example :
    effective_recovery_weight oauth 2000000
    < effective_recovery_threshold
        (record { threshold = 300; pending_threshold = none; threshold_effective_at = none })
        2000000
perform_all-no_solo_example =
    perform_all-no_solo raise store
      (record { threshold = 300; pending_threshold = none; threshold_effective_at = none }) oauth
      2000000 store-IsGuarded raise-config (rw raise-rows here) refl

perform_all-delay_example :
    (effective_recovery_weight raised 2000000 ≤ effective_recovery_weight oauth 2000000)
    × (effective_recovery_threshold seeded 2000000 ≤ effective_recovery_threshold seeded 2000000)
unfolding find_row is_at
perform_all-delay_example =
    perform_all-delay 1000000 calls store "oauth-account" "*" oauth raised seeded seeded 2000000
      (omega arith, (omega arith, tt)) store-IsValid refl calls-row refl calls-config (omega arith)

perform_all-no_sudden_solo_example :
    effective_recovery_weight raised 2000000 < effective_recovery_threshold seeded 2000000
unfolding find_row is_at
perform_all-no_sudden_solo_example =
    perform_all-no_sudden_solo 1000000 calls store "oauth-account" "*" oauth raised seeded seeded
      2000000 (omega arith, (omega arith, tt)) store-IsValid store-IsGuarded refl refl calls-row
      refl calls-config (omega arith)

perform-IsLogged_example :
    (perform 1000000 (some admin) (threshold_call (whole 300)) store ≡ store)
    ⊎ IsLogged 1000000
        (some admin)
        store
        (perform 1000000 (some admin) (threshold_call (whole 300)) store)
perform-IsLogged_example = perform-IsLogged 1000000 (some admin) (threshold_call (whole 300)) store
