-- ===== src/Recovery/Config/Rules.antt =====
-- How a property of the store passes through the body of an action: one rule for each of its
-- constructs, and from them one rule for each action.
use minister.Common.{
  ℕ, String, ◌≡◌, refl, Bool, true, false, not, Option, none, some, arith, string_eq, any,
}
use minister.Recovery.Config.{
  Number, WeightRow, Threshold, valid_weight, valid_threshold, solo_block_error, worst_threshold,
  plan_recovery_weight_write,
}
use minister.Recovery.Config.Store.{
  Session, Refusal, Result, done, step_up, failed, Store, need, gated, guard, early,
  gate_recovery_config, find_row, scheduled_at,
}
use minister.Recovery.Config.Actions.{
  write_weight_row, write_solo_row, write_config, weight_body, solo_body, threshold_body,
  may_set_solo, meets_alone, commit, update_recovery_weight, set_allow_solo_recovery,
  update_recovery_threshold,
}

-- Whatever is returned with a store has the property.
abbrev pub Yields : {A : Type 0} → (A × Store → Type 0) → Result (A × Store) → Type 0
Yields P (done x) = P x
Yields P (step_up floor) = Unit
Yields P (failed e) = Unit

module _ {A : Type 0} (P : A × Store → Type 0) where
  pub guard-Yields :
      (ok : Bool) (e : Refusal) (k : Result (A × Store))
      → (ok ≡ true → Yields P k)
      → Yields P (guard ok e k)
  unfolding guard
  guard-Yields true e k h = h refl
  guard-Yields false e k h = tt

  pub need-Yields :
      {B : Type 0} (o : Option B) (e : Refusal) (k : B → Result (A × Store))
      → ((b : B) → o ≡ some b → Yields P (k b))
      → Yields P (need o e k)
  unfolding need
  need-Yields none e k h = tt
  need-Yields (some b) e k h = h b refl

  pub gated-Yields :
      {B : Type 0} (r : Result B) (k : B → Result (A × Store))
      → ((b : B) → r ≡ done b → Yields P (k b))
      → Yields P (gated r k)
  unfolding gated
  gated-Yields (done b) k h = h b refl
  gated-Yields (step_up floor) k h = tt
  gated-Yields (failed e) k h = tt

  pub early-Yields :
      (b : Bool) (r s : Result (A × Store))
      → (b ≡ true → Yields P r)
      → (b ≡ false → Yields P s)
      → Yields P (early b r s)
  unfolding early
  early-Yields true r s h k = h refl
  early-Yields false r s h k = k refl

pub commit-keeps :
    {A : Type 0} (Q : Store → Type 0) (store : Store) (r : Result (A × Store))
    → Q store
    → Yields (λ x. Q x.1) r
    → Q (commit store r).1
commit-keeps Q store (done x) h k = k
commit-keeps Q store (step_up floor) h k = h
commit-keeps Q store (failed e) h k = h

pub commit-done :
    {A : Type 0} (P : A × Store → Type 0) (store : Store) (r : Result (A × Store)) (a : A)
    → (commit store r).0 ≡ done a
    → Yields P r
    → P (a, (commit store r).1)
commit-done P store (done (b, next)) a e h = let same : b ≡ a = ground arith in rw (← same) h
commit-done P store (step_up floor) a e h = cc
commit-done P store (failed refusal) a e h = cc

pub weight_body-Yields :
    (P : Option ℕ × Store → Type 0) (now : ℕ) (caller : Option Session)
    (badge_type qualifier : String) (requested : Number) (store : Store)
    → ((session : Session) (weight : ℕ) (row : WeightRow) (cfg : Threshold)
        → gate_recovery_config now caller ≡ done session
        → valid_weight requested ≡ some weight
        → find_row badge_type qualifier store.rows ≡ some row
        → store.config ≡ some cfg
        → not (solo_block_error weight (worst_threshold cfg) row.allow_solo_recovery) ≡ true
        → P (
          scheduled_at (plan_recovery_weight_write row.recovery_weight weight now),
          write_weight_row now session badge_type qualifier weight row store,
        ))
    → Yields P (weight_body now caller badge_type qualifier requested store)
unfolding weight_body
weight_body-Yields P now caller badge_type qualifier requested store h =
    gated-Yields P _ _ (λ session passed. guard-Yields P _ _ _ (λ valid.
      guard-Yields P _ _ _ (λ eligible. need-Yields P _ _ _ (λ weight bounded.
        need-Yields P _ _ _ (λ row found. need-Yields P _ _ _ (λ cfg seeded.
          guard-Yields P _ _ _
            (λ below. h session weight row cfg passed bounded found seeded below)))))))

-- The rules of the actions: what holds where each writes.
module _ (Q : Store → Type 0) (now : ℕ) (caller : Option Session) (store : Store)
    (kept : Q store) where
  abbrev Then : (A : Type 0) → A × Store → Type 0
  Then A x = Q x.1

  pub update_recovery_weight-keeps :
      (badge_type qualifier : String) (requested : Number)
      → ((session : Session) (weight : ℕ) (row : WeightRow) (cfg : Threshold)
          → gate_recovery_config now caller ≡ done session
          → valid_weight requested ≡ some weight
          → find_row badge_type qualifier store.rows ≡ some row
          → store.config ≡ some cfg
          → not (solo_block_error weight (worst_threshold cfg) row.allow_solo_recovery) ≡ true
          → Q (write_weight_row now session badge_type qualifier weight row store))
      → Q (update_recovery_weight now caller badge_type qualifier requested store).1
  unfolding update_recovery_weight
  update_recovery_weight-keeps badge_type qualifier requested h =
      commit-keeps Q store (weight_body now caller badge_type qualifier requested store) kept
        (weight_body-Yields (Then (Option ℕ)) now caller badge_type qualifier requested store h)

  pub set_allow_solo_recovery-keeps :
      (badge_type qualifier : String) (allow : Bool)
      → ((session : Session) (row : WeightRow) (changed : Bool)
          → gate_recovery_config now caller ≡ done session
          → find_row badge_type qualifier store.rows ≡ some row
          → may_set_solo allow row store.config ≡ done changed
          → Q (write_solo_row session badge_type qualifier allow row store))
      → Q (set_allow_solo_recovery now caller badge_type qualifier allow store).1
  unfolding set_allow_solo_recovery solo_body
  set_allow_solo_recovery-keeps badge_type qualifier allow h =
      commit-keeps Q store (solo_body now caller badge_type qualifier allow store) kept (
        gated-Yields (Then Bool) _ _ (λ session passed. guard-Yields (Then Bool) _ _ _ (λ valid.
          need-Yields (Then Bool) _ _ _ (λ row found.
            early-Yields (Then Bool) _ _ _ (λ same. kept)
              (λ differs.
                gated-Yields (Then Bool) _ _
                  (λ changed checked. h session row changed passed found checked))))))

  pub update_recovery_threshold-keeps :
      (requested : Number)
      → ((session : Session) (threshold : ℕ) (cfg : Threshold)
          → gate_recovery_config now caller ≡ done session
          → valid_threshold requested ≡ some threshold
          → store.config ≡ some cfg
          → not (any (meets_alone threshold) store.rows) ≡ true
          → Q (write_config now session threshold cfg store))
      → Q (update_recovery_threshold now caller requested store).1
  unfolding update_recovery_threshold threshold_body
  update_recovery_threshold-keeps requested h =
      commit-keeps Q store (threshold_body now caller requested store) kept (
        gated-Yields (Then (Option ℕ)) _ _ (λ session passed.
          need-Yields (Then (Option ℕ)) _ _ _ (λ threshold bounded.
            need-Yields (Then (Option ℕ)) _ _ _ (λ cfg seeded.
              guard-Yields (Then (Option ℕ)) _ _ _
                (λ below. h session threshold cfg passed bounded seeded below)))))
