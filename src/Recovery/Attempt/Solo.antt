-- ===== src/Recovery/Attempt/Solo.antt =====
-- What a re-proof needs and brings, and how the weights that the engine reads relate to the threshold
-- that an attempt has frozen, while admins edit the config.
use minister.Common.{
  ℕ, ◌+◌, ◌≤◌, ◌<◌, String, ◌≡◌, refl, true, false, Option, none, some, List, [], ◌∷◌, arith, ◌⊎◌,
  inl, inr, Bool-cases, Option-cases, string_eq, lookup,
}
use minister.Recovery.{is_recovery_eligible}
use minister.Recovery.Config.{
  WeightRow, Threshold, effective, effective_recovery_weight, effective_recovery_threshold,
  worst_weight, worst_threshold, recovery_weaken_delay_ms,
}
use minister.Recovery.Config.Store.{Session, Store, find_row}
use minister.Recovery.Config.Actions.{Call, perform_all}
use minister.Recovery.Config.Guarded.{IsBelow, IsGuarded, find_row-All}
use minister.Recovery.Config.Valid.{IsValid}
use minister.Recovery.Config.Easier.{IsNoHeavier, IsNoEasier, find_row-IsNoHeavier, find_row-back}
use minister.Recovery.Config.Delay.{AreSince, perform_all-IsNoEasier}
use minister.Recovery.Attempt.{
  Attempt, Tables, Reason, is_pending, holds, has_proof, add_proof, check_attempt, re_proof_with,
  record_re_proof, load_effective_threshold, first_row, weight_at, recovery_qualifier_chain,
  recovery_weight_for_live,
}

-- What the checks have found of a re-proof that brings a weight.
abbrev pub IsAdmitted : ℕ → String → String → Option String → ℕ → Tables → Type 0
IsAdmitted now id badge_type provenance weight seen =
    (a : Attempt) × (lookup seen.attempts id ≡ some a)
    × (is_pending a.status ≡ true)
    × (now < a.expires_at)
    × (is_recovery_eligible badge_type ≡ true)
    × (holds a.user_id badge_type seen.badges ≡ true)
    × (recovery_weight_for_live badge_type provenance now seen.rows ≡ some weight)

check_attempt-IsAdmitted :
    (now : ℕ) (id badge_type : String) (provenance : Option String) (weight : ℕ)
    (found : Option Attempt) (seen : Tables)
    → lookup seen.attempts id ≡ found
    → check_attempt now badge_type provenance found seen ≡ inr weight
    → IsAdmitted now id badge_type provenance weight seen
unfolding check_attempt
check_attempt-IsAdmitted now id badge_type provenance weight none seen e h = cc
check_attempt-IsAdmitted now id badge_type provenance weight (some a) seen e h =
    (a, e, ground arith, ground arith, ground arith, ground arith, ground arith)

add_proof-adds :
    (id badge_type : String) (weight : ℕ) (found : Option Attempt) (store : Tables)
    → ((add_proof id badge_type weight found store).1 ≡ store)
      ⊎ ((has_proof id badge_type store.proofs ≡ false)
          × ((add_proof id badge_type weight found store).1.proofs
              ≡ record { attempt_id = id; badge_type = badge_type; weight = weight }
                ∷ store.proofs))
unfolding add_proof
add_proof-adds id badge_type weight none store = inl refl
add_proof-adds id badge_type weight (some a) store =
    elim (Bool-cases (has_proof id badge_type store.proofs)) [
      | inl twice ↦ rw twice (inl refl)
      | inr new ↦ rw new (inr (refl, refl))
    ]

re_proof-adds :
    (now : ℕ) (id badge_type : String) (provenance : Option String) (checked : Reason ⊎ ℕ)
    (seen store : Tables)
    → check_attempt now badge_type provenance (lookup seen.attempts id) seen ≡ checked
    → ((re_proof_with id badge_type checked store).1 ≡ store)
      ⊎ ((weight : ℕ) × IsAdmitted now id badge_type provenance weight seen
          × (has_proof id badge_type store.proofs ≡ false)
          × ((re_proof_with id badge_type checked store).1.proofs
              ≡ record { attempt_id = id; badge_type = badge_type; weight = weight }
                ∷ store.proofs))
unfolding re_proof_with
re_proof-adds now id badge_type provenance (inl reason) seen store e = inl refl
re_proof-adds now id badge_type provenance (inr weight) seen store e =
    elim (add_proof-adds id badge_type weight (lookup store.attempts id) store) [
      | inl same ↦ inl same
      | inr added ↦ inr (
        weight,
        check_attempt-IsAdmitted now id badge_type provenance weight (lookup seen.attempts id) seen
            refl e,
        added.0,
        added.1,
      )
    ]

-- A re-proof leaves the tables as they are, or it adds one proof, of a type that the attempt had no
-- proof of. It then has read an attempt that is pending and not expired, whose user holds a badge
-- of the type that is not public, the type is recovery-eligible, and the weight of the proof is the
-- effective recovery weight that it has read for the type and the provenance.
record_re_proof-adds :
    (now : ℕ) (id badge_type : String) (provenance : Option String) (seen store : Tables)
    → ((record_re_proof now id badge_type provenance seen store).1 ≡ store)
      ⊎ ((weight : ℕ) × IsAdmitted now id badge_type provenance weight seen
          × (has_proof id badge_type store.proofs ≡ false)
          × ((record_re_proof now id badge_type provenance seen store).1.proofs
              ≡ record { attempt_id = id; badge_type = badge_type; weight = weight }
                ∷ store.proofs))
unfolding record_re_proof
record_re_proof-adds now id badge_type provenance seen store =
    re_proof-adds now id badge_type provenance
      (check_attempt now badge_type provenance (lookup seen.attempts id) seen) seen store refl

first_row-found :
    (badge_type : String) (chain : List String) (rows : List WeightRow) (row : WeightRow)
    → first_row badge_type chain rows ≡ some row
    → (qualifier : String) × (find_row badge_type qualifier rows ≡ some row)
unfolding first_row
first_row-found badge_type [] rows row h = cc
first_row-found badge_type (q ∷ chain) rows row h =
    elim (Option-cases (find_row badge_type q rows)) [
      | inl missing ↦ first_row-found badge_type chain rows row (rw missing at h)
      | inr (r, found) ↦
          let same : some r ≡ some row = rw found at h in (q, ground (arith, found, same))
    ]

weight_at-some :
    (now weight : ℕ) (found : Option WeightRow)
    → weight_at now found ≡ some weight
    → (row : WeightRow) × (found ≡ some row) × (effective_recovery_weight row now ≡ weight)
weight_at-some now weight none h = cc
weight_at-some now weight (some row) h = (row, refl, ground arith)

weight-found :
    (badge_type : String) (provenance : Option String) (now weight : ℕ) (rows : List WeightRow)
    → recovery_weight_for_live badge_type provenance now rows ≡ some weight
    → (row : WeightRow) × (qualifier : String) × (find_row badge_type qualifier rows ≡ some row)
      × (effective_recovery_weight row now ≡ weight)
unfolding recovery_weight_for_live
weight-found badge_type provenance now weight rows h =
    let chain = recovery_qualifier_chain badge_type provenance in
    let (row, e, counts) = weight_at-some now weight (first_row badge_type chain rows) h in
    let (qualifier, found) = first_row-found badge_type chain rows row e in
    (row, qualifier, found, counts)

effective-worst :
    (row : WeightRow) (time : ℕ) → effective_recovery_weight row time ≤ worst_weight row
unfolding effective_recovery_weight effective worst_weight
effective-worst row time = ground arith

threshold-worst :
    (cfg : Threshold) (time : ℕ) → worst_threshold cfg ≤ effective_recovery_threshold cfg time
unfolding effective_recovery_threshold effective worst_threshold
threshold-worst cfg time = ground arith

threshold-read :
    (now required : ℕ) (config : Option Threshold)
    → load_effective_threshold now config ≡ some required
    → (cfg : Threshold) × (config ≡ some cfg) × (effective_recovery_threshold cfg now ≡ required)
unfolding load_effective_threshold
threshold-read now required none h = cc
threshold-read now required (some cfg) h = (cfg, refl, ground arith)

-- An attempt freezes the threshold that is effective when it starts, and admins may edit the config
-- while it runs. Let the stored config be valid and guarded at the start, and let no row of a badge
-- type allow solo recovery then. After any calls of the editor's actions since the start, the
-- weight that the engine reads for that badge type, less than 72 hours after the start, is smaller
-- than the frozen threshold, whatever the provenance is.
recovery_weight_for_live-no_solo :
    (started now weight required : ℕ) (calls : List (ℕ × Option Session × Call)) (store : Store)
    (badge_type : String) (provenance : Option String)
    → AreSince started calls
    → IsValid store
    → IsGuarded store
    → ((qualifier : String) (row : WeightRow)
        → find_row badge_type qualifier store.rows ≡ some row
        → row.allow_solo_recovery ≡ false)
    → load_effective_threshold started store.config ≡ some required
    → now < started + recovery_weaken_delay_ms
    → recovery_weight_for_live badge_type provenance now (perform_all calls store).rows
      ≡ some weight
    → weight < required
unfolding IsNoEasier IsNoHeavier IsGuarded IsBelow load_effective_threshold
recovery_weight_for_live-no_solo started now weight required calls store badge_type provenance since
      valid guarded blocked frozen before read =
    let limit = started + recovery_weaken_delay_ms in
    let (next, qualifier, later, counts) =
      weight-found badge_type provenance now weight (perform_all calls store).rows read in
    let easier = perform_all-IsNoEasier started calls store since valid in
    let (row, found) =
      find_row-back limit badge_type qualifier next store.rows (perform_all calls store).rows
        easier.0 later in
    let lighter =
      (find_row-IsNoHeavier limit badge_type qualifier row next store.rows
          (perform_all calls store).rows easier.0 found later).2
        now before in
    let (cfg, seeded, same) = threshold-read started required store.config frozen in
    let below =
      find_row-All (IsBelow cfg) badge_type qualifier row store.rows found (guarded cfg seeded)
        (blocked qualifier row found) in
    omega
      (arith, lighter, below, counts, same, effective-worst row now, threshold-worst cfg started)
