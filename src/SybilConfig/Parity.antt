-- ===== src/SybilConfig/Parity.antt =====
-- The rows that a new database is given against the weights that they have replaced.
use minister.Common.{
  ℕ, String, ◌≡◌, refl, true, false, Bool-cases, inl, inr, Option, none, some, List, map, arith, In,
  All, All-at, string_eq, ◌==◌, lookup,
}
use minister.Recovery.Config.{WeightRow, effective_recovery_weight, effective}
use minister.Recovery.Config.Store.{is_at, find_row}
use minister.Recovery.Attempt.{recovery_weight_for_live, first_row, recovery_qualifier_chain}
use minister.Recovery.Assurance.{assurance_level_for, oauth_weight, recovery_weight_for}
use minister.SybilConfig.{BadgeWeight}
use minister.SybilConfig.Seed.{
  seed_row, age_over_seed_row, sybil_badge_weight_seed, known_badge_types,
}

abbrev seeded_rows : List WeightRow
seeded_rows = map (λ (b : BadgeWeight). b.recovery) sybil_badge_weight_seed

-- The live weight of the rows is the weight that was there before.
IsSame : String → Option String → Type 0
IsSame t provenance =
    (now : ℕ)
    → recovery_weight_for_live t provenance now seeded_rows
      ≡ some (recovery_weight_for t provenance)

-- A type other than oauth-account does not look at its provenance.
plain :
    (t : String)
    → (t == "oauth-account") ≡ false
    → IsSame t none
    → (provenance : Option String) → IsSame t provenance
unfolding IsSame recovery_weight_for_live recovery_qualifier_chain recovery_weight_for
plain t other h none now = h now
plain t other h (some p) now = rw other (rw other at (h now))

-- The weight of a provider, as the rows give it and as it was before.
Agrees : String → ℕ → Type 0
Agrees p now =
    recovery_weight_for_live "oauth-account" (some p) now seeded_rows ≡ some (oauth_weight (some p))

at_provider : (p q : String) (now : ℕ) → (q == p) ≡ true → Agrees q now → Agrees p now
at_provider p q now is h = let e : q ≡ p = (string_eq.same_iff q p).0 is in (rw e at h)

no_provider : IsSame "oauth-account" none
unfolding IsSame oauth_weight recovery_weight_for_live first_row recovery_qualifier_chain find_row
    is_at effective_recovery_weight effective seed_row age_over_seed_row recovery_weight_for
    assurance_level_for lookup
no_provider now = refl

low_providers : (now : ℕ) → Agrees "discord" now × Agrees "steam" now
unfolding Agrees recovery_weight_for_live first_row recovery_qualifier_chain find_row is_at
    effective_recovery_weight effective seed_row age_over_seed_row oauth_weight
low_providers now = (refl, refl)

-- Any other row of the type weighs the same.
other_provider :
    (p : String) (now : ℕ) → ("discord" == p) ≡ false → ("steam" == p) ≡ false → Agrees p now
unfolding Agrees recovery_weight_for_live first_row recovery_qualifier_chain find_row is_at
    effective_recovery_weight effective seed_row age_over_seed_row oauth_weight
other_provider p now d s = elim (Bool-cases (p == "")) [
  | inl empty ↦ rw empty refl
  | inr named ↦ ground (arith, d, s, named)
]

oauth : (provenance : Option String) → IsSame "oauth-account" provenance
unfolding IsSame Agrees recovery_weight_for
oauth none now = no_provider now
oauth (some p) now = elim (Bool-cases ("discord" == p)) [
  | inl is ↦ at_provider p "discord" now is (low_providers now).0
  | inr not_discord ↦ elim (Bool-cases ("steam" == p)) [
    | inl is ↦ at_provider p "steam" now is (low_providers now).1
    | inr not_steam ↦ other_provider p now not_discord not_steam
  ]
]

known-AreSame : All (λ t. (provenance : Option String) → IsSame t provenance) known_badge_types
unfolding IsSame recovery_weight_for_live first_row recovery_qualifier_chain find_row is_at
    effective_recovery_weight effective seed_row age_over_seed_row recovery_weight_for
    assurance_level_for lookup
known-AreSame = (
  plain "email-domain" refl (λ now. refl),
  (
    plain "email-exact" refl (λ now. refl),
    (
      plain "domain-control" refl (λ now. refl),
      (
        oauth,
        (
          plain "account-age" refl (λ now. refl),
          (
            plain "social-following" refl (λ now. refl),
            (
              plain "residency-country" refl (λ now. refl),
              (
                plain "residency-state" refl (λ now. refl),
                (
                  plain "residency-city" refl (λ now. refl),
                  (
                    plain "invite-code" refl (λ now. refl),
                    (
                      plain "tlsn-attestation" refl (λ now. refl),
                      (
                        plain "wallet-control" refl (λ now. refl),
                        (
                          plain "wallet-age" refl (λ now. refl),
                          (
                            plain "onchain-event" refl (λ now. refl),
                            (
                              plain "public-key" refl (λ now. refl),
                              (
                                plain "group-membership" refl (λ now. refl),
                                (
                                  plain "age-over-16" refl (λ now. refl),
                                  (
                                    plain "age-over-18" refl (λ now. refl),
                                    (
                                      plain "age-over-21" refl (λ now. refl),
                                      (
                                        plain "age-over-25" refl (λ now. refl),
                                        (
                                          plain "age-over-30" refl (λ now. refl),
                                          (
                                            plain "age-over-35" refl (λ now. refl),
                                            (
                                              plain "age-over-40" refl (λ now. refl),
                                              (
                                                plain "age-over-45" refl (λ now. refl),
                                                (
                                                  plain "age-over-55" refl (λ now. refl),
                                                  (plain "age-over-65" refl (λ now. refl), tt),
                                                ),
                                              ),
                                            ),
                                          ),
                                        ),
                                      ),
                                    ),
                                  ),
                                ),
                              ),
                            ),
                          ),
                        ),
                      ),
                    ),
                  ),
                ),
              ),
            ),
          ),
        ),
      ),
    ),
  ),
)

-- The move of the recovery weights to the database has changed none. With the rows that a new
-- database is given, the live weight of each type of the registry, for every provenance and at
-- every time, is what recoveryWeightFor computes.
pub recovery_weight_for_live-seed :
    (t : String) (provenance : Option String) (now : ℕ)
    → In t known_badge_types
    → recovery_weight_for_live t provenance now
        (map (λ (b : BadgeWeight). b.recovery) sybil_badge_weight_seed)
      ≡ some (recovery_weight_for t provenance)
unfolding IsSame
recovery_weight_for_live-seed t provenance now m =
    All-at (λ t. (provenance : Option String) → IsSame t provenance) m known-AreSame provenance now
