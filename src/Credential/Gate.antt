-- ===== src/Credential/Gate.antt =====
-- The hold on a new passkey, at the gate of the privileged actions.
use minister.Common.{
  ℕ, suc, ◌+◌, ◌≤◌, ◌<◌, String, ◌≡◌, ◌≢◌, ◌↔◌, refl, sym, ◌∙◌, inl, inr, true, false, none, some,
  List, ◌∷◌, arith, keep, length, leb, nat_beq, Bool-cases, same_refl, string_eq, ◌==◌, given,
  stop_if, stop_if-rule,
}
use minister.Recovery.{credential_quarantine_ms}
use minister.Credential.{
  Passkey, effective_credential_status, passkey_is_active, lifecycle_for_new_passkey,
  insert_passkey, find_passkey, has_lapsed, is_active, check_acting, evaluate_privileged_gate,
}

abbrev pub held_by : String → List Passkey → List Passkey
held_by user_id passkeys = keep (λ p. p.user_id == user_id) passkeys

-- A passkey that is held until a time.
abbrev held_until : ℕ → ℕ → String → String → Passkey
held_until until added_at user_id id = record {
  credential_id = id;
  user_id = user_id;
  status = "quarantined";
  quarantined_until = some until;
  added_at = added_at;
}

insert_passkey-held :
    (now added_at : ℕ) (user_id id : String) (passkeys : List Passkey)
    → 0 < length (held_by user_id passkeys)
    → held_by user_id (insert_passkey now added_at user_id id passkeys)
      ≡ held_until (now + credential_quarantine_ms) added_at user_id id ∷ held_by user_id passkeys
unfolding insert_passkey lifecycle_for_new_passkey
insert_passkey-held now added_at user_id id passkeys more =
    let some_held : nat_beq (length (held_by user_id passkeys)) 0 ≡ false = ground arith in
    rw (some_held, same_refl user_id) refl

held_until-active :
    (until added_at t : ℕ) (user_id id : String)
    → passkey_is_active t (held_until until added_at user_id id) ≡ leb until t
unfolding passkey_is_active effective_credential_status has_lapsed is_active string_eq
held_until-active until added_at t user_id id = ground arith

acting-held :
    (until added_at t : ℕ) (user_id id : String) (passkeys : List Passkey)
    → leb until t ≡ false
    → check_acting (held_until until added_at user_id id ∷ passkeys) (some id) t ≢ none
unfolding check_acting find_passkey given stop_if
acting-held until added_at t user_id id passkeys held =
    rw (same_refl id, held_until-active until added_at t user_id id, held) (λ e. cc)

leb-true : (a b : ℕ) → leb a b ≡ true → a ≤ b
leb-true a b h = ground arith

leb-false : (a b : ℕ) → leb a b ≡ false → ¬ (a ≤ b)
leb-false a b h = ground arith

true-false : true ≢ false
true-false e = cc

not_none : (n : ℕ) → nat_beq (suc n) 0 ≡ false
not_none n = ground arith

some-active :
    (t : ℕ) (p : Passkey) (passkeys : List Passkey)
    → passkey_is_active t p ≡ true
    → nat_beq (length (keep (passkey_is_active t) (p ∷ passkeys))) 0 ≡ false
some-active t p passkeys h = rw h (not_none (length (keep (passkey_is_active t) passkeys)))

acting-over :
    (until added_at t : ℕ) (user_id id : String) (passkeys : List Passkey)
    → leb until t ≡ true
    → check_acting (held_until until added_at user_id id ∷ passkeys) (some id) t ≡ none
unfolding check_acting find_passkey given stop_if
acting-over until added_at t user_id id passkeys over =
    rw (same_refl id, held_until-active until added_at t user_id id, over) refl

gate-over :
    (until added_at t : ℕ) (user_id id : String) (passkeys : List Passkey)
    → leb until t ≡ true
    → evaluate_privileged_gate (held_until until added_at user_id id ∷ passkeys) (some id) t ≡ none
unfolding evaluate_privileged_gate
gate-over until added_at t user_id id passkeys over =
    stop_if-rule (λ r. r ≡ none) _ _ _
      (λ e. absurd (
        true-false (
          sym e
          ∙ some-active t (held_until until added_at user_id id) passkeys
              (held_until-active until added_at t user_id id ∙ over))))
      (λ _. acting-over until added_at t user_id id passkeys over)

gate-held :
    (until added_at t : ℕ) (user_id id : String) (passkeys : List Passkey)
    → (evaluate_privileged_gate (held_until until added_at user_id id ∷ passkeys) (some id) t
        ≡ none)
      ↔ (until ≤ t)
unfolding evaluate_privileged_gate
gate-held until added_at t user_id id passkeys = elim (Bool-cases (leb until t)) [
  | inl over ↦
      ((λ e. leb-true until t over), (λ h. gate-over until added_at t user_id id passkeys over))
  | inr held ↦ (
    stop_if-rule (λ r. r ≡ none → until ≤ t) _ _ _ (λ _. λ e. cc)
        (λ _. λ e. absurd (acting-held until added_at t user_id id passkeys held e)),
    λ h. absurd (leb-false until t held h),
  )
]

-- A passkey that is added to an account with a passkey. A session that signed in with it passes the
-- gate of the privileged actions from the end of the hold of 72 hours on, and no sooner.
insert_passkey-gate :
    (now added_at t : ℕ) (user_id id : String) (passkeys : List Passkey)
    → 0 < length (held_by user_id passkeys)
    → (evaluate_privileged_gate
          (held_by user_id (insert_passkey now added_at user_id id passkeys))
          (some id)
          t
        ≡ none)
      ↔ (now + credential_quarantine_ms ≤ t)
insert_passkey-gate now added_at t user_id id passkeys more =
    rw (insert_passkey-held now added_at user_id id passkeys more)
      (gate-held (now + credential_quarantine_ms) added_at t user_id id (held_by user_id passkeys))
