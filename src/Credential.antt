-- ===== src/Credential.antt =====
-- apps/minister/src/lib/credential-lifecycle.ts and apps/minister/src/lib/passkey-enroll.ts: the
-- hold on a passkey that is added to an account with passkeys, and the gate of the privileged
-- actions.
pub mod Store
pub mod Actions
pub mod Gate
pub mod Kept
pub mod Passkeys
pub mod Steps
pub mod Primary
mod Tests
use minister.Common.{
  ℕ, ◌+◌, String, Bool, true, false, not, Option, none, some, List, [], ◌∷◌, keep, length, leb,
  nat_beq, min, if◌then◌else◌, string_eq, ◌==◌, given, stop_if,
}
use minister.Recovery.{credential_quarantine_ms}

pub data CredentialStatus : Type 0 where
  active : CredentialStatus
  quarantined : CredentialStatus

pub record Passkey : Type 0 where
  pub credential_id : String
  pub user_id : String
  pub status : String
  pub quarantined_until : Option ℕ
  pub added_at : ℕ

unfoldable pub has_lapsed : Option ℕ → ℕ → Bool
has_lapsed none now = false
has_lapsed (some until) now = leb until now

unfoldable pub effective_credential_status : String → Option ℕ → ℕ → CredentialStatus
effective_credential_status status until now =
    if not (status == "quarantined")
    then active
    else if has_lapsed until now
    then active
    else quarantined

unfoldable pub is_active : CredentialStatus → Bool
is_active active = true
is_active quarantined = false

unfoldable pub passkey_is_active : ℕ → Passkey → Bool
passkey_is_active now p = is_active (effective_credential_status p.status p.quarantined_until now)

-- The status and the end of the hold.
unfoldable pub lifecycle_for_new_passkey : ℕ → ℕ → String × Option ℕ
lifecycle_for_new_passkey existing now =
    if nat_beq existing 0
    then ("active", none)
    else ("quarantined", some (now + credential_quarantine_ms))

-- One transaction under a lock of the user. The hold starts at the time of the process, the row is
-- stamped by the database.
unfoldable pub insert_passkey : ℕ → ℕ → String → String → List Passkey → List Passkey
insert_passkey now added_at user_id credential_id passkeys =
    let existing = length (keep (λ p. p.user_id == user_id) passkeys) in
    let lifecycle = lifecycle_for_new_passkey existing now in
    record {
      credential_id = credential_id;
      user_id = user_id;
      status = lifecycle.0;
      quarantined_until = lifecycle.1;
      added_at = added_at;
    }
    ∷ passkeys

pub data Reason : Type 0 where
  no_active_passkey : Reason
  acting_passkey_untrusted : Reason

pub record QuarantineRefusal : Type 0 where
  pub reason : Reason
  pub retry_at : Option ℕ
  pub can_step_up : Bool

unfoldable pub earlier : Option ℕ → Option ℕ → Option ℕ
earlier none b = b
earlier (some a) none = some a
earlier (some a) (some b) = some (min a b)

-- The least end of a hold.
unfoldable pub earliest : List Passkey → Option ℕ
earliest [] = none
earliest (p ∷ ps) = earlier p.quarantined_until (earliest ps)

unfoldable pub find_passkey : String → List Passkey → Option Passkey
find_passkey id [] = none
find_passkey id (p ∷ ps) = if p.credential_id == id then some p else find_passkey id ps

abbrev refuse : Reason → Option ℕ → Bool → Option QuarantineRefusal
refuse reason retry_at can_step_up =
    some (record { reason = reason; retry_at = retry_at; can_step_up = can_step_up })

unfoldable pub check_acting : List Passkey → Option String → ℕ → Option QuarantineRefusal
check_acting passkeys none now = none
check_acting passkeys (some id) now =
    given (find_passkey id passkeys) (refuse acting_passkey_untrusted none true) (λ acting.
      stop_if (not (passkey_is_active now acting))
        (refuse acting_passkey_untrusted acting.quarantined_until true) none)

-- `none` lets the action pass.
unfoldable pub evaluate_privileged_gate :
    List Passkey → Option String → ℕ → Option QuarantineRefusal
evaluate_privileged_gate passkeys acting now =
    stop_if (nat_beq (length (keep (passkey_is_active now) passkeys)) 0)
      (refuse no_active_passkey (earliest passkeys) false) (check_acting passkeys acting now)
