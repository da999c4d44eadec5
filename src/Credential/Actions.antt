-- ===== src/Credential/Actions.antt =====
-- apps/minister/src/server/credential-actions.ts: the actions on the emails and the passkeys of an
-- account, each on what its reads saw and on the tables that its write meets.
use minister.Common.{
  ℕ, ◌+◌, String, Bool, true, false, not, ◌&&◌, ◌||◌, Option, none, some, List, [], ◌∷◌, map, any,
  keep, length, ltb, leb, nat_beq, if◌then◌else◌, insert, includes, string_eq, ◌==◌, given, stop_if,
}
use minister.Recovery.{credential_quarantine_ms}
use minister.Credential.{
  Passkey, QuarantineRefusal, effective_credential_status, is_active, insert_passkey,
  evaluate_privileged_gate,
}
use minister.Credential.Store.{
  Session, UserEmail, Store, not_signed_in, invalid_email, email_collision, mail_failed,
  missing_token, invalid_token, no_account, email_not_found, unverified, last_email, no_passkey,
  last_passkey, in_quarantine, row_missing, ActionResult, done, failed, or_zero, manage, find_email,
  is_verified, update_email, without_email, normalize_email, collides,
}

-- The new row, with its id, and the id of its link. Whether the mail was sent comes from outside;
-- if not, the row is deleted again, and the link stays. This is one step.
unfoldable pub add_email :
    (String → String)
    → (String → String)
    → ℕ
    → Option Session
    → String
    → String
    → String
    → Bool
    → Store
    → ActionResult String × Store
add_email fold to_lower now caller raw id jti sent store = manage caller store (λ session.
    given (normalize_email fold to_lower raw) (failed invalid_email, store)
      (λ email.
        stop_if (collides id email store.emails) (failed (email_collision email), store)
          (let next : Store = record store { tokens = jti ∷ store.tokens } in
            stop_if (not sent) (failed mail_failed, next)
              (
                done email,
                record next {
                  emails =
                      record {
                        id = id;
                        user_id = session.user_id;
                        email = email;
                        is_primary = false;
                        verified_at = none;
                        status = "quarantined";
                        quarantined_until = some (now + credential_quarantine_ms);
                      }
                      ∷ store.emails;
                },
              ))))

-- `verified` is what jose finds in a link: the id of the email's row and of the link. The row of
-- the link is deleted first. This is one step.
unfoldable pub verify_email :
    ℕ → String → Option (String × String) → Store → ActionResult String × Store
verify_email now token verified store =
    stop_if (token == "") (failed missing_token, store)
      (given verified (failed invalid_token, store)
        (λ payload.
          stop_if (not (includes payload.1 store.tokens)) (failed invalid_token, store)
            (let next : Store = record store {
              tokens = keep (λ jti. not (jti == payload.1)) store.tokens;
            } in
              given (find_email payload.0 store.emails) (failed no_account, next)
                (λ existing.
                  stop_if (is_verified existing) (done existing.email, next)
                    (
                      done existing.email,
                      record next {
                        emails =
                            update_email existing.id (λ e. record e { verified_at = some now })
                              store.emails;
                      },
                    )))))

unfoldable pub other_verified : String → String → List UserEmail → List UserEmail
other_verified user_id id emails =
    keep (λ e. (e.user_id == user_id) && is_verified e && not (e.id == id)) emails

unfoldable pub remove_email : Option Session → String → Store → Store → ActionResult Unit × Store
remove_email caller id seen store = manage caller store (λ session.
    given (find_email id seen.emails) (failed email_not_found, store)
      (λ target.
        stop_if (not (target.user_id == session.user_id)) (failed email_not_found, store)
          (stop_if
            ((is_verified target || target.is_primary)
              && nat_beq (length (other_verified session.user_id id seen.emails)) 0)
            (failed last_email, store)
            (given (find_email id store.emails) (failed row_missing, store)
              (λ there_is. (done tt, record store { emails = without_email id store.emails }))))))

-- `updateMany` of the primary emails of a user.
unfoldable pub clear_primary : String → List UserEmail → List UserEmail
clear_primary user_id emails =
    map (λ e. if (e.user_id == user_id) && e.is_primary then record e { is_primary = false } else e)
      emails

-- requirePrivilegedAction, which throws a refusal.
unfoldable pub unless_refused :
    {A : Type 0}
    → Option QuarantineRefusal
    → Store
    → ActionResult A × Store
    → ActionResult A × Store
unless_refused (some refusal) store k = (failed (in_quarantine refusal), store)
unless_refused none store k = k

unfoldable pub privileged_gate : ℕ → Session → Store → Option QuarantineRefusal
privileged_gate now session store =
    evaluate_privileged_gate (keep (λ (p : Passkey). p.user_id == session.user_id) store.passkeys)
      session.cred now

unfoldable pub set_primary_email :
    ℕ → Option Session → String → Store → Store → ActionResult Unit × Store
set_primary_email now caller id seen store = manage caller store (λ session.
    unless_refused (privileged_gate now session seen) store (
      given (find_email id seen.emails) (failed email_not_found, store)
        (λ target.
          stop_if (not (target.user_id == session.user_id)) (failed email_not_found, store)
            (stop_if (not (is_verified target)) (failed unverified, store)
              (given (find_email id store.emails) (failed row_missing, store)
                (λ there_is. (
                  done tt,
                  record store {
                    emails =
                        update_email id (λ e. record e { is_primary = true })
                          (clear_primary session.user_id store.emails);
                    primary = insert store.primary session.user_id target.email;
                  },
                )))))))

pub record CanAddPasskeyResult : Type 0 where
  pub allowed : Bool
  pub bootstrap : Bool

unfoldable pub count_passkeys : String → List Passkey → ℕ
count_passkeys user_id passkeys = length (keep (λ p. p.user_id == user_id) passkeys)

unfoldable pub can_add_passkey : Option Session → Store → ActionResult CanAddPasskeyResult
can_add_passkey caller store = given caller (failed not_signed_in) (λ session.
    stop_if (nat_beq (count_passkeys session.user_id store.passkeys) 0)
      (done (record { allowed = leb 1 (or_zero session.aal); bootstrap = true }))
      (done (record {
        allowed = not (ltb (or_zero session.aal) 2 && not session.recovered);
        bootstrap = false;
      })))

unfoldable pub newer : Option Passkey → Passkey → Passkey
newer none p = p
newer (some q) p = if ltb p.added_at q.added_at then q else p

unfoldable pub newest : String → List Passkey → Option Passkey
newest user_id [] = none
newest user_id (p ∷ ps) =
    let rest = newest user_id ps in if p.user_id == user_id then some (newer rest p) else rest

-- Whether the newest passkey is quarantined.
unfoldable pub mark_passkey_enrolled : ℕ → Option Session → Store → ActionResult Bool
mark_passkey_enrolled now caller store = given caller (failed not_signed_in) (λ session.
    given (newest session.user_id store.passkeys) (failed no_passkey)
      (λ p. done (not (is_active (effective_credential_status p.status p.quarantined_until now)))))

unfoldable pub is_passkey_of : String → String → Passkey → Bool
is_passkey_of user_id id p = (p.user_id == user_id) && (p.credential_id == id)

unfoldable pub remove_passkey : Option Session → String → Store → Store → ActionResult Unit × Store
remove_passkey caller id seen store = manage caller store (λ session.
    stop_if (not (any (is_passkey_of session.user_id id) seen.passkeys)) (failed no_passkey, store)
      (stop_if (leb (count_passkeys session.user_id seen.passkeys) 1) (failed last_passkey, store)
        (stop_if (not (any (is_passkey_of session.user_id id) store.passkeys))
          (failed row_missing, store)
          (
            done tt,
            record store {
              passkeys = keep (λ p. not (is_passkey_of session.user_id id p)) store.passkeys;
            },
          ))))

-- The creation of a passkey, whose credential id is unique.
unfoldable pub enroll_passkey : ℕ → ℕ → String → String → Store → Store
enroll_passkey now added_at user_id id store =
    stop_if (any (λ p. p.credential_id == id) store.passkeys) store
      (record store { passkeys = insert_passkey now added_at user_id id store.passkeys })

pub data Call : Type 0 where
  add_call : String → String → String → Bool → Call
  verify_call : String → Option (String × String) → Call
  remove_call : String → Call
  primary_call : String → Call
  enroll_call : ℕ → String → String → Call
  remove_passkey_call : String → Call

-- An action at a time, with no other one in between.
unfoldable pub perform :
    (String → String) → (String → String) → ℕ → Option Session → Call → Store → Store
perform fold to_lower now caller (add_call raw id jti sent) store =
    (add_email fold to_lower now caller raw id jti sent store).1
perform fold to_lower now caller (verify_call token verified) store =
    (verify_email now token verified store).1
perform fold to_lower now caller (remove_call id) store = (remove_email caller id store store).1
perform fold to_lower now caller (primary_call id) store =
    (set_primary_email now caller id store store).1
perform fold to_lower now caller (enroll_call added_at user_id id) store =
    enroll_passkey now added_at user_id id store
perform fold to_lower now caller (remove_passkey_call id) store =
    (remove_passkey caller id store store).1

unfoldable pub perform_all :
    (String → String) → (String → String) → List (ℕ × Option Session × Call) → Store → Store
perform_all fold to_lower [] store = store
perform_all fold to_lower ((now, caller, call) ∷ calls) store =
    perform_all fold to_lower calls (perform fold to_lower now caller call store)
