-- ===== src/Credential/Tests.antt =====
-- Accounts with emails and passkeys, and the witnesses.
use minister.Common.{
  ◌<◌, refl, inl, inr, true, false, none, some, [], ◌∷◌, arith, In-cases, In-nil, string_eq, length,
}
use minister.Credential.{Passkey}
use minister.Credential.Gate.{held_by}
use minister.Credential.Actions.{remove_call, enroll_call, remove_passkey_call, perform_all}
use minister.Credential.Store.{Session, UserEmail, Store, find_email}
use minister.Credential.Passkeys.{AreDistinct}
use minister.Credential.Kept.{AreKeyed}
use minister.Credential.Steps.{AreSound, Follows, perform_all-Follows}

abbrev passkey : Passkey
passkey = record {
  credential_id = "k1";
  user_id = "u1";
  status = "active";
  quarantined_until = none;
  added_at = 0;
}

abbrev session : Session
session = record { user_id = "u1"; aal = some 2; recovered = false; cred = some "k1" }

abbrev first_email : UserEmail
first_email = record {
  id = "e1";
  user_id = "u1";
  email = "a@example.org";
  is_primary = true;
  verified_at = some 0;
  status = "active";
  quarantined_until = none;
}

abbrev second_email : UserEmail
second_email = record first_email { id = "e2"; email = "b@example.org"; is_primary = false }

abbrev store : Store
store = record {
  emails = first_email ∷ second_email ∷ [];
  passkeys = passkey ∷ [];
  tokens = [];
  primary = ("u1", "a@example.org") ∷ [];
}

store-AreKeyed : AreKeyed store.emails
unfolding AreKeyed find_email string_eq
store-AreKeyed e m = elim (In-cases m) [
  | inl p ↦ rw p refl
  | inr later ↦ elim (In-cases later) [
    | inl p ↦ rw p refl
    | inr none_left ↦ absurd (In-nil none_left)
  ]
]

store-AreSound : AreSound store
unfolding AreSound AreDistinct
store-AreSound = (store-AreKeyed, (refl, tt))

one_held : 0 < length (held_by "u1" (passkey ∷ []))
unfolding string_eq
one_held = omega arith

perform_all-Follows_example : Follows "u1" store (
    perform_all
      (λ s. s)
      (λ s. s)
      ((1000, some session, remove_call "e1")
        ∷ (2000, some session, remove_call "e2")
        ∷ (3000, some session, enroll_call 3000 "u1" "k2")
        ∷ (4000, some session, remove_passkey_call "k1")
        ∷ [])
      store)
perform_all-Follows_example = perform_all-Follows (λ s. s) (λ s. s) _ "u1" store store-AreSound
