-- ===== src/Credential/Store.antt =====
-- The rows and the refusals of apps/minister/src/server/credential-actions.ts, and what its actions
-- find and write.
use Prim.Native.Char.{code}
use minister.Common.{
  ℕ, String, Bool, true, false, not, ◌&&◌, ◌||◌, Option, none, some, List, [], ◌∷◌, map, any, keep,
  ltb, nat_beq, if◌then◌else◌, Entries, string_eq, ◌==◌, given, stop_if, split, trim, is_space,
}
use minister.Credential.{Passkey, QuarantineRefusal}

pub record Session : Type 0 where
  pub user_id : String
  pub aal : Option ℕ
  pub recovered : Bool
  pub cred : Option String

pub record UserEmail : Type 0 where
  pub id : String
  pub user_id : String
  pub email : String
  pub is_primary : Bool
  pub verified_at : Option ℕ
  pub status : String
  pub quarantined_until : Option ℕ

-- `tokens` has the verification links that were not used, `primary` the address that a user's row
-- keeps.
pub record Store : Type 0 where
  pub emails : List UserEmail
  pub passkeys : List Passkey
  pub tokens : List String
  pub primary : Entries String String

pub data Refusal : Type 0 where
  not_signed_in : Refusal
  recovered_session : Refusal
  invalid_email : Refusal
  email_collision : String → Refusal
  mail_failed : Refusal
  missing_token : Refusal
  invalid_token : Refusal
  no_account : Refusal
  email_not_found : Refusal
  unverified : Refusal
  last_email : Refusal
  no_passkey : Refusal
  last_passkey : Refusal
  in_quarantine : QuarantineRefusal → Refusal
  row_missing : Refusal

pub data ActionResult (A : Type 0) : Type 0 where
  done : A → ActionResult A
  step_up : ℕ → ActionResult A
  failed : Refusal → ActionResult A

unfoldable pub or_zero : Option ℕ → ℕ
or_zero none = 0
or_zero (some n) = n

-- requirePrincipal, rejectRecovered and requireAal.
unfoldable pub manage :
    {A : Type 0}
    → Option Session
    → Store
    → (Session → ActionResult A × Store)
    → ActionResult A × Store
manage caller store k =
    given caller (failed not_signed_in, store)
      (λ session.
        stop_if session.recovered (failed recovered_session, store)
          (stop_if (ltb (or_zero session.aal) 2) (step_up 2, store) (k session)))

-- The row of an email, by its id.
unfoldable pub find_email : String → List UserEmail → Option UserEmail
find_email id [] = none
find_email id (e ∷ es) = if e.id == id then some e else find_email id es

unfoldable pub is_verified : UserEmail → Bool
is_verified e = elim e.verified_at [ none ↦ false | some at ↦ true ]

-- `update` of the row with an id.
unfoldable pub update_email : String → (UserEmail → UserEmail) → List UserEmail → List UserEmail
update_email id f emails = map (λ e. if e.id == id then f e else e) emails

unfoldable pub without_email : String → List UserEmail → List UserEmail
without_email id emails = keep (λ e. not (e.id == id)) emails

-- A character that is no space, for `[^\s@]` after a split at each `@`.
unfoldable pub no_spaces : String → Bool
no_spaces String.[] = true
no_spaces (String.◌∷◌ c s) = not (is_space (code c)) && no_spaces s

unfoldable pub has_dot_inside : String → Bool
has_dot_inside String.[] = false
has_dot_inside (String.◌∷◌ c s) = (nat_beq (code c) 46 && not (s == "")) || has_dot_inside s

unfoldable pub has_dot_after_first : String → Bool
has_dot_after_first String.[] = false
has_dot_after_first (String.◌∷◌ c s) = has_dot_inside s

-- The pattern of an address.
unfoldable pub is_address : List String → Bool
is_address (local ∷ domain ∷ []) =
    not (local == "") && no_spaces local && no_spaces domain && has_dot_after_first domain
is_address _ = false

-- `fold` is the NFKC form, `to_lower` is `toLowerCase`.
unfoldable pub normalize_email : (String → String) → (String → String) → String → Option String
normalize_email fold to_lower raw =
    let email = to_lower (trim (fold raw)) in
    if is_address (split b'@' email) then some email else none

-- A row with one of the two unique keys of a new row.
unfoldable pub collides : String → String → List UserEmail → Bool
collides id email emails = any (λ e. (e.id == id) || (e.email == email)) emails
