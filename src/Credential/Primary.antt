-- ===== src/Credential/Primary.antt =====
-- The change of the primary email.
use minister.Common.{
  ℕ, String, ◌≡◌, ◌≢◌, refl, sym, ◌∙◌, inl, inr, Bool, true, false, not, ◌&&◌, Option, none, some,
  List, map, arith, ltb, if◌then◌else◌, Bool-cases, lookup, lookup-insert, In, string_eq, eq_iff,
  same_refl, ◌==◌, given-rule, stop_if-rule,
}
use minister.Credential.Actions.{clear_primary, privileged_gate, set_primary_email}
use minister.Credential.Store.{
  Session, UserEmail, Store, ActionResult, done, step_up, failed, or_zero, find_email, is_verified,
  update_email,
}
use minister.Credential.Kept.{manage-rule, unless_refused-rule, map-In}

-- The primary emails of a user are those with an id.
unfoldable pub HasPrimary : String → String → List UserEmail → Type 0
HasPrimary user_id id emails =
    (e : UserEmail) → In e emails → (e.user_id == user_id) ≡ true → e.is_primary ≡ (e.id == id)

unfoldable pub IsPromotion :
    ℕ → Option Session → String → Store → Store → ActionResult Unit × Store → Type 0
IsPromotion now caller id seen store (failed e, next) = next ≡ store
IsPromotion now caller id seen store (step_up floor, next) = next ≡ store
IsPromotion now caller id seen store (done a, next) =
    (session : Session) × (target : UserEmail) × (caller ≡ some session)
    × (session.recovered ≡ false)
    × (ltb (or_zero session.aal) 2 ≡ false)
    × (privileged_gate now session seen ≡ none)
    × (find_email id seen.emails ≡ some target)
    × (target.user_id ≡ session.user_id)
    × (is_verified target ≡ true)
    × HasPrimary session.user_id id next.emails
    × (lookup next.primary session.user_id ≡ some target.email)

abbrev on : UserEmail → UserEmail
on e = record e { is_primary = true }

abbrev off : UserEmail → UserEmail
off e = record e { is_primary = false }

abbrev promote : String → UserEmail → UserEmail
promote id e = if e.id == id then on e else e

abbrev demote : String → UserEmail → UserEmail
demote user_id e = if (e.user_id == user_id) && e.is_primary then off e else e

not-primary : (a b : Bool) → (a && b) ≡ false → a ≡ true → b ≡ false
not-primary a b h k = ground arith

promote-primary :
    (user_id id : String) (e : UserEmail)
    → ((e.user_id == user_id) ≡ true → e.is_primary ≡ false)
    → ((promote id e).user_id == user_id) ≡ true
    → (promote id e).is_primary ≡ ((promote id e).id == id)
promote-primary user_id id e plain = elim (Bool-cases (e.id == id)) [
  | inl same ↦ rw same (λ h. sym same)
  | inr differs ↦ rw differs (λ h. plain h ∙ sym differs)
]

demote-plain :
    (user_id : String) (e : UserEmail)
    → ((demote user_id e).user_id == user_id) ≡ true
    → (demote user_id e).is_primary ≡ false
demote-plain user_id e = elim (Bool-cases ((e.user_id == user_id) && e.is_primary)) [
  | inl it_is ↦ rw it_is (λ h. refl)
  | inr it_is_not ↦ rw it_is_not (λ h. not-primary (e.user_id == user_id) e.is_primary it_is_not h)
]

promote-id : (id : String) (e : UserEmail) → (promote id e).id ≡ e.id
promote-id id e = elim (Bool-cases (e.id == id)) [
  | inl same ↦ rw same refl
  | inr differs ↦ rw differs refl
]

demote-id : (user_id : String) (e : UserEmail) → (demote user_id e).id ≡ e.id
demote-id user_id e = elim (Bool-cases ((e.user_id == user_id) && e.is_primary)) [
  | inl it_is ↦ rw it_is refl
  | inr it_is_not ↦ rw it_is_not refl
]

update-HasPrimary :
    (user_id id : String) (emails : List UserEmail)
    → HasPrimary user_id id
        (update_email id (λ e. record e { is_primary = true }) (clear_primary user_id emails))
unfolding HasPrimary update_email clear_primary
update-HasPrimary user_id id emails e m =
    let (middle, n, p) = map-In (promote id) (promote-id id) e (map (demote user_id) emails) m in
    let (old, _, q) = map-In (demote user_id) (demote-id user_id) middle emails n in
    rw (p, q) (promote-primary user_id id (demote user_id old) (demote-plain user_id old))

stopped :
    (now : ℕ) (caller : Option Session) (id : String) (seen store : Store) (r : ActionResult Unit)
    → ((a : Unit) → r ≢ done a)
    → IsPromotion now caller id seen store (r, store)
unfolding IsPromotion
stopped now caller id seen store (done a) h = absurd (h a refl)
stopped now caller id seen store (step_up floor) h = refl
stopped now caller id seen store (failed e) h = refl

own_of : (a b : String) → not (a == b) ≡ false → a ≡ b
own_of a b h = ground (arith, eq_iff a b)

not-false : (b : Bool) → not b ≡ false → b ≡ true
not-false b h = ground arith

if-own : (a : String) (v : String) (o : Option String) → (if a == a then some v else o) ≡ some v
if-own a v o = rw (same_refl a) refl

-- What the change of the primary email does, with what its reads saw and the tables that its write
-- meets. If it is done, the caller has a session that is no recovery session and has level 2, the
-- gate of the privileged actions lets it pass by the passkeys read, and the email is a verified one
-- of the account; after it, the primary emails of the account are the rows with that id, and the
-- row of the user has its address. Else nothing has changed.
set_primary_email-IsPromotion :
    (now : ℕ) (caller : Option Session) (id : String) (seen store : Store)
    → IsPromotion now caller id seen store (set_primary_email now caller id seen store)
unfolding set_primary_email IsPromotion
set_primary_email-IsPromotion now caller id seen store =
    let P = IsPromotion now caller id seen store in
    let stops = stopped now caller id seen store in
    manage-rule P caller store _ stops (λ session is_caller whole strong.
      unless_refused-rule P _ _ _ stops (λ passes.
        given-rule P _ _ _ (λ _. refl)
          (λ target found.
            stop_if-rule P _ _ _ (λ _. refl)
              (λ owned.
                stop_if-rule P _ _ _ (λ _. refl)
                  (λ verified.
                    given-rule P _ _ _ (λ _. refl)
                      (λ there_is _. (
                        session,
                        target,
                        is_caller,
                        whole,
                        strong,
                        passes,
                        found,
                        own_of target.user_id session.user_id owned,
                        not-false (is_verified target) verified,
                        update-HasPrimary session.user_id id store.emails,
                        lookup-insert store.primary session.user_id session.user_id target.email
                            ∙ if-own session.user_id target.email
                                (lookup store.primary session.user_id),
                      )))))))
