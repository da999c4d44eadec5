-- ===== src/Credential/Steps.antt =====
-- Every action leaves each account its verified email and its passkey.
use minister.Common.{
  ℕ, String, ◌≡◌, refl, ◌∙◌, Bool, true, false, not, Option, some, List, [], ◌∷◌, arith,
  if◌then◌else◌, string_eq, eq_iff, ◌==◌, given-rule, stop_if-rule, Entries, there,
}
use minister.Credential.{insert_passkey}
use minister.Credential.Actions.{
  clear_primary, count_passkeys, add_email, verify_email, remove_email, set_primary_email,
  remove_passkey, enroll_passkey, Call, add_call, verify_call, remove_call, primary_call,
  enroll_call, remove_passkey_call, perform, perform_all,
}
use minister.Credential.Store.{
  Session, UserEmail, Store, ActionResult, is_verified, collides, update_email,
}
use minister.Credential.Passkeys.{
  AreDistinct, HasPasskey, without-AreDistinct, remove_passkey-HasPasskey,
}
use minister.Credential.Kept.{
  manage-rule, unless_refused-rule, AreKeyed, HasVerified, map-AreKeyed, without-AreKeyed,
  cons-AreKeyed, map-HasVerified, without-HasVerified,
}

own_of : (a b : String) → not (a == b) ≡ false → a ≡ b
own_of a b h = ground (arith, eq_iff a b)

-- Rows that have their keys.
unfoldable pub AreSound : Store → Type 0
AreSound store = AreKeyed store.emails × AreDistinct store.passkeys

-- The rows keep their keys, and an account keeps a verified email and a passkey.
unfoldable pub Follows : String → Store → Store → Type 0
Follows user_id store next =
    AreSound next
    × (HasVerified user_id store.emails → HasVerified user_id next.emails)
    × (HasPasskey user_id store.passkeys → HasPasskey user_id next.passkeys)

more-HasVerified :
    (user_id : String) (emails : List UserEmail) (new : UserEmail)
    → HasVerified user_id emails
    → HasVerified user_id (new ∷ emails)
unfolding HasVerified
more-HasVerified user_id emails new (e, m, own, good) = (e, there m, own, good)

module _ (f : UserEmail → UserEmail) where
  if-same :
      {A : Type 0} (field : UserEmail → A) (b : Bool) (e : UserEmail)
      → field (f e) ≡ field e
      → field (if b then f e else e) ≡ field e
  if-same field true e h = h
  if-same field false e h = refl

  if-verified :
      (b : Bool) (e : UserEmail)
      → is_verified (f e) ≡ true
      → is_verified e ≡ true
      → is_verified (if b then f e else e) ≡ true
  if-verified true e h k = h
  if-verified false e h k = k

module _ (user_id : String) (store : Store) (sound : AreSound store) where
  stays-Follows : Follows user_id store store
  unfolding Follows
  stays-Follows = (sound, (λ h. h), (λ h. h))

  tokens-Follows : (tokens : List String) → Follows user_id store (record store { tokens = tokens })
  unfolding Follows AreSound
  tokens-Follows tokens = (sound, (λ h. h), (λ h. h))

  emails-Follows :
      (emails : List UserEmail) (tokens : List String) (primary : Entries String String)
      → AreKeyed emails
      → (HasVerified user_id store.emails → HasVerified user_id emails)
      → Follows user_id store (record store { emails = emails; tokens = tokens; primary = primary })
  unfolding Follows AreSound
  emails-Follows emails tokens primary keyed kept = ((keyed, sound.1), kept, (λ h. h))

  add_email-Follows :
      (fold to_lower : String → String) (now : ℕ) (caller : Option Session) (raw id jti : String)
      (sent : Bool)
      → Follows user_id store (add_email fold to_lower now caller raw id jti sent store).1
  unfolding add_email collides AreSound
  add_email-Follows fold to_lower now caller raw id jti sent =
      let P = λ (out : ActionResult String × Store). Follows user_id store out.1 in
      manage-rule P caller store _ (λ _. λ _. stays-Follows)
        (λ session _ _ _.
          given-rule P _ _ _ (λ _. stays-Follows)
            (λ email _.
              stop_if-rule P _ _ _ (λ _. stays-Follows)
                (λ fresh.
                  stop_if-rule P _ _ _ (λ _. tokens-Follows _)
                    (λ _.
                      emails-Follows _ _ _ (cons-AreKeyed _ store.emails fresh sound.0)
                        (λ h. more-HasVerified user_id store.emails _ h)))))

  verify_email-Follows :
      (now : ℕ) (token : String) (verified : Option (String × String))
      → Follows user_id store (verify_email now token verified store).1
  unfolding verify_email update_email is_verified AreSound
  verify_email-Follows now token verified =
      let P = λ (out : ActionResult String × Store). Follows user_id store out.1 in
      stop_if-rule P _ _ _ (λ _. stays-Follows)
        (λ _.
          given-rule P _ _ _ (λ _. stays-Follows)
            (λ payload _.
              stop_if-rule P _ _ _ (λ _. stays-Follows)
                (λ _.
                  given-rule P _ _ _ (λ _. tokens-Follows _)
                    (λ existing _.
                      stop_if-rule P _ _ _ (λ _. tokens-Follows _)
                        (λ _.
                          let f : UserEmail → UserEmail =
                            λ e. record e { verified_at = some now } in
                          emails-Follows _ _ _
                            (map-AreKeyed _
                              (λ e. if-same f (λ x. x.id) (e.id == existing.id) e refl) store.emails
                              sound.0)
                            (map-HasVerified _ user_id store.emails
                              (λ e. if-same f (λ x. x.user_id) (e.id == existing.id) e refl)
                              (λ e h. if-verified f (e.id == existing.id) e refl h)))))))

  remove_email-Follows :
      (caller : Option Session) (id : String)
      → Follows user_id store (remove_email caller id store store).1
  unfolding remove_email AreSound
  remove_email-Follows caller id =
      let P = λ (out : ActionResult Unit × Store). Follows user_id store out.1 in
      manage-rule P caller store _ (λ _. λ _. stays-Follows)
        (λ session _ _ _.
          given-rule P _ _ _ (λ _. stays-Follows)
            (λ target found.
              stop_if-rule P _ _ _ (λ _. stays-Follows)
                (λ owned.
                  stop_if-rule P _ _ _ (λ _. stays-Follows)
                    (λ others.
                      given-rule P _ _ _ (λ _. stays-Follows)
                        (λ there_is _.
                          emails-Follows _ _ _ (without-AreKeyed id store.emails sound.0) (
                            without-HasVerified user_id session.user_id id target store.emails
                              sound.0 found (own_of target.user_id session.user_id owned)
                              others))))))

  set_primary_email-Follows :
      (now : ℕ) (caller : Option Session) (id : String)
      → Follows user_id store (set_primary_email now caller id store store).1
  unfolding set_primary_email update_email clear_primary is_verified AreSound
  set_primary_email-Follows now caller id =
      let P = λ (out : ActionResult Unit × Store). Follows user_id store out.1 in
      manage-rule P caller store _ (λ _. λ _. stays-Follows)
        (λ session _ _ _.
          unless_refused-rule P _ _ _ (λ _. λ _. stays-Follows)
            (λ _.
              given-rule P _ _ _ (λ _. stays-Follows)
                (λ target _.
                  stop_if-rule P _ _ _ (λ _. stays-Follows)
                    (λ _.
                      stop_if-rule P _ _ _ (λ _. stays-Follows)
                        (λ _.
                          given-rule P _ _ _ (λ _. stays-Follows)
                            (λ there_is _.
                              let on : UserEmail → UserEmail =
                                λ e. record e { is_primary = true } in
                              let off : UserEmail → UserEmail =
                                λ e. record e { is_primary = false } in
                              let cleared = clear_primary session.user_id store.emails in
                              emails-Follows _ _ _
                                (map-AreKeyed _ (λ e. if-same on (λ x. x.id) (e.id == id) e refl)
                                  cleared
                                  (map-AreKeyed _ (λ e. if-same off (λ x. x.id) _ e refl)
                                    store.emails sound.0))
                                (λ h.
                                  map-HasVerified _ user_id cleared
                                    (λ e. if-same on (λ x. x.user_id) (e.id == id) e refl)
                                    (λ e k. if-same on is_verified (e.id == id) e refl ∙ k)
                                    (map-HasVerified _ user_id store.emails
                                      (λ e. if-same off (λ x. x.user_id) _ e refl)
                                      (λ e k. if-same off is_verified _ e refl ∙ k) h))))))))

  enroll_passkey-Follows :
      (now added_at : ℕ) (owner id : String)
      → Follows user_id store (enroll_passkey now added_at owner id store)
  unfolding enroll_passkey insert_passkey Follows AreSound AreDistinct HasPasskey count_passkeys
  enroll_passkey-Follows now added_at owner id =
      stop_if-rule (Follows user_id store) _ _ _ (λ _. stays-Follows)
        (λ fresh. ((sound.0, (fresh, sound.1)), (λ h. h), (λ h. ground (arith, h))))

  remove_passkey-Follows :
      (caller : Option Session) (id : String)
      → Follows user_id store (remove_passkey caller id store store).1
  unfolding remove_passkey Follows AreSound
  remove_passkey-Follows caller id =
      let P = λ (out : ActionResult Unit × Store). Follows user_id store out.1 in
      manage-rule P caller store _ (λ _. λ _. stays-Follows)
        (λ session _ _ _.
          stop_if-rule P _ _ _ (λ _. stays-Follows)
            (λ _.
              stop_if-rule P _ _ _ (λ _. stays-Follows)
                (λ more.
                  stop_if-rule P _ _ _ (λ _. stays-Follows)
                    (λ _. (
                      (sound.0, without-AreDistinct session.user_id id store.passkeys sound.1),
                      (λ h. h),
                      remove_passkey-HasPasskey user_id session.user_id id store.passkeys sound.1
                          more,
                    )))))

Follows-AreSound :
    (user_id : String) (store next : Store) → Follows user_id store next → AreSound next
unfolding Follows
Follows-AreSound user_id store next h = h.0

then-Follows :
    (user_id : String) (store next last : Store)
    → Follows user_id store next
    → Follows user_id next last
    → Follows user_id store last
unfolding Follows
then-Follows user_id store next last h k = (k.0, (λ e. k.1 (h.1 e)), (λ p. k.2 (h.2 p)))

perform-Follows :
    (fold to_lower : String → String) (now : ℕ) (caller : Option Session) (call : Call)
    (user_id : String) (store : Store)
    → AreSound store
    → Follows user_id store (perform fold to_lower now caller call store)
unfolding perform
perform-Follows fold to_lower now caller (add_call raw id jti sent) user_id store sound =
    add_email-Follows user_id store sound fold to_lower now caller raw id jti sent
perform-Follows fold to_lower now caller (verify_call token verified) user_id store sound =
    verify_email-Follows user_id store sound now token verified
perform-Follows fold to_lower now caller (remove_call id) user_id store sound =
    remove_email-Follows user_id store sound caller id
perform-Follows fold to_lower now caller (primary_call id) user_id store sound =
    set_primary_email-Follows user_id store sound now caller id
perform-Follows fold to_lower now caller (enroll_call added_at owner id) user_id store sound =
    enroll_passkey-Follows user_id store sound now added_at owner id
perform-Follows fold to_lower now caller (remove_passkey_call id) user_id store sound =
    remove_passkey-Follows user_id store sound caller id

-- Any action of anyone, at any time, where the rows have their keys: they keep them, and an account
-- that had a verified email still has one, and one that had a passkey still has one. The same for
-- any number of actions, one after the other.
pub perform_all-Follows :
    (fold to_lower : String → String) (calls : List (ℕ × Option Session × Call)) (user_id : String)
    (store : Store)
    → AreSound store
    → Follows user_id store (perform_all fold to_lower calls store)
unfolding perform_all
perform_all-Follows fold to_lower [] user_id store sound = stays-Follows user_id store sound
perform_all-Follows fold to_lower ((now, caller, call) ∷ calls) user_id store sound =
    let next = perform fold to_lower now caller call store in
    let first : Follows user_id store next =
      perform-Follows fold to_lower now caller call user_id store sound in
    then-Follows user_id store next _ first (
      perform_all-Follows fold to_lower calls user_id next
        (Follows-AreSound user_id store next first))
