-- ===== src/Credential/Passkeys.antt =====
-- The passkeys of an account under a removal.
use minister.Common.{
  ℕ, suc, ◌≤◌, ◌<◌, String, ◌≡◌, refl, sym, ap, ◌∙◌, inl, inr, Bool, true, false, not, ◌&&◌, List,
  [], ◌∷◌, arith, any, keep, leb, Bool-cases, string_eq, eq_iff, ◌==◌,
}
use minister.Credential.{Passkey}
use minister.Credential.Actions.{count_passkeys, is_passkey_of}

-- The credential ids are unique.
unfoldable pub AreDistinct : List Passkey → Type 0
AreDistinct [] = Unit
AreDistinct (p ∷ ps) = (any (λ q. q.credential_id == p.credential_id) ps ≡ false) × AreDistinct ps

unfoldable pub HasPasskey : String → List Passkey → Type 0
HasPasskey user_id passkeys = 0 < count_passkeys user_id passkeys

any-keep-false :
    (q p : Passkey → Bool) (passkeys : List Passkey)
    → any q passkeys ≡ false
    → any q (keep p passkeys) ≡ false
any-keep-false q p [] h = refl
any-keep-false q p (x ∷ xs) h = ground (arith, any-keep-false q p xs (ground (arith, h)))

same-absent :
    (owner id : String) (p : Passkey) (passkeys : List Passkey)
    → is_passkey_of owner id p ≡ true
    → any (λ q. q.credential_id == p.credential_id) passkeys ≡ false
    → any (λ q. q.credential_id == id) passkeys ≡ false
unfolding is_passkey_of
same-absent owner id p passkeys h fresh =
    let same : p.credential_id ≡ id = ground (arith, h, eq_iff p.credential_id id) in
    ap (λ k. any (λ (q : Passkey). q.credential_id == k) passkeys) (sym same) ∙ fresh

count-cons :
    (user_id : String) (p : Passkey) (passkeys : List Passkey)
    → count_passkeys user_id (p ∷ passkeys) ≤ suc (count_passkeys user_id passkeys)
unfolding count_passkeys
count-cons user_id p passkeys = ground arith

absent-kept :
    (user_id id : String) (passkeys : List Passkey)
    → any (λ q. q.credential_id == id) passkeys ≡ false
    → keep (λ p. not (is_passkey_of user_id id p)) passkeys ≡ passkeys
unfolding is_passkey_of
absent-kept user_id id [] h = refl
absent-kept user_id id (p ∷ ps) h =
    let stays : not ((p.user_id == user_id) && (p.credential_id == id)) ≡ true =
      ground (arith, h) in
    rw (stays, absent-kept user_id id ps (ground (arith, h))) refl

pub without-AreDistinct :
    (user_id id : String) (passkeys : List Passkey)
    → AreDistinct passkeys
    → AreDistinct (keep (λ p. not (is_passkey_of user_id id p)) passkeys)
unfolding AreDistinct is_passkey_of
without-AreDistinct user_id id [] h = tt
without-AreDistinct user_id id (p ∷ ps) h = elim (Bool-cases (not (is_passkey_of user_id id p))) [
  | inl stays ↦ rw stays (
      (
        any-keep-false (λ q. q.credential_id == p.credential_id)
            (λ q. not (is_passkey_of user_id id q)) ps h.0,
        without-AreDistinct user_id id ps h.1,
      ))
  | inr gone ↦ rw gone (without-AreDistinct user_id id ps h.1)
]

-- The count of an account loses at most the one passkey.
count-without :
    (user_id owner id : String) (passkeys : List Passkey)
    → AreDistinct passkeys
    → count_passkeys user_id passkeys
      ≤ suc (count_passkeys user_id (keep (λ p. not (is_passkey_of owner id p)) passkeys))
unfolding AreDistinct count_passkeys
count-without user_id owner id [] h = omega arith
count-without user_id owner id (p ∷ ps) h = elim (Bool-cases (is_passkey_of owner id p)) [
  | inl gone ↦
      rw (gone, absent-kept owner id ps (same-absent owner id p ps gone h.0))
        (count-cons user_id p ps)
  | inr stays ↦ rw stays (ground (arith, count-without user_id owner id ps h.1))
]

count-other :
    (user_id owner id : String) (passkeys : List Passkey)
    → (owner == user_id) ≡ false
    → count_passkeys user_id (keep (λ p. not (is_passkey_of owner id p)) passkeys)
      ≡ count_passkeys user_id passkeys
unfolding count_passkeys is_passkey_of
count-other user_id owner id [] h = refl
count-other user_id owner id (p ∷ ps) h =
    let rest = count-other user_id owner id ps h in
    elim (Bool-cases ((p.user_id == owner) && (p.credential_id == id))) [
      | inl gone ↦
          let other_user : (p.user_id == user_id) ≡ false = ground (
            arith,
            gone,
            h,
            eq_iff p.user_id owner,
            eq_iff owner user_id,
            eq_iff p.user_id user_id,
          ) in
          rw (gone, other_user) rest
      | inr stays ↦ rw stays (ground (arith, rest))
    ]

count-least : (n m : ℕ) → leb n 1 ≡ false → n ≤ suc m → 0 < m
count-least n m h k = ground arith

pub remove_passkey-HasPasskey :
    (user_id owner id : String) (passkeys : List Passkey)
    → AreDistinct passkeys
    → leb (count_passkeys owner passkeys) 1 ≡ false
    → HasPasskey user_id passkeys
    → HasPasskey user_id (keep (λ p. not (is_passkey_of owner id p)) passkeys)
unfolding HasPasskey
remove_passkey-HasPasskey user_id owner id passkeys distinct more h =
    elim (Bool-cases (owner == user_id)) [
      | inl same ↦
          let p : owner ≡ user_id = (eq_iff owner user_id).0 same in
          count-least (count_passkeys user_id passkeys) _ (rw p at more)
            (count-without user_id owner id passkeys distinct)
      | inr other_user ↦ rw (count-other user_id owner id passkeys other_user) h
    ]
