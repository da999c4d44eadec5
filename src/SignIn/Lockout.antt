-- ===== src/SignIn/Lockout.antt =====
-- A sign-in code is used once, and is lost after five wrong attempts but not before.
use minister.Common.{
  ℕ, ◌+◌, ◌≤◌, ◌<◌, String, ◌≡◌, refl, ◌≢◌, false, Option, none, some, List, [], ◌∷◌, arith, ◌⊎◌,
  inl, inr, Bool-cases, ltb, leb, ◌==◌, string_eq, eq_iff, length, All,
}
use minister.SignIn.{
  Otp, verified, no_code, attempts_of, bump, count_miss, hash_code, verify_sign_in_otp, check_all,
}

module _ (to_upper hmac : String → String) where
  verify-nothing : (typed : List (ℕ × String)) → check_all to_upper hmac typed [] ≡ []
  unfolding check_all verify_sign_in_otp
  verify-nothing [] = refl
  verify-nothing ((now, submitted) ∷ typed) = verify-nothing typed

  count_miss-not-verified :
      (id : String) (found : Option ℕ) (rows : List Otp) → (count_miss id found rows).0 ≢ verified
  unfolding count_miss
  count_miss-not-verified id none rows = λ h. ground arith
  count_miss-not-verified id (some n) rows = λ h. ground arith

  -- A check succeeds only if the newest row that it has read has not expired and holds the digest of
  -- what was typed. It then leaves no code of the identifier, so that the next check, whatever is typed
  -- and whenever, finds none.
  pub verify_sign_in_otp-once :
      (now later : ℕ) (submitted again : String) (seen rows : List Otp)
      → (verify_sign_in_otp to_upper hmac now submitted seen rows).0 ≡ verified
      → (r : Otp) × (older : List Otp) × (seen ≡ r ∷ older)
        × (now < r.expires)
        × (r.code_hash ≡ hash_code to_upper hmac submitted)
        × (let next = (verify_sign_in_otp to_upper hmac now submitted seen rows).1 in
            (verify_sign_in_otp to_upper hmac later again next next).0 ≡ no_code)
  unfolding verify_sign_in_otp
  verify_sign_in_otp-once now later submitted again [] rows h = ground arith
  verify_sign_in_otp-once now later submitted again (r ∷ older) rows h =
      elim (Bool-cases (leb r.expires now)) [
        | inl late ↦ ground arith
        | inr early ↦ elim (Bool-cases (r.code_hash == hash_code to_upper hmac submitted)) [
          | inl right ↦ (
            r,
            older,
            refl,
            ground arith,
            (eq_iff r.code_hash (hash_code to_upper hmac submitted)).0 right,
            rw (early, right) refl,
          )
          | inr wrong ↦
              absurd
                (count_miss-not-verified r.id (attempts_of r.id rows) rows (rw (early, wrong) at h))
        ]
      ]

  -- What was typed is not the code.
  abbrev pub IsWrong : Otp → ℕ × String → Type 0
  IsWrong r typed = (r.code_hash == hash_code to_upper hmac typed.1) ≡ false

  in-time-check :
      (now : ℕ) (submitted : String) (r : Otp) (older : List Otp)
      → IsWrong r (now, submitted)
      → now < r.expires
      → r.attempts + 1 < 5
      → (verify_sign_in_otp to_upper hmac now submitted (r ∷ older) (r ∷ older)).1
        ≡ record r { attempts = r.attempts + 1 } ∷ older
  unfolding verify_sign_in_otp count_miss attempts_of bump
  in-time-check now submitted r older wrong early few = ground (arith, eq_iff r.id r.id)

  wrong-check :
      (now : ℕ) (submitted : String) (r : Otp) (older : List Otp)
      → IsWrong r (now, submitted)
      → ((verify_sign_in_otp to_upper hmac now submitted (r ∷ older) (r ∷ older)).1 ≡ [])
        ⊎ ((r.attempts + 1 < 5)
            × ((verify_sign_in_otp to_upper hmac now submitted (r ∷ older) (r ∷ older)).1
                ≡ record r { attempts = r.attempts + 1 } ∷ older))
  unfolding verify_sign_in_otp count_miss attempts_of bump
  wrong-check now submitted r older wrong = elim (Bool-cases (leb r.expires now)) [
    | inl late ↦ rw late (inl refl)
    | inr early ↦ elim (Bool-cases (ltb (r.attempts + 1) 5)) [
      | inl few ↦
          inr
            (ground arith, in-time-check now submitted r older wrong (ground arith) (ground arith))
      | inr many ↦ inl (ground (arith, eq_iff r.id r.id))
    ]
  ]

  -- After wrong codes that bring the attempts of the newest code to five, no code is left, at whatever
  -- times they are typed; a code starts with no attempts.
  pub check_all-locked :
      (typed : List (ℕ × String)) (r : Otp) (older : List Otp)
      → All (IsWrong r) typed
      → 5 ≤ r.attempts + length typed
      → r.attempts < 5
      → check_all to_upper hmac typed (r ∷ older) ≡ []
  unfolding check_all
  check_all-locked [] r older wrong many few = absurd (ground arith)
  check_all-locked ((now, submitted) ∷ typed) r older wrong many few =
      elim (wrong-check now submitted r older wrong.0) [
        | inl gone ↦ rw gone (verify-nothing typed)
        | inr (less, next) ↦ rw next (
            check_all-locked typed (record r { attempts = r.attempts + 1 }) older wrong.1
              (omega (arith, many)) less)
      ]

  -- Wrong codes typed before the newest code expires, so few that its attempts stay below five, do not
  -- burn it: the right code, typed before it expires, is then accepted.
  check_all-tolerant :
      (typed : List (ℕ × String)) (now : ℕ) (submitted : String) (r : Otp) (older : List Otp)
      → All (λ t. IsWrong r t × (t.0 < r.expires)) typed
      → r.attempts + length typed < 5
      → now < r.expires
      → r.code_hash ≡ hash_code to_upper hmac submitted
      → (let rows = check_all to_upper hmac typed (r ∷ older) in
          (verify_sign_in_otp to_upper hmac now submitted rows rows).0)
        ≡ verified
  unfolding check_all verify_sign_in_otp
  check_all-tolerant [] now submitted r older wrong few early right =
      let same = (eq_iff r.code_hash (hash_code to_upper hmac submitted)).1 right in
      ground (arith, same)
  check_all-tolerant ((t, s) ∷ typed) now submitted r older wrong few early right =
      rw (in-time-check t s r older wrong.0.0 wrong.0.1 (omega (arith, few))) (
        check_all-tolerant typed now submitted (record r { attempts = r.attempts + 1 }) older
          wrong.1 (omega (arith, few)) early right)
