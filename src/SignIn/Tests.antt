-- ===== src/SignIn/Tests.antt =====
-- Concrete checks of a sign-in code.
use minister.Common.{ℕ, ◌<◌, String, ◌≡◌, refl, List, [], ◌∷◌, arith, string_eq, All}
use minister.SignIn.{
  Otp, verified, no_code, strip, normalize_otp, hash_code, create_sign_in_otp, verify_sign_in_otp,
  check_all,
}
use minister.SignIn.Lockout.{IsWrong, verify_sign_in_otp-once, check_all-locked}

-- Codes that are typed in upper case, and a digest that marks the text.
abbrev as_is : String → String
as_is s = s

abbrev fresh : List Otp
fresh = create_sign_in_otp as_is as_is 1000 "o1" "ABCD2345" []

accepted : (verify_sign_in_otp as_is as_is 2000 "ABCD-2345" fresh fresh).0 ≡ verified
unfolding create_sign_in_otp verify_sign_in_otp hash_code normalize_otp strip
accepted = refl

abbrev row : Otp
row = record { id = "o1"; code_hash = "ABCD2345"; expires = 3601000; attempts = 0 }

verify_sign_in_otp-once_example :
    (r : Otp) × (older : List Otp) × (fresh ≡ r ∷ older)
    × (2000 < r.expires)
    × (r.code_hash ≡ hash_code as_is as_is "ABCD-2345")
    × (let next = (verify_sign_in_otp as_is as_is 2000 "ABCD-2345" fresh fresh).1 in
        (verify_sign_in_otp as_is as_is 2001 "ABCD-2345" next next).0 ≡ no_code)
verify_sign_in_otp-once_example =
    verify_sign_in_otp-once as_is as_is 2000 2001 "ABCD-2345" "ABCD-2345" fresh fresh accepted

abbrev wrong : List (ℕ × String)
wrong = (1001, "AAAA2222") ∷ (1002, "BBBB2222") ∷ []

abbrev wrong5 : List (ℕ × String)
wrong5 =
    (1001, "AAAA2222")
    ∷ (1002, "BBBB2222")
    ∷ (1003, "CCCC2222")
    ∷ (1004, "DDDD2222")
    ∷ (1005, "EEEE2222")
    ∷ []

wrong5-IsWrong : All (IsWrong as_is as_is row) wrong5
unfolding hash_code normalize_otp strip
wrong5-IsWrong = (refl, (refl, (refl, (refl, (refl, tt)))))

check_all-locked_example : check_all as_is as_is wrong5 (row ∷ []) ≡ []
check_all-locked_example =
    check_all-locked as_is as_is wrong5 row [] wrong5-IsWrong (omega arith) (omega arith)

wrong-early : All (λ t. IsWrong as_is as_is row t × (t.0 < row.expires)) wrong
unfolding hash_code normalize_otp strip
wrong-early = ((refl, omega arith), ((refl, omega arith), tt))

right : row.code_hash ≡ hash_code as_is as_is "ABCD-2345"
unfolding hash_code normalize_otp strip
right = refl
