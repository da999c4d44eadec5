-- ===== src/SignIn.antt =====
-- apps/minister/src/lib/signin-otp.ts: the sign-in code of an email. A state is the list of the codes
-- of one identifier, newest first: every statement names the identifier, or the id of one of its rows.
-- A check reads the newest row (`seen`), and its later statements meet the rows as they are then.
pub mod Lockout
mod Tests
use Prim.Native.Char.{Char, code}
use Prim.Native.String
use minister.Common.{
  ℕ, ◌+◌, ◌*◌, String, Bool, ◌&&◌, ◌||◌, Option, none, some, List, [], ◌∷◌, ltb, leb, ◌==◌,
  if◌then◌else◌, string_eq,
}

pub record Otp : Type 0 where
  pub id : String
  pub code_hash : String
  pub expires : ℕ
  pub attempts : ℕ

abbrev pub otp_ttl_ms : ℕ
otp_ttl_ms = 60 * 60 * 1000

abbrev pub otp_max_attempts : ℕ
otp_max_attempts = 5

-- `[0-9A-Z]`
abbrev is_symbol : Char → Bool
is_symbol c = (leb 48 (code c) && leb (code c) 57) || (leb 65 (code c) && leb (code c) 90)

unfoldable pub strip : String → String
strip String.[] = ""
strip (String.◌∷◌ c s) = if is_symbol c then String.◌∷◌ c (strip s) else strip s

pub data Verified : Type 0 where
  verified : Verified
  no_code : Verified
  expired_code : Verified
  mismatch : Verified
  locked_out : Verified

-- The attempts of the row with an id.
unfoldable pub attempts_of : String → List Otp → Option ℕ
attempts_of id [] = none
attempts_of id (r ∷ rows) = if r.id == id then some r.attempts else attempts_of id rows

unfoldable pub bump : String → List Otp → List Otp
bump id [] = []
bump id (r ∷ rows) =
    if r.id == id then record r { attempts = r.attempts + 1 } ∷ rows else r ∷ bump id rows

-- After a wrong code: the guarded increment, and the second read. Both ways to be locked out delete
-- the rows.
unfoldable pub count_miss : String → Option ℕ → List Otp → Verified × List Otp
count_miss id none rows = (locked_out, [])
count_miss id (some attempts) rows =
    if ltb attempts otp_max_attempts
    then if leb otp_max_attempts (attempts + 1) then (locked_out, []) else (mismatch, bump id rows)
    else (locked_out, [])

-- `to_upper` is `toUpperCase`, `hmac` the keyed digest.
module _ (to_upper hmac : String → String) where
  unfoldable pub normalize_otp : String → String
  normalize_otp input = strip (to_upper input)

  unfoldable pub hash_code : String → String
  hash_code typed = hmac (normalize_otp typed)

  -- The transaction deletes every code of the identifier and creates one.
  unfoldable pub create_sign_in_otp : ℕ → String → String → List Otp → List Otp
  create_sign_in_otp now id typed rows =
      record { id = id; code_hash = hash_code typed; expires = now + otp_ttl_ms; attempts = 0 } ∷ []

  unfoldable pub verify_sign_in_otp : ℕ → String → List Otp → List Otp → Verified × List Otp
  verify_sign_in_otp now submitted [] rows = (no_code, rows)
  verify_sign_in_otp now submitted (r ∷ older) rows =
      if leb r.expires now
      then (expired_code, [])
      else if r.code_hash == hash_code submitted
      then (verified, [])
      else count_miss r.id (attempts_of r.id rows) rows

  -- Checks one after the other, each with its time and what was typed.
  unfoldable pub check_all : List (ℕ × String) → List Otp → List Otp
  check_all [] rows = rows
  check_all ((now, submitted) ∷ typed) rows =
      check_all typed (verify_sign_in_otp now submitted rows rows).1
