-- ===== src/Recovery/Codes.antt =====
-- apps/minister/src/lib/recovery-codes.ts: the single-use recovery codes of a user. A redemption reads
-- the unused rows (`seen`), and its conditional update meets the rows as they are then.
pub mod Redeemed
pub mod Regenerated
mod Tests
use Prim.Native.Char.{code}
use Prim.Native.String
use minister.Common.{
  ℕ, ◌+◌, String, Bool, true, false, not, ◌&&◌, ◌||◌, Option, none, some, List, [], ◌∷◌, ◌++◌,
  nat_beq, keep, ◌==◌, if◌then◌else◌, string_eq, is_space, trim,
}

pub record CodeRow : Type 0 where
  pub id : String
  pub user_id : String
  pub code_hash : String
  pub used : Bool

abbrev pub code_symbols : ℕ
code_symbols = 12

-- White space and dashes are dropped; I and L read as 1, O as 0, U as V.
unfoldable pub read_symbols : String → String
unfolding is_space
read_symbols String.[] = ""
read_symbols (String.◌∷◌ c s) =
    let rest = read_symbols s in
    if is_space (code c) || nat_beq (code c) 45
    then rest
    else if nat_beq (code c) 73 || nat_beq (code c) 76
    then String.◌++◌ "1" rest
    else if nat_beq (code c) 79
    then String.◌++◌ "0" rest
    else if nat_beq (code c) 85
    then String.◌++◌ "V" rest
    else String.◌∷◌ c rest

unfoldable pub size : String → ℕ
size String.[] = 0
size (String.◌∷◌ c s) = 1 + size s

-- `where: { userId, usedAt: null }`
unfoldable pub is_open : String → CodeRow → Bool
is_open user_id r = r.user_id == user_id && not r.used

unfoldable pub count_unused : List CodeRow → ℕ
count_unused [] = 0
count_unused (r ∷ rows) = if r.used then count_unused rows else 1 + count_unused rows

-- The update of an unused row with an id, and whether there was one.
unfoldable pub consume_row : String → List CodeRow → Bool × List CodeRow
consume_row id [] = (false, [])
consume_row id (r ∷ rows) =
    let rest = consume_row id rows in
    if r.id == id && not r.used
    then (true, record r { used = true } ∷ rows)
    else (rest.0, r ∷ rest.1)

unfoldable pub consume_match : Option String → List CodeRow → Bool × List CodeRow
consume_match none rows = (false, rows)
consume_match (some id) rows = consume_row id rows

-- The new rows replace the unused ones of the user.
unfoldable pub generate_recovery_codes : String → List CodeRow → List CodeRow → List CodeRow
generate_recovery_codes user_id created rows = created ++ keep (λ r. not (is_open user_id r)) rows

-- `to_upper` is `toUpperCase`, `matches` the check of a text against a salted hash.
module _ (to_upper : String → String) (matches : String → String → Bool) where
  unfoldable pub normalize_recovery_code : String → String
  normalize_recovery_code input = read_symbols (to_upper (trim input))

  -- The id of the first row that matches.
  unfoldable pub first_match : String → List CodeRow → Option String
  first_match normalized [] = none
  first_match normalized (r ∷ rows) =
      if matches normalized r.code_hash then some r.id else first_match normalized rows

  unfoldable pub redeem_recovery_code :
      String → String → List CodeRow → List CodeRow → Bool × List CodeRow
  redeem_recovery_code user_id typed seen rows =
      let normalized = normalize_recovery_code typed in
      if nat_beq (size normalized) code_symbols
      then consume_match (first_match normalized (keep (is_open user_id) seen)) rows
      else (false, rows)

  -- Redemptions by any users, each with what it has read; how many succeed, and the rows after them.
  unfoldable pub redeem_all :
      List (String × String × List CodeRow) → List CodeRow → ℕ × List CodeRow
  redeem_all [] rows = (0, rows)
  redeem_all ((user_id, typed, seen) ∷ calls) rows =
      let first = redeem_recovery_code user_id typed seen rows in
      let rest = redeem_all calls first.1 in ((if first.0 then 1 else 0) + rest.0, rest.1)
