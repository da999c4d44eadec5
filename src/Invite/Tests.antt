-- ===== src/Invite/Tests.antt =====
-- Concrete redemptions.
use minister.Common.{
  String, ◌≡◌, refl, none, some, [], ◌∷◌, arith, string_eq, lookup, insert, Bool-cases, inl, inr,
  ◌==◌, trim, trim_start, trim_end, is_space,
}
use minister.Invite.{
  Code, Tables, redeemed, evaluate_invite_code, has_redeemed, can_use, add_redemption, use_code,
  redeem_if, redeem_row, normalize_invite_code, redeem_invite_code,
}
use minister.Invite.Uses.{
  uses, IsUsed, AreDistinct, IsConsistent, HaveSameTotals, redeem_invite_code-IsConsistent,
}

-- The texts of the examples are in upper case.
abbrev as_is : String → String
as_is s = s

abbrev once : Code
once = record {
  label = "launch";
  uses_total = 1;
  uses_remaining = 1;
  expires_at = some 5000;
  revoked_at = none;
}

abbrev tables : Tables
tables = record { codes = ("ABCD", once) ∷ []; redemptions = [] }

tables-IsConsistent : IsConsistent tables
unfolding IsConsistent IsUsed AreDistinct uses lookup
tables-IsConsistent = (
  λ code. elim (Bool-cases ("ABCD" == code)) [
    | inl same ↦ rw same (λ limited. omega arith)
    | inr other ↦ rw other tt
  ],
  tt,
)

tables-HaveSameTotals : HaveSameTotals tables tables
unfolding HaveSameTotals
tables-HaveSameTotals = λ code read row e f. ground arith

redeem_invite_code-IsConsistent_example :
    IsConsistent (redeem_invite_code as_is 1000 " ABCD" "ann" tables tables).1
redeem_invite_code-IsConsistent_example =
    redeem_invite_code-IsConsistent as_is 1000 " ABCD" "ann" tables tables tables-HaveSameTotals
      tables-IsConsistent

redeemed-once :
    (redeem_invite_code as_is 1000 " ABCD" "ann" tables tables).0 ≡ redeemed "ABCD" "launch"
unfolding redeem_invite_code normalize_invite_code trim trim_start trim_end is_space redeem_row
    redeem_if evaluate_invite_code has_redeemed use_code can_use add_redemption lookup insert
redeemed-once = refl
