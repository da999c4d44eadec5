-- ===== src/Recovery/Codes/Tests.antt =====
-- Concrete redemptions of recovery codes.
use minister.Common.{
  ◌+◌, String, Bool, ◌≡◌, refl, true, false, List, [], ◌∷◌, string_eq, ◌==◌, is_space, trim,
  trim_start, trim_end,
}
use minister.Recovery.Codes.{
  CodeRow, read_symbols, size, is_open, count_unused, consume_row, consume_match,
  normalize_recovery_code, first_match, redeem_recovery_code, redeem_all,
}
use minister.Recovery.Codes.Redeemed.{redeem_all-count}

abbrev as_is : String → String
as_is s = s

abbrev plain : String → String → Bool
plain text hash = text == hash

abbrev rows : List CodeRow
rows = record { id = "c1"; user_id = "ann"; code_hash = "ABCD1234V0EF"; used = false } ∷ []

abbrev calls : List (String × String × List CodeRow)
calls = ("ann", " ABCD-I234-UOEF", rows) ∷ ("ann", " ABCD-I234-UOEF", rows) ∷ []

-- Two redemptions that have read the same row: one succeeds.
one-success : (redeem_all as_is plain calls rows).0 ≡ 1
unfolding redeem_all redeem_recovery_code normalize_recovery_code trim trim_start trim_end is_space
    read_symbols size is_open first_match consume_match consume_row
one-success = refl

redeem_all-count_example :
    (redeem_all as_is plain calls rows).0 + count_unused (redeem_all as_is plain calls rows).1
    ≡ count_unused rows
redeem_all-count_example = redeem_all-count as_is plain calls rows

succeeds : (redeem_recovery_code as_is plain "ann" "ABCD1234V0EF" rows rows).0 ≡ true
unfolding redeem_recovery_code normalize_recovery_code trim trim_start trim_end is_space
    read_symbols size is_open first_match consume_match consume_row
succeeds = refl

abbrev created : List CodeRow
created = record { id = "c2"; user_id = "ann"; code_hash = "WXYZ56789ABC"; used = false } ∷ []
