-- ===== src/Recovery/Codes/Redeemed.antt =====
-- Every success uses up one row, and names a code of the user.
use minister.Common.{
  ◌+◌, String, ◌≡◌, Bool, true, false, Option, none, some, List, [], ◌∷◌, arith, Bool-cases,
  Option-cases, inl, inr, nat_beq, nat_beq_iff, if◌then◌else◌, string_eq, eq_iff, keep, keep-In, In,
  here, there,
}
use minister.Recovery.Codes.{
  CodeRow, code_symbols, size, is_open, count_unused, consume_row, consume_match,
  normalize_recovery_code, first_match, redeem_recovery_code, redeem_all,
}

consume_row-count :
    (id : String) (rows : List CodeRow)
    → (if (consume_row id rows).0 then 1 else 0) + count_unused (consume_row id rows).1
      ≡ count_unused rows
unfolding consume_row count_unused
consume_row-count id [] = omega arith
consume_row-count id (r ∷ rows) = ground (arith, consume_row-count id rows)

consume_match-count :
    (found : Option String) (rows : List CodeRow)
    → (if (consume_match found rows).0 then 1 else 0) + count_unused (consume_match found rows).1
      ≡ count_unused rows
unfolding consume_match
consume_match-count none rows = omega arith
consume_match-count (some id) rows = consume_row-count id rows

module _ (to_upper : String → String) (matches : String → String → Bool) where
  redeem_recovery_code-count :
      (user_id typed : String) (seen rows : List CodeRow)
      → let result = redeem_recovery_code to_upper matches user_id typed seen rows in
        (if result.0 then 1 else 0) + count_unused result.1 ≡ count_unused rows
  unfolding redeem_recovery_code consume_match
  redeem_recovery_code-count user_id typed seen rows =
      let normalized = normalize_recovery_code to_upper matches typed in
      elim (Bool-cases (nat_beq (size normalized) code_symbols)) [
        | inl sized ↦ rw sized (
            consume_match-count
              (first_match to_upper matches normalized (keep (is_open user_id) seen)) rows)
        | inr other ↦ rw other (omega arith)
      ]

  -- Of any redemptions, by any users and each with any earlier view of the rows, as many succeed as
  -- unused codes are lost: the successes and the unused codes that are left add up to the unused codes
  -- at the start.
  pub redeem_all-count :
      (calls : List (String × String × List CodeRow)) (rows : List CodeRow)
      → (redeem_all to_upper matches calls rows).0
          + count_unused (redeem_all to_upper matches calls rows).1
        ≡ count_unused rows
  unfolding redeem_all
  redeem_all-count [] rows = omega arith
  redeem_all-count ((user_id, typed, seen) ∷ calls) rows = omega (
    arith,
    redeem_all-count calls (redeem_recovery_code to_upper matches user_id typed seen rows).1,
    redeem_recovery_code-count user_id typed seen rows,
  )

  first_match-In :
      (normalized id : String) (rows : List CodeRow)
      → first_match to_upper matches normalized rows ≡ some id
      → (r : CodeRow) × In r rows × (r.id ≡ id) × (matches normalized r.code_hash ≡ true)
  unfolding first_match
  first_match-In normalized id [] h = cc
  first_match-In normalized id (r ∷ rows) h = elim (Bool-cases (matches normalized r.code_hash)) [
    | inl found ↦ (r, here, ground arith, found)
    | inr other ↦
        let (q, m, e, f) = first_match-In normalized id rows (rw other at h) in (q, there m, e, f)
  ]

  -- A redemption that succeeds has read a row of the user that was unused and whose hash matches the
  -- normalized text, which has twelve symbols.
  redeem_recovery_code-held :
      (user_id typed : String) (seen rows : List CodeRow)
      → (redeem_recovery_code to_upper matches user_id typed seen rows).0 ≡ true
      → (r : CodeRow) × In r seen
        × (r.user_id ≡ user_id)
        × (r.used ≡ false)
        × (matches (normalize_recovery_code to_upper matches typed) r.code_hash ≡ true)
        × (size (normalize_recovery_code to_upper matches typed) ≡ 12)
  unfolding redeem_recovery_code is_open consume_match
  redeem_recovery_code-held user_id typed seen rows h =
      let normalized = normalize_recovery_code to_upper matches typed in
      elim (Bool-cases (nat_beq (size normalized) code_symbols)) [
        | inr other ↦ ground arith
        | inl sized ↦
            elim (Option-cases
              (first_match to_upper matches normalized (keep (is_open user_id) seen))) [
                | inl missing ↦ ground arith
                | inr (id, found) ↦
                    let (r, m, e, matched) =
                      first_match-In normalized id (keep (is_open user_id) seen) found in
                    let (member, open_row) = keep-In (is_open user_id) r seen m in
                    (
                      r,
                      member,
                      ground (arith, open_row, eq_iff r.user_id user_id),
                      ground (arith, open_row),
                      matched,
                      (nat_beq_iff (size normalized) 12).0 sized,
                    )
              ]
      ]
