-- ===== src/Recovery/Codes/Regenerated.antt =====
-- What a new batch of codes replaces.
use minister.Common.{
  String, ◌≡◌, false, not, List, [], ◌∷◌, ◌++◌, arith, ◌⊎◌, inl, inr, string_eq, keep, keep-In,
  In-keep, In, here, there, In-cases, ◌↔◌,
}
use minister.Recovery.Codes.{CodeRow, is_open, generate_recovery_codes}

In-append : {a : CodeRow} (xs ys : List CodeRow) → In a (xs ++ ys) → In a xs ⊎ In a ys
In-append [] ys m = inr m
In-append (x ∷ xs) ys m = elim (In-cases m) [
  | inl e ↦ inl (rw e here)
  | inr later ↦ elim (In-append xs ys later) [
    | inl first ↦ inl (there first)
    | inr second ↦ inr second
  ]
]

In-left : {a : CodeRow} {xs : List CodeRow} (ys : List CodeRow) → In a xs → In a (xs ++ ys)
In-left ys here = here
In-left ys (there m) = there (In-left ys m)

In-right : {a : CodeRow} (xs ys : List CodeRow) → In a ys → In a (xs ++ ys)
In-right [] ys m = m
In-right (x ∷ xs) ys m = there (In-right xs ys m)

-- After a new batch, the rows are exactly the created ones and those of the old rows that are used or
-- of another user. So an unused code of the user is one of the new batch.
generate_recovery_codes-In_iff :
    (user_id : String) (created rows : List CodeRow) (r : CodeRow)
    → In r (generate_recovery_codes user_id created rows)
      ↔ (In r created ⊎ (In r rows × (is_open user_id r ≡ false)))
unfolding generate_recovery_codes
generate_recovery_codes-In_iff user_id created rows r = (
  λ m. elim (In-append created (keep (λ q. not (is_open user_id q)) rows) m) [
    | inl new ↦ inl new
    | inr old ↦
        let (member, closed) = keep-In (λ q. not (is_open user_id q)) r rows old in
        inr (member, ground arith)
  ],
  λ c. elim c [
    | inl new ↦ In-left (keep (λ q. not (is_open user_id q)) rows) new
    | inr old ↦
        In-right created (keep (λ q. not (is_open user_id q)) rows)
          (In-keep (λ q. not (is_open user_id q)) old.0 (ground arith))
  ],
)
