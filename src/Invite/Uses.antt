-- ===== src/Invite/Uses.antt =====
-- The uses of a code: what is left and what was redeemed add up to the total.
use minister.Common.{
  ℕ, ◌+◌, ◌-◌, ◌<◌, String, ◌≡◌, refl, true, false, Option, none, some, List, [], ◌∷◌, arith, inl,
  inr, Bool-cases, Option-cases, ltb, ◌==◌, if◌then◌else◌, string_eq, eq_iff, lookup, insert,
  lookup-insert,
}
use minister.Invite.{
  Code, Tables, evaluate_invite_code, has_redeemed, can_use, add_redemption, use_code, redeem_if,
  redeem_row, normalize_invite_code, redeem_invite_code,
}

-- How many redemptions a code has.
unfoldable pub uses : String → List (String × String) → ℕ
uses code [] = 0
uses code (r ∷ redemptions) =
    if r.0 == code then 1 + uses code redemptions else uses code redemptions

-- A code that is limited has used what is not left.
unfoldable pub IsUsed : Option Code → ℕ → Type 0
IsUsed none n = Unit
IsUsed (some row) n = 0 < row.uses_total → row.uses_remaining + n ≡ row.uses_total

-- No user has redeemed a code twice.
unfoldable pub AreDistinct : List (String × String) → Type 0
AreDistinct [] = Unit
AreDistinct (r ∷ redemptions) = (has_redeemed r.0 r.1 redemptions ≡ false) × AreDistinct redemptions

unfoldable pub IsConsistent : Tables → Type 0
IsConsistent store =
    ((code : String) → IsUsed (lookup store.codes code) (uses code store.redemptions))
    × AreDistinct store.redemptions

-- A code keeps its total from one view of the tables to another.
unfoldable pub HaveSameTotals : Tables → Tables → Type 0
HaveSameTotals seen store =
    (code : String) (read row : Code)
    → lookup seen.codes code ≡ some read
    → lookup store.codes code ≡ some row
    → read.uses_total ≡ row.uses_total

uses-this :
    (code user_id : String) (redemptions : List (String × String))
    → uses code ((code, user_id) ∷ redemptions) ≡ 1 + uses code redemptions
unfolding uses
uses-this code user_id redemptions = ground (arith, eq_iff code code)

uses-other :
    (code other user_id : String) (redemptions : List (String × String))
    → (code == other) ≡ false
    → uses other ((code, user_id) ∷ redemptions) ≡ uses other redemptions
unfolding uses
uses-other code other user_id redemptions h = ground (arith, h)

IsUsed-one :
    (row : Code) (n : ℕ)
    → can_use row ≡ true
    → IsUsed (some row) n
    → IsUsed (some (record row { uses_remaining = row.uses_remaining - 1 })) (1 + n)
unfolding IsUsed can_use
IsUsed-one row n can h = λ limited. let e = h limited in ground (arith, e)

unlimited : (row : Code) (n : ℕ) → row.uses_total ≡ 0 → IsUsed (some row) n
unfolding IsUsed
unlimited row n free = λ limited. ground arith

-- A redemption of a limited code, whose row loses one use.
limited-IsConsistent :
    (code user_id : String) (read row : Code) (store : Tables)
    → lookup store.codes code ≡ some row
    → can_use row ≡ true
    → IsConsistent store
    → IsConsistent
        (add_redemption code user_id read store (record store {
          codes = insert store.codes code (record row { uses_remaining = row.uses_remaining - 1 });
        })).1
unfolding IsConsistent add_redemption AreDistinct
limited-IsConsistent code user_id read row store e can h =
    elim (Bool-cases (has_redeemed code user_id store.redemptions)) [
      | inl twice ↦ rw twice h
      | inr new ↦
          let before : IsUsed (lookup store.codes code) (uses code store.redemptions) = h.0 code in
          rw new (
            (λ other.
                rw
                  (lookup-insert store.codes code other
                    (record row { uses_remaining = row.uses_remaining - 1 }))
                  (elim (Bool-cases (code == other)) [
                    | inl same ↦
                        let p : code ≡ other = (eq_iff code other).0 same in
                        rw same (
                          rw (← p) (
                            rw (uses-this code user_id store.redemptions)
                              (IsUsed-one row (uses code store.redemptions) can (rw e at before))))
                    | inr differs ↦
                        rw (differs, uses-other code other user_id store.redemptions differs)
                          (h.0 other)
                  ])),
            (new, h.1),
          )
    ]

-- A redemption of a code without a limit.
unlimited-IsConsistent :
    (code user_id : String) (read row : Code) (store : Tables)
    → lookup store.codes code ≡ some row
    → row.uses_total ≡ 0
    → IsConsistent store
    → IsConsistent (add_redemption code user_id read store store).1
unfolding IsConsistent add_redemption AreDistinct
unlimited-IsConsistent code user_id read row store e free h =
    elim (Bool-cases (has_redeemed code user_id store.redemptions)) [
      | inl twice ↦ rw twice h
      | inr new ↦ rw new (
        (λ other. elim (Bool-cases (code == other)) [
          | inl same ↦
              let p : code ≡ other = (eq_iff code other).0 same in
              rw (← p) (rw e (unlimited row (uses code ((code, user_id) ∷ store.redemptions)) free))
          | inr differs ↦ rw (uses-other code other user_id store.redemptions differs) (h.0 other)
        ]),
        (new, h.1),
      )
    ]

use_code-IsConsistent :
    (code user_id : String) (read : Code) (found : Option Code) (store : Tables)
    → lookup store.codes code ≡ found
    → ((row : Code) → found ≡ some row → read.uses_total ≡ row.uses_total)
    → IsConsistent store
    → IsConsistent (use_code code user_id read found store).1
unfolding use_code
use_code-IsConsistent code user_id read none store e same h =
    elim (Bool-cases (ltb 0 read.uses_total)) [ inl limited ↦ rw limited h | inr free ↦ rw free h ]
use_code-IsConsistent code user_id read (some row) store e same h =
    elim (Bool-cases (ltb 0 read.uses_total)) [
      | inl limited ↦ rw limited (elim (Bool-cases (can_use row)) [
        | inl can ↦ rw can (limited-IsConsistent code user_id read row store e can h)
        | inr spent ↦ rw spent h
      ])
      | inr free ↦
          let total = same row refl in
          rw free (unlimited-IsConsistent code user_id read row store e (ground (arith, total)) h)
    ]

redeem_row-IsConsistent :
    (now : ℕ) (code user_id : String) (found : Option Code) (seen store : Tables)
    → lookup seen.codes code ≡ found
    → HaveSameTotals seen store
    → IsConsistent store
    → IsConsistent (redeem_row now code user_id found seen store).1
unfolding redeem_row redeem_if HaveSameTotals
redeem_row-IsConsistent now code user_id none seen store e same h = h
redeem_row-IsConsistent now code user_id (some read) seen store e same h =
    let verdict = evaluate_invite_code read (has_redeemed code user_id seen.redemptions) now in
    elim (Option-cases verdict) [
      | inl passed ↦ rw passed (
          use_code-IsConsistent code user_id read (lookup store.codes code) store refl
            (λ row found. same code read row e found) h)
      | inr (refusal, refused) ↦ rw refused h
    ]

-- The tables are consistent when every limited code has used exactly what is not left of its total and
-- no user has redeemed a code twice. Every redemption keeps them so, for every text and user, whatever
-- earlier state of the tables it has read, if no code has changed its total since then.
pub redeem_invite_code-IsConsistent :
    (to_upper : String → String) (now : ℕ) (raw user_id : String) (seen store : Tables)
    → HaveSameTotals seen store
    → IsConsistent store
    → IsConsistent (redeem_invite_code to_upper now raw user_id seen store).1
unfolding redeem_invite_code
redeem_invite_code-IsConsistent to_upper now raw user_id seen store same h =
    let code = normalize_invite_code to_upper raw in
    elim (Bool-cases (code == "")) [
      | inl blank ↦ rw blank h
      | inr given ↦
          rw given (
            redeem_row-IsConsistent now code user_id (lookup seen.codes code) seen store refl same
              h)
    ]
