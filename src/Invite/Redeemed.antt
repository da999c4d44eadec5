-- ===== src/Invite/Redeemed.antt =====
-- What a redemption was, and what it adds.
use minister.Common.{
  ℕ, ◌-◌, ◌≤◌, ◌<◌, String, ◌≡◌, refl, ◌≢◌, Bool, true, false, Option, none, some, ◌∷◌, arith, inl,
  inr, Bool-cases, Option-cases, ltb, ◌==◌, string_eq, lookup, insert,
}
use minister.Invite.{
  Code, Tables, redeemed, evaluate_invite_code, has_redeemed, can_use, add_redemption, use_code,
  redeem_if, redeem_row, normalize_invite_code, redeem_invite_code,
}

add_redemption-redeemed :
    (code user_id given label : String) (read : Code) (before store : Tables)
    → (add_redemption code user_id read before store).0 ≡ redeemed given label
    → (given ≡ code)
      × (has_redeemed code user_id store.redemptions ≡ false)
      × ((add_redemption code user_id read before store).1.redemptions
          ≡ (code, user_id) ∷ store.redemptions)
unfolding add_redemption
add_redemption-redeemed code user_id given label read before store h =
    elim (Bool-cases (has_redeemed code user_id store.redemptions)) [
      | inl twice ↦ ground arith
      | inr new ↦ (ground arith, new, rw new refl)
    ]

use_code-redeemed :
    (code user_id given label : String) (read : Code) (found : Option Code) (store : Tables)
    → (use_code code user_id read found store).0 ≡ redeemed given label
    → (row : Code) × (found ≡ some row)
      × (0 < read.uses_total → can_use row ≡ true)
      × (given ≡ code)
      × (has_redeemed code user_id store.redemptions ≡ false)
      × ((use_code code user_id read found store).1.redemptions
          ≡ (code, user_id) ∷ store.redemptions)
unfolding use_code
use_code-redeemed code user_id given label read none store h = ground arith
use_code-redeemed code user_id given label read (some row) store h =
    elim (Bool-cases (ltb 0 read.uses_total)) [
      | inl limited ↦ elim (Bool-cases (can_use row)) [
        | inl can ↦
            let (is_code, new, next) =
              add_redemption-redeemed code user_id given label read store
                (record store {
                  codes =
                      insert store.codes code
                        (record row { uses_remaining = row.uses_remaining - 1 });
                })
                (rw (limited, can) at h) in
            (row, refl, λ l. can, is_code, new, rw (limited, can) next)
        | inr spent ↦ ground arith
      ]
      | inr free ↦
          let (is_code, new, next) =
            add_redemption-redeemed code user_id given label read store store (rw free at h) in
          (row, refl, λ l. ground arith, is_code, new, rw free next)
    ]

evaluate-ne-redeemed :
    (row : Code) (before : Bool) (now : ℕ) (given label : String)
    → evaluate_invite_code row before now ≢ some (redeemed given label)
unfolding evaluate_invite_code
evaluate-ne-redeemed row before now given label = λ h. ground arith

redeem_row-redeemed :
    (now : ℕ) (code user_id given label : String) (found : Option Code) (seen store : Tables)
    → (redeem_row now code user_id found seen store).0 ≡ redeemed given label
    → (read : Code) × (found ≡ some read)
      × (read.revoked_at ≡ none)
      × ((t : ℕ) → read.expires_at ≡ some t → now ≤ t)
      × (redeem_row now code user_id found seen store
          ≡ use_code code user_id read (lookup store.codes code) store)
unfolding redeem_row redeem_if evaluate_invite_code
redeem_row-redeemed now code user_id given label none seen store h = ground arith
redeem_row-redeemed now code user_id given label (some read) seen store h =
    let verdict = evaluate_invite_code read (has_redeemed code user_id seen.redemptions) now in
    elim (Option-cases verdict) [
      | inl passed ↦
          (read, refl, ground (arith, passed), (λ t e. ground (arith, passed, e)), rw passed refl)
      | inr (refusal, refused) ↦ ground (
        arith,
        evaluate-ne-redeemed read (has_redeemed code user_id seen.redemptions) now given label,
        refused,
      )
    ]

-- When a redemption succeeds, the code that it has read was not revoked and had not expired. At the
-- transaction the code is there, and if it was limited it is not revoked and has a use left; its
-- user had not redeemed it, and the pair of code and user is the one new redemption. What is
-- redeemed is the normalized text.
redeem_invite_code-redeemed :
    (to_upper : String → String) (now : ℕ) (raw user_id given label : String) (seen store : Tables)
    → (redeem_invite_code to_upper now raw user_id seen store).0 ≡ redeemed given label
    → (read row : Code) × (given ≡ normalize_invite_code to_upper raw)
      × (lookup seen.codes given ≡ some read)
      × (read.revoked_at ≡ none)
      × ((t : ℕ) → read.expires_at ≡ some t → now ≤ t)
      × (lookup store.codes given ≡ some row)
      × (0 < read.uses_total → can_use row ≡ true)
      × (has_redeemed given user_id store.redemptions ≡ false)
      × ((redeem_invite_code to_upper now raw user_id seen store).1.redemptions
          ≡ (given, user_id) ∷ store.redemptions)
unfolding redeem_invite_code
redeem_invite_code-redeemed to_upper now raw user_id given label seen store h =
    let code = normalize_invite_code to_upper raw in
    elim (Bool-cases (code == "")) [
      | inl blank ↦ ground arith
      | inr text ↦
          let (read, found, live, early, same) =
            redeem_row-redeemed now code user_id given label (lookup seen.codes code) seen store
              (rw text at h) in
          let used : (use_code code user_id read (lookup store.codes code) store).0
              ≡ redeemed given label =
            rw (← same) (rw text at h) in
          let (row, at, can, is_code, new, next) =
            use_code-redeemed code user_id given label read (lookup store.codes code) store used in
          (
            read,
            row,
            is_code,
            rw is_code found,
            live,
            early,
            rw is_code at,
            can,
            rw is_code new,
            rw (text, same, is_code) next,
          )
    ]
