-- ===== src/Invite.antt =====
-- apps/minister/src/lib/invite-codes.ts: the redemption of an invite code. The code is read first, and
-- the transaction then meets the tables as other redemptions have left them: `seen` and `store`. A row
-- stands under its code, which is unique, and so does what the database keys by the row's id.
pub mod Redeemed
pub mod Uses
mod Tests
use minister.Common.{
  ℕ, ◌-◌, String, Bool, true, false, not, ◌&&◌, Option, none, some, List, ◌∷◌, ltb, any, nat_beq,
  ◌==◌, if◌then◌else◌, string_eq, trim, lookup, insert, Entries,
}

pub record Code : Type 0 where
  pub label : String
  pub uses_total : ℕ
  pub uses_remaining : ℕ
  pub expires_at : Option ℕ
  pub revoked_at : Option ℕ

pub record Tables : Type 0 where
  pub codes : Entries String Code
  pub redemptions : List (String × String)

-- The messages of a refusal, and a throw that the code does not expect.
pub data Redeem : Type 0 where
  redeemed : String → String → Redeem
  invalid_code : Redeem
  already_redeemed : Redeem
  threw : Redeem

abbrev is_set : Option ℕ → Bool
is_set none = false
is_set (some t) = true

abbrev is_past : ℕ → Option ℕ → Bool
is_past now none = false
is_past now (some t) = ltb t now

-- The refusal of a code, if there is one.
unfoldable pub evaluate_invite_code : Code → Bool → ℕ → Option Redeem
evaluate_invite_code row redeemed_before now =
    if is_set row.revoked_at
    then some invalid_code
    else if is_past now row.expires_at
    then some invalid_code
    else if ltb 0 row.uses_total && nat_beq row.uses_remaining 0
    then some invalid_code
    else if redeemed_before
    then some already_redeemed
    else none

unfoldable pub has_redeemed : String → String → List (String × String) → Bool
has_redeemed code user_id redemptions = any (λ r. r.0 == code && r.1 == user_id) redemptions

-- The conditional update of a limited code matches its row.
unfoldable pub can_use : Code → Bool
can_use row = not (is_set row.revoked_at) && ltb 0 row.uses_remaining

-- The insert of the redemption; a failure leaves the tables as they were before the transaction.
unfoldable pub add_redemption : String → String → Code → Tables → Tables → Redeem × Tables
add_redemption code user_id row before store =
    if has_redeemed code user_id store.redemptions then (already_redeemed, before) else (
      redeemed code row.label,
      record store { redemptions = (code, user_id) ∷ store.redemptions },
    )

-- The transaction, by the total that was read and the row that is there now.
unfoldable pub use_code : String → String → Code → Option Code → Tables → Redeem × Tables
use_code code user_id read none store =
    if ltb 0 read.uses_total then (invalid_code, store) else (threw, store)
use_code code user_id read (some row) store =
    if ltb 0 read.uses_total
    then if can_use row
      then add_redemption code user_id read store (record store {
        codes = insert store.codes code (record row { uses_remaining = row.uses_remaining - 1 });
      })
      else (invalid_code, store)
    else add_redemption code user_id read store store

unfoldable pub redeem_if : String → String → Code → Option Redeem → Tables → Redeem × Tables
redeem_if code user_id read (some refusal) store = (refusal, store)
redeem_if code user_id read none store = use_code code user_id read (lookup store.codes code) store

unfoldable pub redeem_row : ℕ → String → String → Option Code → Tables → Tables → Redeem × Tables
redeem_row now code user_id none seen store = (invalid_code, store)
redeem_row now code user_id (some read) seen store =
    redeem_if code user_id read
      (evaluate_invite_code read (has_redeemed code user_id seen.redemptions) now) store

-- `to_upper` is `toUpperCase` of JavaScript.
module _ (to_upper : String → String) where
  unfoldable pub normalize_invite_code : String → String
  normalize_invite_code raw = to_upper (trim raw)

  unfoldable pub redeem_invite_code : ℕ → String → String → Tables → Tables → Redeem × Tables
  redeem_invite_code now raw user_id seen store =
      let code = normalize_invite_code raw in
      if code == ""
      then (invalid_code, store)
      else redeem_row now code user_id (lookup seen.codes code) seen store
