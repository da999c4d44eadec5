-- ===== src/Pair.antt =====
-- apps/minister/src/server/anon-pair.ts: the relay that hands a sealed payload from one device of an
-- account to another. A read and the conditional update after it are separate: `seen` is the table
-- that a read saw, `store` the one that an update meets. Random ids and secrets are arguments, the
-- digest of a secret is a parameter. Times are milliseconds.
pub mod Network
pub mod Counts
pub mod Kept
pub mod Results
pub mod Handover
pub mod Access
pub mod RoundTrip
mod Tests
use minister.Common.{
  ℕ, ◌+◌, ◌*◌, String, Bool, true, false, not, ◌&&◌, Option, none, some, List, ◌∷◌, ltb, leb, keep,
  ◌==◌, if◌then◌else◌, string_eq, lookup, insert, Entries,
}

pub data State : Type 0 where
  waiting : State
  sealed : State
  claimed : State
  unknown : State

pub record Row : Type 0 where
  pub user_id : String
  pub state : State
  pub sealed_payload : Option String
  pub creator_secret_hash : String
  pub expires_at : ℕ
  pub creator_ip : Option String
  pub creator_country : Option String
  pub creator_city : Option String

pub data Action : Type 0 where
  created : Action
  deposited : Action
  cross_account_blocked : Action
  handed_over : Action

-- An entry of the audit log: who, what, and for which session.
pub record Event : Type 0 where
  pub user_id : String
  pub action : Action
  pub session_id : String

pub record Relay : Type 0 where
  pub rows : Entries String Row
  pub events : List Event

abbrev pub pair_ttl_ms : ℕ
pair_ttl_ms = 3 * 60 * 1000

abbrev pub pair_sweep_grace_ms : ℕ
pair_sweep_grace_ms = 60 * 60 * 1000

unfoldable pub log : String → Action → String → Relay → Relay
log user_id action session_id relay = record relay {
  events = record { user_id = user_id; action = action; session_id = session_id } ∷ relay.events;
}

-- The rows that the sweep leaves.
unfoldable pub sweep_rows : ℕ → Entries String Row → Entries String Row
sweep_rows now rows = keep (λ e. leb now (e.1.expires_at + pair_sweep_grace_ms)) rows

pub data Shown : Type 0 where
  shown : State → Shown
  shown_expired : Shown
  shown_not_found : Shown

abbrev pub is_waiting : State → Bool
is_waiting waiting = true
is_waiting _ = false

abbrev pub is_sealed : State → Bool
is_sealed sealed = true
is_sealed _ = false

abbrev pub is_claimed : State → Bool
is_claimed claimed = true
is_claimed _ = false

abbrev show_state : State → Shown
show_state waiting = shown waiting
show_state sealed = shown sealed
show_state claimed = shown claimed
show_state unknown = shown_not_found

unfoldable pub effective_state : Row → ℕ → Shown
effective_state row now =
    if is_waiting row.state && leb row.expires_at now then shown_expired else show_state row.state

pub record Creator : Type 0 where
  pub user_id : String
  pub ip : Option String
  pub country : Option String
  pub city : Option String

-- The insert of a new row; a taken id is a throw.
unfoldable pub insert_row : ℕ → Creator → String → String → Option Row → Relay → Relay
insert_row now args session_id secret_hash (some row) relay = relay
insert_row now args session_id secret_hash none relay =
    log args.user_id created session_id (record relay {
      rows = insert relay.rows session_id (record {
        user_id = args.user_id;
        state = waiting;
        sealed_payload = none;
        creator_secret_hash = secret_hash;
        expires_at = now + pair_ttl_ms;
        creator_ip = args.ip;
        creator_country = args.country;
        creator_city = args.city;
      });
    })

-- The sweep may fail, and is then ignored.
abbrev pub after_sweep : ℕ → Bool → Relay → Relay
after_sweep now true relay = record relay { rows = sweep_rows now relay.rows }
after_sweep now false relay = relay

unfoldable pub create_pair_session : ℕ → Bool → Creator → String → String → Relay → Relay
create_pair_session now swept args session_id secret_hash relay =
    let clean = after_sweep now swept relay in
    insert_row now args session_id secret_hash (lookup clean.rows session_id) clean

pub data Sealing : Type 0 where
  seal_ok : Sealing
  seal_cross_account : Sealing
  seal_expired : Sealing
  seal_already_used : Sealing
  seal_not_found : Sealing

-- The row meets the condition of the update.
unfoldable pub can_seal : ℕ → String → Row → Bool
can_seal now session_user_id row =
    row.user_id == session_user_id && is_waiting row.state && ltb now row.expires_at

-- Why the update has matched no row, by a second read.
unfoldable pub seal_refusal : ℕ → String → Option Row → Sealing
seal_refusal now session_user_id none = seal_not_found
seal_refusal now session_user_id (some row) =
    if not (row.user_id == session_user_id)
    then seal_cross_account
    else if leb row.expires_at now
    then seal_expired
    else if not (is_waiting row.state)
    then seal_already_used
    else seal_not_found

abbrev pub log_refusal : String → String → Sealing → Relay → Relay
log_refusal session_user_id session_id seal_cross_account relay =
    log session_user_id cross_account_blocked session_id relay
log_refusal session_user_id session_id seal_ok relay = relay
log_refusal session_user_id session_id seal_expired relay = relay
log_refusal session_user_id session_id seal_already_used relay = relay
log_refusal session_user_id session_id seal_not_found relay = relay

abbrev pub refuse_seal : String → String → Sealing → Relay → Sealing × Relay
refuse_seal session_user_id session_id refusal relay =
    (refusal, log_refusal session_user_id session_id refusal relay)

-- The update of the row that has the id, if there is one.
unfoldable pub seal_row :
    ℕ → String → String → String → Option Row → Option Row → Relay → Sealing × Relay
seal_row now session_id session_user_id payload reread none relay =
    refuse_seal session_user_id session_id (seal_refusal now session_user_id reread) relay
seal_row now session_id session_user_id payload reread (some row) relay =
    if can_seal now session_user_id row
    then (
      seal_ok,
      log session_user_id deposited session_id (record relay {
        rows =
            insert relay.rows session_id
              (record row { state = sealed; sealed_payload = some payload });
      }),
    )
    else refuse_seal session_user_id session_id (seal_refusal now session_user_id reread) relay

-- `reread` is the table that the second read sees.
unfoldable pub seal_pair_session : ℕ → String → String → String → Relay → Relay → Sealing × Relay
seal_pair_session now session_id session_user_id payload reread relay =
    seal_row now session_id session_user_id payload (lookup reread.rows session_id)
      (lookup relay.rows session_id) relay

pub data Claim : Type 0 where
  still_waiting : Claim
  claim_expired : Claim
  given : Option String → Claim
  claim_not_found : Claim
  forbidden : Claim
  bad_secret : Claim

-- The conditional update, and the payload that the read has seen for the one who makes it.
unfoldable pub claim_row : String → String → Option String → Option Row → Relay → Claim × Relay
claim_row session_id session_user_id payload none relay = (given none, relay)
claim_row session_id session_user_id none (some row) relay =
    if is_sealed row.state
    then (
      given none,
      record relay {
        rows = insert relay.rows session_id (record row { state = claimed; sealed_payload = none });
      },
    )
    else (given none, relay)
claim_row session_id session_user_id (some payload) (some row) relay =
    if is_sealed row.state
    then (
      given (some payload),
      log session_user_id handed_over session_id (record relay {
        rows = insert relay.rows session_id (record row { state = claimed; sealed_payload = none });
      }),
    )
    else (given none, relay)

module _ (hash_secret : String → String) where
  -- Both sides of the comparison are digests, of one length.
  unfoldable pub secret_matches : String → String → Bool
  secret_matches presented stored_hash = hash_secret presented == stored_hash

  unfoldable pub claim_seen : ℕ → String → String → String → Option Row → Relay → Claim × Relay
  claim_seen now session_id session_user_id creator_secret none relay = (claim_not_found, relay)
  claim_seen now session_id session_user_id creator_secret (some row) relay =
      if not (row.user_id == session_user_id)
      then (forbidden, relay)
      else if not (secret_matches creator_secret row.creator_secret_hash)
      then (bad_secret, relay)
      else if is_claimed row.state
      then (given none, relay)
      else if is_waiting row.state
      then (if leb row.expires_at now then claim_expired else still_waiting, relay)
      else claim_row session_id session_user_id row.sealed_payload (lookup relay.rows session_id)
          relay

  unfoldable pub claim_pair_session : ℕ → String → String → String → Relay → Relay → Claim × Relay
  claim_pair_session now session_id session_user_id creator_secret seen relay =
      claim_seen now session_id session_user_id creator_secret (lookup seen.rows session_id) relay
