-- ===== src/StatusList/Publisher.antt =====
-- publishList of apps/minister/src/lib/status-list/publish.ts: a signed list for the verifiers,
-- with the bits of the entries whose revocation may be shown. The update asks for the version that
-- was read, and after a race the whole is tried again.
use minister.Common.{
  ℕ, suc, ◌+◌, ◌*◌, ◌/◌, max, String, Bool, true, not, ◌&&◌, Option, none, some, List, [], ◌∷◌, map,
  keep, take, ltb, leb, nat_beq, if◌then◌else◌, Entries, lookup, insert, string_eq, ◌==◌, given,
  stop_if,
}
use minister.StatusList.{set_bits}
use minister.StatusList.Registry.{StatusEntry, is_set}

abbrev pub publish_max_attempts : ℕ
publish_max_attempts = 4

abbrev pub validity_window_ms : ℕ
validity_window_ms = 15 * 60_000

abbrev pub heartbeat_ms : ℕ
heartbeat_ms = validity_window_ms / 3

-- The largest number of a column of four bytes.
abbrev pub max_int4 : ℕ
max_int4 = 2_147_483_647

pub record ListRow : Type 0 where
  pub version : ℕ
  pub bits : List ℕ
  pub signed_jwt : String
  pub published_at : ℕ

pub record Lists : Type 0 where
  pub rows : Entries String ListRow
  pub entries : List StatusEntry

-- The list in a payload is its bits, before compression. The constant parts, such as the types and the
-- refresh hint, are left out.
pub record StatusListPayload : Type 0 where
  pub iss : String
  pub sub : String
  pub iat : ℕ
  pub exp : ℕ
  pub jti : String
  pub status_list_version : ℕ
  pub encoded_list : List ℕ

-- A publication has its version, whether a bit was set, and how many.
pub data PublishResult : Type 0 where
  unpublished : PublishResult
  published : ℕ → Bool → ℕ → PublishResult

pub data Outcome : Type 0 where
  returned : PublishResult → Outcome
  raced : Outcome
  threw : Outcome

unfoldable pub may_reveal : ℕ → Option ℕ → Bool
may_reveal now none = true
may_reveal now (some t) = leb t now

unfoldable pub is_eligible : ℕ → String → StatusEntry → Bool
is_eligible now list_id e =
    (e.list_id == list_id) && is_set e.revoked_at && may_reveal now e.reveal_after

unfoldable pub eligible_bits : ℕ → String → List StatusEntry → List ℕ
eligible_bits now list_id entries = map (λ e. e.bit_index) (keep (is_eligible now list_id) entries)

-- What one try of the loop needs from outside: a random id, the tables that its reads see, and
-- those that its update meets.
pub record Try : Type 0 where
  pub jti : String
  pub seen : Lists
  pub store : Lists

-- `url_of` is the address of a list, `sign` compresses and signs a payload, where `none` is a
-- throw, also of a payload that is too long.
module _ (url_of : String → String) (sign : StatusListPayload → Option String) where
  unfoldable pub build_status_list_payload :
      String → String → List ℕ → ℕ → ℕ → String → StatusListPayload
  build_status_list_payload issuer_did list_id bits version now jti = record {
    iss = issuer_did;
    sub = url_of list_id;
    iat = now / 1000;
    exp = (now + validity_window_ms) / 1000;
    jti = jti;
    status_list_version = version;
    encoded_list = bits;
  }

  -- The update of the row where it still has the version that was read. A version that the column cannot
  -- hold is a throw.
  unfoldable pub update_list :
      ℕ → String → ListRow → ℕ × List ℕ → ℕ → String → Lists → Outcome × Lists
  update_list now list_id row (revoked, bits) version jwt store =
      stop_if (ltb max_int4 version) (threw, store)
        (given (lookup store.rows list_id) (raced, store)
          (λ stored.
            stop_if (not (nat_beq stored.version row.version)) (raced, store)
              (
                returned (published version (ltb 0 revoked) revoked),
                record store {
                  rows = insert store.rows list_id (record {
                    version = version;
                    bits = if ltb 0 revoked then bits else stored.bits;
                    signed_jwt = jwt;
                    published_at = now;
                  });
                },
              )))

  -- One round of the loop.
  unfoldable pub publish_attempt : ℕ → Bool → String → String → Try → Outcome × Lists
  publish_attempt now force issuer_did list_id t =
      given (lookup t.seen.rows list_id) (returned unpublished, t.store)
        (λ row.
          given (set_bits row.bits (eligible_bits now list_id t.seen.entries)) (threw, t.store)
            (λ set.
              let is_stale = leb (row.published_at + heartbeat_ms) now in
              stop_if (not (ltb 0 set.0) && not (row.signed_jwt == "") && not is_stale && not force)
                (returned unpublished, t.store)
                (let version = max (suc row.version) (now / 1000) in
                  let payload =
                    build_status_list_payload issuer_did list_id set.1 version now t.jti in
                  given (sign payload) (threw, t.store)
                    (λ jwt. update_list now list_id row set version jwt t.store))))

  -- What a try leaves, or the next try after a race.
  unfoldable pub or_again : Outcome × Lists → Outcome × Option Lists → Outcome × Option Lists
  or_again (raced, last) again = again
  or_again (returned r, last) again = (returned r, some last)
  or_again (threw, last) again = (threw, some last)

  unfoldable pub try_each : ℕ → Bool → String → String → List Try → Outcome × Option Lists
  try_each now force issuer_did list_id [] = (returned unpublished, none)
  try_each now force issuer_did list_id (t ∷ tries) =
      or_again (publish_attempt now force issuer_did list_id t)
        (try_each now force issuer_did list_id tries)

  -- The tables after the last try, `none` if every try has lost a race.
  unfoldable pub publish_list : ℕ → Bool → String → String → List Try → Outcome × Option Lists
  publish_list now force issuer_did list_id tries =
      try_each now force issuer_did list_id (take publish_max_attempts tries)
