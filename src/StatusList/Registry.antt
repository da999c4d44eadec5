-- ===== src/StatusList/Registry.antt =====
-- apps/minister/src/lib/status-list/allocate.ts and apps/minister/src/lib/status-list/revoke.ts: the
-- entry of a badge in the lists of an app, and the revocation of an anchor. An allocation and a
-- revocation are one step each here.
use minister.Common.{
  ℕ, suc, ◌+◌, ◌*◌, String, Bool, true, false, not, ◌&&◌, ◌||◌, Option, none, some, List, [], ◌∷◌,
  map, any, keep, length, take, ltb, leb, nat_beq, if◌then◌else◌, Entries, lookup, insert,
  string_eq, ◌==◌,
}
use minister.StatusList.{shard_size_bits}

pub record StatusEntry : Type 0 where
  pub status_anchor : String
  pub client_id : String
  pub list_id : String
  pub bit_index : ℕ
  pub revoked_at : Option ℕ
  pub reveal_after : Option ℕ

pub record ShardRow : Type 0 where
  pub id : String
  pub client_id : String
  pub shard_no : ℕ

pub record Registry : Type 0 where
  pub entries : List StatusEntry
  pub shards : List ShardRow
  pub revocations : Entries String ℕ

pub record AllocatedStatus : Type 0 where
  pub list_id : String
  pub bit_index : ℕ

abbrev max_random_attempts : ℕ
max_random_attempts = 24

unfoldable pub is_entry_of : String → String → StatusEntry → Bool
is_entry_of anchor client e = (e.status_anchor == anchor) && (e.client_id == client)

abbrev at_place : StatusEntry → AllocatedStatus
at_place e = record { list_id = e.list_id; bit_index = e.bit_index }

unfoldable pub find_existing : String → String → List StatusEntry → Option AllocatedStatus
find_existing anchor client [] = none
find_existing anchor client (e ∷ es) =
    if is_entry_of anchor client e then some (at_place e) else find_existing anchor client es

unfoldable pub is_set : Option ℕ → Bool
is_set none = false
is_set (some t) = true

-- `updateMany` of the entries of the anchor and the client that are not revoked.
unfoldable pub force_revoke_entry : ℕ → String → String → List StatusEntry → List StatusEntry
force_revoke_entry now anchor client entries =
    map
      (λ e.
        if is_entry_of anchor client e && not (is_set e.revoked_at)
        then record e { revoked_at = some now; reveal_after = some now }
        else e)
      entries

unfoldable pub find_shard : String → ℕ → List ShardRow → Option ShardRow
find_shard client shard_no [] = none
find_shard client shard_no (s ∷ ss) =
    if (s.client_id == client) && nat_beq s.shard_no shard_no
    then some s
    else find_shard client shard_no ss

unfoldable pub shard_or :
    Option ShardRow → String → String → ℕ → List ShardRow → ShardRow × List ShardRow
shard_or (some s) id client shard_no shards = (s, shards)
shard_or none id client shard_no shards =
    let s : ShardRow = record { id = id; client_id = client; shard_no = shard_no } in
    (s, s ∷ shards)

-- A shard with the id given, if there is none with that number.
unfoldable pub get_or_create_shard : String → String → ℕ → List ShardRow → ShardRow × List ShardRow
get_or_create_shard id client shard_no shards =
    shard_or (find_shard client shard_no shards) id client shard_no shards

unfoldable pub higher : Option ShardRow → ShardRow → ShardRow
higher none s = s
higher (some t) s = if ltb s.shard_no t.shard_no then t else s

unfoldable pub top_shard : String → List ShardRow → Option ShardRow
top_shard client [] = none
top_shard client (s ∷ ss) =
    let rest = top_shard client ss in if s.client_id == client then some (higher rest s) else rest

-- Three quarters of the bits are taken.
unfoldable pub is_full : ShardRow → List StatusEntry → Bool
is_full s entries = leb (3 * shard_size_bits) (4 * length (keep (λ e. e.list_id == s.id) entries))

unfoldable pub writable_of : Option ShardRow → String → String → Registry → ShardRow × List ShardRow
writable_of none id client store = get_or_create_shard id client 0 store.shards
writable_of (some top) id client store =
    if is_full top store.entries
    then get_or_create_shard id client (suc top.shard_no) store.shards
    else (top, store.shards)

unfoldable pub current_writable_shard : String → String → Registry → ShardRow × List ShardRow
current_writable_shard id client store = writable_of (top_shard client store.shards) id client store

-- The draws of a bit, where one that is taken is skipped, and the new entry.
unfoldable pub draw_bit : String → List ℕ → List StatusEntry → Option ℕ
draw_bit list_id [] entries = none
draw_bit list_id (bit ∷ draws) entries =
    if any (λ e. (e.list_id == list_id) && nat_beq e.bit_index bit) entries
    then draw_bit list_id draws entries
    else some bit

unfoldable pub entry_in : ShardRow → String → String → Option ℕ → Option ℕ → Option StatusEntry
entry_in shard anchor client revoked_at none = none
entry_in shard anchor client revoked_at (some bit) = some (record {
  status_anchor = anchor;
  client_id = client;
  list_id = shard.id;
  bit_index = bit;
  revoked_at = revoked_at;
  reveal_after = revoked_at;
})

unfoldable pub allocate_in_shard :
    ShardRow → String → String → Option ℕ → List ℕ → List StatusEntry → Option StatusEntry
allocate_in_shard shard anchor client revoked_at draws entries =
    entry_in shard anchor client revoked_at
      (draw_bit shard.id (take max_random_attempts draws) entries)

unfoldable pub or_revoked : Bool → ℕ → String → String → List StatusEntry → List StatusEntry
or_revoked revoked now anchor client entries =
    if revoked then force_revoke_entry now anchor client entries else entries

-- The new entry, which is revoked if the anchor is by now.
unfoldable pub add_entry :
    ℕ → Option ℕ → Option StatusEntry → List ShardRow → Registry → Option AllocatedStatus × Registry
add_entry now revoked_at none shards store = (none, record store { shards = shards })
add_entry now revoked_at (some e) shards store = (
  some (at_place e),
  record store {
    shards = shards;
    entries =
        or_revoked (is_set revoked_at || is_set (lookup store.revocations e.status_anchor)) now
          e.status_anchor e.client_id (e ∷ store.entries);
  },
)

-- The entry of the first shard, or of the next one.
unfoldable pub roll :
    ℕ
    → Option ℕ
    → Option StatusEntry
    → List ShardRow
    → Registry
    → Option AllocatedStatus × Registry
    → Option AllocatedStatus × Registry
roll now revoked_at (some e) shards store next = add_entry now revoked_at (some e) shards store
roll now revoked_at none shards store next = next

unfoldable pub allocate_new :
    ℕ
    → String
    → String
    → List ℕ
    → List ℕ
    → String
    → String
    → Option ℕ
    → Registry
    → Option AllocatedStatus × Registry
allocate_new now id next_id draws more anchor client revoked_at store =
    let (shard, shards) = current_writable_shard id client store in
    let (next, all) = get_or_create_shard next_id client (suc shard.shard_no) shards in
    roll now revoked_at (allocate_in_shard shard anchor client revoked_at draws store.entries)
      shards store
      (add_entry now revoked_at (allocate_in_shard next anchor client revoked_at more store.entries)
        all store)

unfoldable pub allocate_or :
    Option AllocatedStatus
    → ℕ
    → String
    → String
    → Option ℕ
    → Option AllocatedStatus × Registry
    → Registry
    → Option AllocatedStatus × Registry
allocate_or (some place) now anchor client revoked_at new store = (
  some place,
  record store { entries = or_revoked (is_set revoked_at) now anchor client store.entries },
)
allocate_or none now anchor client revoked_at new store = new

-- The ids of the shards that may be created, and the draws in each of two shards. `none` is the throw.
unfoldable pub allocate_status_entry :
    ℕ
    → String
    → String
    → List ℕ
    → List ℕ
    → String
    → String
    → Registry
    → Option AllocatedStatus × Registry
allocate_status_entry now id next_id draws more anchor client store =
    let revoked_at = lookup store.revocations anchor in
    allocate_or (find_existing anchor client store.entries) now anchor client revoked_at
      (allocate_new now id next_id draws more anchor client revoked_at store) store

unfoldable pub upsert_revocation : Option ℕ → ℕ → String → Entries String ℕ → Entries String ℕ
upsert_revocation none now anchor revocations = insert revocations anchor now
upsert_revocation (some t) now anchor revocations = revocations

-- `jitter` delays the publication of each entry.
unfoldable pub revoke_entries : (StatusEntry → ℕ) → ℕ → String → List StatusEntry → List StatusEntry
revoke_entries jitter now anchor entries =
    map
      (λ e.
        if (e.status_anchor == anchor) && not (is_set e.revoked_at)
        then record e { revoked_at = some now; reveal_after = some (now + jitter e) }
        else e)
      entries

unfoldable pub revoke_status_anchor : (StatusEntry → ℕ) → ℕ → String → Registry → Registry
revoke_status_anchor jitter now anchor store = record store {
  revocations = upsert_revocation (lookup store.revocations anchor) now anchor store.revocations;
  entries = revoke_entries jitter now anchor store.entries;
}

pub data Call : Type 0 where
  allocate_call : String → String → List ℕ → List ℕ → String → String → Call
  revoke_call : (StatusEntry → ℕ) → String → Call

unfoldable pub perform : ℕ → Call → Registry → Registry
perform now (allocate_call id next_id draws more anchor client) store =
    (allocate_status_entry now id next_id draws more anchor client store).1
perform now (revoke_call jitter anchor) store = revoke_status_anchor jitter now anchor store

unfoldable pub perform_all : List (ℕ × Call) → Registry → Registry
perform_all [] store = store
perform_all ((now, call) ∷ calls) store = perform_all calls (perform now call store)
