-- ===== src/StatusList/Published.antt =====
-- What a publication says.
use minister.Common.{
  ℕ, ◌+◌, ◌/◌, ◌≤◌, ◌<◌, String, ◌≡◌, refl, sym, ap, ◌∙◌, inl, inr, Bool, true, false, not, ◌||◌,
  Option, none, some, List, [], ◌∷◌, take, Bool-cases, any, arith, In, here, there, ltb, nat_beq,
  length, All, All-take, if◌then◌else◌, lookup, insert, string_eq, given-rule, stop_if-rule,
}
use minister.StatusList.{shard_size_bits, get_bit, set_bits}
use minister.StatusList.Publish.{set_bits-get_bit, set_bits-same}
use minister.StatusList.Registry.{StatusEntry}
use minister.StatusList.Publisher.{
  ListRow, Lists, StatusListPayload, unpublished, published, Outcome, returned, raced, threw,
  eligible_bits, Try, update_list, publish_attempt, or_again, try_each, publish_list,
  build_status_list_payload, max_int4, validity_window_ms, is_eligible,
}

-- The bits of each list are full, and each index of an entry is one of theirs.
unfoldable pub IsReadable : String → Lists → Type 0
IsReadable list_id lists =
    ((row : ListRow) → lookup lists.rows list_id ≡ some row → length row.bits ≡ 1024)
    × All (λ (e : StatusEntry). e.bit_index < shard_size_bits) lists.entries

pub eligible-within :
    (now : ℕ) (list_id : String) (entries : List StatusEntry)
    → All (λ (e : StatusEntry). e.bit_index < shard_size_bits) entries
    → All (λ i. i < shard_size_bits) (eligible_bits now list_id entries)
unfolding eligible_bits
eligible-within now list_id [] h = tt
eligible-within now list_id (e ∷ es) h = elim (Bool-cases (is_eligible now list_id e)) [
  | inl shown ↦ rw shown ((h.0, eligible-within now list_id es h.1))
  | inr hidden ↦ rw hidden (eligible-within now list_id es h.1)
]

same_set :
    (n k : ℕ) (a b : List ℕ) → ◌≡◌ {A = Option (ℕ × List ℕ)} (some (n, a)) (some (k, b)) → a ≡ b
same_set n k a b e = cc

set-reads :
    (bits indices : List ℕ) (set : ℕ × List ℕ)
    → length bits ≡ 1024
    → All (λ i. i < shard_size_bits) indices
    → set_bits bits indices ≡ some set
    → (j : ℕ) (old : Bool) → get_bit bits j ≡ some old
    → get_bit set.1 j ≡ some (any (nat_beq j) indices || old)
set-reads bits indices set full within done j old read =
    let (revoked, last, its, _, reads) = set_bits-get_bit bits indices full within in
    let p : last ≡ set.1 = same_set revoked set.0 last set.1 (sym its ∙ done) in
    ap (λ bs. get_bit bs j) (sym p) ∙ reads j old read

not-false : (b : Bool) → not b ≡ false → b ≡ true
not-false b h = ground arith

module _ (url_of : String → String) (sign : StatusListPayload → Option String) where
  -- A publication of a list, of a row that its reads saw.
  unfoldable pub IsPublication : ℕ → String → String → Try → ℕ → Bool → Lists → Type 0
  IsPublication now issuer_did list_id t version changed last =
      (row stored next : ListRow) × (payload : StatusListPayload) × (lookup t.seen.rows list_id
        ≡ some row)
      × (lookup t.store.rows list_id ≡ some stored)
      × (stored.version ≡ row.version)
      × (row.version < version)
      × (now / 1000 ≤ version)
      × (version ≤ max_int4)
      × (last ≡ record t.store { rows = insert t.store.rows list_id next })
      × (next.version ≡ version)
      × (sign payload ≡ some next.signed_jwt)
      × (payload.iss ≡ issuer_did)
      × (payload.sub ≡ url_of list_id)
      × (payload.status_list_version ≡ version)
      × (payload.exp ≡ (now + validity_window_ms) / 1000)
      × (changed ≡ false → payload.encoded_list ≡ row.bits)
      × (next.bits ≡ (if changed then payload.encoded_list else stored.bits))
      × ((j : ℕ) (old : Bool)
          → get_bit row.bits j ≡ some old
          → get_bit payload.encoded_list j
            ≡ some (any (nat_beq j) (eligible_bits now list_id t.seen.entries) || old))

  unfoldable pub IsOutcome : ℕ → String → String → Try → Outcome × Lists → Type 0
  IsOutcome now issuer_did list_id t (returned (published version changed n), last) =
      IsPublication now issuer_did list_id t version changed last
  IsOutcome now issuer_did list_id t (returned unpublished, last) = last ≡ t.store
  IsOutcome now issuer_did list_id t (raced, last) = last ≡ t.store
  IsOutcome now issuer_did list_id t (threw, last) = last ≡ t.store

  -- An outcome that publishes nothing.
  IsQuiet : Outcome → Type 0
  IsQuiet (returned (published version changed n)) = ⊥
  IsQuiet (returned unpublished) = Unit
  IsQuiet raced = Unit
  IsQuiet threw = Unit

  stays :
      (r : Outcome) (now : ℕ) (issuer_did list_id : String) (t : Try)
      → IsQuiet r
      → IsOutcome now issuer_did list_id t (r, t.store)
  unfolding IsOutcome IsQuiet
  stays (returned (published version changed n)) now issuer_did list_id t q = absurd q
  stays (returned unpublished) now issuer_did list_id t q = refl
  stays raced now issuer_did list_id t q = refl
  stays threw now issuer_did list_id t q = refl

  update_list-IsOutcome :
      (now : ℕ) (issuer_did list_id : String) (t : Try) (row : ListRow) (set : ℕ × List ℕ)
      (version : ℕ) (jwt : String)
      → lookup t.seen.rows list_id ≡ some row
      → row.version < version
      → now / 1000 ≤ version
      → sign (build_status_list_payload url_of sign issuer_did list_id set.1 version now t.jti)
        ≡ some jwt
      → (set.0 ≡ 0 → set.1 ≡ row.bits)
      → ((j : ℕ) (old : Bool)
          → get_bit row.bits j ≡ some old
          → get_bit set.1 j
            ≡ some (any (nat_beq j) (eligible_bits now list_id t.seen.entries) || old))
      → IsOutcome now issuer_did list_id t
          (update_list url_of sign now list_id row set version jwt t.store)
  unfolding update_list IsOutcome IsPublication build_status_list_payload
  update_list-IsOutcome now issuer_did list_id t row set version jwt found newer late signed unset
        reads =
      let P = IsOutcome now issuer_did list_id t in
      stop_if-rule P _ _ _ (λ _. refl)
        (λ fits.
          given-rule P _ _ _ (λ _. refl)
            (λ stored has_stored.
              stop_if-rule P _ _ _ (λ _. refl)
                (λ same. (
                  row,
                  stored,
                  record {
                    version = version;
                    bits = if ltb 0 set.0 then set.1 else stored.bits;
                    signed_jwt = jwt;
                    published_at = now;
                  },
                  build_status_list_payload url_of sign issuer_did list_id set.1 version now t.jti,
                  found,
                  has_stored,
                  ground (arith, same),
                  newer,
                  late,
                  ground (arith, fits),
                  refl,
                  refl,
                  signed,
                  refl,
                  refl,
                  refl,
                  refl,
                  λ clear. unset (ground (arith, clear)),
                  refl,
                  reads,
                ))))

  publish_attempt-IsOutcome :
      (now : ℕ) (force : Bool) (issuer_did list_id : String) (t : Try)
      → IsReadable list_id t.seen
      → IsOutcome now issuer_did list_id t
          (publish_attempt url_of sign now force issuer_did list_id t)
  unfolding publish_attempt IsReadable IsQuiet
  publish_attempt-IsOutcome now force issuer_did list_id t readable =
      let P = IsOutcome now issuer_did list_id t in
      given-rule P _ _ _ (λ _. stays (returned unpublished) now issuer_did list_id t tt)
        (λ row found.
          given-rule P _ _ _ (λ _. stays threw now issuer_did list_id t tt)
            (λ set is_set.
              stop_if-rule P _ _ _ (λ _. stays (returned unpublished) now issuer_did list_id t tt)
                (λ _.
                  given-rule P _ _ _ (λ _. stays threw now issuer_did list_id t tt)
                    (λ jwt signed.
                      update_list-IsOutcome now issuer_did list_id t row set _ jwt found
                        (omega arith) (omega arith) signed
                        (λ clear. set_bits-same row.bits _ set is_set clear)
                        (λ j old read.
                          set-reads row.bits _ set (readable.0 row found)
                            (eligible-within now list_id t.seen.entries readable.1) is_set j old
                            read)))))

  -- The outcome of a run of tries.
  unfoldable pub IsRun : ℕ → String → String → List Try → Outcome × Option Lists → Type 0
  IsRun now issuer_did list_id tries (returned (published version changed n), some last) =
      (t : Try) × In t tries × IsPublication now issuer_did list_id t version changed last
  IsRun now issuer_did list_id tries (returned (published version changed n), none) = ⊥
  IsRun now issuer_did list_id tries (returned unpublished, some last) =
      (t : Try) × In t tries × (last ≡ t.store)
  IsRun now issuer_did list_id tries (returned unpublished, none) = Unit
  IsRun now issuer_did list_id tries (raced, last) = ⊥
  IsRun now issuer_did list_id tries (threw, some last) = (t : Try) × In t tries × (last ≡ t.store)
  IsRun now issuer_did list_id tries (threw, none) = ⊥

  later-IsRun :
      (now : ℕ) (issuer_did list_id : String) (t : Try) (tries : List Try)
      (out : Outcome × Option Lists)
      → IsRun now issuer_did list_id tries out
      → IsRun now issuer_did list_id (t ∷ tries) out
  unfolding IsRun
  later-IsRun now issuer_did list_id t tries (returned (published version changed n), some last)
        (u, m, h) =
      (u, there m, h)
  later-IsRun now issuer_did list_id t tries (returned (published version changed n), none) h = h
  later-IsRun now issuer_did list_id t tries (returned unpublished, some last) (u, m, h) =
      (u, there m, h)
  later-IsRun now issuer_did list_id t tries (returned unpublished, none) h = h
  later-IsRun now issuer_did list_id t tries (raced, last) h = h
  later-IsRun now issuer_did list_id t tries (threw, some last) (u, m, h) = (u, there m, h)
  later-IsRun now issuer_did list_id t tries (threw, none) h = h

  or_again-IsRun :
      (now : ℕ) (issuer_did list_id : String) (t : Try) (tries : List Try) (out : Outcome × Lists)
      (again : Outcome × Option Lists)
      → IsOutcome now issuer_did list_id t out
      → IsRun now issuer_did list_id tries again
      → IsRun now issuer_did list_id (t ∷ tries) (or_again url_of sign out again)
  unfolding IsOutcome IsRun or_again
  or_again-IsRun now issuer_did list_id t tries (returned (published version changed n), last) again
        h k =
      (t, here, h)
  or_again-IsRun now issuer_did list_id t tries (returned unpublished, last) again h k =
      (t, here, h)
  or_again-IsRun now issuer_did list_id t tries (threw, last) again h k = (t, here, h)
  or_again-IsRun now issuer_did list_id t tries (raced, last) again h k =
      later-IsRun now issuer_did list_id t tries again k

  try_each-IsRun :
      (now : ℕ) (force : Bool) (issuer_did list_id : String) (tries : List Try)
      → All (λ (t : Try). IsReadable list_id t.seen) tries
      → IsRun now issuer_did list_id tries (try_each url_of sign now force issuer_did list_id tries)
  unfolding try_each IsRun
  try_each-IsRun now force issuer_did list_id [] h = tt
  try_each-IsRun now force issuer_did list_id (t ∷ tries) h =
      or_again-IsRun now issuer_did list_id t tries _ _
        (publish_attempt-IsOutcome now force issuer_did list_id t h.0)
        (try_each-IsRun now force issuer_did list_id tries h.1)

  -- A publication of a list, whatever other writers do between its reads and its updates. It
  -- publishes at most once, in one of its first four tries, and leaves the tables as they were in
  -- any other outcome. Then the row still had the version that was read, and gets a larger one, that its column can hold; the
  -- payload that was signed names the list, the version and its expiry; and each bit of it is set
  -- exactly if it was set before or is the bit of an entry that was revoked and may be shown. The
  -- row gets those bits if the result says that one has changed, and if not, they are the bits that
  -- were read. The lists that are read are full, with entries
  -- within them.
  pub publish_list-IsRun :
      (now : ℕ) (force : Bool) (issuer_did list_id : String) (tries : List Try)
      → All (λ (t : Try). IsReadable list_id t.seen) tries
      → IsRun now issuer_did list_id
          (take 4 tries)
          (publish_list url_of sign now force issuer_did list_id tries)
  unfolding publish_list
  publish_list-IsRun now force issuer_did list_id tries h =
      try_each-IsRun now force issuer_did list_id (take 4 tries)
        (All-take (λ (t : Try). IsReadable list_id t.seen) 4 tries h)
