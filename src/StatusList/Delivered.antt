-- ===== src/StatusList/Delivered.antt =====
-- That a revocation is published: publishList of apps/minister/src/lib/status-list/publish.ts, where no other
-- writer is in between.
use minister.Common.{
  ℕ, suc, ◌/◌, ◌≤◌, ◌<◌, max, String, ◌≡◌, refl, sym, ap, ◌∙◌, inl, inr, Bool, true, false, Option,
  some, List, [], ◌∷◌, Bool-cases, any, arith, In, In-nil, In-cases, In-map, In-keep, ltb, nat_beq,
  nat_beq_iff, length, All, lookup, insert, lookup-insert, same_refl, string_eq, given, stop_if,
}
use minister.StatusList.{shard_size_bits, get_bit, set_bits}
use minister.StatusList.Publish.{set_bits-get_bit, set_bits-same}
use minister.StatusList.Registry.{StatusEntry}
use minister.StatusList.Publisher.{
  ListRow, Lists, StatusListPayload, published, Outcome, returned, is_eligible, eligible_bits, Try,
  update_list, publish_attempt, or_again, try_each, publish_list, build_status_list_payload,
  max_int4,
}
use minister.StatusList.Published.{IsReadable, eligible-within}

any-In : (i : ℕ) (xs : List ℕ) → In i xs → any (nat_beq i) xs ≡ true
any-In i [] m = absurd (In-nil m)
any-In i (x ∷ xs) m = elim (In-cases m) [
  | inl e ↦ ground (arith, (nat_beq_iff i x).1 e)
  | inr later ↦ ground (arith, any-In i xs later)
]

eligible-In :
    (now : ℕ) (list_id : String) (entries : List StatusEntry) (e : StatusEntry)
    → In e entries
    → is_eligible now list_id e ≡ true
    → In e.bit_index (eligible_bits now list_id entries)
unfolding eligible_bits
eligible-In now list_id entries e m h = In-map _ (In-keep _ m h)

differ : ◌≡◌ {A = Option Bool} (some true) (some false) → ⊥
differ e = cc

-- The bit of an entry that was clear makes the count of new bits positive.
sets-new :
    (bits indices : List ℕ) (i : ℕ)
    → length bits ≡ 1024
    → All (λ j. j < shard_size_bits) indices
    → In i indices
    → get_bit bits i ≡ some false
    → (revoked : ℕ) × (last : List ℕ) × (set_bits bits indices ≡ some (revoked, last))
      × (ltb 0 revoked ≡ true)
      × (get_bit last i ≡ some true)
sets-new bits indices i full within m clear =
    let (revoked, last, done, _, reads) = set_bits-get_bit bits indices full within in
    let is : get_bit last i ≡ some true = reads i false clear ∙ rw (any-In i indices m) refl in
    (
      revoked,
      last,
      done,
      elim (Bool-cases (ltb 0 revoked)) [
        | inl some_new ↦ some_new
        | inr none_new ↦
            let same : last ≡ bits =
              set_bits-same bits indices (revoked, last) done (ground (arith, none_new)) in
            absurd (differ (sym is ∙ ap (λ bs. get_bit bs i) same ∙ clear))
      ],
      is,
    )

module _ (url_of : String → String) (sign : StatusListPayload → Option String) where
  -- The signed list of a row, which the verifiers are served: it is for the list and the version of the
  -- row, and has its bits.
  unfoldable pub IsServed : String → String → ListRow → StatusListPayload → Type 0
  IsServed issuer_did list_id next payload =
      (sign payload ≡ some next.signed_jwt)
      × (payload.iss ≡ issuer_did)
      × (payload.sub ≡ url_of list_id)
      × (payload.status_list_version ≡ next.version)
      × (payload.encoded_list ≡ next.bits)

  -- The row after a publication that had a list to itself.
  unfoldable pub IsDelivered : String → String → ℕ → ℕ → Outcome × Option Lists → Type 0
  IsDelivered issuer_did list_id i now out =
      (version revoked : ℕ) × (last : Lists) × (next : ListRow) × (payload : StatusListPayload)
      × (out ≡ (returned (published version true revoked), some last))
      × (lookup last.rows list_id ≡ some next)
      × (now / 1000 ≤ version)
      × (next.version ≡ version)
      × (get_bit next.bits i ≡ some true)
      × IsServed issuer_did list_id next payload

  alone :
      (now : ℕ) (force : Bool) (issuer_did list_id : String) (t : Try) (row : ListRow)
      (i revoked : ℕ) (bits : List ℕ)
      → ((p : StatusListPayload) → (jwt : String) × (sign p ≡ some jwt))
      → lookup t.seen.rows list_id ≡ some row
      → lookup t.store.rows list_id ≡ some row
      → set_bits row.bits (eligible_bits now list_id t.seen.entries) ≡ some (revoked, bits)
      → ltb 0 revoked ≡ true
      → get_bit bits i ≡ some true
      → row.version < max_int4
      → now / 1000 ≤ max_int4
      → (version : ℕ) × (last : Lists) × (next : ListRow) × (payload : StatusListPayload)
        × (publish_attempt url_of sign now force issuer_did list_id t
            ≡ (returned (published version true revoked), last))
        × (lookup last.rows list_id ≡ some next)
        × (now / 1000 ≤ version)
        × (next.version ≡ version)
        × (get_bit next.bits i ≡ some true)
        × IsServed issuer_did list_id next payload
  unfolding IsServed build_status_list_payload publish_attempt update_list given stop_if
  alone now force issuer_did list_id t row i revoked bits signs seen stored set new is below soon =
      let version = max (suc row.version) (now / 1000) in
      let payload =
        build_status_list_payload url_of sign issuer_did list_id bits version now t.jti in
      let (jwt, signed) = signs payload in
      let next : ListRow = record {
        version = version;
        bits = bits;
        signed_jwt = jwt;
        published_at = now;
      } in
      let fits : ltb max_int4 version ≡ false = ground (arith, below, soon) in
      (
        version,
        record t.store { rows = insert t.store.rows list_id next },
        next,
        payload,
        rw (seen, set, new, signed, fits, stored, (nat_beq_iff row.version row.version).1 refl)
            refl,
        rw (lookup-insert t.store.rows list_id list_id next, same_refl list_id) refl,
        omega arith,
        refl,
        is,
        (signed, refl, refl, refl, refl),
      )

  -- A revocation that may be shown is published. Where the lists are full with the entries within
  -- them, the bit of such an entry is clear, signing does not throw, and no other writer changes the
  -- row between the first read and its update, and the version and the time in seconds fit in the
  -- column, the run says that it has published a change. It leaves the row with the version that it
  -- reports, at least the time in seconds, and the bit set; and the signed list of the row, which the
  -- verifiers are served, is for that list and that version, and has the bits of the row.
  pub publish_list-delivers :
      (now : ℕ) (force : Bool) (issuer_did list_id : String) (t : Try) (tries : List Try)
      (row : ListRow) (e : StatusEntry)
      → ((p : StatusListPayload) → (jwt : String) × (sign p ≡ some jwt))
      → IsReadable list_id t.seen
      → lookup t.seen.rows list_id ≡ some row
      → lookup t.store.rows list_id ≡ some row
      → In e t.seen.entries
      → is_eligible now list_id e ≡ true
      → get_bit row.bits e.bit_index ≡ some false
      → row.version < max_int4
      → now / 1000 ≤ max_int4
      → IsDelivered issuer_did list_id e.bit_index now
          (publish_list url_of sign now force issuer_did list_id (t ∷ tries))
  unfolding publish_list try_each or_again IsDelivered IsReadable
  publish_list-delivers now force issuer_did list_id t tries row e signs readable seen stored m
        eligible clear below soon =
      let indices = eligible_bits now list_id t.seen.entries in
      let (revoked, bits, set, new, is) =
        sets-new row.bits indices e.bit_index (readable.0 row seen)
          (eligible-within now list_id t.seen.entries readable.1)
          (eligible-In now list_id t.seen.entries e m eligible) clear in
      let (version, last, next, payload, done, found, late, same, set_bit, served) =
        alone now force issuer_did list_id t row e.bit_index revoked bits signs seen stored set new
          is below soon in
      (version, revoked, last, next, payload, rw done refl, found, late, same, set_bit, served)
