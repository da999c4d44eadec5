-- ===== src/StatusList/Publish.antt =====
-- The bits that a publication sets: those of the eligible entries, and no bit is ever cleared.
use minister.Common.{
  ℕ, ◌+◌, ◌/◌, ◌%◌, ◌<◌, ◌≡◌, ◌∙◌, ap, refl, Bool, true, false, not, ◌||◌, Option, none, some, List,
  [], ◌∷◌, arith, nat_beq, nat_beq_iff, ltb, any, All, length, set, length-set, Bool-cases, inl,
  inr, if◌then◌else◌,
}
use minister.StatusList.{
  shard_size_bits, mask, has_bit, byte_at, get_bit, set_bit, set_bits, add_changed, and_then_set,
}
use minister.StatusList.Bits.{has_bit-add, byte_at-set}

same-index : (i j : ℕ) → (i / 8 ≡ j / 8) → (i % 8 ≡ j % 8) → i ≡ j
same-index i j e f = omega (arith, e, f)

-- The bit at an index after the byte of another index has gained a clear bit.
gained-bit :
    (bits : List ℕ) (i j : ℕ)
    → i / 8 < length bits
    → has_bit (byte_at bits (i / 8)) (i % 8) ≡ false
    → has_bit (byte_at (set bits (i / 8) (byte_at bits (i / 8) + mask (i % 8))) (j / 8)) (j % 8)
      ≡ (nat_beq j i || has_bit (byte_at bits (j / 8)) (j % 8))
gained-bit bits i j within clear =
    rw (byte_at-set bits (i / 8) (j / 8) (byte_at bits (i / 8) + mask (i % 8)) within)
      (elim (Bool-cases (nat_beq (i / 8) (j / 8))) [
        | inr other ↦
            let apart : nat_beq j i ≡ false =
              ground (arith, other, nat_beq_iff j i, nat_beq_iff (i / 8) (j / 8)) in
            rw (other, apart) refl
        | inl same ↦
            let e : i / 8 ≡ j / 8 = (nat_beq_iff (i / 8) (j / 8)).0 same in
            let gains =
              has_bit-add (byte_at bits (i / 8)) (j % 8) (i % 8) (omega arith) (omega arith)
                clear in
            let places : nat_beq (j % 8) (i % 8) ≡ nat_beq j i =
              ground (arith, nat_beq_iff (j % 8) (i % 8), nat_beq_iff j i, e) in
            rw same (rw (gains, places, e) refl)
      ])

-- In a full list, setting a bit that exists gives whether it was clear, keeps the length, and changes
-- no bit but that one, which is set afterwards.
pub set_bit-get_bit :
    (bits next : List ℕ) (i j : ℕ) (changed old : Bool)
    → length bits ≡ 1024
    → set_bit bits i ≡ some (changed, next)
    → get_bit bits j ≡ some old
    → (length next ≡ 1024)
      × (get_bit bits i ≡ some (not changed))
      × (get_bit next j ≡ some (nat_beq j i || old))
unfolding set_bit get_bit
set_bit-get_bit bits next i j changed old full done read =
    elim (Bool-cases (ltb i shard_size_bits)) [
      | inr beyond ↦ absurd (ground (arith, beyond, done))
      | inl within ↦ elim (Bool-cases (has_bit (byte_at bits (i / 8)) (i % 8))) [
        | inl already ↦
            let e : (false ≡ changed) × (bits ≡ next) = ground (arith, within, already, done) in
            rw (← e.0, ← e.1)
              (
                full,
                ground (arith, within, already),
                elim (Bool-cases (nat_beq j i)) [
                  | inl this ↦
                      let p : j ≡ i = (nat_beq_iff j i).0 this in
                      rw this (rw p (rw (within, already) refl))
                  | inr that ↦ rw that read
                ],
              )
        | inr clear ↦
            let e : (true ≡ changed)
                × (set bits (i / 8) (byte_at bits (i / 8) + mask (i % 8)) ≡ next) =
              ground (arith, within, clear, done) in
            let gains = gained-bit bits i j (ground (arith, within, full)) clear in
            rw (← e.0, ← e.1)
              (
                omega (arith, full, length-set bits (i / 8) (byte_at bits (i / 8) + mask (i % 8))),
                ground (arith, within, clear),
                elim (Bool-cases (ltb j shard_size_bits)) [
                  | inl inside ↦
                      let was : some (has_bit (byte_at bits (j / 8)) (j % 8)) ≡ some old =
                        rw inside at read in
                      rw inside (rw gains (ground (arith, was)))
                  | inr outside ↦ ground (arith, outside, read)
                ],
              )
      ]
    ]

or-swap : (a b c : Bool) → (a || (b || c)) ≡ ((b || a) || c)
or-swap a b c = ground arith

set_bit-total :
    (bits : List ℕ) (i : ℕ)
    → i < shard_size_bits
    → (changed : Bool) × (next : List ℕ) × (set_bit bits i ≡ some (changed, next))
unfolding set_bit
set_bit-total bits i h = elim (Bool-cases (has_bit (byte_at bits (i / 8)) (i % 8))) [
  | inl already ↦ (false, bits, ground (arith, already))
  | inr clear ↦
      (true, set bits (i / 8) (byte_at bits (i / 8) + mask (i % 8)), ground (arith, clear))
]

get_bit-total :
    (bits : List ℕ) (i : ℕ) → i < shard_size_bits → (old : Bool) × (get_bit bits i ≡ some old)
unfolding get_bit
get_bit-total bits i h = (has_bit (byte_at bits (i / 8)) (i % 8), ground arith)

-- Setting the bits of any entries of a full list, whose indices are within the list, gives a full
-- list. Each of its bits is set exactly if it was set before or is the bit of one of the entries:
-- no published bit is cleared, and no entry is left out.
pub set_bits-get_bit :
    (bits indices : List ℕ)
    → length bits ≡ 1024
    → All (λ i. i < shard_size_bits) indices
    → (revoked : ℕ) × (last : List ℕ) × (set_bits bits indices ≡ some (revoked, last))
      × (length last ≡ 1024)
      × ((j : ℕ) (old : Bool)
          → get_bit bits j ≡ some old
          → get_bit last j ≡ some (any (nat_beq j) indices || old))
unfolding set_bits
set_bits-get_bit bits [] full within = (0, bits, refl, full, λ j old read. read)
set_bits-get_bit bits (i ∷ indices) full within =
    let (changed, next, done) = set_bit-total bits i within.0 in
    let (before, read) = get_bit-total bits i within.0 in
    let (full_next, was, is) = set_bit-get_bit bits next i i changed before full done read in
    let (revoked, last, all_done, full_last, reads) =
      set_bits-get_bit next indices full_next within.1 in
    (
      (if changed then 1 else 0) + revoked,
      last,
      rw done (rw all_done refl),
      full_last,
      λ j old here_is.
          let one = (set_bit-get_bit bits next i j changed old full done here_is).2 in
          let rest = reads j (nat_beq j i || old) one in
          rest ∙ ap some (or-swap (any (nat_beq j) indices) (nat_beq j i) old),
    )

unset-same :
    (within has : Bool) (bits other next : List ℕ)
    → ◌≡◌ {A = Option (Bool × List ℕ)}
        (if within then if has then some (false, bits) else some (true, other) else none)
        (some (false, next))
    → next ≡ bits
unset-same true true bits other next e = cc
unset-same true false bits other next e = absurd cc
unset-same false has bits other next e = absurd cc

set_bit-same :
    (bits next : List ℕ) (index : ℕ) → set_bit bits index ≡ some (false, next) → next ≡ bits
unfolding set_bit
set_bit-same bits next index e = unset-same _ _ bits _ next e

add_changed-same :
    (changed : Bool) (rest : Option (ℕ × List ℕ)) (set : ℕ × List ℕ)
    → add_changed changed rest ≡ some set
    → set.0 ≡ 0
    → (changed ≡ false) × (rest ≡ some set)
add_changed-same changed none set e z = absurd cc
add_changed-same true (some (n, last)) (m, bits) e z =
    let p : 1 + n ≡ m = cc in absurd (omega (arith, p, z))
add_changed-same false (some (n, last)) set e z =
    let p : 0 + n ≡ n = omega arith in (refl, (rw p at e))

step-same :
    (bits : List ℕ) (step : Option (Bool × List ℕ)) (k : List ℕ → Option (ℕ × List ℕ))
    (set : ℕ × List ℕ)
    → ((next : List ℕ) → step ≡ some (false, next) → next ≡ bits)
    → and_then_set step k ≡ some set
    → set.0 ≡ 0
    → k bits ≡ some set
step-same bits none k set same e z = absurd cc
step-same bits (some (changed, next)) k set same e z =
    let (unchanged, rest) = add_changed-same changed (k next) set e z in
    let p : next ≡ bits = same next (rw unchanged refl) in (rw p at rest)

-- If no bit was clear, the bits stay.
pub set_bits-same :
    (bits indices : List ℕ) (set : ℕ × List ℕ)
    → set_bits bits indices ≡ some set
    → set.0 ≡ 0
    → set.1 ≡ bits
unfolding set_bits
set_bits-same bits [] (n, last) e z = cc
set_bits-same bits (index ∷ indices) set e z =
    set_bits-same bits indices set
      (step-same bits (set_bit bits index) (λ next. set_bits next indices) set
        (λ next f. set_bit-same bits next index f) e z)
      z
