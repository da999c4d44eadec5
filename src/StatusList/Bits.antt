-- ===== src/StatusList/Bits.antt =====
-- Setting a bit sets that bit and no other.
use minister.Common.{
  ℕ, zero, suc, ◌≢◌, ◌+◌, ◌/◌, ◌%◌, ◌<◌, ◌≡◌, refl, false, ◌⊎◌, inl, inr, ◌||◌, List, [], ◌∷◌,
  arith, nat_beq, nat_beq_iff, Bool-cases, length, set, if◌then◌else◌,
}
use minister.StatusList.{mask, has_bit, byte_at}

-- The place and the mask of each bit of a byte.
abbrev IsPlace : ℕ → ℕ → Type 0
IsPlace r m =
    ((r ≡ 0) × (m ≡ 128))
    ⊎ ((r ≡ 1) × (m ≡ 64))
    ⊎ ((r ≡ 2) × (m ≡ 32))
    ⊎ ((r ≡ 3) × (m ≡ 16))
    ⊎ ((r ≡ 4) × (m ≡ 8))
    ⊎ ((r ≡ 5) × (m ≡ 4))
    ⊎ ((r ≡ 6) × (m ≡ 2))
    ⊎ ((r ≡ 7) × (m ≡ 1))

mask-IsPlace : (r : ℕ) → r < 8 → IsPlace r (mask r)
unfolding mask
mask-IsPlace zero h = inl (refl, refl)
mask-IsPlace (suc zero) h = inr (inl (refl, refl))
mask-IsPlace (suc (suc zero)) h = inr (inr (inl (refl, refl)))
mask-IsPlace (suc (suc (suc zero))) h = inr (inr (inr (inl (refl, refl))))
mask-IsPlace (suc (suc (suc (suc zero)))) h = inr (inr (inr (inr (inl (refl, refl)))))
mask-IsPlace (suc (suc (suc (suc (suc zero))))) h = inr (inr (inr (inr (inr (inl (refl, refl))))))
mask-IsPlace (suc (suc (suc (suc (suc (suc zero)))))) h =
    inr (inr (inr (inr (inr (inr (inl (refl, refl)))))))
mask-IsPlace (suc (suc (suc (suc (suc (suc (suc zero))))))) h =
    inr (inr (inr (inr (inr (inr (inr (refl, refl)))))))
mask-IsPlace (suc (suc (suc (suc (suc (suc (suc (suc n)))))))) h = absurd (ground arith)

flip-other :
    (b r s k m : ℕ)
    → IsPlace r k
    → IsPlace s m
    → (b / m) % 2 ≡ 0
    → r ≢ s
    → ((b + m) / k) % 2 ≡ (b / k) % 2
flip-other b r s k m p q h n = ground arith

flip-same : (b s m : ℕ) → IsPlace s m → (b / m) % 2 ≡ 0 → ((b + m) / m) % 2 ≡ 1
flip-same b s m q h = ground arith

pub has_bit-add :
    (b r s : ℕ)
    → r < 8
    → s < 8
    → has_bit b s ≡ false
    → has_bit (b + mask s) r ≡ (nat_beq r s || has_bit b r)
unfolding has_bit
has_bit-add b r s p q h = elim (Bool-cases (nat_beq r s)) [
  | inl same ↦
      let e : r ≡ s = (nat_beq_iff r s).0 same in
      let clear : (b / mask s) % 2 ≡ 0 = ground arith in
      let one = flip-same b s (mask s) (mask-IsPlace s q) clear in rw same (ground (arith, one, e))
  | inr differs ↦
      let clear : (b / mask s) % 2 ≡ 0 = ground arith in
      let kept =
        flip-other b r s (mask r) (mask s) (mask-IsPlace r p) (mask-IsPlace s q) clear
          (ground (arith, nat_beq_iff r s, differs)) in
      rw (differs, kept) refl
]

pub byte_at-set :
    (bits : List ℕ) (i j byte : ℕ)
    → i < length bits
    → byte_at (set bits i byte) j ≡ (if nat_beq i j then byte else byte_at bits j)
unfolding byte_at
byte_at-set [] i j byte h = absurd (ground arith)
byte_at-set (x ∷ bits) zero zero byte h = refl
byte_at-set (x ∷ bits) zero (suc j) byte h = ground arith
byte_at-set (x ∷ bits) (suc i) zero byte h = ground arith
byte_at-set (x ∷ bits) (suc i) (suc j) byte h =
    let rest = byte_at-set bits i j byte (ground arith) in ground (arith, rest)
