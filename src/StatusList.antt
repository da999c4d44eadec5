-- ===== src/StatusList.antt =====
-- apps/minister/src/lib/status-list/bitstring.ts: the bits of a status list, in bytes, the first
-- bit of a byte being its highest. A throw is `none`.
mod Tests
pub mod Bits
pub mod Publish
pub mod Registry
pub mod Publisher
pub mod Published
pub mod Delivered
pub mod Sweep
pub mod Tombstones
pub mod Revoked
pub mod Steps
use minister.Common.{
  ℕ, ◌+◌, ◌/◌, ◌%◌, ◌^◌, Bool, true, false, Option, none, some, List, [], ◌∷◌, ltb, nat_beq,
  get_elem?, set, replicate, if◌then◌else◌,
}

abbrev pub shard_size_bits : ℕ
shard_size_bits = 8192

abbrev pub shard_size_bytes : ℕ
shard_size_bytes = 1024

abbrev pub new_bitstring : List ℕ
new_bitstring = replicate shard_size_bytes 0

-- `0x80 >> place`
unfoldable pub mask : ℕ → ℕ
mask place = 128 / 2 ^ place

-- `(byte & mask) !== 0`, for a mask of one bit.
unfoldable pub has_bit : ℕ → ℕ → Bool
has_bit byte place = nat_beq ((byte / mask place) % 2) 1

-- `bits[i] ?? 0`
abbrev or_zero : Option ℕ → ℕ
or_zero none = 0
or_zero (some byte) = byte

unfoldable pub byte_at : List ℕ → ℕ → ℕ
byte_at bits i = or_zero (get_elem? bits i)

unfoldable pub get_bit : List ℕ → ℕ → Option Bool
get_bit bits index =
    if ltb index shard_size_bits
    then some (has_bit (byte_at bits (index / 8)) (index % 8))
    else none

-- `prev | mask` is the sum where the bit is clear.
unfoldable pub set_bit : List ℕ → ℕ → Option (Bool × List ℕ)
set_bit bits index =
    let prev = byte_at bits (index / 8) in
    if ltb index shard_size_bits
    then if has_bit prev (index % 8)
      then some (false, bits)
      else some (true, set bits (index / 8) (prev + mask (index % 8)))
    else none

abbrev pub add_changed : Bool → Option (ℕ × List ℕ) → Option (ℕ × List ℕ)
add_changed changed none = none
add_changed changed (some (revoked, bits)) = some ((if changed then 1 else 0) + revoked, bits)

abbrev pub and_then_set :
    Option (Bool × List ℕ) → (List ℕ → Option (ℕ × List ℕ)) → Option (ℕ × List ℕ)
and_then_set none k = none
and_then_set (some (changed, next)) k = add_changed changed (k next)

-- The loop of a publication over the eligible entries: how many bits were clear, and the bits.
unfoldable pub set_bits : List ℕ → List ℕ → Option (ℕ × List ℕ)
set_bits bits [] = some (0, bits)
set_bits bits (index ∷ indices) = and_then_set (set_bit bits index) (λ next. set_bits next indices)
