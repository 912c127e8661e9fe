-- ===== src/Cache/Doorkeeper.antt =====
-- cache/tinylfu.go: the doorkeeper, a Bloom filter with two bits for each key. A uint64 word is
-- the list of its 64 bits, the lowest first. The total of bits is a power of two, so that
-- `& d.mask` is the remainder.
pub mod Members
use cdn_edge.Common.{
  ℕ, ◌+◌, ◌*◌, ◌/◌, ◌%◌, ◌^◌, Bool, true, false, ◌&&◌, ltb, if◌then◌else◌, List, [], map, Text,
  get_or, set, replicate,
}
use cdn_edge.Common.Bits.{next_pow2}
use cdn_edge.Cache.Sketch.{rotate32}

pub record Doorkeeper : Type 0 where
  pub bits : List (List Bool)
  pub n : ℕ

pub new_doorkeeper : ℕ → Doorkeeper
unfolding next_pow2
new_doorkeeper max_items =
    let w = next_pow2 (max_items * 8 % 2 ^ 64) in
    let total_bits = if ltb w 64 then 64 else w in
    let n_words = total_bits / 64 in
    record { bits = replicate n_words (replicate 64 false); n = n_words }

-- `(bits[p/64] >> (p%64)) & 1 == 1`
pub bit_at : List (List Bool) → ℕ → Bool
bit_at bits p = get_or (get_or bits (p / 64) []) (p % 64) false

-- `bits[p/64] |= 1 << (p%64)`
pub set_bit : List (List Bool) → ℕ → List (List Bool)
set_bit bits p = set bits (p / 64) (set (get_or bits (p / 64) []) (p % 64) true)

module _ (hash : Text → ℕ) where
  pub first_bit : Doorkeeper → Text → ℕ
  first_bit d key = hash key % (d.n * 64)

  pub second_bit : Doorkeeper → Text → ℕ
  second_bit d key = rotate32 (hash key) % (d.n * 64)

  pub door_contains : Text → Doorkeeper → Bool
  unfolding bit_at first_bit second_bit
  door_contains key d = bit_at d.bits (first_bit d key) && bit_at d.bits (second_bit d key)

  -- The result says whether the key was present before.
  pub door_add : Text → Doorkeeper → Doorkeeper × Bool
  unfolding bit_at set_bit first_bit second_bit
  door_add key d =
      let p1 = first_bit d key in
      let p2 = second_bit d key in
      (record d { bits = set_bit (set_bit d.bits p1) p2 }, bit_at d.bits p1 && bit_at d.bits p2)

pub door_reset : Doorkeeper → Doorkeeper
door_reset d = record d { bits = map (map (λ _. false)) d.bits }
