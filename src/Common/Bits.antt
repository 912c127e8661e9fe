-- ===== src/Common/Bits.antt =====
-- `math/bits.Len64`, and the powers of two that the caches size their tables by.
use native.Mathlib.Nat.{pow-suc, one-le-pow, mod-eq_of_lt}
use cdn_edge.Common.{
  ℕ, zero, suc, ◌-◌, ◌*◌, ◌/◌, ◌%◌, ◌^◌, ◌≤◌, ◌<◌, ◌≡◌, refl, ◌∙◌, inl, inr, Bool-cases, arith,
  ◌==◌, if◌then◌else◌,
}

-- The number of bits of `x`, at most as many as the fuel.
unfoldable pub bit_length : ℕ → ℕ → ℕ
bit_length zero x = 0
bit_length (suc f) x = let longer = suc (bit_length f (x / 2)) in if x == 0 then 0 else longer

bit_length-zero : (f : ℕ) → bit_length f 0 ≡ 0
unfolding bit_length
bit_length-zero zero = refl
bit_length-zero (suc f) = refl

bit_length-suc : (f x : ℕ) → bit_length (suc f) (suc x) ≡ suc (bit_length f (suc x / 2))
unfolding bit_length
bit_length-suc f x = ground arith

pub lt-pow_bit_length : (f x : ℕ) → x < 2 ^ f → x < 2 ^ bit_length f x
unfolding bit_length
lt-pow_bit_length zero x h = h
lt-pow_bit_length (suc f) x h = elim (Bool-cases (x == 0)) [
  | inl e ↦ rw e (ground arith)
  | inr e ↦
      let half : x / 2 < 2 ^ f = omega (arith, pow-suc 2 f) in
      rw e (omega (arith, lt-pow_bit_length f (x / 2) half, pow-suc 2 (bit_length f (x / 2))))
]

pub pow_bit_length-le : (f x : ℕ) → 0 < x → 2 ^ bit_length f x ≤ 2 * x
unfolding bit_length
pow_bit_length-le zero x h = omega arith
pow_bit_length-le (suc f) zero h = elim h [ ]
pow_bit_length-le (suc f) (suc zero) h = rw (bit_length-zero f) (omega arith)
pow_bit_length-le (suc f) (suc (suc x)) h = rw (bit_length-suc f (suc x)) (
    omega (
      arith,
      pow_bit_length-le f (suc (suc x) / 2) (omega arith),
      pow-suc 2 (bit_length f (suc (suc x) / 2)),
    ))

-- `nextPow2` of cache/tinylfu.go: `1 << bits.Len64(v-1)` on uint64, which is 0 if 64 bits are
-- needed.
unfoldable pub next_pow2 : ℕ → ℕ
unfolding bit_length
next_pow2 v = if v == 0 then 1 else 2 ^ bit_length 64 (v - 1) % 2 ^ 64

abbrev pub IsPow2 : ℕ → Type 0
IsPow2 n = (k : ℕ) × (n ≡ 2 ^ k)

pub IsPow2-pos : (n : ℕ) → IsPow2 n → 0 < n
IsPow2-pos n (k, e) = rw e (one-le-pow k 2 (omega arith))

next_pow2-suc : (n : ℕ) → next_pow2 (suc n) ≡ 2 ^ bit_length 64 n % 2 ^ 64
unfolding next_pow2
next_pow2-suc n = let e : suc n - 1 ≡ n = omega arith in rw (e, next_pow2) (ground arith)

-- For a positive `v` of at most 2^63, the least power of two that is at least `v`.
pub next_pow2_bounds :
    (v : ℕ) → 0 < v → v ≤ 2 ^ 63 → IsPow2 (next_pow2 v) × (v ≤ next_pow2 v) × (next_pow2 v < 2 * v)
next_pow2_bounds zero pos fits = elim pos [ ]
next_pow2_bounds (suc zero) pos fits =
    rw (next_pow2-suc 0, bit_length-zero 64) ((0, refl), omega arith, omega arith)
next_pow2_bounds (suc (suc n)) pos fits =
    let k = bit_length 64 (suc n) in
    let low : suc n < 2 ^ k = lt-pow_bit_length 64 (suc n) (omega arith) in
    let high : 2 ^ k ≤ 2 * suc n = pow_bit_length-le 64 (suc n) (omega arith) in
    let e : next_pow2 (suc (suc n)) ≡ 2 ^ k = next_pow2-suc (suc n) ∙ mod-eq_of_lt (omega arith) in
    ((k, e), omega (arith, e), omega (arith, e))
