-- ===== src/Cache/Tiered/Options/Capacity.antt =====
-- How `NewWithOptions` of cache/cache.go spreads the capacity.
use native.Mathlib.Nat.{pow-suc, mod-lt, div-add-mod}
use cdn_edge.Common.{
  ℕ, zero, suc, ◌+◌, ◌-◌, ◌*◌, ◌/◌, ◌%◌, ◌^◌, ◌≤◌, ◌<◌, ◌≡◌, refl, ap, inl, inr, arith, ltb, false,
  List, length, Bool-cases, Option, some, Option-cases, dec_lt, subst, Text,
}
use cdn_edge.Common.Int.{ℤ, pos, negsuc, ◌≤ℤ◌, wrap_i64-eq_of_IsI64}
use cdn_edge.Common.Bits.{IsPow2, next_pow2, next_pow2_bounds, IsPow2-pos}
use cdn_edge.Cache.Shard.{new_shard}
use cdn_edge.Cache.Shard.Coherence.{new_shard-IsCoherent}
use cdn_edge.Cache.Disk.{Disk, File}
use cdn_edge.Cache.Tiered.{Cache}
use cdn_edge.Cache.Tiered.Occupancy.{IsValid}
use cdn_edge.Cache.Tiered.Validity.{AllValid, total_capacity, IsConsistent}
use cdn_edge.Cache.Tiered.Options.{
  Options, positive_or, halve_until, limit_shards, shard_count, new_shards, build_cache, open_disk,
  new_with_options,
}

pub positive_or-pos : (d : ℕ) (z : ℤ) → 0 < d → 0 < positive_or d z
unfolding positive_or
positive_or-pos d (pos zero) lt = lt
positive_or-pos d (pos (suc n)) lt = omega arith
positive_or-pos d (negsuc n) lt = lt

positive_or-le : (d m : ℕ) (z : ℤ) → 0 < d → d ≤ m → z ≤ℤ pos m → positive_or d z ≤ m
unfolding positive_or
positive_or-le d m (pos zero) lt le h = le
positive_or-le d m (pos (suc n)) lt le h = omega arith
positive_or-le d m (negsuc n) lt le h = le

-- A power of two that a number of items allows.
abbrev pub Allowed : ℕ → ℕ → Type 0
Allowed m n = IsPow2 n × (n ≤ m)

halve_until-Allowed : (f m n : ℕ) → 0 < m → n < 2 ^ f → IsPow2 n → Allowed m (halve_until f m n)
unfolding halve_until
halve_until-Allowed zero m n lt fits (k, e) = absurd (omega (arith, IsPow2-pos n (k, e)))
halve_until-Allowed (suc f) m n lt fits (zero, e) =
    let small : ltb m n ≡ false = ground arith in rw small ((0, e), omega (arith, e))
halve_until-Allowed (suc f) m n lt fits (suc k, e) =
    let two = pow-suc 2 k in
    let half : n / 2 ≡ 2 ^ k = omega arith in
    elim (Bool-cases (ltb m n)) [
      | inl more ↦
          rw more (halve_until-Allowed f m (n / 2) lt (omega (arith, pow-suc 2 f)) (k, half))
      | inr enough ↦ rw enough ((suc k, e), ground arith)
    ]

at_least_one : (n : ℕ) → 0 < n → ltb n 1 ≡ false
at_least_one n lt = ground arith

limit_shards-Allowed :
    (m n : ℕ) → 0 < m → n < 2 ^ 63 → IsPow2 n → Allowed m (limit_shards m (pos n))
unfolding limit_shards
limit_shards-Allowed m n lt fits pow =
    let (p, le) = halve_until-Allowed 63 m n lt fits pow in
    rw (at_least_one _ (IsPow2-pos _ p)) (p, le)

pub shard_count-Allowed : (m : ℕ) (z : ℤ) → 0 < m → z ≤ℤ pos (2 ^ 62) → Allowed m (shard_count m z)
unfolding shard_count
shard_count-Allowed m z lt fits = elim (Bool-cases (ltb m 64)) [
  | inl few ↦ rw few (limit_shards-Allowed m 1 lt (omega arith) (0, refl))
  | inr many ↦
      let n = positive_or 256 z in
      let n_pos = positive_or-pos 256 z (omega arith) in
      let n_le = positive_or-le 256 (2 ^ 62) z (omega arith) (omega arith) fits in
      let (pow, ge, small) = next_pow2_bounds n n_pos (omega arith) in
      rw (many, wrap_i64-eq_of_IsI64 (pos (next_pow2 n)) (omega arith, omega arith))
        (limit_shards-Allowed m (next_pow2 n) lt (omega arith) pow)
]

pub new_shard-IsValid : (n : ℕ) → 0 < n → IsValid (new_shard n)
unfolding new_shard
new_shard-IsValid n lt = record {
  coherent = new_shard-IsCoherent n;
  bounded = omega arith;
  positive = lt;
}

div-pos_of_le : (m n : ℕ) → 0 < n → n ≤ m → 0 < m / n
div-pos_of_le m n lt le = elim (dec_lt 0 (m / n)) [
  | yes h ↦ h
  | no h ↦ absurd (
      let z : m / n ≡ 0 = omega arith in
      let w = div-add-mod m n in
      let r = mod-lt m lt in omega (arith, subst (λ q. n * q + m % n ≡ m) z w))
]

module _ (per remainder : ℕ) where
  new_shards-capacity :
      (n i : ℕ)
      → remainder ≤ i + n
      → total_capacity (new_shards n i per remainder) ≡ n * per + (remainder - i)
  unfolding new_shards total_capacity new_shard
  new_shards-capacity zero i le = omega arith
  new_shards-capacity (suc n) i le = ground (arith, new_shards-capacity n (suc i) (omega arith))

  length-new_shards : (n i : ℕ) → length (new_shards n i per remainder) ≡ n
  unfolding new_shards
  length-new_shards zero i = refl
  length-new_shards (suc n) i = ap suc (length-new_shards n (suc i))

  new_shards-AllValid : (n i : ℕ) → 0 < per → AllValid (new_shards n i per remainder)
  unfolding new_shards
  new_shards-AllValid zero i lt = tt
  new_shards-AllValid (suc n) i lt =
      (new_shard-IsValid _ (ground arith), new_shards-AllValid n (suc i) lt)

pub build_cache-IsConsistent :
    (opts : Options) (disk : Disk)
    → opts.num_shards ≤ℤ pos (2 ^ 62)
    → IsConsistent (positive_or 1 opts.max_items) (build_cache opts disk)
unfolding build_cache
build_cache-IsConsistent opts disk fits =
    let m = positive_or 1 opts.max_items in
    let m_pos = positive_or-pos 1 opts.max_items (omega arith) in
    let n = shard_count m opts.num_shards in
    let (pow, le) = shard_count-Allowed m opts.num_shards m_pos fits in
    let n_pos = IsPow2-pos n pow in
    let small = mod-lt m n_pos in
    let whole = div-add-mod m n in
    record {
      shards_valid = new_shards-AllValid (m / n) (m % n) n 0 (div-pos_of_le m n n_pos le);
      counted = length-new_shards (m / n) (m % n) n 0;
      positive = n_pos;
      capacity = omega (arith, new_shards-capacity (m / n) (m % n) n 0 (omega arith), whole);
    }

-- A cache that `NewWithOptions` makes for at most 2^62 shards has the capacity that it is asked
-- for, or 1 if that is not positive, in a power of two of valid shards, each of them with room
-- for an item.
pub new_with_options-capacity :
    (mkdir_all : Text → Option (List (Text × File))) (opts : Options) (c : Cache)
    → opts.num_shards ≤ℤ pos (2 ^ 62)
    → new_with_options mkdir_all opts ≡ some c
    → IsConsistent (positive_or 1 opts.max_items) c × IsPow2 c.num_shards
unfolding new_with_options build_cache
new_with_options-capacity mkdir_all opts c fits e = elim (Option-cases (open_disk mkdir_all opts)) [
  | inl n ↦ absurd (ground arith)
  | inr (disk, at) ↦
      let same : build_cache opts disk ≡ c = ground arith in
      subst (λ c. IsConsistent (positive_or 1 opts.max_items) c × IsPow2 c.num_shards) same
        (
          build_cache-IsConsistent opts disk fits,
          (shard_count-Allowed _ opts.num_shards (positive_or-pos 1 opts.max_items (omega arith))
              fits).0,
        )
]
