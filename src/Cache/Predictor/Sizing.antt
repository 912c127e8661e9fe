-- ===== src/Cache/Predictor/Sizing.antt =====
-- The loop of `NewPredictor` of cache/predictor.go, on a uint32.
use native.Mathlib.Nat.{pow-suc, mod-eq_of_lt, pow-le-pow_right}
use cdn_edge.Common.{
  ℕ, zero, suc, ◌+◌, ◌*◌, ◌%◌, ◌^◌, ◌≤◌, ◌<◌, ◌≡◌, refl, ◌∙◌, sym, ap, subst, arith, ltb,
  if◌then◌else◌, true, false, Bool-cases, inl, inr, ◌⊎◌, none, some, dec_lt,
}
use cdn_edge.Common.Bits.{IsPow2}
use cdn_edge.Cache.Predictor.{double_until, counter_count}

pow_bound : (k : ℕ) → k ≤ 31 → 2 ^ k ≤ 2 ^ 31
pow_bound k h = pow-le-pow_right {n = 2} (omega arith) h

double_until-enough :
    (fuel k target : ℕ)
    → k + fuel ≡ 31
    → target ≤ 2 ^ 31
    → (b : ℕ) × (double_until (suc fuel) (2 ^ k) target ≡ some b) × IsPow2 b × (target ≤ b)
unfolding double_until
double_until-enough zero k target sum fits =
    let last : k ≡ 31 = omega arith in
    let le : target ≤ 2 ^ k = rw last fits in
    let e : ltb (2 ^ k) target ≡ false = ground arith in
    (2 ^ k, rw (e, double_until), (k, refl), le)
double_until-enough (suc fuel) k target sum fits = elim (Bool-cases (ltb (2 ^ k) target)) [
  | inr e ↦ (2 ^ k, rw (e, double_until), (k, refl), ground arith)
  | inl e ↦
      let up : 2 ^ suc k ≤ 2 ^ 31 = pow_bound (suc k) (omega arith) in
      let s : 2 ^ k * 2 % 2 ^ 32 ≡ 2 ^ suc k =
        mod-eq_of_lt (omega (arith, pow-suc 2 k)) ∙ omega (arith, pow-suc 2 k) in
      let (b, h, p, le) = double_until-enough fuel (suc k) target (omega arith) fits in
      (b, rw (e, double_until, s) h, p, le)
]

-- The values that the loop goes through.
Doubled : ℕ → Type 0
Doubled n = (n ≡ 0) ⊎ ((k : ℕ) × (k ≤ 31) × (n ≡ 2 ^ k))

double_until-never :
    (fuel n target : ℕ) → Doubled n → 2 ^ 31 < target → double_until fuel n target ≡ none
unfolding double_until Doubled
double_until-never zero n target d large = refl
double_until-never (suc fuel) n target (inl z) large =
    let e : ltb n target ≡ true = ground arith in
    rw (e, double_until) (double_until-never fuel (n * 2 % 2 ^ 32) target (inl (omega arith)) large)
double_until-never (suc fuel) n target (inr (k, le, p)) large =
    let small : 2 ^ k ≤ 2 ^ 31 = pow_bound k le in
    let e : ltb n target ≡ true = ground arith in
    let next : Doubled (n * 2 % 2 ^ 32) = elim (dec_lt k 31) [
      | yes lt ↦
          let up : 2 ^ suc k ≤ 2 ^ 31 = pow_bound (suc k) (omega arith) in
          inr (
            suc k,
            omega arith,
            mod-eq_of_lt (omega (arith, pow-suc 2 k)) ∙ omega (arith, pow-suc 2 k),
          )
      | no ge ↦
          let last : k ≡ 31 = omega arith in
          let q : n ≡ 2 ^ 31 = p ∙ ap (λ j. 2 ^ j) last in inl (omega arith)
    ] in
    rw (e, double_until) (double_until-never fuel (n * 2 % 2 ^ 32) target next large)

counter_count-of :
    (fuel capacity b : ℕ)
    → double_until fuel 1 (capacity % 2 ^ 32 * 8 % 2 ^ 32) ≡ some b
    → counter_count fuel capacity ≡ some (if ltb b 1024 then 1024 else b)
unfolding counter_count
counter_count-of fuel capacity b h = rw (h, counter_count)

large_enough :
    (b capacity : ℕ)
    → IsPow2 b
    → capacity * 8 ≤ b
    → IsPow2 (if ltb b 1024 then 1024 else b)
      × (1024 ≤ (if ltb b 1024 then 1024 else b))
      × (capacity * 8 ≤ (if ltb b 1024 then 1024 else b))
large_enough b capacity p le = elim (Bool-cases (ltb b 1024)) [
  | inl small ↦ rw small ((10, refl), omega arith, ground arith)
  | inr large ↦ rw large (p, ground arith, le)
]

-- For a positive capacity of at most 2^28, the loop of the constructor ends within 32 tests, and
-- the number of counters is a power of two, at least 1024 and at least eight times the capacity.
pub counter_count-some :
    (capacity : ℕ)
    → 0 < capacity
    → capacity ≤ 2 ^ 28
    → (b : ℕ) × (counter_count 32 capacity ≡ some b) × IsPow2 b × (1024 ≤ b) × (capacity * 8 ≤ b)
unfolding counter_count
counter_count-some capacity pos fits =
    let e : capacity % 2 ^ 32 * 8 % 2 ^ 32 ≡ capacity * 8 = omega arith in
    let (b, h, p, le) = double_until-enough 31 0 (capacity * 8) (omega arith) (omega arith) in
    let counted =
      counter_count-of 32 capacity b (subst (λ t. double_until 32 1 t ≡ some b) (sym e) h) in
    let (q, low, high) = large_enough b capacity p le in
    (if ltb b 1024 then 1024 else b, counted, q, low, high)

-- For a capacity above 2^28 and below 2^29, the loop of the constructor does not end: no fuel is
-- enough.
pub counter_count-none :
    (fuel capacity : ℕ) → 2 ^ 28 < capacity → capacity < 2 ^ 29 → counter_count fuel capacity ≡ none
unfolding counter_count
counter_count-none fuel capacity low high =
    let e : 2 ^ 31 < capacity % 2 ^ 32 * 8 % 2 ^ 32 = omega arith in
    rw (
      double_until-never fuel 1 (capacity % 2 ^ 32 * 8 % 2 ^ 32)
          (unfold Doubled in inr (0, omega arith, refl)) e,
      counter_count,
    )
