-- ===== src/Cache/Predictor.antt =====
-- cache/predictor.go: the predictor of uncacheable keys. `hash` stands for FNV-64a, and `active` is
-- whether the active bucket is the second. Rotation excludes the other methods; a mark is two
-- saturating increments, which commute with those of other marks, so that each method is one step.
-- The number of counters is a power of two, so that `& p.mask` is the remainder.
pub mod Window
pub mod Forgetting
pub mod Sizing
mod Tests
use cdn_edge.Common.{
  ℕ, zero, suc, ◌+◌, ◌*◌, ◌/◌, ◌%◌, ◌^◌, Bool, true, false, not, ◌&&◌, ltb, leb, ◌==◌,
  if◌then◌else◌, List, [], ◌∷◌, map, Option, none, some, Text, get_or, set, replicate,
}
use cdn_edge.Common.Int.{ℤ, pos, leb_ℤ, pos_part}

pub record Predictor : Type 0 where
  pub first : List ℕ
  pub second : List ℕ
  pub bits : ℕ
  pub active : Bool
  pub size : ℕ
  pub decay : ℤ
  pub threshold : ℕ
  pub hits : ℕ
  pub misses : ℕ

-- `for bits < target { bits <<= 1 }` on uint32; `none` if the fuel ends first.
pub double_until : ℕ → ℕ → ℕ → Option ℕ
double_until zero bits target = none
double_until (suc fuel) bits target =
    let rest = double_until fuel (bits * 2 % 2 ^ 32) target in
    if ltb bits target then rest else some bits

-- 1024 in place of a capacity that is not positive.
pub effective_capacity : ℤ → ℕ
effective_capacity capacity = if leb_ℤ capacity (pos 0) then 1024 else pos_part capacity

-- The number of counters for a capacity, a uint32.
pub counter_count : ℕ → ℕ → Option ℕ
unfolding double_until
counter_count fuel capacity = elim (double_until fuel 1 (capacity % 2 ^ 32 * 8 % 2 ^ 32)) [
  | none ↦ none
  | some bits ↦ some (if ltb bits 1024 then 1024 else bits)
]

abbrev pub with_counters : ℕ → ℕ → ℤ → Predictor
with_counters bits capacity decay = record {
  first = replicate bits 0;
  second = replicate bits 0;
  bits = bits;
  active = false;
  size = capacity % 2 ^ 32;
  decay = decay;
  threshold = 2;
  hits = 0;
  misses = 0;
}

-- With fuel for 32 tests of its loop; `none` stands for a loop that has not ended by then.
pub new_predictor : ℤ → ℤ → Option Predictor
unfolding counter_count effective_capacity
new_predictor capacity decay = elim (counter_count 32 (effective_capacity capacity)) [
  | none ↦ none
  | some bits ↦ some (with_counters bits (effective_capacity capacity) decay)
]

abbrev pub active_bucket : Predictor → List ℕ
active_bucket p = if p.active then p.second else p.first

abbrev pub shadow_bucket : Predictor → List ℕ
shadow_bucket p = if p.active then p.first else p.second

pub set_active : List ℕ → Predictor → Predictor
set_active bucket p = if p.active then record p { second = bucket } else record p { first = bucket }

-- The loop of atomic operations, which adds 1 below `counterMax`.
pub saturating_increment : List ℕ → ℕ → List ℕ
saturating_increment bucket h =
    if ltb (get_or bucket h 0) 255 then set bucket h (get_or bucket h 0 + 1) else bucket

abbrev pub larger : ℕ → ℕ → ℕ
larger a b = if ltb a b then b else a

module _ (hash : Text → ℕ) where
  pub first_hash : ℕ → Text → ℕ
  first_hash bits key = hash key % 2 ^ 32 % bits

  pub second_hash : ℕ → Text → ℕ
  unfolding first_hash
  second_hash bits key =
      let h2 = hash key / 2 ^ 32 % 2 ^ 32 % bits in
      if first_hash bits key == h2 then (h2 + 1) % bits else h2

  pub mark_uncacheable : Text → Predictor → Predictor
  unfolding set_active saturating_increment
  mark_uncacheable key p =
      set_active
        (saturating_increment (saturating_increment (active_bucket p) (first_hash p.bits key))
          (second_hash p.bits key))
        p

  pub is_likely_uncacheable : Text → Predictor → Predictor × Bool
  is_likely_uncacheable key p =
      let c1 =
        larger (get_or (active_bucket p) (first_hash p.bits key) 0)
          (get_or (shadow_bucket p) (first_hash p.bits key) 0) in
      let c2 =
        larger (get_or (active_bucket p) (second_hash p.bits key) 0)
          (get_or (shadow_bucket p) (second_hash p.bits key) 0) in
      if leb p.threshold c1 && leb p.threshold c2
      then (record p { hits = p.hits + 1 }, true)
      else (record p { misses = p.misses + 1 }, false)

pub rotate : Predictor → Predictor
unfolding set_active
rotate p = set_active (map (λ _. 0) (shadow_bucket p)) (record p { active = not p.active })
