-- ===== src/Cache/Sketch.antt =====
-- cache/tinylfu.go: the count-min sketch. The rows are lists of uint8 counters. `hash` stands for
-- `xxhash.Sum64String`. The width is a power of two, so that `& s.mask` is the remainder.
pub mod Bound
pub mod Decay
use cdn_edge.Common.{
  ℕ, ◌+◌, ◌*◌, ◌/◌, ◌%◌, ◌^◌, Bool, ltb, ◌==◌, if◌then◌else◌, List, [], ◌∷◌, map, Text, get_or, set,
  replicate,
}
use cdn_edge.Common.Bits.{next_pow2}

pub record CountMinSketch : Type 0 where
  pub rows : List (List ℕ)
  pub width : ℕ

pub sketch_width : ℕ → ℕ
unfolding next_pow2
sketch_width max_items =
    let w = next_pow2 (max_items * 10 % 2 ^ 64) in if ltb w 4096 then 4096 else w

pub new_count_min_sketch : ℕ → CountMinSketch
new_count_min_sketch max_items =
    let w = sketch_width max_items in record { rows = replicate 4 (replicate w 0); width = w }

-- The rotated hash `(h >> 32) | (h << 32)` of a uint64, whose two parts share no bit.
abbrev pub rotate32 : ℕ → ℕ
rotate32 h = h / 2 ^ 32 + h % 2 ^ 32 * 2 ^ 32

pub second_hash : ℕ → ℕ
second_hash h = let h2 = rotate32 h in if h2 == 0 then 0x9E3779B97F4A7C15 else h2

-- `cmsHashes(key)[i]`
pub cms_hash : (Text → ℕ) → ℕ → Text → ℕ → ℕ
unfolding second_hash
cms_hash hash width key i = (hash key + i * second_hash (hash key)) % 2 ^ 64 % width

module _ (slot : ℕ → ℕ) where
  -- The loops over the rows; `slot i` is `idx[i]`.
  pub bump_rows : ℕ → List (List ℕ) → List (List ℕ)
  bump_rows i [] = []
  bump_rows i (row ∷ rows) =
      let c = get_or row (slot i) 0 in
      (if ltb c 255 then set row (slot i) (c + 1) else row) ∷ bump_rows (i + 1) rows

  pub least : ℕ → List (List ℕ) → ℕ → ℕ
  least i [] m = m
  least i (row ∷ rows) m =
      let c = get_or row (slot i) 0 in least (i + 1) rows (if ltb c m then c else m)

module _ (hash : Text → ℕ) where
  pub sketch_increment : Text → CountMinSketch → CountMinSketch
  unfolding bump_rows cms_hash
  sketch_increment key s = record s { rows = bump_rows (cms_hash hash s.width key) 0 s.rows }

  pub sketch_estimate : Text → CountMinSketch → ℕ
  unfolding least cms_hash
  sketch_estimate key s = least (cms_hash hash s.width key) 0 s.rows 255

pub halve : CountMinSketch → CountMinSketch
halve s = record s { rows = map (map (λ c. c / 2)) s.rows }

pub sketch_reset : CountMinSketch → CountMinSketch
sketch_reset s = record s { rows = map (map (λ _. 0)) s.rows }
