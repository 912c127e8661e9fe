-- ===== src/Cache/Sketch/Decay.antt =====
-- The tables of a new sketch of cache/tinylfu.go, and its decay.
use cdn_edge.Common.{
  ℕ, zero, suc, ◌+◌, ◌*◌, ◌/◌, ◌%◌, ◌^◌, ◌≤◌, ◌<◌, ◌≡◌, refl, arith, min, ltb, if◌then◌else◌, List,
  [], ◌∷◌, Text, map, get_or, length, length-map, Bool-cases, inl, inr, length-replicate, replicate,
}
use native.Mathlib.Nat.{mod-eq_of_lt}
use cdn_edge.Common.Bits.{next_pow2, IsPow2, next_pow2_bounds}
use cdn_edge.Cache.Sketch.{CountMinSketch, cms_hash, halve, sketch_width, new_count_min_sketch}
use cdn_edge.Cache.Sketch.Bound.{Covers, Covers-mono, AllLength, Counts}

-- For a positive number of items, of which ten times fit 2^63, the width is a power of two, at
-- least 4096 and at least ten times the items.
pub sketch_width_bounds :
    (max_items : ℕ)
    → 0 < max_items
    → max_items * 10 ≤ 2 ^ 63
    → IsPow2 (sketch_width max_items)
      × (4096 ≤ sketch_width max_items)
      × (max_items * 10 ≤ sketch_width max_items)
unfolding sketch_width
sketch_width_bounds m pos fits =
    let e : m * 10 % 2 ^ 64 ≡ m * 10 = mod-eq_of_lt (omega arith) in
    let (power, le, lt) = next_pow2_bounds (m * 10) (omega arith) fits in
    rw (e, sketch_width) (pick (next_pow2 (m * 10)) power le)
  where
    pick :
        (w : ℕ)
        → IsPow2 w
        → m * 10 ≤ w
        → IsPow2 (if ltb w 4096 then 4096 else w)
          × (4096 ≤ (if ltb w 4096 then 4096 else w))
          × (m * 10 ≤ (if ltb w 4096 then 4096 else w))
    pick w power le = elim (Bool-cases (ltb w 4096)) [
      | inl small ↦ rw small ((12, refl), omega arith, ground arith)
      | inr large ↦ rw large (power, ground arith, le)
    ]

AllLength-replicate : (w n : ℕ) (row : List ℕ) → length row ≡ w → AllLength w (replicate n row)
AllLength-replicate w zero row h = tt
AllLength-replicate w (suc n) row h = (h, AllLength-replicate w n row h)

Covers-zero : (slot : ℕ → ℕ) (i : ℕ) (rows : List (List ℕ)) → Covers slot 0 i rows
Covers-zero slot i [] = tt
Covers-zero slot i (row ∷ rows) = (omega arith, Covers-zero slot (i + 1) rows)

pub new_count_min_sketch-Counts :
    (hash : Text → ℕ) (key : Text) (max_items : ℕ)
    → Counts hash key 0 (new_count_min_sketch max_items)
unfolding new_count_min_sketch
new_count_min_sketch-Counts hash key m = record {
  sized = record {
    positive = unfold sketch_width in ground arith;
    rows_sized = AllLength-replicate _ 4 _ (length-replicate _ _);
  };
  covers =
      Covers-zero (cms_hash hash (sketch_width m) key) 0
        (replicate 4 (replicate (sketch_width m) 0));
}

get_or-halved : (row : List ℕ) (j : ℕ) → get_or (map (λ c. c / 2) row) j 0 ≡ get_or row j 0 / 2
get_or-halved [] j = omega arith
get_or-halved (c ∷ row) zero = refl
get_or-halved (c ∷ row) (suc j) = get_or-halved row j

Covers-halved :
    (slot : ℕ → ℕ) (n i : ℕ) (rows : List (List ℕ))
    → Covers slot n i rows
    → Covers slot (n / 2) i (map (map (λ c. c / 2)) rows)
Covers-halved slot n i [] h = tt
Covers-halved slot n i (row ∷ rows) h =
    (omega (arith, get_or-halved row (slot i)), Covers-halved slot n (i + 1) rows h.1)

AllLength-halved :
    (w : ℕ) (rows : List (List ℕ)) → AllLength w rows → AllLength w (map (map (λ c. c / 2)) rows)
AllLength-halved w [] h = tt
AllLength-halved w (row ∷ rows) h =
    (omega (arith, length-map row (λ c. c / 2)), AllLength-halved w rows h.1)

-- What was counted `n` times counts for half of that, up to the saturation, after a decay.
pub halve-Counts :
    (hash : Text → ℕ) (key : Text) (n : ℕ) (s : CountMinSketch)
    → Counts hash key n s
    → Counts hash key (min 255 n / 2) (halve s)
unfolding halve
halve-Counts hash key n s c = record {
  sized = record {
    positive = c.sized.positive;
    rows_sized = AllLength-halved s.width s.rows c.sized.rows_sized;
  };
  covers = Covers-mono _ _ (min 255 n / 2) 0 _ (omega arith) (Covers-halved _ _ 0 s.rows c.covers);
}
