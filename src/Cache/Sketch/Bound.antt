-- ===== src/Cache/Sketch/Bound.antt =====
-- What the sketch of cache/tinylfu.go counts of a key.
use native.Mathlib.Nat.{mod-lt}
use cdn_edge.Common.{
  ℕ, zero, suc, ◌+◌, ◌≤◌, ◌<◌, ◌≡◌, arith, min, ltb, if◌then◌else◌, List, [], ◌∷◌, Text, get_or,
  set, length, length-set, get_or-set_self,
}
use cdn_edge.Cache.Sketch.{
  CountMinSketch, bump_rows, least, cms_hash, sketch_increment, sketch_estimate,
}

-- In each row the counter at the key's slot is at least `n`, and the slot is inside the row.
abbrev pub Covers : (ℕ → ℕ) → ℕ → ℕ → List (List ℕ) → Type 0
Covers slot n i [] = Unit {0}
Covers slot n i (row ∷ rows) = (n ≤ get_or row (slot i) 0) × Covers slot n (i + 1) rows

abbrev pub AllLength : ℕ → List (List ℕ) → Type 0
AllLength w [] = Unit {0}
AllLength w (row ∷ rows) = (length row ≡ w) × AllLength w rows

-- The counter that an increment writes.
abbrev pub bumped : List ℕ → ℕ → List ℕ
bumped row a = if ltb (get_or row a 0) 255 then set row a (get_or row a 0 + 1) else row

get_or-set-le :
    (row : List ℕ) (a b v : ℕ) → get_or row a 0 ≤ v → get_or row b 0 ≤ get_or (set row a v) b 0
get_or-set-le [] a b v h = omega arith
get_or-set-le (c ∷ row) zero zero v h = h
get_or-set-le (c ∷ row) zero (suc b) v h = omega arith
get_or-set-le (c ∷ row) (suc a) zero v h = omega arith
get_or-set-le (c ∷ row) (suc a) (suc b) v h = get_or-set-le row a b v h

pub get_or-bumped-le : (row : List ℕ) (a b : ℕ) → get_or row b 0 ≤ get_or (bumped row a) b 0
get_or-bumped-le row a b = ground (arith, get_or-set-le row a b (get_or row a 0 + 1) (omega arith))

pub get_or-bumped_self :
    (row : List ℕ) (a : ℕ)
    → a < length row
    → min 255 (get_or row a 0 + 1) ≤ get_or (bumped row a) a 0
get_or-bumped_self row a h = ground (arith, get_or-set_self row a (get_or row a 0 + 1) 0 h)

-- Another key's increment.
bump_rows-Covers :
    (at slot : ℕ → ℕ) (n i : ℕ) (rows : List (List ℕ))
    → Covers slot n i rows
    → Covers slot n i (bump_rows at i rows)
unfolding bump_rows
bump_rows-Covers at slot n i [] h = tt
bump_rows-Covers at slot n i (row ∷ rows) h = (
  omega (arith, get_or-bumped-le row (at i) (slot i)),
  bump_rows-Covers at slot n (i + 1) rows h.1,
)

-- The key's own increment.
bump_rows-Covers_self :
    (slot : ℕ → ℕ) (w n i : ℕ) (rows : List (List ℕ))
    → ((j : ℕ) → slot j < w)
    → AllLength w rows
    → Covers slot (min 255 n) i rows
    → Covers slot (min 255 (n + 1)) i (bump_rows slot i rows)
unfolding bump_rows
bump_rows-Covers_self slot w n i [] inside l h = tt
bump_rows-Covers_self slot w n i (row ∷ rows) inside l h = (
  omega (arith, get_or-bumped_self row (slot i) (omega (arith, inside i))),
  bump_rows-Covers_self slot w n (i + 1) rows inside l.1 h.1,
)

bump_rows-AllLength :
    (slot : ℕ → ℕ) (w i : ℕ) (rows : List (List ℕ))
    → AllLength w rows
    → AllLength w (bump_rows slot i rows)
unfolding bump_rows
bump_rows-AllLength slot w i [] l = tt
bump_rows-AllLength slot w i (row ∷ rows) l = (
  ground (arith, length-set row (slot i) (get_or row (slot i) 0 + 1)),
  bump_rows-AllLength slot w (i + 1) rows l.1,
)

least_bound :
    (slot : ℕ → ℕ) (n i m : ℕ) (rows : List (List ℕ))
    → Covers slot n i rows
    → n ≤ m
    → n ≤ least slot i rows m
unfolding least
least_bound slot n i m [] h le = le
least_bound slot n i m (row ∷ rows) h le = least_bound slot n (i + 1) _ rows h.1 (ground arith)

pub least-le : (slot : ℕ → ℕ) (i m : ℕ) (rows : List (List ℕ)) → least slot i rows m ≤ m
unfolding least
least-le slot i m [] = omega arith
least-le slot i m (row ∷ rows) = ground (
  arith,
  least-le slot (i + 1) (if ltb (get_or row (slot i) 0) m then get_or row (slot i) 0 else m) rows,
)

-- The tables are as wide as the sketch says.
pub record IsSized (s : CountMinSketch) : Type 0 where
  pub positive : 0 < s.width
  pub rows_sized : AllLength s.width s.rows

-- The sketch counts at least `n` for the key, up to the saturation.
pub record Counts (hash : Text → ℕ) (key : Text) (n : ℕ) (s : CountMinSketch) : Type 0 where
  pub sized : IsSized s
  pub covers : Covers (cms_hash hash s.width key) (min 255 n) 0 s.rows

module _ (hash : Text → ℕ) (key : Text) where
  pub sketch_increment-Counts :
      (n : ℕ) (other : Text) (s : CountMinSketch)
      → Counts hash key n s
      → Counts hash key n (sketch_increment hash other s)
  unfolding sketch_increment
  sketch_increment-Counts n other s c = record {
    sized = record {
      positive = c.sized.positive;
      rows_sized = bump_rows-AllLength _ s.width 0 s.rows c.sized.rows_sized;
    };
    covers = bump_rows-Covers _ _ _ 0 s.rows c.covers;
  }

  pub sketch_increment-Counts_self :
      (n : ℕ) (s : CountMinSketch)
      → Counts hash key n s
      → Counts hash key (n + 1) (sketch_increment hash key s)
  unfolding sketch_increment cms_hash
  sketch_increment-Counts_self n s c = record {
    sized = record {
      positive = c.sized.positive;
      rows_sized = bump_rows-AllLength _ s.width 0 s.rows c.sized.rows_sized;
    };
    covers =
        bump_rows-Covers_self _ s.width n 0 s.rows (λ j. mod-lt _ c.sized.positive)
          c.sized.rows_sized c.covers;
  }

  -- A key that the sketch counts at least `n` times in each row is estimated at no less, up to the
  -- saturation at 255.
  pub sketch_estimate_bound :
      (n : ℕ) (s : CountMinSketch) → Counts hash key n s → min 255 n ≤ sketch_estimate hash key s
  unfolding sketch_estimate
  sketch_estimate_bound n s c = least_bound _ _ 0 255 s.rows c.covers (omega arith)

pub Covers-mono :
    (slot : ℕ → ℕ) (m n i : ℕ) (rows : List (List ℕ))
    → m ≤ n
    → Covers slot n i rows
    → Covers slot m i rows
Covers-mono slot m n i [] le h = tt
Covers-mono slot m n i (row ∷ rows) le h = (omega arith, Covers-mono slot m n (i + 1) rows le h.1)

pub Counts-mono :
    (hash : Text → ℕ) (key : Text) (m n : ℕ) (s : CountMinSketch)
    → m ≤ n
    → Counts hash key n s
    → Counts hash key m s
Counts-mono hash key m n s le c = record {
  sized = c.sized;
  covers = Covers-mono _ (min 255 m) (min 255 n) 0 s.rows (omega arith) c.covers;
}
