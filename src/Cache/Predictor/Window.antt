-- ===== src/Cache/Predictor/Window.antt =====
-- How long the predictor of cache/predictor.go remembers a key.
use native.Mathlib.Nat.{mod-lt, zero-add}
use cdn_edge.Common.{
  ℕ, ◌+◌, ◌%◌, ◌/◌, ◌^◌, ◌≤◌, ◌<◌, ◌≡◌, refl, ◌∙◌, ap, arith, min, ite, true, ◌&&◌, leb, List, [],
  ◌∷◌, map, Text, text_discrete, length, length-set, length-map, length-replicate, get_or, ◌⊎◌,
}
use cdn_edge.Common.Int.{ℤ}
use cdn_edge.Cache.Sketch.Bound.{bumped, get_or-bumped-le, get_or-bumped_self}
use cdn_edge.Cache.Predictor.{
  Predictor, active_bucket, shadow_bucket, set_active, saturating_increment, larger, first_hash,
  second_hash, mark_uncacheable, is_likely_uncacheable, rotate, with_counters,
}

-- A mark of a key or a rotation; the newest stands first.
pub data Event : Type 0 where
  marks : Text → Event
  rotates : Event

-- The marks of a key since the last rotation, and in the interval before that.
unfoldable pub recent_marks : Text → List Event → ℕ
recent_marks key [] = 0
recent_marks key (marks k ∷ h) = ite (text_discrete k key) 1 0 + recent_marks key h
recent_marks key (rotates ∷ h) = 0

unfoldable pub previous_marks : Text → List Event → ℕ
unfolding recent_marks
previous_marks key [] = 0
previous_marks key (marks k ∷ h) = previous_marks key h
previous_marks key (rotates ∷ h) = recent_marks key h

active-set_active : (b : List ℕ) (p : Predictor) → active_bucket (set_active b p) ≡ b
unfolding set_active
active-set_active b p = ground arith

shadow-set_active : (b : List ℕ) (p : Predictor) → shadow_bucket (set_active b p) ≡ shadow_bucket p
unfolding set_active
shadow-set_active b p = ground arith

rest-set_active :
    (b : List ℕ) (p : Predictor)
    → ((set_active b p).bits ≡ p.bits) × ((set_active b p).threshold ≡ p.threshold)
unfolding set_active
rest-set_active b p = ground arith

shadow-rotate : (p : Predictor) → shadow_bucket (rotate p) ≡ active_bucket p
unfolding rotate set_active
shadow-rotate p = ground arith

active-rotate : (p : Predictor) → active_bucket (rotate p) ≡ map (λ _. 0) (shadow_bucket p)
unfolding rotate set_active
active-rotate p = ground arith

rest-rotate : (p : Predictor) → ((rotate p).bits ≡ p.bits) × ((rotate p).threshold ≡ p.threshold)
unfolding rotate set_active
rest-rotate p = ground arith

-- A bucket counts at least `n` at both positions.
record Holds (n a b : ℕ) (bucket : List ℕ) : Type 0 where
  at_first : min 255 n ≤ get_or bucket a 0
  at_second : min 255 n ≤ get_or bucket b 0

length-bumped : (l : List ℕ) (a : ℕ) → length (bumped l a) ≡ length l
length-bumped l a = ground (arith, length-set l a (get_or l a 0 + 1))

bumped-Holds : (n a b c d : ℕ) (l : List ℕ) → Holds n a b l → Holds n a b (bumped (bumped l c) d)
bumped-Holds n a b c d l h = record {
  at_first = omega (arith, h.at_first, get_or-bumped-le l c a, get_or-bumped-le (bumped l c) d a);
  at_second = omega (arith, h.at_second, get_or-bumped-le l c b, get_or-bumped-le (bumped l c) d b);
}

bumped-Holds_self :
    (n a b : ℕ) (l : List ℕ)
    → a < length l
    → b < length l
    → Holds n a b l
    → Holds (1 + n) a b (bumped (bumped l a) b)
bumped-Holds_self n a b l la lb h = record {
  at_first =
      omega (arith, h.at_first, get_or-bumped_self l a la, get_or-bumped-le (bumped l a) b a);
  at_second = omega (
    arith,
    h.at_second,
    get_or-bumped-le l a b,
    get_or-bumped_self (bumped l a) b (omega (arith, length-bumped l a)),
  );
}

-- Both counters are at the threshold in one of the buckets.
likely :
    (a1 s1 a2 s2 n m : ℕ)
    → min 255 n ≤ a1
    → min 255 m ≤ s1
    → min 255 n ≤ a2
    → min 255 m ≤ s2
    → (2 ≤ n) ⊎ (2 ≤ m)
    → (leb 2 (larger a1 s1) && leb 2 (larger a2 s2)) ≡ true
likely a1 s1 a2 s2 n m ha hs ha' hs' often = ground arith

module _ (hash : Text → ℕ) where
  pub run : Predictor → List Event → Predictor
  run p [] = p
  run p (marks key ∷ h) = mark_uncacheable hash key (run p h)
  run p (rotates ∷ h) = rotate (run p h)

  record Remembers (key : Text) (n m : ℕ) (bits : ℕ) (p : Predictor) : Type 0 where
    same_bits : p.bits ≡ bits
    two : p.threshold ≡ 2
    active_sized : length (active_bucket p) ≡ bits
    shadow_sized : length (shadow_bucket p) ≡ bits
    recent : Holds n (first_hash hash bits key) (second_hash hash bits key) (active_bucket p)
    previous : Holds m (first_hash hash bits key) (second_hash hash bits key) (shadow_bucket p)

  hashes-lt :
      (bits : ℕ) (key : Text)
      → 0 < bits
      → (first_hash hash bits key < bits) × (second_hash hash bits key < bits)
  unfolding first_hash second_hash
  hashes-lt bits key pos = (
    mod-lt _ pos,
    ground (
      arith,
      mod-lt (hash key / 2 ^ 32 % 2 ^ 32) pos,
      mod-lt (hash key / 2 ^ 32 % 2 ^ 32 % bits + 1) pos,
    ),
  )

  mark-buckets :
      (key : Text) (p : Predictor)
      → (active_bucket (mark_uncacheable hash key p)
          ≡ bumped
              (bumped (active_bucket p) (first_hash hash p.bits key))
              (second_hash hash p.bits key))
        × (shadow_bucket (mark_uncacheable hash key p) ≡ shadow_bucket p)
        × ((mark_uncacheable hash key p).bits ≡ p.bits)
        × ((mark_uncacheable hash key p).threshold ≡ p.threshold)
  unfolding mark_uncacheable saturating_increment
  mark-buckets key p =
      let (b, t) = rest-set_active _ p in (active-set_active _ p, shadow-set_active _ p, b, t)

  mark-Remembers :
      (key k : Text) (n m bits : ℕ) (p : Predictor)
      → 0 < bits
      → Remembers key n m bits p
      → Remembers key (ite (text_discrete k key) 1 0 + n) m bits (mark_uncacheable hash k p)
  mark-Remembers key k n m bits p pos r =
      let (a, s, b, t) = mark-buckets k p in
      record {
        same_bits = b ∙ r.same_bits;
        two = t ∙ r.two;
        active_sized = ap length a ∙ length-bumped _ _ ∙ length-bumped _ _ ∙ r.active_sized;
        shadow_sized = ap length s ∙ r.shadow_sized;
        recent = rw (a, r.same_bits) (counted (text_discrete k key));
        previous = rw s r.previous;
      }
    where
      counted :
          (d : Dec (k ≡ key))
          → Holds
              (ite d 1 0 + n)
              (first_hash hash bits key)
              (second_hash hash bits key)
              (bumped (bumped (active_bucket p) (first_hash hash bits k)) (second_hash hash bits k))
      counted (no q) = rw (zero-add n) (bumped-Holds n _ _ _ _ _ r.recent)
      counted (yes q) =
          let (l1, l2) = hashes-lt bits key pos in
          rw q (
            bumped-Holds_self n _ _ _ (omega (arith, r.active_sized))
              (omega (arith, r.active_sized)) r.recent)

  rotate-Remembers :
      (key : Text) (n m bits : ℕ) (p : Predictor)
      → Remembers key n m bits p
      → Remembers key 0 n bits (rotate p)
  rotate-Remembers key n m bits p r =
      let (b, t) = rest-rotate p in
      record {
        same_bits = b ∙ r.same_bits;
        two = t ∙ r.two;
        active_sized =
            ap length (active-rotate p) ∙ length-map (shadow_bucket p) _ ∙ r.shadow_sized;
        shadow_sized = ap length (shadow-rotate p) ∙ r.active_sized;
        recent = record { at_first = omega arith; at_second = omega arith };
        previous = rw (shadow-rotate p) r.recent;
      }

  fresh-Remembers :
      (key : Text) (bits capacity : ℕ) (decay : ℤ)
      → Remembers key 0 0 bits (with_counters bits capacity decay)
  fresh-Remembers key bits capacity decay = record {
    same_bits = refl;
    two = refl;
    active_sized = length-replicate _ _;
    shadow_sized = length-replicate _ _;
    recent = record { at_first = omega arith; at_second = omega arith };
    previous = record { at_first = omega arith; at_second = omega arith };
  }

  run-Remembers :
      (key : Text) (h : List Event) (bits capacity : ℕ) (decay : ℤ)
      → 0 < bits
      → Remembers key
          (recent_marks key h)
          (previous_marks key h)
          bits
          (run (with_counters bits capacity decay) h)
  unfolding run recent_marks previous_marks
  run-Remembers key [] bits capacity decay pos = fresh-Remembers key bits capacity decay
  run-Remembers key (marks k ∷ h) bits capacity decay pos =
      mark-Remembers key k _ _ bits _ pos (run-Remembers key h bits capacity decay pos)
  run-Remembers key (rotates ∷ h) bits capacity decay pos =
      rotate-Remembers key _ _ bits _ (run-Remembers key h bits capacity decay pos)

  -- From a new predictor, whatever other keys are marked, a key is predicted once it is marked
  -- twice between two rotations, up to the second rotation after that.
  pub predicted-window :
      (key : Text) (h : List Event) (bits capacity : ℕ) (decay : ℤ)
      → 0 < bits
      → (2 ≤ recent_marks key h) ⊎ (2 ≤ previous_marks key h)
      → (is_likely_uncacheable hash key (run (with_counters bits capacity decay) h)).1 ≡ true
  unfolding is_likely_uncacheable
  predicted-window key h bits capacity decay pos often =
      let r = run-Remembers key h bits capacity decay pos in
      let p = run (with_counters bits capacity decay) h in
      let sure =
        likely _ _ _ _ _ _ r.recent.at_first r.previous.at_first r.recent.at_second
          r.previous.at_second often in
      remembered p r.same_bits r.two sure
    where
      remembered :
          (p : Predictor)
          → p.bits ≡ bits
          → p.threshold ≡ 2
          → (leb 2 (
                larger
                  (get_or (active_bucket p) (first_hash hash bits key) 0)
                  (get_or (shadow_bucket p) (first_hash hash bits key) 0))
              && leb 2 (
                  larger
                    (get_or (active_bucket p) (second_hash hash bits key) 0)
                    (get_or (shadow_bucket p) (second_hash hash bits key) 0)))
            ≡ true
          → (is_likely_uncacheable hash key p).1 ≡ true
      remembered p b t sure = rw (b, t, is_likely_uncacheable, sure)
