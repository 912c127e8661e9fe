-- ===== src/Cache/TinyLfu/Window.antt =====
-- What the frequencies of cache/tinylfu.go say of the accesses since the last decay.
use mathlib.Core.Bool.{false≢true}
use native.Mathlib.Nat.{mod-lt, mod-eq_of_lt, suc-mod, mod_self, zero-add}
use Prim.Native.Nat.{max}
use cdn_edge.Common.{
  ℕ, zero, suc, ◌+◌, ◌-◌, ◌*◌, ◌%◌, ◌^◌, ◌≤◌, ◌<◌, ◌≡◌, ap, ◌∙◌, leb, take, refl, arith, min, Bool,
  true, false, ite, if_pos, if_neg, dec_lt, sym, if◌then◌else◌, List, [], ◌∷◌, Text, text_discrete,
  length,
}
use cdn_edge.Cache.Sketch.{CountMinSketch, sketch_increment}
use cdn_edge.Cache.Sketch.Bound.{
  Counts, Counts-mono, sketch_increment-Counts, sketch_increment-Counts_self, sketch_estimate_bound,
}
use cdn_edge.Cache.Sketch.Decay.{new_count_min_sketch-Counts, halve-Counts}
use cdn_edge.Cache.Doorkeeper.{door_contains}
use cdn_edge.Cache.Doorkeeper.Members.{
  IsSized, door_add-IsSized, door_contains-add_self, door_contains-add, door_add-contains,
  door_reset-IsSized, new_doorkeeper-IsSized,
}
use cdn_edge.Common.Int.{ℤ, pos, pos_part, ltb_ℤ, wrap_i64, wrap_i64-eq_of_IsI64}
use cdn_edge.Cache.TinyLfu.{TinyLfu, sample_window, new_tiny_lfu, lfu_increment, estimate}

-- The accesses to a key in a history.
pub accesses : Text → List Text → ℕ
accesses key [] = 0
accesses key (k ∷ h) = ite (text_discrete k key) 1 0 + accesses key h

-- Ten accesses for each item, and at least 1000.
abbrev pub full_window : ℕ → ℕ
full_window max_items = max 1000 (max_items * 10)

sample_window-eq_of_lt :
    (max_items : ℕ) → max_items * 10 < 2 ^ 63 → sample_window max_items ≡ full_window max_items
unfolding sample_window
sample_window-eq_of_lt m lt =
    let e : wrap_i64 (pos (m * 10)) ≡ pos (m * 10) =
      wrap_i64-eq_of_IsI64 (pos (m * 10)) (lt, omega arith) in
    ap floored e ∙ floored-eq (m * 10)
  where
    floored : ℤ → ℕ
    floored z = if ltb_ℤ z (pos 1000) then 1000 else pos_part z

    floored-eq : (n : ℕ) → floored (pos n) ≡ max 1000 n
    floored-eq n = ground arith

module _ (hash : Text → ℕ) where
  -- The newest access stands first.
  pub lfu_run : TinyLfu → List Text → TinyLfu
  lfu_run t [] = t
  lfu_run t (key ∷ h) = lfu_increment hash key (lfu_run t h)

  -- The key has been accessed at least `n` times since the last decay.
  pub record Seen (key : Text) (n : ℕ) (t : TinyLfu) : Type 0 where
    pub door_sized : IsSized t.door
    pub kept : 0 < n → door_contains hash key t.door ≡ true
    pub counted : Counts hash key (n - 1) t.sketch

  counted_other :
      (key other : Text) (n : ℕ) (s : CountMinSketch) (seen : Bool)
      → Counts hash key n s
      → Counts hash key n (if seen then sketch_increment hash other s else s)
  counted_other key other n s true c = sketch_increment-Counts hash key n other s c
  counted_other key other n s false c = c

  -- An access is counted from the second one on, when the doorkeeper knows the key.
  counted_self :
      (key : Text) (n : ℕ) (s : CountMinSketch) (seen : Bool)
      → (0 < n → seen ≡ true)
      → Counts hash key (n - 1) s
      → Counts hash key (1 + n - 1) (if seen then sketch_increment hash key s else s)
  counted_self key n s true kept c =
      Counts-mono hash key _ (n - 1 + 1) _ (omega arith)
        (sketch_increment-Counts_self hash key _ s c)
  counted_self key zero s false kept c = Counts-mono hash key _ _ s (omega arith) c
  counted_self key (suc n) s false kept c = absurd (false≢true (kept (omega arith)))

  -- The three ways in which an access changes what is known of a key.
  increment_other :
      (key other : Text) (n : ℕ) (t : TinyLfu)
      → t.counter + 1 < t.max_items
      → Seen key n t
      → Seen key n (lfu_increment hash other t)
  unfolding lfu_increment
  increment_other key other n t lt s =
      let shut : leb t.max_items (t.counter + 1) ≡ false = ground arith in
      rw (shut, lfu_increment)
        (record {
          door_sized = door_add-IsSized hash other t.door s.door_sized;
          kept = λ some_access. door_contains-add hash key other t.door (s.kept some_access);
          counted = counted_other key other _ t.sketch _ s.counted;
        })

  increment_self :
      (key : Text) (n : ℕ) (t : TinyLfu)
      → t.counter + 1 < t.max_items
      → Seen key n t
      → Seen key (1 + n) (lfu_increment hash key t)
  unfolding lfu_increment
  increment_self key n t lt s =
      let shut : leb t.max_items (t.counter + 1) ≡ false = ground arith in
      rw (shut, lfu_increment)
        (record {
          door_sized = door_add-IsSized hash key t.door s.door_sized;
          kept = λ some_access. door_contains-add_self hash key t.door s.door_sized;
          counted =
              counted_self key n t.sketch _
                (λ some_access. door_add-contains hash key t.door ∙ s.kept some_access) s.counted;
        })

  increment_decay :
      (key other : Text) (n : ℕ) (t : TinyLfu)
      → t.max_items ≤ t.counter + 1
      → Seen key n t
      → Seen key 0 (lfu_increment hash other t)
  unfolding lfu_increment
  increment_decay key other n t le s =
      let open_door : leb t.max_items (t.counter + 1) ≡ true = ground arith in
      rw (open_door, lfu_increment)
        (record {
          door_sized = door_reset-IsSized _ (door_add-IsSized hash other t.door s.door_sized);
          kept = λ some_access. absurd (omega arith);
          counted =
              Counts-mono hash key _ _ _ (omega arith)
                (halve-Counts hash key _ _ (counted_other key other _ t.sketch _ s.counted));
        })

  record Follows (key : Text) (window : ℕ) (h : List Text) (t : TinyLfu) : Type 0 where
    window_same : t.max_items ≡ window
    counter_mod : t.counter ≡ length h % window
    seen : Seen key (accesses key (take (length h % window) h)) t

  increment_counter :
      (key : Text) (t : TinyLfu)
      → ((lfu_increment hash key t).max_items ≡ t.max_items)
        × ((lfu_increment hash key t).counter
            ≡ (if leb t.max_items (t.counter + 1) then 0 else t.counter + 1))
  unfolding lfu_increment
  increment_counter key t = ground arith

  Follows-step :
      (key : Text) (window : ℕ) (k : Text) (h : List Text) (t : TinyLfu)
      → 0 < window
      → Follows key window h t
      → Follows key window (k ∷ h) (lfu_increment hash k t)
  unfolding accesses
  Follows-step key window k h t positive f =
      let (same, count) = increment_counter k t in
      elim (dec_lt (t.counter + 1) window) [
        | yes lt ↦
            let e : suc (length h) % window ≡ suc (length h % window) =
              suc-mod (length h) window ∙ mod-eq_of_lt (omega (arith, f.counter_mod)) in
            record {
              window_same = same ∙ f.window_same;
              counter_mod = ground (arith, f.counter_mod, f.window_same, count, e);
              seen = rw e (elim (text_discrete k key) [
                | yes p ↦
                    rw (if_pos _ p, p)
                      (increment_self key _ t (omega (arith, f.window_same)) f.seen)
                | no p ↦
                    rw (if_neg _ p, zero-add)
                      (increment_other key k _ t (omega (arith, f.window_same)) f.seen)
              ]);
            }
        | no ge ↦
            let full : suc (length h % window) ≡ window =
              omega (arith, f.counter_mod, mod-lt (length h) positive) in
            let e : suc (length h) % window ≡ 0 =
              suc-mod (length h) window ∙ (rw full (mod_self window)) in
            record {
              window_same = same ∙ f.window_same;
              counter_mod = ground (arith, f.counter_mod, f.window_same, count, e);
              seen = rw e (increment_decay key k _ t (omega (arith, f.window_same)) f.seen);
            }
      ]

  run-Follows :
      (key : Text) (t : TinyLfu) (h : List Text)
      → 0 < t.max_items
      → t.counter ≡ 0
      → Seen key 0 t
      → Follows key t.max_items h (lfu_run t h)
  unfolding lfu_run accesses
  run-Follows key t [] positive z s =
      let e : 0 % t.max_items ≡ 0 = mod-eq_of_lt positive in
      record { window_same = refl; counter_mod = z ∙ sym e; seen = rw e s }
  run-Follows key t (k ∷ h) positive z s =
      Follows-step key t.max_items k h (lfu_run t h) positive (run-Follows key t h positive z s)

  new_tiny_lfu-Seen : (key : Text) (max_items : ℕ) → Seen key 0 (new_tiny_lfu max_items)
  unfolding new_tiny_lfu
  new_tiny_lfu-Seen key m = record {
    door_sized = new_doorkeeper-IsSized m;
    kept = λ some_access. absurd (omega arith);
    counted = new_count_min_sketch-Counts hash key m;
  }

  -- From a new policy for so many items that ten times of them fit an int64, after any history of
  -- accesses, the estimate of a key is at least its accesses since the last decay less one, up to
  -- 255, and a decay comes exactly each ten accesses for each item, but at least 1000.
  pub estimate-accesses :
      (key : Text) (max_items : ℕ) (h : List Text)
      → max_items * 10 < 2 ^ 63
      → let t = lfu_run (new_tiny_lfu max_items) h in
        let recent = length h % full_window max_items in
        (t.counter ≡ recent) × (min 255 (accesses key (take recent h) - 1) ≤ estimate hash key t)
  unfolding new_tiny_lfu estimate
  estimate-accesses key m h lt =
      let t = new_tiny_lfu m in
      let w : t.max_items ≡ full_window m = sample_window-eq_of_lt m lt in
      let f = run-Follows key t h (omega (arith, w)) refl (new_tiny_lfu-Seen key m) in
      rw (← w) (f.counter_mod, sketch_estimate_bound hash key _ _ f.seen.counted)
