-- ===== src/Cache/TinyLfu.antt =====
-- cache/tinylfu.go: the TinyLFU admission policy over the sketch and the doorkeeper. The mutex
-- makes each method one step.
pub mod Window
use cdn_edge.Common.{ℕ, ◌+◌, ◌*◌, Bool, true, ltb, leb, if◌then◌else◌, Text}
use cdn_edge.Common.Int.{pos, pos_part, ltb_ℤ, wrap_i64}
use cdn_edge.Cache.Doorkeeper.{Doorkeeper, new_doorkeeper, door_add, door_reset}
use cdn_edge.Cache.Sketch.{
  CountMinSketch, new_count_min_sketch, sketch_increment, sketch_estimate, halve,
}

pub record TinyLfu : Type 0 where
  pub sketch : CountMinSketch
  pub door : Doorkeeper
  pub counter : ℕ
  pub max_items : ℕ

-- `sampleWindow`, an int64 that wraps.
unfoldable pub sample_window : ℕ → ℕ
sample_window max_items =
    let window = wrap_i64 (pos (max_items * 10)) in
    if ltb_ℤ window (pos 1000) then 1000 else pos_part window

pub new_tiny_lfu : ℕ → TinyLfu
unfolding sample_window
new_tiny_lfu max_items = record {
  sketch = new_count_min_sketch max_items;
  door = new_doorkeeper max_items;
  counter = 0;
  max_items = sample_window max_items;
}

module _ (hash : Text → ℕ) where
  pub lfu_increment : Text → TinyLfu → TinyLfu
  lfu_increment key t =
      let (door, seen) = door_add hash key t.door in
      let sketch = if seen then sketch_increment hash key t.sketch else t.sketch in
      let c = t.counter + 1 in
      if leb t.max_items c
      then record t { sketch = halve sketch; door = door_reset door; counter = 0 }
      else record t { sketch = sketch; door = door; counter = c }

  pub admit : Text → Text → TinyLfu → Bool
  admit new_key victim_key t =
      leb (sketch_estimate hash victim_key t.sketch) (sketch_estimate hash new_key t.sketch)

  pub estimate : Text → TinyLfu → ℕ
  estimate key t = sketch_estimate hash key t.sketch
