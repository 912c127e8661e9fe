-- ===== src/Cache/Tests.antt =====
-- The parts of cache/ below the two-tier cache, at concrete inputs.
use cdn_edge.Common.{◌-◌, ◌%◌, ◌≤◌, ◌≡◌, arith, min, List, [], ◌∷◌, Text, length, take, replicate}
use cdn_edge.Common.Int.{pos, ◌≤ℤ◌}
use cdn_edge.Cache.Entry.{Entry}
use cdn_edge.Cache.Sketch.{CountMinSketch, new_count_min_sketch, sketch_increment}
use cdn_edge.Cache.Sketch.Bound.{Counts, sketch_increment-Counts_self}
use cdn_edge.Cache.Sketch.Decay.{new_count_min_sketch-Counts}
use cdn_edge.Cache.Doorkeeper.{Doorkeeper, new_doorkeeper}
use cdn_edge.Cache.TinyLfu.{new_tiny_lfu, estimate}
use cdn_edge.Cache.TinyLfu.Window.{lfu_run, accesses, full_window, estimate-accesses}
use cdn_edge.Cache.Disk.{Disk, spill_to_disk}
use cdn_edge.Cache.Disk.Budget.{spill_within_limit}
use cdn_edge.Cache.Toy.{toy_hash, toy_platform, sample_entry}

abbrev small_raw : Text
small_raw = 1 ∷ 1 ∷ 120 ∷ 1 ∷ 1 ∷ 121 ∷ []

-- A window of 292 years behind a TTL of a day.
abbrev long_entry : Entry
long_entry = record sample_entry {
  ttl = pos 86400000000000;
  stale_while_revalidate = pos 9223372036854775807;
}

abbrev letter : Text
letter = 97 ∷ []

abbrev twice_seen : CountMinSketch
twice_seen =
    sketch_increment toy_hash letter (sketch_increment toy_hash letter (new_count_min_sketch 100))

twice_seen-Counts : Counts toy_hash letter 2 twice_seen
twice_seen-Counts = sketch_increment-Counts_self toy_hash letter 1 _ (
    sketch_increment-Counts_self toy_hash letter 0 _
      (new_count_min_sketch-Counts toy_hash letter 100))

abbrev small_door : Doorkeeper
small_door = new_doorkeeper 100

abbrev other : Text
other = 98 ∷ []

abbrev history : List Text
history = letter ∷ other ∷ letter ∷ letter ∷ []

estimate-accesses_example :
    let t = lfu_run toy_hash (new_tiny_lfu 100) history in
    let recent = length history % full_window 100 in
    (t.counter ≡ recent)
    × (min 255 (accesses letter (take recent history) - 1) ≤ estimate toy_hash letter t)
estimate-accesses_example = estimate-accesses toy_hash letter 100 history (omega arith)

abbrev tiny_disk : Disk
tiny_disk = record { files = []; used_bytes = pos 0; max_bytes = pos 600 }

spill_within_limit_example :
    (spill_to_disk toy_platform (pos 101) letter sample_entry tiny_disk).used_bytes ≤ℤ pos 600
spill_within_limit_example =
    spill_within_limit toy_platform (pos 101) letter sample_entry tiny_disk (omega arith)
      (omega arith)

-- A response without a body whose header is longer than the limit.
abbrev header_entry : Entry
header_entry = record sample_entry { body = []; etag = long_tag }
  where
    long_tag : Text
    long_tag = replicate 600 0
