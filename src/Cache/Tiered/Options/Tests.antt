-- ===== src/Cache/Tiered/Options/Tests.antt =====
-- The two-tier cache of cache/cache.go at concrete inputs.
use cdn_edge.Common.{◌≤◌, ◌≡◌, refl, arith, true, List, [], ◌∷◌, Option, none, some, Text}
use cdn_edge.Common.Int.{pos}
use cdn_edge.Cache.Shard.{new_shard}
use cdn_edge.Cache.TinyLfu.{TinyLfu, new_tiny_lfu}
use cdn_edge.Cache.Disk.{File, calculate_disk_usage}
use cdn_edge.Cache.Toy.{toy_platform, sample_entry}
use cdn_edge.Cache.Tiered.{Cache, SlotState, put_in_slot, get, delete_entry, len}
use cdn_edge.Cache.Tiered.Slot.{Stored, put_in_slot-lru}
use cdn_edge.Cache.Tiered.Validity.{IsConsistent}
use cdn_edge.Cache.Tiered.Options.{Options, positive_or, build_cache, open_disk, new_with_options}
use cdn_edge.Cache.Tiered.Options.Capacity.{new_shard-IsValid}
use cdn_edge.Cache.Tiered.Ops.{Op, put_op, get_op, delete_op, purge_op, run}
use cdn_edge.Cache.Tiered.Ops.History.{run-within_capacity}
use cdn_edge.Cache.Tiered.Reads.{Answers, get-Answers}
use cdn_edge.Cache.Tiered.Removal.{get-delete_entry}

abbrev letter_a : Text
letter_a = 97 ∷ []

abbrev letter_b : Text
letter_b = 98 ∷ []

abbrev idle_lfu : TinyLfu
idle_lfu = new_tiny_lfu 1

-- A shard for one item.
abbrev one_slot : SlotState
one_slot = record {
  shard = new_shard 1;
  evicts = 0;
  disk = record { files = []; used_bytes = pos 0; max_bytes = pos 0 };
}

abbrev full_slot : SlotState
full_slot = put_in_slot toy_platform (pos 100) true idle_lfu letter_a sample_entry one_slot

full_slot-Stored :
    Stored toy_platform (pos 100) true idle_lfu letter_a sample_entry one_slot full_slot
full_slot-Stored =
    put_in_slot-lru toy_platform (pos 100) true idle_lfu letter_a sample_entry one_slot
      (new_shard-IsValid 1 (omega arith))

put_in_slot-lru_example :
    Stored toy_platform
      (pos 100)
      true
      idle_lfu
      letter_b
      sample_entry
      full_slot
      (put_in_slot toy_platform (pos 100) true idle_lfu letter_b sample_entry full_slot)
put_in_slot-lru_example =
    put_in_slot-lru toy_platform (pos 100) true idle_lfu letter_b sample_entry full_slot
      full_slot-Stored.valid

abbrev small_options : Options
small_options = record {
  max_items = pos 100;
  max_entry_bytes = pos 0;
  max_key_len = pos 0;
  num_shards = pos 5;
  disk_dir = 100 ∷ [];
  disk_max_bytes = pos 0;
  compress_headers = true;
}

abbrev empty_directory : Text → Option (List (Text × File))
empty_directory path = some []

abbrev small_cache : Cache
small_cache =
    build_cache small_options (record { files = []; used_bytes = pos 0; max_bytes = pos 0 })

small_cache-made : new_with_options empty_directory small_options ≡ some small_cache
unfolding new_with_options open_disk calculate_disk_usage
small_cache-made = refl

abbrev calls : List Op
calls =
    put_op (pos 100) letter_a sample_entry
    ∷ get_op (pos 105) letter_a
    ∷ get_op (pos 105) letter_b
    ∷ delete_op (pos 106) letter_a
    ∷ put_op (pos 107) letter_b sample_entry
    ∷ purge_op
    ∷ []

run-within_capacity_example :
    IsConsistent (positive_or 1 (pos 100)) (run toy_platform calls small_cache)
    × (len (run toy_platform calls small_cache) ≤ positive_or 1 (pos 100))
run-within_capacity_example =
    run-within_capacity toy_platform empty_directory small_options calls small_cache (omega arith)
      small_cache-made

abbrev used_cache : Cache
used_cache = run toy_platform (put_op (pos 100) letter_a sample_entry ∷ []) small_cache

used_cache-IsConsistent : IsConsistent (positive_or 1 (pos 100)) used_cache
used_cache-IsConsistent =
    (run-within_capacity toy_platform empty_directory small_options _ small_cache (omega arith)
      small_cache-made).0

get-Answers_example : Answers (pos 115) used_cache (get toy_platform (pos 115) letter_a used_cache)
get-Answers_example = get-Answers toy_platform (pos 115) letter_a used_cache

get-delete_entry_example :
    (get toy_platform
      (pos 107)
      letter_a
      (delete_entry toy_platform (pos 106) letter_a used_cache)).1
    ≡ none
get-delete_entry_example =
    get-delete_entry toy_platform (pos 106) letter_a (positive_or 1 (pos 100)) (pos 107) used_cache
      used_cache-IsConsistent
