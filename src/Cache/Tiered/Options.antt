-- ===== src/Cache/Tiered/Options.antt =====
-- `NewWithOptions` of cache/cache.go. The directory of the disk tier is a parameter: what
-- `os.MkdirAll` makes available under a path, or nothing if it fails.
pub mod Capacity
mod Tests
use cdn_edge.Common.{
  ℕ, zero, suc, ◌+◌, ◌*◌, ◌/◌, ◌%◌, ◌^◌, Bool, not, ◌==◌, ltb, leb, if◌then◌else◌, List, [], ◌∷◌,
  Option, none, some, Text, length,
}
use cdn_edge.Common.Int.{ℤ, pos, negsuc, wrap_i64}
use cdn_edge.Common.Bits.{next_pow2}
use cdn_edge.Cache.TinyLfu.{new_tiny_lfu}
use cdn_edge.Cache.Shard.{Shard, new_shard}
use cdn_edge.Cache.Disk.{Disk, File, calculate_disk_usage}
use cdn_edge.Cache.Tiered.{Cache}

pub record Options : Type 0 where
  pub max_items : ℤ
  pub max_entry_bytes : ℤ
  pub max_key_len : ℤ
  pub num_shards : ℤ
  pub disk_dir : Text
  pub disk_max_bytes : ℤ
  pub compress_headers : Bool

-- An `int` option, with a default for those that are not positive.
pub positive_or : ℕ → ℤ → ℕ
positive_or default (pos zero) = default
positive_or default (pos (suc n)) = suc n
positive_or default (negsuc n) = default

-- `for numShards > maxItems { numShards /= 2 }`. An `int` is 0 after 63 iterations.
pub halve_until : ℕ → ℕ → ℕ → ℕ
halve_until zero max_items n = n
halve_until (suc f) max_items n =
    let halved = halve_until f max_items (n / 2) in if ltb max_items n then halved else n

-- The loop on an `int`, and the last test: at least one.
pub limit_shards : ℕ → ℤ → ℕ
unfolding halve_until
limit_shards max_items (negsuc n) = 1
limit_shards max_items (pos n) = let m = halve_until 63 max_items n in if ltb m 1 then 1 else m

pub shard_count : ℕ → ℤ → ℕ
unfolding positive_or limit_shards
shard_count max_items num_shards =
    limit_shards max_items
      (if ltb max_items 64 then pos 1 else wrap_i64 (pos (next_pow2 (positive_or 256 num_shards))))

-- The shards from index `i` on, `n` of them.
pub new_shards : ℕ → ℕ → ℕ → ℕ → List Shard
new_shards zero i per_shard remainder = []
new_shards (suc n) i per_shard remainder =
    new_shard (if ltb i remainder then per_shard + 1 else per_shard)
    ∷ new_shards n (suc i) per_shard remainder

-- `none` is the error.
pub open_disk : (Text → Option (List (Text × File))) → Options → Option Disk
open_disk mkdir_all opts =
    if length opts.disk_dir == 0
    then some (record { files = []; used_bytes = pos 0; max_bytes = opts.disk_max_bytes })
    else (elim (mkdir_all opts.disk_dir) [
      | none ↦ none
      | some files ↦ some (record {
        files = files;
        used_bytes = pos (calculate_disk_usage files);
        max_bytes = opts.disk_max_bytes;
      })
    ])

pub build_cache : Options → Disk → Cache
unfolding shard_count new_shards
build_cache opts disk =
    let max_items = positive_or 1 opts.max_items in
    let num_shards = shard_count max_items opts.num_shards in
    record {
      shards = new_shards num_shards 0 (max_items / num_shards) (max_items % num_shards);
      num_shards = num_shards;
      max_entry_bytes = opts.max_entry_bytes;
      max_key_len = opts.max_key_len;
      has_disk = not (length opts.disk_dir == 0);
      disk = disk;
      stats = record { hits = 0; misses = 0; evicts = 0; stale_hits = 0 };
      lfu = new_tiny_lfu max_items;
      compress_headers = opts.compress_headers;
    }

pub new_with_options : (Text → Option (List (Text × File))) → Options → Option Cache
new_with_options mkdir_all opts = elim (open_disk mkdir_all opts) [
  | none ↦ none
  | some disk ↦ some (build_cache opts disk)
]
