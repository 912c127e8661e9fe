-- ===== src/Cache/Tiered.antt =====
-- The two-tier cache of cache/cache.go: shards of an LRU list behind TinyLFU admission, over the
-- disk tier. `now` is the time of the call. Each method is one step: what it does under the locks
-- of a shard, of the disk and of the frequency sketch is not interleaved with other calls. The
-- `int64` and `atomic` counters do not wrap.
pub mod Lru
pub mod Occupancy
pub mod Slot
pub mod Validity
pub mod Purge
pub mod Options
pub mod Ops
pub mod Reads
pub mod Removal
use cdn_edge.Common.{
  ℕ, zero, suc, ◌+◌, ◌%◌, ◌<◌, Bool, true, false, not, ◌&&◌, ltb, leb, if◌then◌else◌, List, [], ◌∷◌,
  Option, none, some, Text, text_discrete, length, get_or, set,
}
use cdn_edge.Common.Int.{ℤ, pos, ltb_ℤ}
use cdn_edge.Cache.Entry.{Entry, is_expired, is_stale_servable}
use cdn_edge.Cache.Headers.{new_compressed_header}
use cdn_edge.Cache.TinyLfu.{TinyLfu, lfu_increment, admit}
use cdn_edge.Cache.Shard.{
  Shard, Element, new_shard, back, element_of, move_to_front, overwrite, drop_element, push_front,
}
use cdn_edge.Cache.Disk.{Disk, Platform, spill_to_disk, load_from_disk, remove_from_disk}

pub record Stats : Type 0 where
  pub hits : ℕ
  pub misses : ℕ
  pub evicts : ℕ
  pub stale_hits : ℕ

-- `has_disk` is `diskDir != ""`; `num_shards` is a power of two, so that `& c.shardMask` is the
-- remainder.
pub record Cache : Type 0 where
  pub shards : List Shard
  pub num_shards : ℕ
  pub max_entry_bytes : ℤ
  pub max_key_len : ℤ
  pub has_disk : Bool
  pub disk : Disk
  pub stats : Stats
  pub lfu : TinyLfu
  pub compress_headers : Bool

-- A shard that is not there, for an index out of range.
abbrev pub no_shard : Shard
no_shard = record { items = []; eviction = []; max_items = 0; next_address = 0 }

module _ (p : Platform) where
  unfoldable pub shard_index : Text → Cache → ℕ
  shard_index key c = p.hash key % c.num_shards

  unfoldable pub get_shard : Text → Cache → Shard
  unfolding shard_index
  get_shard key c = get_or c.shards (shard_index key c) no_shard

  pub put_shard : Text → Shard → Cache → Cache
  unfolding shard_index
  put_shard key s c = record c { shards = set c.shards (shard_index key c) s }

pub count_hit : Cache → Cache
count_hit c = record c { stats = record (c.stats) { hits = c.stats.hits + 1 } }

pub count_miss : Cache → Cache
count_miss c = record c { stats = record (c.stats) { misses = c.stats.misses + 1 } }

pub count_stale_hit : Cache → Cache
count_stale_hit c = record c { stats = record (c.stats) { stale_hits = c.stats.stale_hits + 1 } }

-- What `putInShard` works on: the shard, the count of evictions and the disk.
pub record SlotState : Type 0 where
  pub shard : Shard
  pub evicts : ℕ
  pub disk : Disk

module _ (p : Platform) (now : ℤ) where
  pub evict_item : Bool → Element → SlotState → SlotState
  evict_item has_disk e x = record {
    shard = drop_element e x.shard;
    evicts = x.evicts + 1;
    disk = if has_disk then spill_to_disk p now e.key e.entry x.disk else x.disk;
  }

  -- The eviction loop of `putInShard`; `false` is the early return for a newcomer that is not
  -- admitted. An iteration drops an element, so that their number and one more is enough fuel.
  pub evict_loop : ℕ → Bool → TinyLfu → Text → SlotState → SlotState × Bool
  unfolding evict_item
  evict_loop zero has_disk lfu key x = (x, true)
  evict_loop (suc fuel) has_disk lfu key x =
      elim (leb x.shard.max_items (length x.shard.eviction)) [
        | false ↦ (x, true)
        | true ↦ elim (back x.shard.eviction) [
          | none ↦ (x, true)
          | some victim ↦ elim (admit p.hash key victim.key lfu) [
            | false ↦ (x, false)
            | true ↦ evict_loop fuel has_disk lfu key (evict_item has_disk victim x)
          ]
        ]
      ]

  pub put_in_slot : Bool → TinyLfu → Text → Entry → SlotState → SlotState
  put_in_slot has_disk lfu key entry x = elim (element_of key x.shard) [
    | some e ↦ record x { shard = overwrite e entry x.shard }
    | none ↦
        let (y, admitted) = evict_loop (suc (length x.shard.eviction)) has_disk lfu key x in
        if admitted then record y { shard = push_front key entry y.shard } else y
  ]

  pub put_in_shard : Text → Entry → Cache → Cache
  put_in_shard key entry c =
      let x : SlotState = record {
        shard = get_shard p key c;
        evicts = c.stats.evicts;
        disk = c.disk;
      } in
      let y = put_in_slot c.has_disk c.lfu key entry x in
      put_shard p key y.shard
        (record c { stats = record (c.stats) { evicts = y.evicts }; disk = y.disk })

  pub compress_entry : Bool → Entry → Entry
  compress_entry compress e = elim e.header [
    | none ↦ e
    | some h ↦ elim e.compressed_header [
      | some ch ↦ e
      | none ↦
          if compress
          then record e { compressed_header = new_compressed_header p.codec h; header = none }
          else e
    ]
  ]

  pub put : Text → Entry → Cache → Cache
  put key entry c =
      if ltb_ℤ (pos 0) c.max_entry_bytes && ltb_ℤ c.max_entry_bytes (pos (length entry.body))
      then c
      else if ltb_ℤ (pos 0) c.max_key_len && ltb_ℤ c.max_key_len (pos (length key))
      then c
      else put_in_shard key (compress_entry c.compress_headers entry) c

  -- `if c.diskDir != "" { c.removeFromDisk(key) }`
  pub remove_on_disk : Text → Cache → Cache
  remove_on_disk key c = if c.has_disk then record c { disk = remove_from_disk p key c.disk } else c

  pub drop_key : Text → Cache → Cache
  drop_key key c = elim (element_of key (get_shard p key c)) [
    | none ↦ c
    | some e ↦ put_shard p key (drop_element e (get_shard p key c)) c
  ]

  pub delete_shard : Text → Cache → Cache
  delete_shard key c = remove_on_disk key (drop_key key c)

  pub delete_entry : Text → Cache → Cache
  delete_entry key c = delete_shard key c

  -- What becomes of an entry that the disk has returned.
  pub loaded : Text → Entry → Cache → Cache × Option Entry
  loaded key entry c =
      if is_expired now entry && not (is_stale_servable now entry)
      then (count_miss (record c { disk = remove_from_disk p key c.disk }), none)
      else (let c' = put_in_shard key entry c in
          (if is_expired now entry then count_stale_hit c' else count_hit c', some entry))

  -- A lookup that the memory does not answer.
  unfoldable pub get_from_disk : Text → Cache → Cache × Option Entry
  get_from_disk key c =
      if c.has_disk
      then elim (load_from_disk p c.compress_headers key c.disk) [
        | none ↦ (count_miss c, none)
        | some entry ↦ loaded key entry c
      ]
      else (count_miss c, none)

  -- A lookup that finds the element in memory.
  unfoldable pub get_from_memory : Text → Element → Cache → Cache × Option Entry
  get_from_memory key e c =
      let s = get_shard p key c in
      let moved = put_shard p key (move_to_front e s) c in
      if is_expired now e.entry
      then (if is_stale_servable now e.entry
          then (count_stale_hit moved, some e.entry)
          else (let dropped = put_shard p key (drop_element e s) c in
              (count_miss (remove_on_disk key dropped), none)))
      else (count_hit moved, some e.entry)

  unfoldable pub get : Text → Cache → Cache × Option Entry
  get key c0 =
      let c = record c0 { lfu = lfu_increment p.hash key c0.lfu } in
      elim (element_of key (get_shard p key c)) [
        | some e ↦ get_from_memory key e c
        | none ↦ get_from_disk key c
      ]

pub purge_shards : List Shard → List Shard
purge_shards [] = []
purge_shards (s ∷ ss) = record s { items = []; eviction = [] } ∷ purge_shards ss

pub purge : Cache → Cache
unfolding purge_shards
purge c = record c { shards = purge_shards c.shards }

pub total_items : List Shard → ℕ
total_items [] = 0
total_items (s ∷ ss) = length s.items + total_items ss

-- `Len`
pub len : Cache → ℕ
unfolding total_items
len c = total_items c.shards
