-- ===== src/Cache/Tiered/Ops/History.antt =====
-- What holds of a cache of cache/cache.go after any calls.
use cdn_edge.Common.{ℕ, ◌^◌, ◌≤◌, ◌≡◌, Option, some, List, [], ◌∷◌, Text}
use cdn_edge.Common.Int.{pos, ◌≤ℤ◌}
use cdn_edge.Cache.Disk.{Platform, File}
use cdn_edge.Cache.Tiered.{Cache, len}
use cdn_edge.Cache.Tiered.Validity.{
  IsConsistent, put-IsConsistent, get-IsConsistent, delete_entry-IsConsistent,
}
use cdn_edge.Cache.Tiered.Purge.{purge-IsConsistent, len_bound}
use cdn_edge.Cache.Tiered.Options.{Options, positive_or, new_with_options}
use cdn_edge.Cache.Tiered.Options.Capacity.{new_with_options-capacity}
use cdn_edge.Cache.Tiered.Ops.{Op, put_op, get_op, delete_op, purge_op, apply, run}

module _ (p : Platform) where
  apply-IsConsistent :
      (cap : ℕ) (o : Op) (c : Cache) → IsConsistent cap c → IsConsistent cap (apply p o c)
  unfolding apply
  apply-IsConsistent cap (put_op now key e) c v = put-IsConsistent p cap now key e c v
  apply-IsConsistent cap (get_op now key) c v = get-IsConsistent p cap now key c v
  apply-IsConsistent cap (delete_op now key) c v = delete_entry-IsConsistent p cap now key c v
  apply-IsConsistent cap purge_op c v = purge-IsConsistent cap c v

  run-IsConsistent :
      (cap : ℕ) (os : List Op) (c : Cache) → IsConsistent cap c → IsConsistent cap (run p os c)
  unfolding run
  run-IsConsistent cap [] c v = v
  run-IsConsistent cap (o ∷ os) c v = run-IsConsistent cap os _ (apply-IsConsistent cap o c v)

  -- After any calls on a cache that `new_with_options` has made for at most 2^62 shards, each of
  -- its shards is coherent and within its capacity, and the cache holds at most `MaxItems` items,
  -- or one if that is not positive.
  pub run-within_capacity :
      (mkdir_all : Text → Option (List (Text × File))) (opts : Options) (os : List Op) (c : Cache)
      → opts.num_shards ≤ℤ pos (2 ^ 62)
      → new_with_options mkdir_all opts ≡ some c
      → IsConsistent (positive_or 1 opts.max_items) (run p os c)
        × (len (run p os c) ≤ positive_or 1 opts.max_items)
  run-within_capacity mkdir_all opts os c fits made =
      let v = run-IsConsistent _ os c (new_with_options-capacity mkdir_all opts c fits made).0 in
      (v, len_bound _ _ v)
