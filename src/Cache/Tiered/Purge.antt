-- ===== src/Cache/Tiered/Purge.antt =====
-- `Purge` and `Len` of cache/cache.go.
use cdn_edge.Common.{ℕ, suc, ◌+◌, ◌≤◌, ◌≡◌, ◌∙◌, ap, refl, arith, List, [], ◌∷◌, length}
use cdn_edge.Cache.Shard.{Shard}
use cdn_edge.Cache.Shard.Coherence.{empty-IsCoherent}
use cdn_edge.Cache.Tiered.{Cache, purge, purge_shards, len, total_items}
use cdn_edge.Cache.Tiered.Occupancy.{IsValid}
use cdn_edge.Cache.Tiered.Validity.{AllValid, total_capacity, IsConsistent}

empty-IsValid : (s : Shard) → IsValid s → IsValid (record s { items = []; eviction = [] })
empty-IsValid s v = record {
  coherent = empty-IsCoherent s;
  bounded = omega arith;
  positive = v.positive;
}

items_bound : (s : Shard) → IsValid s → length s.items ≤ s.max_items
items_bound s v = omega (arith, v.bounded, v.coherent.sized)

purge_shards-AllValid : (ss : List Shard) → AllValid ss → AllValid (purge_shards ss)
unfolding purge_shards
purge_shards-AllValid [] v = tt
purge_shards-AllValid (s ∷ ss) (w, v) = (empty-IsValid s w, purge_shards-AllValid ss v)

purge_shards-capacity : (ss : List Shard) → total_capacity (purge_shards ss) ≡ total_capacity ss
unfolding purge_shards total_capacity
purge_shards-capacity [] = refl
purge_shards-capacity (s ∷ ss) = ap (λ n. s.max_items + n) (purge_shards-capacity ss)

length-purge_shards : (ss : List Shard) → length (purge_shards ss) ≡ length ss
unfolding purge_shards
length-purge_shards [] = refl
length-purge_shards (s ∷ ss) = ap suc (length-purge_shards ss)

pub purge-IsConsistent : (cap : ℕ) (c : Cache) → IsConsistent cap c → IsConsistent cap (purge c)
unfolding purge
purge-IsConsistent cap c v = record {
  shards_valid = purge_shards-AllValid c.shards v.shards_valid;
  counted = length-purge_shards c.shards ∙ v.counted;
  positive = v.positive;
  capacity = purge_shards-capacity c.shards ∙ v.capacity;
}

total_items_bound : (ss : List Shard) → AllValid ss → total_items ss ≤ total_capacity ss
unfolding total_items total_capacity
total_items_bound [] v = omega arith
total_items_bound (s ∷ ss) (w, v) = omega (arith, total_items_bound ss v, items_bound s w)

pub len_bound : (cap : ℕ) (c : Cache) → IsConsistent cap c → len c ≤ cap
unfolding len
len_bound cap c v = omega (arith, total_items_bound c.shards v.shards_valid, v.capacity)
