-- ===== src/Cache/Tiered/Validity.antt =====
-- The consistency of the cache of cache/cache.go, operation by operation.
use native.Mathlib.Nat.{mod-lt}
use cdn_edge.Common.{
  ℕ, zero, suc, ◌+◌, ◌<◌, ◌≡◌, refl, ◌∙◌, ap, sym, inl, inr, arith, Bool, true, false, not, ◌&&◌,
  List, [], ◌∷◌, Option, none, some, Text, length, length-set, get_or, set, if◌then◌else◌,
  Option-cases, Bool-cases, subst,
}
use cdn_edge.Common.Int.{ℤ}
use cdn_edge.Cache.Entry.{Entry, is_expired, is_stale_servable}
use cdn_edge.Cache.TinyLfu.{lfu_increment}
use cdn_edge.Cache.Shard.{Element, Shard, element_of, move_to_front, drop_element}
use cdn_edge.Cache.Shard.Coherence.{overwrite-size, move_to_front-overwrite}
use cdn_edge.Cache.Disk.{Platform, load_from_disk}
use cdn_edge.Cache.Tiered.{
  Cache, SlotState, no_shard, shard_index, get_shard, put_shard, put_in_slot, put_in_shard, put,
  compress_entry, get, get_from_memory, get_from_disk, delete_entry, delete_shard, loaded, drop_key,
  remove_on_disk, count_hit, count_miss, count_stale_hit,
}
use cdn_edge.Cache.Tiered.Slot.{put_in_slot-lru}
use cdn_edge.Cache.Tiered.Occupancy.{IsValid, overwrite-IsValid, drop_element-IsValid}

abbrev pub AllValid : List Shard → Type 0
AllValid [] = Unit {0}
AllValid (s ∷ ss) = IsValid s × AllValid ss

-- The sum of the capacities.
unfoldable pub total_capacity : List Shard → ℕ
total_capacity [] = 0
total_capacity (s ∷ ss) = s.max_items + total_capacity ss

pub record IsConsistent (cap : ℕ) (c : Cache) : Type 0 where
  pub shards_valid : AllValid c.shards
  pub counted : length c.shards ≡ c.num_shards
  pub positive : 0 < c.num_shards
  pub capacity : total_capacity c.shards ≡ cap

AllValid-get :
    (ss : List Shard) (i : ℕ) → AllValid ss → i < length ss → IsValid (get_or ss i no_shard)
AllValid-get [] i v lt = elim lt [ ]
AllValid-get (s ∷ ss) zero v lt = v.0
AllValid-get (s ∷ ss) (suc i) v lt = AllValid-get ss i v.1 (omega arith)

AllValid-set :
    (ss : List Shard) (i : ℕ) (s : Shard) → AllValid ss → IsValid s → AllValid (set ss i s)
AllValid-set [] i s v w = tt
AllValid-set (x ∷ ss) zero s v w = (w, v.1)
AllValid-set (x ∷ ss) (suc i) s v w = (v.0, AllValid-set ss i s v.1 w)

total_capacity-set :
    (ss : List Shard) (i : ℕ) (s : Shard)
    → i < length ss
    → s.max_items ≡ (get_or ss i no_shard).max_items
    → total_capacity (set ss i s) ≡ total_capacity ss
unfolding total_capacity
total_capacity-set [] i s lt e = elim lt [ ]
total_capacity-set (x ∷ ss) zero s lt e = omega arith
total_capacity-set (x ∷ ss) (suc i) s lt e =
    omega (arith, total_capacity-set ss i s (omega arith) e)

-- Only the shards matter.
same_shards :
    (cap : ℕ) (c c' : Cache)
    → c'.shards ≡ c.shards
    → c'.num_shards ≡ c.num_shards
    → IsConsistent cap c
    → IsConsistent cap c'
same_shards cap c c' e f v = record {
  shards_valid = subst AllValid (sym e) v.shards_valid;
  counted = ap length e ∙ v.counted ∙ sym f;
  positive = omega (arith, v.positive);
  capacity = ap total_capacity e ∙ v.capacity;
}

if-IsConsistent :
    (cap : ℕ) (b : Bool) (x y : Cache)
    → IsConsistent cap x
    → IsConsistent cap y
    → IsConsistent cap (if b then x else y)
if-IsConsistent cap true x y v w = v
if-IsConsistent cap false x y v w = w

if_pair-IsConsistent :
    (cap : ℕ) (b : Bool) (x y : Cache × Option Entry)
    → IsConsistent cap x.0
    → IsConsistent cap y.0
    → IsConsistent cap (if b then x else y).0
if_pair-IsConsistent cap true x y v w = v
if_pair-IsConsistent cap false x y v w = w

module _ (p : Platform) (cap : ℕ) where
  pub get_shard-IsValid :
      (key : Text) (c : Cache) → IsConsistent cap c → IsValid (get_shard p key c)
  unfolding get_shard
  get_shard-IsValid key c v =
      AllValid-get c.shards _ v.shards_valid (rw v.counted (mod-lt _ v.positive))

  put_shard-IsConsistent :
      (key : Text) (s : Shard) (c : Cache)
      → IsConsistent cap c
      → IsValid s
      → s.max_items ≡ (get_shard p key c).max_items
      → IsConsistent cap (put_shard p key s c)
  unfolding get_shard put_shard
  put_shard-IsConsistent key s c v w same = record {
    shards_valid = AllValid-set c.shards _ s v.shards_valid w;
    counted = length-set c.shards _ s ∙ v.counted;
    positive = v.positive;
    capacity =
        total_capacity-set c.shards _ s (rw v.counted (mod-lt _ v.positive)) same ∙ v.capacity;
  }

  put_in_shard-IsConsistent :
      (now : ℤ) (key : Text) (e : Entry) (c : Cache)
      → IsConsistent cap c
      → IsConsistent cap (put_in_shard p now key e c)
  unfolding put_in_shard
  put_in_shard-IsConsistent now key e c v =
      let x : SlotState = record {
        shard = get_shard p key c;
        evicts = c.stats.evicts;
        disk = c.disk;
      } in
      let st = put_in_slot-lru p now c.has_disk c.lfu key e x (get_shard-IsValid key c v) in
      let y = put_in_slot p now c.has_disk c.lfu key e x in
      let c' : Cache = record c { stats = record (c.stats) { evicts = y.evicts }; disk = y.disk } in
      put_shard-IsConsistent key y.shard c' (same_shards cap c c' refl refl v) st.valid
        (unfold get_shard shard_index in st.capacity)

  pub put-IsConsistent :
      (now : ℤ) (key : Text) (e : Entry) (c : Cache)
      → IsConsistent cap c
      → IsConsistent cap (put p now key e c)
  unfolding put
  put-IsConsistent now key e c v =
      let w = put_in_shard-IsConsistent now key (compress_entry p now c.compress_headers e) c v in
      ground (arith, w)

  drop-IsConsistent :
      (key : Text) (e : Element) (c : Cache)
      → IsConsistent cap c
      → element_of key (get_shard p key c) ≡ some e
      → IsConsistent cap (put_shard p key (drop_element e (get_shard p key c)) c)
  drop-IsConsistent key e c v h =
      let (valid, same) = drop_element-IsValid _ key e (get_shard-IsValid key c v) h in
      put_shard-IsConsistent key _ c v valid same

  remove_on_disk-IsConsistent :
      (now : ℤ) (key : Text) (c : Cache)
      → IsConsistent cap c
      → IsConsistent cap (remove_on_disk p now key c)
  unfolding remove_on_disk
  remove_on_disk-IsConsistent now key c v =
      if-IsConsistent cap c.has_disk _ c (same_shards cap c _ refl refl v) v

  drop_key-IsConsistent :
      (now : ℤ) (key : Text) (c : Cache)
      → IsConsistent cap c
      → IsConsistent cap (drop_key p now key c)
  unfolding drop_key
  drop_key-IsConsistent now key c v = elim (Option-cases (element_of key (get_shard p key c))) [
    | inl n ↦ rw (n, drop_key) v
    | inr (e, h) ↦ rw (h, drop_key) (drop-IsConsistent key e c v h)
  ]

  pub delete_entry-IsConsistent :
      (now : ℤ) (key : Text) (c : Cache)
      → IsConsistent cap c
      → IsConsistent cap (delete_entry p now key c)
  unfolding delete_entry delete_shard
  delete_entry-IsConsistent now key c v =
      remove_on_disk-IsConsistent now key _ (drop_key-IsConsistent now key c v)

  move-IsConsistent :
      (key : Text) (e : Element) (c : Cache)
      → IsConsistent cap c
      → element_of key (get_shard p key c) ≡ some e
      → IsConsistent cap (put_shard p key (move_to_front e (get_shard p key c)) c)
  move-IsConsistent key e c v h =
      let s = get_shard p key c in
      let sv = get_shard-IsValid key c v in
      rw (move_to_front-overwrite s sv.coherent key e h) (
        put_shard-IsConsistent key _ c v (overwrite-IsValid s key e e.entry sv h)
          (overwrite-size s sv.coherent key e h e.entry).1)

  get_from_memory-IsConsistent :
      (now : ℤ) (key : Text) (e : Element) (c : Cache)
      → IsConsistent cap c
      → element_of key (get_shard p key c) ≡ some e
      → IsConsistent cap (get_from_memory p now key e c).0
  unfolding get_from_memory count_hit count_miss count_stale_hit
  get_from_memory-IsConsistent now key e c v h =
      let moved = move-IsConsistent key e c v h in
      let dropped = remove_on_disk-IsConsistent now key _ (drop-IsConsistent key e c v h) in
      elim (Bool-cases (is_expired now e.entry)) [
        | inr fresh ↦ rw (fresh, get_from_memory) (same_shards cap _ _ refl refl moved)
        | inl old ↦ elim (Bool-cases (is_stale_servable now e.entry)) [
          | inl stale ↦ rw (old, stale, get_from_memory) (same_shards cap _ _ refl refl moved)
          | inr dead ↦ rw (old, dead, get_from_memory) (same_shards cap _ _ refl refl dropped)
        ]
      ]

  loaded-IsConsistent :
      (now : ℤ) (key : Text) (e : Entry) (c : Cache)
      → IsConsistent cap c
      → IsConsistent cap (loaded p now key e c).0
  unfolding loaded count_hit count_miss count_stale_hit
  loaded-IsConsistent now key e c v =
      let w = put_in_shard-IsConsistent now key e c v in
      elim (Bool-cases (is_expired now e && not (is_stale_servable now e))) [
        | inl dead ↦ rw (dead, loaded) (same_shards cap c _ refl refl v)
        | inr alive ↦ elim (Bool-cases (is_expired now e)) [
          | inl old ↦ rw (alive, old, loaded) (same_shards cap _ _ refl refl w)
          | inr fresh ↦ rw (alive, fresh, loaded) (same_shards cap _ _ refl refl w)
        ]
      ]

  get_from_disk-IsConsistent :
      (now : ℤ) (key : Text) (c : Cache)
      → IsConsistent cap c
      → IsConsistent cap (get_from_disk p now key c).0
  unfolding get_from_disk count_miss
  get_from_disk-IsConsistent now key c v =
      let missed = same_shards cap c (count_miss c) refl refl v in
      if_pair-IsConsistent cap c.has_disk _ (count_miss c, none)
        (elim (Option-cases (load_from_disk p c.compress_headers key c.disk)) [
          | inl n ↦ rw n missed
          | inr (e, h) ↦ rw h (loaded-IsConsistent now key e c v)
        ])
        missed

  pub get-IsConsistent :
      (now : ℤ) (key : Text) (c : Cache) → IsConsistent cap c → IsConsistent cap (get p now key c).0
  unfolding get
  get-IsConsistent now key c v =
      let c' : Cache = record c { lfu = lfu_increment p.hash key c.lfu } in
      let v' = same_shards cap c c' refl refl v in
      elim (Option-cases (element_of key (get_shard p key c'))) [
        | inl n ↦ rw (n, get) (get_from_disk-IsConsistent now key c' v')
        | inr (e, h) ↦ rw (h, get) (get_from_memory-IsConsistent now key e c' v' h)
      ]
