-- ===== src/Cache/Tiered/Reads.antt =====
-- What `Get` of cache/cache.go returns and counts.
use cdn_edge.Common.{
  ◌+◌, ◌≡◌, ap, refl, inl, inr, Bool, true, false, Bool-cases, Option-cases, Option, some, none,
  Text, if◌then◌else◌,
}
use cdn_edge.Common.Int.{ℤ}
use cdn_edge.Cache.Entry.{Entry, is_expired, is_stale_servable}
use cdn_edge.Cache.Shard.{Element, element_of}
use cdn_edge.Cache.Disk.{Platform, load_from_disk}
use cdn_edge.Cache.Tiered.{
  Stats, Cache, count_hit, count_miss, count_stale_hit, put_shard, put_in_shard, remove_on_disk,
  get_shard, loaded, get_from_disk, get_from_memory, get,
}
use cdn_edge.Cache.TinyLfu.{lfu_increment}

-- What a lookup may answer: nothing and a miss, a fresh entry and a hit, or a stale one and a
-- stale hit.
pub data Answer (now : ℤ) (before : Stats) : Stats → Option Entry → Type 0 where
  miss :
      (s : Stats)
      → s.hits ≡ before.hits
      → s.misses ≡ before.misses + 1
      → s.stale_hits ≡ before.stale_hits
      → Answer now before s none
  hit :
      (s : Stats) (e : Entry)
      → is_expired now e ≡ false
      → s.hits ≡ before.hits + 1
      → s.misses ≡ before.misses
      → s.stale_hits ≡ before.stale_hits
      → Answer now before s (some e)
  stale_hit :
      (s : Stats) (e : Entry)
      → is_expired now e ≡ true
      → is_stale_servable now e ≡ true
      → s.hits ≡ before.hits
      → s.misses ≡ before.misses
      → s.stale_hits ≡ before.stale_hits + 1
      → Answer now before s (some e)

abbrev pub Answers : ℤ → Cache → Cache × Option Entry → Type 0
Answers now c r = Answer now c.stats r.0.stats r.1

remove_on_disk-stats :
    (p : Platform) (now : ℤ) (key : Text) (c : Cache) → (remove_on_disk p now key c).stats ≡ c.stats
unfolding remove_on_disk
remove_on_disk-stats p now key c = pick c.has_disk _ refl
  where
    pick : (b : Bool) (x : Cache) → x.stats ≡ c.stats → (if b then x else c).stats ≡ c.stats
    pick true x h = h
    pick false x h = refl

module _ (p : Platform) (now : ℤ) (key : Text) where
  get_from_memory-Answers :
      (e : Element) (c : Cache) → Answers now c (get_from_memory p now key e c)
  unfolding get_from_memory count_hit count_miss count_stale_hit put_shard
  get_from_memory-Answers e c = elim (Bool-cases (is_expired now e.entry)) [
    | inr fresh ↦ rw (fresh, get_from_memory) (hit _ e.entry fresh refl refl refl)
    | inl old ↦ elim (Bool-cases (is_stale_servable now e.entry)) [
      | inl stale ↦ rw (old, stale, get_from_memory) (stale_hit _ e.entry old stale refl refl refl)
      | inr dead ↦
          let s = remove_on_disk-stats p now key (put_shard p key _ c) in
          rw (old, dead, get_from_memory)
            (miss _ (ap (λ s. s.hits) s) (ap (λ s. s.misses + 1) s) (ap (λ s. s.stale_hits) s))
    ]
  ]

  loaded-Answers : (e : Entry) (c : Cache) → Answers now c (loaded p now key e c)
  unfolding loaded count_hit count_miss count_stale_hit put_in_shard put_shard
  loaded-Answers e c = elim (Bool-cases (is_expired now e)) [
    | inr fresh ↦ rw (fresh, loaded) (hit _ e fresh refl refl refl)
    | inl old ↦ elim (Bool-cases (is_stale_servable now e)) [
      | inl stale ↦ rw (old, stale, loaded) (stale_hit _ e old stale refl refl refl)
      | inr dead ↦ rw (old, dead, loaded) (miss _ refl refl refl)
    ]
  ]

  pick-Answers :
      (c : Cache) (b : Bool) (x y : Cache × Option Entry)
      → Answers now c x
      → Answers now c y
      → Answers now c (if b then x else y)
  pick-Answers c true x y v w = v
  pick-Answers c false x y v w = w

  get_from_disk-Answers : (c : Cache) → Answers now c (get_from_disk p now key c)
  unfolding get_from_disk count_miss
  get_from_disk-Answers c =
      pick-Answers c c.has_disk _ _
        (elim (Option-cases (load_from_disk p c.compress_headers key c.disk)) [
          | inl n ↦ rw n (miss _ refl refl refl)
          | inr (e, h) ↦ rw h (loaded-Answers e c)
        ])
        (miss _ refl refl refl)

  -- Every lookup counts exactly one of hit, stale hit and miss, and answers accordingly: a hit with
  -- an entry that is not expired, a stale hit with one that is expired but still servable, a miss
  -- with none.
  pub get-Answers : (c : Cache) → Answers now c (get p now key c)
  unfolding get
  get-Answers c =
      let c' : Cache = record c { lfu = lfu_increment p.hash key c.lfu } in
      elim (Option-cases (element_of key (get_shard p key c'))) [
        | inl n ↦ rw (n, get) (get_from_disk-Answers c')
        | inr (e, h) ↦ rw (h, get) (get_from_memory-Answers e c')
      ]
