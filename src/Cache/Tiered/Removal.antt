-- ===== src/Cache/Tiered/Removal.antt =====
-- `Delete` of cache/cache.go.
use mathlib.Core.List.{lookup}
use native.Mathlib.Nat.{mod-lt}
use cdn_edge.Common.{
  ℕ, ◌≡◌, ◌∙◌, ap, refl, inl, inr, Bool, true, false, Option-cases, none, Text, text_discrete,
  if◌then◌else◌, get_or-set_self,
}
use cdn_edge.Common.Assoc.{lookup-delete_self}
use cdn_edge.Common.Int.{ℤ}
use cdn_edge.Cache.Shard.{Shard, element_of, drop_element}
use cdn_edge.Cache.Shard.Coherence.{
  element_of-contents, contents-drop_element, drop_element-IsCoherent,
}
use cdn_edge.Cache.Disk.{Platform, load_from_disk, remove_from_disk}
use cdn_edge.Cache.Disk.RoundTrip.{load_from_disk-remove}
use cdn_edge.Cache.Tiered.{
  Cache, shard_index, no_shard, put_shard, remove_on_disk, drop_key, delete_shard, delete_entry,
  get_shard, get_from_disk, get,
}
use cdn_edge.Cache.Tiered.Validity.{IsConsistent, get_shard-IsValid}
use cdn_edge.Cache.TinyLfu.{lfu_increment}

-- The key is in neither tier.
pub record Absent (p : Platform) (key : Text) (c : Cache) : Type 0 where
  pub memory : element_of key (get_shard p key c) ≡ none
  pub disk : c.has_disk ≡ true → load_from_disk p c.compress_headers key c.disk ≡ none

get-Absent :
    (p : Platform) (now : ℤ) (key : Text) (c : Cache) → Absent p key c → (get p now key c).1 ≡ none
unfolding get get_from_disk get_shard shard_index
get-Absent p now key c a = rw (a.memory, get) (from_disk c.has_disk refl)
  where
    from_disk :
        (b : Bool)
        → c.has_disk ≡ b
        → (get_from_disk p now key (record c { lfu = lfu_increment p.hash key c.lfu })).1 ≡ none
    from_disk true e = rw (a.disk e, e)
    from_disk false e = rw e

module _ (p : Platform) (now : ℤ) (key : Text) (cap : ℕ) where
  get_put_shard :
      (s : Shard) (c : Cache) → IsConsistent cap c → get_shard p key (put_shard p key s c) ≡ s
  unfolding get_shard put_shard shard_index
  get_put_shard s c v = get_or-set_self c.shards _ s no_shard (rw v.counted (mod-lt _ v.positive))

  drop_key-absent :
      (c : Cache)
      → IsConsistent cap c
      → element_of key (get_shard p key (drop_key p now key c)) ≡ none
  unfolding drop_key
  drop_key-absent c v = elim (Option-cases (element_of key (get_shard p key c))) [
    | inl n ↦ rw (n, drop_key) n
    | inr (e, h) ↦
        let s = get_shard p key c in
        let coherent = (get_shard-IsValid p cap key c v).coherent in
        let gone : element_of key (drop_element e s) ≡ none =
          element_of-contents key _ (drop_element-IsCoherent s coherent key e h) (
            ap (lookup text_discrete key) (contents-drop_element s coherent key e h)
            ∙ lookup-delete_self text_discrete key _) in
        rw (h, drop_key) (ap (element_of key) (get_put_shard (drop_element e s) c v) ∙ gone)
  ]

  remove_on_disk-Absent :
      (c : Cache)
      → element_of key (get_shard p key c) ≡ none
      → Absent p key (remove_on_disk p now key c)
  unfolding remove_on_disk get_shard shard_index
  remove_on_disk-Absent c h = pick c.has_disk refl
    where
      pick :
          (b : Bool)
          → c.has_disk ≡ b
          → Absent p key (if b then record c { disk = remove_from_disk p key c.disk } else c)
      pick true e = record {
        memory = h;
        disk = λ _. load_from_disk-remove p c.compress_headers key c.disk;
      }
      pick false e = record { memory = h; disk = λ on. absurd (cc) }

  -- After a deletion, at any later time, a consistent cache does not find the key in either tier.
  pub get-delete_entry :
      (later : ℤ) (c : Cache)
      → IsConsistent cap c
      → (get p later key (delete_entry p now key c)).1 ≡ none
  unfolding delete_entry delete_shard
  get-delete_entry later c v =
      get-Absent p later key _ (remove_on_disk-Absent _ (drop_key-absent c v))
