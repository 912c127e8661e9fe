-- ===== src/Cache/Tiered/Occupancy.antt =====
-- The shards of cache/cache.go that are coherent and within their capacity.
use mathlib.Core.Option
use cdn_edge.Common.{◌≤◌, ◌<◌, ◌≡◌, refl, arith, List, [], ◌∷◌, none, some, Text, length}
use cdn_edge.Cache.Entry.{Entry}
use cdn_edge.Cache.Shard.{
  Element, Shard, back, pairs, element_of, overwrite, drop_element, push_front,
}
use cdn_edge.Cache.Shard.Coherence.{
  IsCoherent, overwrite-IsCoherent, overwrite-size, drop_element-size, push_front-size,
  drop_element-IsCoherent, push_front-IsCoherent,
}
use cdn_edge.Cache.Tiered.Lru.{last_key}

-- A shard that is coherent and within its capacity.
pub record IsValid (s : Shard) : Type 0 where
  pub coherent : IsCoherent s
  pub bounded : length s.eviction ≤ s.max_items
  pub positive : 0 < s.max_items

pub back-last_key : (l : List Element) → last_key (pairs l) ≡ Option.map (λ e. e.key) (back l)
unfolding last_key back
back-last_key [] = refl
back-last_key (e ∷ []) = refl
back-last_key (e ∷ f ∷ l) = back-last_key (f ∷ l)

pub drop_element-smaller :
    (s : Shard) (k : Text) (e : Element)
    → IsValid s
    → element_of k s ≡ some e
    → (length (drop_element e s).eviction < s.max_items)
      × ((drop_element e s).max_items ≡ s.max_items)
      × IsValid (drop_element e s)
drop_element-smaller s k e v h =
    let (size, same) = drop_element-size s v.coherent k e h in
    (
      omega arith,
      same,
      record {
        coherent = drop_element-IsCoherent s v.coherent k e h;
        bounded = omega arith;
        positive = omega arith;
      },
    )

pub overwrite-IsValid :
    (s : Shard) (k : Text) (e : Element) (w : Entry)
    → IsValid s
    → element_of k s ≡ some e
    → IsValid (overwrite e w s)
overwrite-IsValid s k e w v h =
    let (size, same) = overwrite-size s v.coherent k e h w in
    record {
      coherent = overwrite-IsCoherent s v.coherent k e h w;
      bounded = omega arith;
      positive = omega arith;
    }

pub drop_element-IsValid :
    (s : Shard) (k : Text) (e : Element)
    → IsValid s
    → element_of k s ≡ some e
    → IsValid (drop_element e s) × ((drop_element e s).max_items ≡ s.max_items)
drop_element-IsValid s k e v h =
    let (_, same, valid) = drop_element-smaller s k e v h in (valid, same)

pub push_front-IsValid :
    (s : Shard) (k : Text) (w : Entry)
    → IsValid s
    → length s.eviction < s.max_items
    → element_of k s ≡ none
    → IsValid (push_front k w s)
push_front-IsValid s k w v lt h =
    let (size, same) = push_front-size s v.coherent k w h in
    record {
      coherent = push_front-IsCoherent s v.coherent k w h;
      bounded = omega arith;
      positive = omega arith;
    }
