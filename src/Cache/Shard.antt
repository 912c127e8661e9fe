-- ===== src/Cache/Shard.antt =====
-- The LRU shard of cache/cache.go: a map from keys to elements of a doubly linked list
-- (`container/list`). An element is a shared object: the map holds its `address`, and the list its
-- contents, most recently used first. The shard's mutex makes each operation one step.
pub mod Elements
pub mod Coherence
use mathlib.Core.List.{lookup}
use cdn_edge.Common.{
  ℕ, suc, ite, List, [], ◌∷◌, Option, none, some, Text, text_discrete, ℕ_discrete, map,
}
use cdn_edge.Common.Assoc.{insert, delete}
use cdn_edge.Cache.Entry.{Entry}

-- A list element with its `lruItem`.
pub record Element : Type 0 where
  pub address : ℕ
  pub key : Text
  pub entry : Entry

pub record Shard : Type 0 where
  pub items : List (Text × ℕ)
  pub eviction : List Element
  pub max_items : ℕ
  pub next_address : ℕ

unfoldable pub new_shard : ℕ → Shard
new_shard max_items = record { items = []; eviction = []; max_items = max_items; next_address = 0 }

-- What the element at an address holds.
unfoldable pub find : ℕ → List Element → Option Element
find a [] = none
find a (e ∷ l) = ite (ℕ_discrete a e.address) (some e) (find a l)

-- `eviction.Remove(elem)`
pub remove_element : ℕ → List Element → List Element
remove_element a [] = []
remove_element a (e ∷ l) = ite (ℕ_discrete a e.address) l (e ∷ remove_element a l)

-- `eviction.Back()`
unfoldable pub back : List Element → Option Element
back [] = none
back (e ∷ []) = some e
back (e ∷ f ∷ l) = back (f ∷ l)

-- `items[key]`, followed to its element.
unfoldable pub element_of : Text → Shard → Option Element
unfolding find
element_of key s = elim (lookup text_discrete key s.items) [
  | none ↦ none
  | some a ↦ find a s.eviction
]

-- `eviction.MoveToFront(elem)`
pub move_to_front : Element → Shard → Shard
unfolding remove_element
move_to_front e s = record s { eviction = e ∷ remove_element e.address s.eviction }

-- `eviction.MoveToFront(elem)` and then `elem.Value.(*lruItem).entry = entry`.
pub overwrite : Element → Entry → Shard → Shard
unfolding remove_element
overwrite e entry s = record s {
  eviction = record e { entry = entry } ∷ remove_element e.address s.eviction;
}

-- `eviction.Remove(elem)` and `delete(items, key)`
pub drop_element : Element → Shard → Shard
unfolding remove_element
drop_element e s = record s {
  items = delete text_discrete e.key s.items;
  eviction = remove_element e.address s.eviction;
}

-- `eviction.PushFront(&lruItem{key, entry})` and `items[key] = elem`
pub push_front : Text → Entry → Shard → Shard
push_front key entry s = record s {
  items = insert text_discrete key s.next_address s.items;
  eviction = record { address = s.next_address; key = key; entry = entry } ∷ s.eviction;
  next_address = suc s.next_address;
}

-- What a caller can see of a shard: its entries by key, most recently used first.
abbrev pub pair_of : Element → Text × Entry
pair_of e = (e.key, e.entry)

abbrev pub pairs : List Element → List (Text × Entry)
pairs = map pair_of

unfoldable pub contents : Shard → List (Text × Entry)
contents s = pairs s.eviction
