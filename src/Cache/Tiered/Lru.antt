-- ===== src/Cache/Tiered/Lru.antt =====
-- A bounded list of entries, most recently used first: what a shard of cache/cache.go stands for.
use mathlib.Core.List.{lookup}
use cdn_edge.Common.{
  ℕ, Bool, List, [], ◌∷◌, Option, none, some, Text, text_discrete, length, leb, if◌then◌else◌,
}
use cdn_edge.Common.Assoc.{insert, delete}
use cdn_edge.Cache.Entry.{Entry}

-- The key of the last entry of a list.
unfoldable pub last_key : List (Text × Entry) → Option Text
last_key [] = none
last_key ((k, _) ∷ []) = some k
last_key (_ ∷ f ∷ l) = last_key (f ∷ l)

-- The specification: a list of entries, most recently used first, that holds at most `cap`. A new
-- key of a full list takes the place of the last one if it is admitted against it.
unfoldable pub lru_put :
    ℕ → (Text → Bool) → Text → Entry → List (Text × Entry) → List (Text × Entry)
lru_put cap admits k v l = elim (lookup text_discrete k l) [
  | some _ ↦ insert text_discrete k v l
  | none ↦
      if leb cap (length l)
      then elim (last_key l) [
        | none ↦ insert text_discrete k v l
        | some last ↦
            if admits last then insert text_discrete k v (delete text_discrete last l) else l
      ]
      else insert text_discrete k v l
]
