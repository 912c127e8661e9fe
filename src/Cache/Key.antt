-- ===== src/Cache/Key.antt =====
-- The cache keys of cache/cache.go, `NormalizeKey`. `to_lower` stands for `strings.ToLower`, which
-- lowers the letters of every script, while the loop over the bytes of a host lowers ASCII letters.
pub mod Sorting
pub mod Queries
pub mod Hosts
mod Tests
use cdn_edge.Common.{
  ℕ, Bool, true, false, not, ◌&&◌, ◌||◌, ltb, leb, ◌==◌, if◌then◌else◌, List, [], ◌∷◌, ◌++◌, Option,
  none, some, Text, length,
}
use cdn_edge.Common.Strings.{same, is_empty, contains, lower, split, join, trim_space}
use cdn_edge.Common.Http.{Fields, header_get, canonical_header_key}

-- `a < b` on strings.
pub less : Text → Text → Bool
less a [] = false
less [] (d ∷ r) = true
less (c ∷ l) (d ∷ r) = ltb c d || ((c == d) && less l r)

-- `sort.Strings`: any sort by `<` gives this list, since equal strings are the same.
pub place : Text → List Text → List Text
unfolding less
place p [] = p ∷ []
place p (q ∷ qs) = let rest = place p qs in if less q p then q ∷ rest else p ∷ q ∷ qs

pub sort_strings : List Text → List Text
unfolding place
sort_strings [] = []
sort_strings (p ∷ ps) = place p (sort_strings ps)

pub is_lower_ascii : Text → Bool
is_lower_ascii [] = true
is_lower_ascii (c ∷ l) = if leb 65 c && leb c 90 then false else is_lower_ascii l

pub sort_query : Text → Text
unfolding sort_strings
sort_query q = join 38 (sort_strings (split 38 q))

-- The loop over the parts: `&` in front of all but the first.
pub write_parts : Bool → List Text → Text
write_parts first [] = []
write_parts first (p ∷ ps) = (if first then [] else 38 ∷ []) ++ p ++ write_parts false ps

-- What `writeSortedQuery` writes.
pub write_sorted_query : Text → Text
unfolding sort_strings write_parts
write_sorted_query q =
    if not (contains (38 ∷ []) q) then q else write_parts true (sort_strings (split 38 q))

module _ (to_lower : Text → Text) where
  -- The loop of `parseVary`.
  pub vary_headers : List Text → List Text
  vary_headers [] = []
  vary_headers (p ∷ ps) =
      let h = trim_space (to_lower p) in
      let rest = vary_headers ps in if is_empty h then rest else canonical_header_key h ∷ rest

  pub parse_vary : Text → List Text
  unfolding sort_strings vary_headers
  parse_vary vary = if same vary (42 ∷ []) then [] else sort_strings (vary_headers (split 44 vary))

-- `"|vary:"`
abbrev pub vary_mark : Text
vary_mark = 124 ∷ 118 ∷ 97 ∷ 114 ∷ 121 ∷ 58 ∷ []

-- The loop over the header names of a Vary.
pub write_vary : Bool → List Text → Fields → Text
write_vary first [] h = []
write_vary first (k ∷ ks) h =
    (if first then [] else 38 ∷ []) ++ k ++ 61 ∷ header_get k h ++ write_vary false ks h

pub vary_suffix : List Text → Fields → Text
unfolding write_vary
vary_suffix [] h = []
vary_suffix (k ∷ ks) h = vary_mark ++ write_vary true (k ∷ ks) h

-- What is written before the Vary: the host in lower case, the path and the sorted query.
pub key_base : Text → Text → Text → Text
unfolding is_lower_ascii write_sorted_query
key_base host path query =
    (if is_lower_ascii host then host else lower host)
    ++ path
    ++ (if is_empty query then [] else 63 ∷ write_sorted_query query)

-- The fast way lowers a host by `strings.ToLower`, the slow one byte by byte.
pub normalize_key : (Text → Text) → Text → Text → Text → Text → Fields → Text
unfolding is_lower_ascii key_base parse_vary vary_suffix
normalize_key to_lower host path query vary_header req_headers =
    if is_empty query && is_empty vary_header
    then (if is_lower_ascii host then host ++ path else to_lower host ++ path)
    else if is_empty vary_header
    then key_base host path query
    else key_base host path query ++ vary_suffix (parse_vary to_lower vary_header) req_headers
