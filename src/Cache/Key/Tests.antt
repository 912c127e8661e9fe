-- ===== src/Cache/Key/Tests.antt =====
-- Cache keys of cache/cache.go at concrete requests.
use cdn_edge.Common.{◌≡◌, refl, [], ◌∷◌, ◌++◌, Text}
use cdn_edge.Common.Strings.{
  is_ascii, same, contains, has_prefix, lower, split, join, trim_space, trim_left, trim_right,
  is_space,
}
use cdn_edge.Common.Http.{Fields, header_get, canonical_header_key, title, is_token}
use cdn_edge.Cache.Key.{
  normalize_key, key_base, is_lower_ascii, write_sorted_query, write_parts, sort_strings, place,
  less, parse_vary, vary_headers, vary_suffix, write_vary,
}
use cdn_edge.Cache.Key.Queries.{normalize_key-eq, normalize_key-perm, query_part}
use mathlib.Core.List.{Perm}
use mathlib.Core.List.Perm

abbrev host : Text
host = 72 ∷ 111 ∷ []

abbrev path : Text
path = 47 ∷ []

-- `b=2&a=1`
abbrev b_a : Text
b_a = 98 ∷ 61 ∷ 50 ∷ 38 ∷ 97 ∷ 61 ∷ 49 ∷ []

-- `a=1&b=2`
abbrev a_b : Text
a_b = 97 ∷ 61 ∷ 49 ∷ 38 ∷ 98 ∷ 61 ∷ 50 ∷ []

abbrev accept : Fields
accept = ((65 ∷ 99 ∷ []), (120 ∷ []) ∷ []) ∷ []

sorted_key :
    normalize_key lower host path b_a (97 ∷ 67 ∷ []) accept
    ≡ 104 ∷ 111 ∷ 47 ∷ 63 ∷ a_b ++ 124 ∷ 118 ∷ 97 ∷ 114 ∷ 121 ∷ 58 ∷ 65 ∷ 99 ∷ 61 ∷ 120 ∷ []
unfolding normalize_key key_base is_lower_ascii write_sorted_query write_parts sort_strings place
    less parse_vary vary_headers vary_suffix write_vary same contains has_prefix lower split join
    trim_space trim_left trim_right is_space header_get canonical_header_key title is_token
sorted_key = refl

swapped : Perm (split 38 b_a) (split 38 a_b)
unfolding split
swapped = Perm.swap _ _ []

normalize_key-perm_example :
    normalize_key lower host path b_a [] [] ≡ normalize_key lower host path a_b [] []
normalize_key-perm_example = normalize_key-perm lower host path b_a a_b [] [] swapped

normalize_key-eq_example :
    normalize_key lower host path b_a (97 ∷ 67 ∷ []) accept
    ≡ lower host ++ path ++ query_part b_a ++ vary_suffix (parse_vary lower (97 ∷ 67 ∷ [])) accept
unfolding is_ascii
normalize_key-eq_example =
    normalize_key-eq lower host path b_a (97 ∷ 67 ∷ []) accept (λ l _. refl) refl
