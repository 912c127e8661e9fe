-- ===== src/Handler/Directives.antt =====
-- The Cache-Control directives and the status codes that handler/handler.go caches by. A header is
-- ASCII text. A duration is int64 nanoseconds.
pub mod Parts
pub mod Lifetime
mod Tests
use cdn_edge.Common.{
  ℕ, zero, suc, ◌+◌, ◌*◌, Bool, true, false, ◌&&◌, ◌||◌, leb, ◌==◌, if◌then◌else◌, List, [], ◌∷◌,
  Option, none, some, Text, length,
}
use cdn_edge.Common.Int.{ℤ, pos, ◌*ℤ◌, ltb_ℤ, wrap_i64}
use cdn_edge.Common.Strings.{equal_fold, until, behind, trim_space, atoi}
use cdn_edge.Common.Http.{Fields, header_get}

-- The key of a part, behind the cut at `=` and the trims.
unfoldable pub directive_key : Text → Text
directive_key part = trim_space (until 61 (trim_space part))

-- What the cut at a comma leaves for the next round.
abbrev pub after_comma : Text → Text
after_comma cc = elim (behind 44 cc) [ some rest ↦ rest | none ↦ [] ]

-- The loop of `hasCacheDirective`: each round leaves a shorter text, so that its length is enough
-- fuel.
unfoldable pub directive_loop : ℕ → Text → Text → Bool
directive_loop zero cc directive = false
directive_loop (suc fuel) [] directive = false
directive_loop (suc fuel) (c ∷ l) directive =
    let rest = directive_loop fuel (after_comma (c ∷ l)) directive in
    if equal_fold (directive_key (until 44 (c ∷ l))) directive then true else rest

unfoldable pub has_cache_directive : Text → Text → Bool
has_cache_directive cc directive = directive_loop (length cc) cc directive

abbrev pub second : ℤ
second = pos 1000000000

-- The duration of one part; `none` goes on with the next. The product is of int64.
unfoldable pub part_value : Text → Text → Option ℤ
part_value part directive =
    if equal_fold (directive_key part) directive
    then (elim (behind 61 (trim_space part)) [
      | none ↦ none
      | some val ↦ elim (atoi (trim_space val)) [
        | none ↦ none
        | some secs ↦ some (wrap_i64 (secs *ℤ second))
      ]
    ])
    else none

-- A value, or what the next rounds find.
unfoldable pub or_value : Option ℤ → ℤ → ℤ
or_value (some d) rest = d
or_value none rest = rest

-- The loop of `getCacheDirectiveValue`, with the length as fuel.
unfoldable pub value_loop : ℕ → Text → Text → ℤ
value_loop zero cc directive = pos 0
value_loop (suc fuel) [] directive = pos 0
value_loop (suc fuel) (c ∷ l) directive =
    let rest = value_loop fuel (after_comma (c ∷ l)) directive in
    or_value (part_value (until 44 (c ∷ l)) directive) rest

unfoldable pub get_cache_directive_value : Text → Text → ℤ
get_cache_directive_value cc directive = value_loop (length cc) cc directive

abbrev pub no_store : Text
no_store = 110 ∷ 111 ∷ 45 ∷ 115 ∷ 116 ∷ 111 ∷ 114 ∷ 101 ∷ []

abbrev pub private_word : Text
private_word = 112 ∷ 114 ∷ 105 ∷ 118 ∷ 97 ∷ 116 ∷ 101 ∷ []

abbrev pub s_maxage : Text
s_maxage = 115 ∷ 45 ∷ 109 ∷ 97 ∷ 120 ∷ 97 ∷ 103 ∷ 101 ∷ []

abbrev pub max_age : Text
max_age = 109 ∷ 97 ∷ 120 ∷ 45 ∷ 97 ∷ 103 ∷ 101 ∷ []

-- `stale-while-revalidate`
abbrev pub swr_word : Text
swr_word =
    115 ∷ 116 ∷ 97 ∷ 108 ∷ 101 ∷ 45 ∷ 119 ∷ 104 ∷ 105 ∷ 108 ∷ 101 ∷ 45 ∷ 114 ∷ 101 ∷ 118 ∷ 97 ∷ 108
    ∷ 105 ∷ 100 ∷ 97 ∷ 116 ∷ 101 ∷ []

-- `Cache-Control`
abbrev pub cache_control : Text
cache_control = 67 ∷ 97 ∷ 99 ∷ 104 ∷ 101 ∷ 45 ∷ 67 ∷ 111 ∷ 110 ∷ 116 ∷ 114 ∷ 111 ∷ 108 ∷ []

-- `determineTTL`, of the Cache-Control of a response: the TTL and the stale-while-revalidate.
unfoldable pub ttl_of_directives : ℤ → Text → ℤ × ℤ
ttl_of_directives default_ttl cc =
    if has_cache_directive cc no_store || has_cache_directive cc private_word
    then (pos 0, pos 0)
    else (let swr = get_cache_directive_value cc swr_word in
        let sma = get_cache_directive_value cc s_maxage in
        let ma = get_cache_directive_value cc max_age in
        if ltb_ℤ (pos 0) sma
        then (sma, swr)
        else if ltb_ℤ (pos 0) ma
        then (ma, swr)
        else (default_ttl, swr))

unfoldable pub determine_ttl : ℤ → Fields → ℤ × ℤ
determine_ttl default_ttl header = ttl_of_directives default_ttl (header_get cache_control header)

abbrev pub cacheable_codes : List ℕ
cacheable_codes = 200 ∷ 203 ∷ 204 ∷ 206 ∷ 300 ∷ 301 ∷ 308 ∷ 404 ∷ 410 ∷ []

unfoldable pub one_of : ℕ → List ℕ → Bool
one_of code [] = false
one_of code (c ∷ cs) = (code == c) || one_of code cs

unfoldable pub is_cacheable_status : ℕ → Bool
is_cacheable_status code = one_of code cacheable_codes
