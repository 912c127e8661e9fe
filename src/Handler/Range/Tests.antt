-- ===== src/Handler/Range/Tests.antt =====
-- The ranges of handler/range.go at concrete inputs.
use cdn_edge.Common.{◌+◌, ◌-◌, ◌≤◌, ◌<◌, ◌≡◌, refl, [], ◌∷◌, none, some, Text, length, codes}
use cdn_edge.Common.Strings.{
  trim_prefix, trim_space, trim_left, trim_right, is_space, digits, number, signed, atoi,
}
use cdn_edge.Handler.Range.{
  parse_range, serve_range, has_comma, cut_dash, suffix_range, bounded_range, range_of,
  range_of_spec,
}
use cdn_edge.Handler.Range.Bounds.{serve_range-parse_range}

abbrev ten_bytes : Text
ten_bytes = 0 ∷ 1 ∷ 2 ∷ 3 ∷ 4 ∷ 5 ∷ 6 ∷ 7 ∷ 8 ∷ 9 ∷ []

closed_range : parse_range (codes "bytes= 2-5") 10 ≡ some (2, 5)
unfolding parse_range trim_prefix has_comma trim_space trim_left trim_right is_space cut_dash digits
    number signed atoi suffix_range bounded_range range_of range_of_spec
closed_range = refl

clamped_range : parse_range (codes "bytes=7-500") 10 ≡ some (7, 9)
unfolding parse_range trim_prefix has_comma trim_space trim_left trim_right is_space cut_dash digits
    number signed atoi suffix_range bounded_range range_of range_of_spec
clamped_range = refl

suffix : parse_range (codes "bytes=-3") 10 ≡ some (7, 9)
unfolding parse_range trim_prefix has_comma trim_space trim_left trim_right is_space cut_dash digits
    number signed atoi suffix_range bounded_range range_of range_of_spec
suffix = refl

several_ranges : parse_range (codes "bytes=0-1,3-4") 10 ≡ none
unfolding parse_range trim_prefix has_comma trim_space trim_left trim_right is_space cut_dash digits
    number signed atoi suffix_range bounded_range range_of range_of_spec
several_ranges = refl

backward_range : parse_range (codes "bytes=5-2") 10 ≡ none
unfolding parse_range trim_prefix has_comma trim_space trim_left trim_right is_space cut_dash digits
    number signed atoi suffix_range bounded_range range_of range_of_spec
backward_range = refl

serve_range-parse_range_example :
    (2 ≤ 5)
    × (5 < length ten_bytes)
    × ((slice : Text) × (serve_range ten_bytes (2, 5) ≡ some slice) × (length slice ≡ 5 + 1 - 2))
serve_range-parse_range_example =
    serve_range-parse_range (codes "bytes= 2-5") ten_bytes 2 5 closed_range
