-- ===== src/Handler/Range.antt =====
-- handler/range.go: the Range header and the slice that answers it. A header is ASCII text, so that
-- `strings.TrimSpace` takes the six ASCII spaces away. The content length is that of a body.
pub mod Bounds
mod Tests
use cdn_edge.Common.{
  ℕ, zero, suc, ◌+◌, ◌-◌, ◌*◌, ◌^◌, Bool, true, false, ◌&&◌, ◌||◌, ltb, leb, ◌==◌, if◌then◌else◌,
  List, [], ◌∷◌, Option, none, some, Text, length, take, drop,
}
use cdn_edge.Common.Strings.{trim_prefix, trim_space, atoi}
use cdn_edge.Common.Int.{ℤ, pos, negsuc, pos_part, leb_ℤ, ltb_ℤ}

abbrev range_prefix : Text
range_prefix = 98 ∷ 121 ∷ 116 ∷ 101 ∷ 115 ∷ 61 ∷ []

-- `strings.Contains(spec, ",")`
pub has_comma : Text → Bool
has_comma [] = false
has_comma (c ∷ l) = (c == 44) || has_comma l

-- The text before the first dash, and the text behind it.
pub cut_dash : Text → Option (Text × Text)
cut_dash [] = none
cut_dash (c ∷ l) =
    let rest = cut_dash l in
    if c == 45 then some ([], l) else (elim rest [ none ↦ none | some (a, b) ↦ some (c ∷ a, b) ])

-- `bytes=-500`: the last bytes.
pub suffix_range : Text → ℕ → Option (ℕ × ℕ)
suffix_range end_str content_length = elim (atoi end_str) [
  | none ↦ none
  | some suffix ↦
      if leb_ℤ suffix (pos 0)
      then none
      else some (content_length - pos_part suffix, content_length - 1)
]

pub bounded_range : ℕ → Text → ℕ → Option (ℕ × ℕ)
bounded_range start end_str content_length =
    if length end_str == 0 then some (start, content_length - 1) else (elim (atoi end_str) [
      | none ↦ none
      | some end ↦
          if ltb_ℤ end (pos start)
          then none
          else some (
            start,
            if leb content_length (pos_part end) then content_length - 1 else pos_part end,
          )
    ])

pub range_of : Text → Text → ℕ → Option (ℕ × ℕ)
range_of start_str end_str content_length =
    if length start_str == 0 then suffix_range end_str content_length else (elim (atoi start_str) [
      | none ↦ none
      | some start ↦
          if ltb_ℤ start (pos 0) || leb content_length (pos_part start)
          then none
          else bounded_range (pos_part start) end_str content_length
    ])

pub range_of_spec : Text → ℕ → Option (ℕ × ℕ)
unfolding cut_dash
range_of_spec spec content_length = elim (cut_dash spec) [
  | none ↦ none
  | some (a, b) ↦ range_of (trim_space a) (trim_space b) content_length
]

-- `parseRange`; `none` is `ok == false`.
pub parse_range : Text → ℕ → Option (ℕ × ℕ)
unfolding has_comma
parse_range range_header content_length =
    if content_length == 0 then none else (elim (trim_prefix range_prefix range_header) [
      | none ↦ none
      | some spec ↦
          if has_comma spec || (length (trim_space spec) == 0)
          then none
          else range_of_spec (trim_space spec) content_length
    ])

-- `entry.Body[start : end+1]` of `serveRange`, which panics, by `none`, out of the bounds.
pub serve_range : Text → ℕ × ℕ → Option Text
serve_range body (start, end) =
    if leb start (end + 1) && leb (end + 1) (length body)
    then some (take (end + 1 - start) (drop start body))
    else none
