-- ===== src/Handler/Range/Bounds.antt =====
-- The ranges that handler/range.go accepts, against the body.
use cdn_edge.Common.{
  length-take, length-drop, ℕ, ◌+◌, ◌-◌, ◌≤◌, ◌<◌, ◌≡◌, refl, arith, Bool, true, false, inl, inr,
  Bool-cases, Option-cases, Option, none, some, Text, length, take, drop, leb, ◌==◌, ◌||◌, ◌&&◌,
  if◌then◌else◌,
}
use cdn_edge.Common.Int.{pos, pos_part, leb_ℤ, ltb_ℤ}
use cdn_edge.Common.Strings.{trim_prefix, trim_space, atoi}
use cdn_edge.Handler.Range.{
  range_prefix, has_comma, cut_dash, suffix_range, bounded_range, range_of, range_of_spec,
  parse_range, serve_range,
}

-- A range of a body of this length.
abbrev pub Within : ℕ → Option (ℕ × ℕ) → Type 0
Within n none = Unit {0}
Within n (some (s, e)) = (s ≤ e) × (e < n)

if-Within :
    (n : ℕ) (b : Bool) (x : Option (ℕ × ℕ))
    → (b ≡ false → Within n x)
    → Within n (if b then none else x)
if-Within n true x h = tt
if-Within n false x h = h refl

suffix_range-Within : (l : Text) (n : ℕ) → 0 < n → Within n (suffix_range l n)
unfolding suffix_range
suffix_range-Within l n pos_n = elim (Option-cases (atoi l)) [
  | inl e ↦ rw (e, suffix_range) tt
  | inr (z, e) ↦ rw (e, suffix_range) (if-Within n (leb_ℤ z (pos 0)) _ (λ h. ground arith))
]

bounded_range-Within : (s : ℕ) (l : Text) (n : ℕ) → s < n → Within n (bounded_range s l n)
unfolding bounded_range
bounded_range-Within s l n lt = elim (Bool-cases (length l == 0)) [
  | inl open_end ↦ rw (open_end, bounded_range) (omega arith, omega arith)
  | inr closed ↦ elim (Option-cases (atoi l)) [
    | inl e ↦ rw (closed, e, bounded_range) tt
    | inr (z, e) ↦
        rw (closed, e, bounded_range) (if-Within n (ltb_ℤ z (pos s)) _ (λ h. ground arith))
  ]
]

range_of-Within : (a b : Text) (n : ℕ) → 0 < n → Within n (range_of a b n)
unfolding range_of
range_of-Within a b n pos_n = elim (Bool-cases (length a == 0)) [
  | inl suffix ↦ rw (suffix, range_of) (suffix_range-Within b n pos_n)
  | inr given ↦ elim (Option-cases (atoi a)) [
    | inl e ↦ rw (given, e, range_of) tt
    | inr (z, e) ↦
        rw (given, e, range_of)
          (if-Within n (ltb_ℤ z (pos 0) || leb n (pos_part z)) _
            (λ h. bounded_range-Within (pos_part z) b n (ground arith)))
  ]
]

range_of_spec-Within : (spec : Text) (n : ℕ) → 0 < n → Within n (range_of_spec spec n)
unfolding range_of_spec
range_of_spec-Within spec n pos_n = elim (Option-cases (cut_dash spec)) [
  | inl e ↦ rw (e, range_of_spec) tt
  | inr ((a, b), e) ↦ rw (e, range_of_spec) (range_of-Within (trim_space a) (trim_space b) n pos_n)
]

parse_range-Within : (range_header : Text) (n : ℕ) → Within n (parse_range range_header n)
unfolding parse_range
parse_range-Within h n = if-Within n (n == 0) _ (λ some_body.
    elim (Option-cases (trim_prefix range_prefix h)) [
      | inl e ↦ rw e tt
      | inr (spec, e) ↦ rw e (
          if-Within n (has_comma spec || (length (trim_space spec) == 0)) _
            (λ one. range_of_spec-Within (trim_space spec) n (ground arith)))
    ])

-- Whatever the header, a range that `parseRange` accepts for a body starts inside it and not behind
-- its end, and `serveRange` can cut it out: the slice is in bounds, and as long as the range says.
pub serve_range-parse_range :
    (range_header body : Text) (s e : ℕ)
    → parse_range range_header (length body) ≡ some (s, e)
    → (s ≤ e)
      × (e < length body)
      × ((slice : Text) × (serve_range body (s, e) ≡ some slice) × (length slice ≡ e + 1 - s))
unfolding serve_range
serve_range-parse_range h body s e accepted =
    let w = parse_range-Within h (length body) in
    let (le, lt) : Within (length body) (some (s, e)) = (rw accepted at w) in
    let room : leb s (e + 1) && leb (e + 1) (length body) ≡ true = ground arith in
    let cut = drop s body in
    let n = e + 1 - s in
    (
      le,
      lt,
      (take n cut, rw (room, serve_range), omega (arith, length-take n cut, length-drop s body)),
    )
