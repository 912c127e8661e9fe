-- ===== src/Handler/Directives/Parts.antt =====
-- The loops of handler/handler.go over the directives against a split at the commas.
use cdn_edge.Common.{
  ℕ, zero, suc, ◌≤◌, ◌≡◌, refl, ◌∙◌, arith, Bool, true, false, ◌||◌, if◌then◌else◌, inl, inr, List,
  [], ◌∷◌, none, some, Text, length, Option-cases,
}
use cdn_edge.Common.Int.{ℤ, pos}
use cdn_edge.Common.Strings.{
  split-behind, length-behind, equal_fold, until, behind, split, trim_space, trim_left, trim_right,
  lower, same,
}
use cdn_edge.Handler.Directives.{
  directive_key, after_comma, directive_loop, has_cache_directive, part_value, or_value, value_loop,
  get_cache_directive_value,
}

-- Whether one of some parts has the directive as its key.
abbrev pub any_part : Text → List Text → Bool
any_part directive [] = false
any_part directive (p ∷ ps) = equal_fold (directive_key p) directive || any_part directive ps

-- The value of the first of some parts that has one.
abbrev pub first_value : Text → List Text → ℤ
first_value directive [] = pos 0
first_value directive (p ∷ ps) = or_value (part_value p directive) (first_value directive ps)

after_last : (l : Text) → behind 44 l ≡ none → after_comma l ≡ []
after_last l e = rw (e, after_comma) refl

after_some : (l r : Text) → behind 44 l ≡ some r → after_comma l ≡ r
after_some l r e = rw (e, after_comma) refl

loop_end : (fuel : ℕ) (directive : Text) → directive_loop fuel [] directive ≡ false
unfolding directive_loop
loop_end zero directive = refl
loop_end (suc fuel) directive = refl

value_end : (fuel : ℕ) (directive : Text) → value_loop fuel [] directive ≡ pos 0
unfolding value_loop
value_end zero directive = refl
value_end (suc fuel) directive = refl

if-or : (a b : Bool) → (if a then true else b) ≡ (a || b)
if-or true b = refl
if-or false b = refl

-- One round.
directive_loop-suc :
    (fuel c : ℕ) (l directive : Text)
    → directive_loop (suc fuel) (c ∷ l) directive ≡ (
        equal_fold (directive_key (until 44 (c ∷ l))) directive
        || directive_loop fuel (after_comma (c ∷ l)) directive)
unfolding directive_loop
directive_loop-suc fuel c l directive =
    if-or (equal_fold (directive_key (until 44 (c ∷ l))) directive) _

directive_loop-any :
    (fuel : ℕ) (l : Text) (x : ℕ) (d : Text)
    → length l ≤ fuel
    → directive_loop fuel l (x ∷ d) ≡ any_part (x ∷ d) (split 44 l)
unfolding directive_key split equal_fold same lower until trim_space trim_left trim_right
directive_loop-any fuel [] x d h = loop_end fuel (x ∷ d)
directive_loop-any zero (c ∷ l) x d h = absurd (omega arith)
directive_loop-any (suc fuel) (c ∷ l) x d h =
    directive_loop-suc fuel c l (x ∷ d) ∙ elim (Option-cases (behind 44 (c ∷ l))) [
      | inl e ↦ rw (after_last (c ∷ l) e, split-behind 44 (c ∷ l), e, loop_end fuel (x ∷ d)) refl
      | inr (r, e) ↦
          let lt = length-behind 44 (c ∷ l) r e in
          rw
            (
              after_some (c ∷ l) r e,
              split-behind 44 (c ∷ l),
              e,
              directive_loop-any fuel r x d (omega arith),
            )
            refl
    ]

-- The loop of hasCacheDirective has fuel enough, and answers whether a part between the commas has
-- the directive, a non-empty name, as its key.
pub has_cache_directive-any_part :
    (cc : Text) (x : ℕ) (d : Text) → has_cache_directive cc (x ∷ d) ≡ any_part (x ∷ d) (split 44 cc)
unfolding has_cache_directive
has_cache_directive-any_part cc x d = directive_loop-any (length cc) cc x d (omega arith)

value_loop-suc :
    (fuel c : ℕ) (l directive : Text)
    → value_loop (suc fuel) (c ∷ l) directive
      ≡ or_value
          (part_value (until 44 (c ∷ l)) directive)
          (value_loop fuel (after_comma (c ∷ l)) directive)
unfolding value_loop
value_loop-suc fuel c l directive = refl

value_loop-first :
    (fuel : ℕ) (l : Text) (x : ℕ) (d : Text)
    → length l ≤ fuel
    → value_loop fuel l (x ∷ d) ≡ first_value (x ∷ d) (split 44 l)
unfolding or_value part_value directive_key split equal_fold same lower until trim_space trim_left
    trim_right
value_loop-first fuel [] x d h = value_end fuel (x ∷ d)
value_loop-first zero (c ∷ l) x d h = absurd (omega arith)
value_loop-first (suc fuel) (c ∷ l) x d h =
    value_loop-suc fuel c l (x ∷ d) ∙ elim (Option-cases (behind 44 (c ∷ l))) [
      | inl e ↦ rw (after_last (c ∷ l) e, split-behind 44 (c ∷ l), e, value_end fuel (x ∷ d)) refl
      | inr (r, e) ↦
          let lt = length-behind 44 (c ∷ l) r e in
          rw
            (
              after_some (c ∷ l) r e,
              split-behind 44 (c ∷ l),
              e,
              value_loop-first fuel r x d (omega arith),
            )
            refl
    ]

-- The loop of getCacheDirectiveValue has fuel enough, and returns the value of the first part
-- between the commas that has the directive, a non-empty name, with a number.
pub get_cache_directive_value-first :
    (cc : Text) (x : ℕ) (d : Text)
    → get_cache_directive_value cc (x ∷ d) ≡ first_value (x ∷ d) (split 44 cc)
unfolding get_cache_directive_value
get_cache_directive_value-first cc x d = value_loop-first (length cc) cc x d (omega arith)
