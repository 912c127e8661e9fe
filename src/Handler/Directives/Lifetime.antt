-- ===== src/Handler/Directives/Lifetime.antt =====
-- How long handler/handler.go keeps a response, by its Cache-Control.
use cdn_edge.Common.{
  ℕ, ◌*◌, ◌^◌, ◌-◌, ◌≤◌, ◌≡◌, refl, ap, ◌∙◌, arith, true, ◌||◌, List, [], ◌∷◌, some, Text,
  if◌then◌else◌,
}
use cdn_edge.Common.Int.{
  ℤ, pos, negsuc, ◌*ℤ◌, ltb_ℤ, wrap_i64, wrap_i64-eq_of_IsI64, wrap_i64-negative,
}
use cdn_edge.Common.Strings.{equal_fold, split, behind, trim_space, atoi}
use cdn_edge.Common.Http.{Fields, header_get}
use cdn_edge.Handler.Directives.{
  directive_key, has_cache_directive, no_store, private_word, s_maxage, max_age, cache_control,
  ttl_of_directives, determine_ttl, part_value,
}
use cdn_edge.Handler.Directives.Parts.{any_part, first_value, has_cache_directive-any_part}

-- A response that any part of its Cache-Control forbids to store, in whatever case, has no
-- lifetime.
pub no_store_never_kept :
    (default_ttl : ℤ) (header : Fields)
    → (any_part no_store (split 44 (header_get cache_control header))
        || any_part private_word (split 44 (header_get cache_control header)))
      ≡ true
    → determine_ttl default_ttl header ≡ (pos 0, pos 0)
unfolding determine_ttl ttl_of_directives
no_store_never_kept default_ttl header h =
    let cc = header_get cache_control header in
    let a = has_cache_directive-any_part cc 110 (111 ∷ 45 ∷ 115 ∷ 116 ∷ 111 ∷ 114 ∷ 101 ∷ []) in
    let b = has_cache_directive-any_part cc 112 (114 ∷ 105 ∷ 118 ∷ 97 ∷ 116 ∷ 101 ∷ []) in
    let e : (has_cache_directive cc no_store || has_cache_directive cc private_word) ≡ true =
      rw (a, b) h in
    rw e refl

-- The lifetime of a response that may be stored: the first s-maxage with a positive number of
-- seconds, else the first max-age with one, else the default.
abbrev pub chosen : ℤ → List Text → ℤ
chosen default_ttl parts =
    if ltb_ℤ (pos 0) (first_value s_maxage parts)
    then first_value s_maxage parts
    else if ltb_ℤ (pos 0) (first_value max_age parts)
    then first_value max_age parts
    else default_ttl

part_value-seconds :
    (part directive val : Text) (n : ℕ)
    → equal_fold (directive_key part) directive ≡ true
    → behind 61 (trim_space part) ≡ some val
    → atoi (trim_space val) ≡ some (pos n)
    → part_value part directive ≡ some (wrap_i64 (pos (n * 1000000000)))
unfolding part_value ◌*ℤ◌
part_value-seconds part directive val n k v a =
    rw (k, v, a) (ap (λ t. some (wrap_i64 t)) (ground arith))

-- Up to 9223372036 seconds, 292 years, a directive gives its seconds in nanoseconds.
pub part_value-exact :
    (part directive val : Text) (n : ℕ)
    → equal_fold (directive_key part) directive ≡ true
    → behind 61 (trim_space part) ≡ some val
    → atoi (trim_space val) ≡ some (pos n)
    → n ≤ 9223372036
    → part_value part directive ≡ some (pos (n * 1000000000))
part_value-exact part directive val n k v a h =
    part_value-seconds part directive val n k v a
    ∙ ap some (wrap_i64-eq_of_IsI64 (pos (n * 1000000000)) (omega arith, omega arith))

-- From 9223372037 to 18446744073 seconds the product wraps round to a negative duration, which
-- determineTTL takes for a missing directive.
pub part_value-overflow :
    (part directive val : Text) (n : ℕ)
    → equal_fold (directive_key part) directive ≡ true
    → behind 61 (trim_space part) ≡ some val
    → atoi (trim_space val) ≡ some (pos n)
    → 9223372037 ≤ n
    → n ≤ 18446744073
    → part_value part directive ≡ some (negsuc (2 ^ 64 - n * 1000000000 - 1))
part_value-overflow part directive val n k v a lo hi =
    part_value-seconds part directive val n k v a
    ∙ ap some (wrap_i64-negative (n * 1000000000) (omega arith) (omega arith))
