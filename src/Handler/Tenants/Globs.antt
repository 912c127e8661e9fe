-- ===== src/Handler/Tenants/Globs.antt =====
-- The path patterns of handler/multitenant.go.
use cdn_edge.Common.{
  ℕ, ◌≡◌, ◌≢◌, refl, ap, arith, false, ◌||◌, Bool-cases, inl, inr, [], ◌∷◌, ◌++◌, some, Text, codes,
  length, length-append,
}
use cdn_edge.Common.Strings.{same, same_refl, eq_of_same, has_prefix}
use cdn_edge.Handler.Tenants.{trim_suffix, match_glob}

not_same : (a b : Text) → length a ≢ length b → same a b ≡ false
not_same a b n = elim (Bool-cases (same a b)) [
  | inl e ↦ absurd (n (ap length (eq_of_same a b e)))
  | inr e ↦ e
]

trim_suffix-append : (t s : Text) → trim_suffix s (t ++ s) ≡ some t
unfolding trim_suffix same
trim_suffix-append [] [] = refl
trim_suffix-append [] (c ∷ s) = rw (same_refl (c ∷ s)) refl
trim_suffix-append (c ∷ t) s =
    let n : same s (c ∷ (t ++ s)) ≡ false =
      not_same s (c ∷ (t ++ s)) (λ e. let l = length-append t s in absurd (omega arith)) in
    rw (n, trim_suffix-append t s) refl

-- A pattern that ends in `/*` behind a prefix matches the prefix itself and what lies below it,
-- and nothing else.
pub match_glob-below :
    (c : ℕ) (prefix url_path : Text)
    → match_glob url_path ((c ∷ prefix) ++ codes "/*")
      ≡ (has_prefix ((c ∷ prefix) ++ codes "/") url_path || same url_path (c ∷ prefix))
unfolding match_glob
match_glob-below c prefix url_path =
    let l = length-append prefix (codes "/*") in
    let a : same ((c ∷ prefix) ++ codes "/*") (codes "*") ≡ false =
      not_same ((c ∷ prefix) ++ codes "/*") (codes "*") (λ e. absurd (omega arith)) in
    let b : same ((c ∷ prefix) ++ codes "/*") (codes "/*") ≡ false =
      not_same ((c ∷ prefix) ++ codes "/*") (codes "/*") (λ e. absurd (omega arith)) in
    rw (a, b, trim_suffix-append (c ∷ prefix) (codes "/*")) refl
