-- ===== src/Handler/Tenants/Rules.antt =====
-- The loops over the rules of handler/multitenant.go, where no rule is nil.
use cdn_edge.Common.{
  ◌||◌, ◌&&◌, Bool, Bool-cases, ◌≡◌, refl, true, false, Option, Option-cases, none, some, [], ◌∷◌,
  inl, inr, List, Text,
}
use cdn_edge.Common.Int.{ℤ, pos, ltb_ℤ}
use cdn_edge.Common.Http.{Fields, header_get}
use cdn_edge.ControlPlane.Tenant.{Domain, CacheRule}
use cdn_edge.Handler.Directives.{
  has_cache_directive, cache_control, get_cache_directive_value, no_store, private_word, s_maxage,
  max_age, swr_word,
}
use cdn_edge.Handler.Tenants.{
  bypassed, mt_determine_ttl, rule_ttl, configured_ttl, match_glob, seconds,
}

-- No rule of a list is nil.
abbrev pub whole : List (Option CacheRule) → Bool
whole [] = true
whole (none ∷ rules) = false
whole (some rule ∷ rules) = whole rules

rule_ttl-some :
    (path : Text) (rules : List (Option CacheRule))
    → whole rules ≡ true
    → (t : Option ℤ) × (rule_ttl path rules ≡ some t)
unfolding rule_ttl
rule_ttl-some path [] h = (none, refl)
rule_ttl-some path (none ∷ rules) h = absurd (cc)
rule_ttl-some path (some rule ∷ rules) h =
    let (t, e) = rule_ttl-some path rules h in
    elim (Bool-cases (match_glob path rule.path_glob && ltb_ℤ (pos 0) rule.ttl_sec)) [
      | inl b ↦ (some (seconds rule.ttl_sec), rw (b, rule_ttl) refl)
      | inr b ↦ (t, rw (b, rule_ttl) e)
    ]

pub bypassed-some :
    (path : Text) (rules : List (Option CacheRule))
    → whole rules ≡ true
    → (b : Bool) × (bypassed path rules ≡ some b)
unfolding bypassed
bypassed-some path [] h = (false, refl)
bypassed-some path (none ∷ rules) h = absurd (cc)
bypassed-some path (some rule ∷ rules) h =
    let (t, e) = bypassed-some path rules h in
    elim (Bool-cases (match_glob path rule.path_glob)) [
      | inr b ↦ (t, rw (b, bypassed) e)
      | inl b ↦ elim (Bool-cases rule.bypass) [
        | inl y ↦ (true, rw (b, y, bypassed) refl)
        | inr y ↦ (t, rw (b, y, bypassed) e)
      ]
    ]

configured_ttl-some :
    (domain : Domain) (rules : List (Option CacheRule)) (path : Text) (default_ttl : ℤ)
    → whole rules ≡ true
    → (t : ℤ) × (configured_ttl domain rules path default_ttl ≡ some t)
unfolding configured_ttl
configured_ttl-some domain rules path default_ttl h =
    let (chosen, e) = rule_ttl-some path rules h in
    elim (Option-cases chosen) [
      | inr (t, q) ↦ (t, rw (e, q, configured_ttl) refl)
      | inl q ↦ elim (Bool-cases (ltb_ℤ (pos 0) domain.default_ttl_sec)) [
        | inl b ↦ (seconds domain.default_ttl_sec, rw (e, q, b, configured_ttl) refl)
        | inr b ↦ (default_ttl, rw (e, q, b, configured_ttl) refl)
      ]
    ]

pub mt_determine_ttl-some :
    (header : Fields) (domain : Domain) (rules : List (Option CacheRule)) (path : Text)
    (default_ttl : ℤ)
    → whole rules ≡ true
    → (t : ℤ × ℤ) × (mt_determine_ttl header domain rules path default_ttl ≡ some t)
unfolding mt_determine_ttl
mt_determine_ttl-some header domain rules path default_ttl h =
    let (t, e) = configured_ttl-some domain rules path default_ttl h in
    let cc_value = header_get cache_control header in
    let swr = get_cache_directive_value cc_value swr_word in
    let sma = get_cache_directive_value cc_value s_maxage in
    let ma = get_cache_directive_value cc_value max_age in
    let respects = domain.respect_origin_headers in
    rw (e, mt_determine_ttl)
      (elim (Bool-cases
        (has_cache_directive cc_value no_store || has_cache_directive cc_value private_word)) [
          | inl b ↦ ((pos 0, pos 0), rw b refl)
          | inr b ↦ elim (Bool-cases (respects && ltb_ℤ (pos 0) sma)) [
            | inl c ↦ ((sma, swr), rw (b, c) refl)
            | inr c ↦ elim (Bool-cases (respects && ltb_ℤ (pos 0) ma)) [
              | inl d ↦ ((ma, swr), rw (b, c, d) refl)
              | inr d ↦ ((t, swr), rw (b, c, d) refl)
            ]
          ]
        ])
