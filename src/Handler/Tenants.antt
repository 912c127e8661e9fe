-- ===== src/Handler/Tenants.antt =====
-- handler/multitenant.go: the routing configuration of the multi-tenant handler, its domains, rules
-- and lifetimes. The configuration is replaced whole under the mutex.
pub mod Globs
pub mod Rules
use cdn_edge.Common.{
  ℕ, zero, suc, Bool, true, false, ◌&&◌, ◌||◌, ltb, ◌==◌, if◌then◌else◌, List, [], ◌∷◌, ◌++◌,
  Option, none, some, Text, codes, take, text_discrete,
}
use cdn_edge.Common.Int.{ℤ, pos, ◌*ℤ◌, ltb_ℤ, wrap_i64}
use cdn_edge.Common.Strings.{last_index, same, is_empty, has_prefix}
use cdn_edge.Common.Http.{Fields, header_get}
use cdn_edge.Cache.Tiered.{Cache}
use cdn_edge.Cache.Predictor.{Predictor}
use cdn_edge.ControlPlane.Tenant.{Domain, CacheRule, EdgeConfig}
use cdn_edge.Proxy.Origin.{Origin}
use cdn_edge.Handler.Directives.{
  has_cache_directive, get_cache_directive_value, no_store, private_word, s_maxage, max_age,
  swr_word, cache_control, second,
}
use mathlib.Core.List.{lookup}

pub record MultiTenantCdn : Type 0 where
  pub config : Option EdgeConfig
  pub cache : Cache
  pub origin : Origin
  pub predictor : Option Predictor
  pub default_ttl : ℤ

-- `UpdateConfig`
unfoldable pub update_config : EdgeConfig → MultiTenantCdn → MultiTenantCdn
update_config cfg mt = record mt { config = some cfg }

unfoldable pub strip_port : Text → Text
strip_port host = elim (last_index 58 host) [
  | none ↦ host
  | some i ↦ if ltb 0 i then take i host else host
]

-- `strings.HasSuffix` and `strings.TrimSuffix`.
unfoldable pub trim_suffix : Text → Text → Option Text
trim_suffix s [] = if same s [] then some [] else none
trim_suffix s (c ∷ l) =
    let rest = trim_suffix s l in
    if same s (c ∷ l) then some [] else (elim rest [ none ↦ none | some t ↦ some (c ∷ t) ])

unfoldable pub match_glob : Text → Text → Bool
match_glob url_path pattern =
    if is_empty pattern
    then false
    else if same pattern (codes "*") || same pattern (codes "/*")
    then true
    else (elim (trim_suffix (codes "/*") pattern) [
      | some prefix ↦ has_prefix (prefix ++ codes "/") url_path || same url_path prefix
      | none ↦ elim (trim_suffix (codes "*") pattern) [
        | some prefix ↦ has_prefix prefix url_path
        | none ↦ same url_path pattern
      ]
    ])

unfoldable pub lookup_domain : Text → MultiTenantCdn → Option Domain
lookup_domain hostname mt = elim mt.config [
  | none ↦ none
  | some cfg ↦ lookup text_discrete hostname cfg.domains
]

unfoldable pub lookup_rules : Text → MultiTenantCdn → List (Option CacheRule)
lookup_rules domain_id mt = elim mt.config [
  | none ↦ []
  | some cfg ↦ elim (lookup text_discrete domain_id cfg.rules) [ none ↦ [] | some rules ↦ rules ]
]

-- The loop over the rules in `ServeHTTP`: whether one that matches bypasses the cache; `none` is
-- the panic at a rule that is nil, which is `null` in the JSON of a configuration.
unfoldable pub bypassed : Text → List (Option CacheRule) → Option Bool
bypassed url_path [] = some false
bypassed url_path (none ∷ rules) = none
bypassed url_path (some rule ∷ rules) =
    let rest = bypassed url_path rules in
    if match_glob url_path rule.path_glob then (if rule.bypass then some true else rest) else rest

-- `time.Duration(secs) * time.Second`
unfoldable pub seconds : ℤ → ℤ
seconds secs = wrap_i64 (secs *ℤ second)

-- The loop over the rules in `mtDetermineTTL`; the outer `none` is its panic at a nil rule.
unfoldable pub rule_ttl : Text → List (Option CacheRule) → Option (Option ℤ)
rule_ttl url_path [] = some none
rule_ttl url_path (none ∷ rules) = none
rule_ttl url_path (some rule ∷ rules) =
    let rest = rule_ttl url_path rules in
    if match_glob url_path rule.path_glob && ltb_ℤ (pos 0) rule.ttl_sec
    then some (some (seconds rule.ttl_sec))
    else rest

-- The part of `mtDetermineTTL` that does not look at the origin's headers.
unfoldable pub configured_ttl : Domain → List (Option CacheRule) → Text → ℤ → Option ℤ
configured_ttl domain rules url_path default_ttl = elim (rule_ttl url_path rules) [
  | none ↦ none
  | some chosen ↦ elim chosen [
    | some ttl ↦ some ttl
    | none ↦
        if ltb_ℤ (pos 0) domain.default_ttl_sec
        then some (seconds domain.default_ttl_sec)
        else some default_ttl
  ]
]

unfoldable pub mt_determine_ttl :
    Fields → Domain → List (Option CacheRule) → Text → ℤ → Option (ℤ × ℤ)
mt_determine_ttl header domain rules url_path default_ttl =
    let cc = header_get cache_control header in
    let swr = get_cache_directive_value cc swr_word in
    let sma = get_cache_directive_value cc s_maxage in
    let ma = get_cache_directive_value cc max_age in
    if has_cache_directive cc no_store || has_cache_directive cc private_word
    then some (pos 0, pos 0)
    else if domain.respect_origin_headers && ltb_ℤ (pos 0) sma
    then some (sma, swr)
    else if domain.respect_origin_headers && ltb_ℤ (pos 0) ma
    then some (ma, swr)
    else (elim (configured_ttl domain rules url_path default_ttl) [
      | none ↦ none
      | some ttl ↦ some (ttl, swr)
    ])
