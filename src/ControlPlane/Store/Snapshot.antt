-- ===== src/ControlPlane/Store/Snapshot.antt =====
-- `BuildEdgeConfig` of controlplane/store/store.go: the configuration that the edge servers get.
pub mod Edge
use mathlib.Core.List.{lookup}
use cdn_edge.Common.{
  Bool, false, ◌&&◌, if◌then◌else◌, List, [], ◌∷◌, Option, ◌++◌, none, some, Text, text_discrete,
}
use cdn_edge.Common.Assoc.{insert}
use cdn_edge.Common.Int.{ℤ, pos}
use cdn_edge.ControlPlane.Tenant.{Tenant, Domain, CacheRule, EdgeConfig}
use cdn_edge.ControlPlane.Store.{Store}

-- A domain that the edge servers get: active, of a tenant that is there and active.
pub is_served : List (Text × Tenant) → Domain → Bool
is_served tenants d =
    d.active
    && (elim (lookup text_discrete d.tenant_id tenants) [ none ↦ false | some t ↦ t.active ])

-- The loops of `BuildEdgeConfig`.
pub config_domains :
    List (Text × Tenant) → List (Text × Domain) → List (Text × Domain) → List (Text × Domain)
unfolding is_served
config_domains tenants [] domains = domains
config_domains tenants ((_, d) ∷ ds) domains =
    config_domains tenants ds
      (if is_served tenants d then insert text_discrete d.hostname d domains else domains)

pub config_rules :
    List (Text × CacheRule)
    → List (Text × List (Option CacheRule))
    → List (Text × List (Option CacheRule))
config_rules [] rules = rules
config_rules ((_, r) ∷ rs) rules =
    config_rules rs (insert text_discrete r.domain_id (rules_of r.domain_id ++ (some r ∷ [])) rules)
  where
    rules_of : Text → List (Option CacheRule)
    rules_of id = elim (lookup text_discrete id rules) [ none ↦ [] | some l ↦ l ]

pub build_edge_config : ℤ → Store → EdgeConfig
build_edge_config now s = record {
  version = pos s.records.version;
  timestamp = now;
  domains = config_domains s.records.tenants s.records.domains [];
  rules = config_rules s.records.cache_rules [];
}
