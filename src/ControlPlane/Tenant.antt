-- ===== src/ControlPlane/Tenant.antt =====
-- The data model of tenant/tenant.go. `settings` stands for the fields of a domain that no modelled
-- part reads (timeouts, entry size, CORS, certificates, rate limit), whatever they hold.
use cdn_edge.Common.{Bool, List, Option, Text}
use cdn_edge.Common.Int.{ℤ}

pub record Tenant : Type 0 where
  pub id : Text
  pub name : Text
  pub created_at : ℤ
  pub updated_at : ℤ
  pub active : Bool
  pub api_key : Text

pub record Domain : Type 0 where
  pub id : Text
  pub tenant_id : Text
  pub hostname : Text
  pub origin_url : Text
  pub origin_host : Text
  pub default_ttl_sec : ℤ
  pub respect_origin_headers : Bool
  pub tls_mode : Text
  pub settings : Text
  pub active : Bool
  pub created_at : ℤ
  pub updated_at : ℤ

pub record CacheRule : Type 0 where
  pub id : Text
  pub domain_id : Text
  pub path_glob : Text
  pub ttl_sec : ℤ
  pub bypass : Bool

pub record EdgeNode : Type 0 where
  pub id : Text
  pub name : Text
  pub addr : Text
  pub region : Text
  pub last_seen : ℤ
  pub active : Bool

-- A rule is a pointer, `none` for the `null` that the JSON of a configuration may have in its place. A
-- domain that is `null` counts as absent.
pub record EdgeConfig : Type 0 where
  pub version : ℤ
  pub timestamp : ℤ
  pub domains : List (Text × Domain)
  pub rules : List (Text × List (Option CacheRule))
