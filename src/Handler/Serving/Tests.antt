-- ===== src/Handler/Serving/Tests.antt =====
-- Requests to the multi-tenant handler of handler/multitenant.go, at a concrete configuration.
use cdn_edge.Common.{
  ◌≡◌, refl, true, false, List, [], ◌∷◌, ◌++◌, Option, none, some, codes, text_discrete,
}
use cdn_edge.Common.Assoc.{insert, delete, lookup-insert_self}
use cdn_edge.Common.Int.{pos}
use cdn_edge.Common.Strings.{last_index, same, has_prefix}
use cdn_edge.ControlPlane.Tenant.{Domain, CacheRule, EdgeConfig}
use cdn_edge.Proxy.Circuit.{allow}
use cdn_edge.Proxy.Origin.{Origin, Response, response, new_flight}
use cdn_edge.Handler.Writer.{serve_response, bypass_word}
use cdn_edge.Handler.Cdn.{Request, World}
use cdn_edge.Handler.Fetching.Tests.{empty_cache, small_origin, small_world, small_request}
use cdn_edge.Handler.Tenants.{
  MultiTenantCdn, strip_port, match_glob, trim_suffix, lookup_domain, lookup_rules, bypassed,
}
use cdn_edge.Handler.Serving.{mt_proxy_passthrough, mt_serve_http}
use cdn_edge.Handler.Requests.Answers.{status_of}
use cdn_edge.Handler.Serving.Isolation.{
  passthrough_shared, has_active, IsRefusal, mt_serve_http-refuses,
}
use mathlib.Core.List.{lookup}

abbrev site : Domain
site = record {
  id = codes "d";
  tenant_id = codes "t";
  hostname = codes "h";
  origin_url = codes "http://o/";
  origin_host = [];
  default_ttl_sec = pos 0;
  respect_origin_headers = true;
  tls_mode = [];
  settings = [];
  active = true;
  created_at = pos 0;
  updated_at = pos 0;
}

-- Everything below `/api` goes past the cache.
abbrev api_rule : CacheRule
api_rule = record {
  id = [];
  domain_id = codes "d";
  path_glob = codes "/api/*";
  ttl_sec = pos 0;
  bypass = true;
}

abbrev mt_at : Option EdgeConfig → Origin → MultiTenantCdn
mt_at config origin = record {
  config = config;
  cache = empty_cache;
  origin = origin;
  predictor = none;
  default_ttl = pos 60;
}

abbrev api_config : EdgeConfig
api_config = record {
  version = pos 1;
  timestamp = pos 0;
  domains = (codes "h", site) ∷ [];
  rules = (codes "d", some api_rule ∷ []) ∷ [];
}

abbrev page : Response
page = record { status_code = 200; header = []; body = 1 ∷ [] }

abbrev api_request : Request
api_request = record small_request { path = codes "/api/x"; request_uri = codes "/api/x" }

abbrev other_request : Request
other_request = record small_request { host = codes "g:80" }

abbrev small : World
small = small_world page

port_stripped : strip_port (codes "g:80") ≡ codes "g"
unfolding strip_port last_index
port_stripped = refl

below_api : match_glob (codes "/api/x") (codes "/api/*") ≡ true
unfolding match_glob trim_suffix same has_prefix
below_api = refl

its_rules : lookup_rules (codes "d") (mt_at (some api_config) small_origin) ≡ some api_rule ∷ []
unfolding lookup_rules insert delete
its_rules =
    let e : lookup {B = List (Option CacheRule)} text_discrete (codes "d")
          ((codes "d", some api_rule ∷ []) ∷ [])
        ≡ some (some api_rule ∷ []) =
      lookup-insert_self text_discrete (codes "d") (some api_rule ∷ []) [] in
    rw (e, lookup_rules) refl

bypasses :
    bypassed (codes "/api/x") (lookup_rules (codes "d") (mt_at (some api_config) small_origin))
    ≡ some true
unfolding bypassed match_glob trim_suffix same has_prefix
bypasses = rw its_rules refl

-- A passthrough of another domain is under way.
abbrev flying : Origin
flying = record small_origin {
  flights = (codes "passthrough:/api/x", 0) ∷ [];
  landed = new_flight ∷ [];
}

abbrev shared_world : World
shared_world = record (small_world page) { awaited = response page }

under_way :
    lookup text_discrete (codes "passthrough:" ++ api_request.request_uri) flying.flights ≡ some 0
unfolding insert delete
under_way = lookup-insert_self text_discrete (codes "passthrough:/api/x") 0 []

allowed : (allow (pos 100) flying.cb).1 ≡ true
unfolding allow
allowed = refl

passthrough_shared_example :
    (mt_proxy_passthrough shared_world [] api_request site (mt_at (some api_config) flying)).1
    ≡ (serve_response [] page bypass_word)
passthrough_shared_example =
    passthrough_shared shared_world [] api_request site (mt_at (some api_config) flying) 0 page
      allowed under_way refl

unknown :
    has_active (lookup_domain (strip_port small_request.host) (mt_at none small_origin)) ≡ false
unfolding lookup_domain
unknown = refl

mt_serve_http-refuses_example :
    ((mt_serve_http (small_world page) [] small_request (mt_at none small_origin)).0
      ≡ mt_at none small_origin)
    × IsRefusal
        (status_of (mt_serve_http (small_world page) [] small_request (mt_at none small_origin)).1)
mt_serve_http-refuses_example =
    mt_serve_http-refuses (small_world page) [] small_request (mt_at none small_origin) unknown
