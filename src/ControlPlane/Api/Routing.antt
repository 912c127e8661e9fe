-- ===== src/ControlPlane/Api/Routing.antt =====
-- The routes and the checks of keys of controlplane/api/api.go.
use cdn_edge.Common.{not, if◌then◌else◌, none, some, Text, codes}
use cdn_edge.Common.Int.{ℤ}
use cdn_edge.Common.Strings.{same, has_prefix}
use cdn_edge.ControlPlane.Store.{Json, Env, get_tenant_by_api_key}
use cdn_edge.ControlPlane.Store.Snapshot.{build_edge_config}
use cdn_edge.ControlPlane.Api.{
  analytics_ingest, analytics_query, purge_handler, certs_handler, cert_handler, ApiReply,
  ApiRequest, Decoders, Server, edge_config, error_text, extract_api_key, get_word, handle_domain,
  handle_domains, handle_edge, handle_edges, handle_rule, handle_rules, handle_tenant,
  handle_tenants, method_not_allowed, status_text, unauthorized, wired_or, write_json,
}

pub data Route : Type 0 where
  tenants_route tenant_route domains_route domain_route rules_route rule_route : Route
  edges_route edge_route config_route purge_route ingest_route query_route : Route
  certs_route cert_route no_route : Route

-- The pattern of the mux that a path matches: a path itself, or else a subtree.
unfoldable pub route : Text → Route
route path =
    if same path (codes "/api/v1/tenants")
    then tenants_route
    else if has_prefix (codes "/api/v1/tenants/") path
    then tenant_route
    else if same path (codes "/api/v1/domains")
    then domains_route
    else if has_prefix (codes "/api/v1/domains/") path
    then domain_route
    else if same path (codes "/api/v1/rules")
    then rules_route
    else if has_prefix (codes "/api/v1/rules/") path
    then rule_route
    else if same path (codes "/api/v1/edges")
    then edges_route
    else if has_prefix (codes "/api/v1/edges/") path
    then edge_route
    else if same path (codes "/api/v1/config")
    then config_route
    else if same path (codes "/api/v1/purge")
    then purge_route
    else if same path (codes "/api/v1/analytics/ingest")
    then ingest_route
    else if same path (codes "/api/v1/analytics/query")
    then query_route
    else if same path (codes "/api/v1/certs")
    then certs_route
    else if has_prefix (codes "/api/v1/certs/") path
    then cert_route
    else no_route

abbrev pub HandlerFunc : Type 0
HandlerFunc = ApiRequest → Server → Server × ApiReply

unfoldable pub admin_auth : HandlerFunc → HandlerFunc
admin_auth next r s =
    if not (same (extract_api_key r) s.admin_key) then (s, unauthorized) else next r s

unfoldable pub auth : HandlerFunc → HandlerFunc
auth next r s =
    if same (extract_api_key r) s.admin_key
    then next r s
    else (elim (get_tenant_by_api_key (extract_api_key r) s.store) [
      | none ↦ (s, unauthorized)
      | some _ ↦ next r s
    ])

unfoldable pub handle_purge : HandlerFunc
handle_purge r s = wired_or purge_handler (write_json 200 (status_text (codes "purge_queued"))) r s

unfoldable pub handle_analytics_ingest : HandlerFunc
handle_analytics_ingest r s =
    wired_or analytics_ingest (write_json 202 (status_text (codes "accepted"))) r s

unfoldable pub handle_analytics_query : HandlerFunc
handle_analytics_query r s =
    wired_or analytics_query (write_json 200 (status_text (codes "not_implemented"))) r s

abbrev pub no_certs : ApiReply
no_certs = write_json 501 (error_text (codes "certificate manager not configured"))

unfoldable pub handle_certs : HandlerFunc
handle_certs r s = wired_or certs_handler no_certs r s

unfoldable pub handle_cert : HandlerFunc
handle_cert r s = wired_or cert_handler no_certs r s

unfoldable pub handle_config : ℤ → HandlerFunc
handle_config now r s =
    if not (same r.method get_word)
    then (s, method_not_allowed)
    else (s, write_json 200 (edge_config (build_edge_config now s.store)))

-- The mux's own answer to a path that it does not know.
abbrev pub not_found : ApiReply
not_found = write_json 404 (error_text (codes "404 page not found"))

module _ (json : Json) (decoders : Decoders) (env : Env) where
  unfoldable pub dispatch : Route → HandlerFunc
  dispatch tenants_route = admin_auth (handle_tenants json decoders env)
  dispatch tenant_route = admin_auth (handle_tenant json decoders env)
  dispatch domains_route = auth (handle_domains json decoders env)
  dispatch domain_route = auth (handle_domain json decoders env)
  dispatch rules_route = auth (handle_rules json decoders env)
  dispatch rule_route = auth (handle_rule json decoders env)
  dispatch edges_route = admin_auth (handle_edges json decoders env)
  dispatch edge_route = admin_auth (handle_edge json decoders env)
  dispatch config_route = handle_config env.now
  dispatch purge_route = auth handle_purge
  dispatch ingest_route = handle_analytics_ingest
  dispatch query_route = auth handle_analytics_query
  dispatch certs_route = admin_auth handle_certs
  dispatch cert_route = admin_auth handle_cert
  dispatch no_route = λ r s. (s, not_found)

  -- A request to the API.
  unfoldable pub handle : HandlerFunc
  handle r s = dispatch (route r.path) r s
