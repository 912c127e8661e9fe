-- ===== src/ControlPlane/Api/Access.antt =====
-- What a request to controlplane/api/api.go may do with the key that it has.
use cdn_edge.Common.{◌≡◌, refl, ap, true, inl, inr, Bool-cases, Option-cases}
use cdn_edge.Common.Strings.{same}
use cdn_edge.Common.Int.{ℤ}
use cdn_edge.ControlPlane.Store.{Json, Env, get_tenant_by_api_key}
use cdn_edge.ControlPlane.Store.Calls.{Call}
use cdn_edge.ControlPlane.Api.Effects.{
  May, Acts, Within, wired_or-store, tenants-Acts, tenant-Acts, domains-Acts, domain-Acts,
  rules-Acts, rule-Acts, edges-Acts, edge-Acts,
}
use cdn_edge.ControlPlane.Api.Routing.{
  Route, tenants_route, tenant_route, domains_route, domain_route, rules_route, rule_route,
  edges_route, edge_route, config_route, purge_route, ingest_route, query_route, certs_route,
  cert_route, no_route, route, HandlerFunc, admin_auth, auth, handle_purge, handle_analytics_ingest,
  handle_analytics_query, handle_certs, handle_cert, handle_config, dispatch, handle,
}
use cdn_edge.ControlPlane.Api.{
  analytics_ingest, analytics_query, purge_handler, certs_handler, cert_handler, ApiRequest,
  Decoders, Server, extract_api_key, get_word, put_word,
}

-- What holds of the server before, and of the one that the handler leaves, holds behind the check.
pub auth-After :
    (Q : Server → Type 0) (next : HandlerFunc) (r : ApiRequest) (s : Server)
    → Q s
    → Q (next r s).0
    → Q (auth next r s).0
unfolding auth
auth-After Q next r s p q = elim (Bool-cases (same (extract_api_key r) s.admin_key)) [
  | inl e ↦ rw (e, auth) q
  | inr e ↦ elim (Option-cases (get_tenant_by_api_key (extract_api_key r) s.store)) [
    | inl n ↦ rw (e, auth) (rw n p)
    | inr (t, n) ↦ rw (e, auth) (rw n q)
  ]
]

pub admin_auth-After :
    (Q : Server → Type 0) (next : HandlerFunc) (r : ApiRequest) (s : Server)
    → Q s
    → (same (extract_api_key r) s.admin_key ≡ true → Q (next r s).0)
    → Q (admin_auth next r s).0
unfolding admin_auth
admin_auth-After Q next r s p q = elim (Bool-cases (same (extract_api_key r) s.admin_key)) [
  | inl e ↦ rw (e, admin_auth) (q e)
  | inr e ↦ rw (e, admin_auth) p
]

pub config-same : (now : ℤ) (r : ApiRequest) (s : Server) → (handle_config now r s).0 ≡ s
unfolding handle_config
config-same now r s = elim (Bool-cases (same r.method get_word)) [
  | inl e ↦ rw (e, handle_config) refl
  | inr e ↦ rw (e, handle_config) refl
]

module _ (json : Json) (decoders : Decoders) (env : Env) where
  abbrev Allowed : ApiRequest → Server → Call → Type 0
  Allowed r s = May (same (extract_api_key r) s.admin_key) (same r.method put_word)

  dispatch-Acts :
      (path : Route) (r : ApiRequest) (s : Server)
      → Acts json (Allowed r s) s.store (dispatch json decoders env path r s).0.store
  unfolding dispatch handle_purge handle_analytics_ingest handle_analytics_query handle_certs
      handle_cert
  dispatch-Acts tenants_route r s =
      admin_auth-After (Within json decoders env (Allowed r s) s) _ r s (inl refl)
        (λ a. tenants-Acts json decoders env (Allowed r s) r s (λ _. a))
  dispatch-Acts tenant_route r s =
      admin_auth-After (Within json decoders env (Allowed r s) s) _ r s (inl refl)
        (λ a. tenant-Acts json decoders env (Allowed r s) r s (λ _. a))
  dispatch-Acts domains_route r s =
      auth-After (Within json decoders env (Allowed r s) s) _ r s (inl refl)
        (domains-Acts json decoders env (Allowed r s) r s (λ _. tt))
  dispatch-Acts domain_route r s =
      auth-After (Within json decoders env (Allowed r s) s) _ r s (inl refl)
        (domain-Acts json decoders env (Allowed r s) r s (λ _ e. e) (λ _. tt))
  dispatch-Acts rules_route r s =
      auth-After (Within json decoders env (Allowed r s) s) _ r s (inl refl)
        (rules-Acts json decoders env (Allowed r s) r s (λ _. tt))
  dispatch-Acts rule_route r s =
      auth-After (Within json decoders env (Allowed r s) s) _ r s (inl refl)
        (rule-Acts json decoders env (Allowed r s) r s (λ _. tt))
  dispatch-Acts edges_route r s =
      admin_auth-After (Within json decoders env (Allowed r s) s) _ r s (inl refl)
        (λ a. edges-Acts json decoders env (Allowed r s) r s (λ _ _ _. a))
  dispatch-Acts edge_route r s =
      admin_auth-After (Within json decoders env (Allowed r s) s) _ r s (inl refl)
        (λ a. edge-Acts json decoders env (Allowed r s) r s (λ _. a))
  dispatch-Acts config_route r s = inl (ap (λ x. x.store) (config-same env.now r s))
  dispatch-Acts purge_route r s =
      auth-After (Within json decoders env (Allowed r s) s) _ r s (inl refl)
        (inl (wired_or-store purge_handler _ r s))
  dispatch-Acts ingest_route r s = inl (wired_or-store analytics_ingest _ r s)
  dispatch-Acts query_route r s =
      auth-After (Within json decoders env (Allowed r s) s) _ r s (inl refl)
        (inl (wired_or-store analytics_query _ r s))
  dispatch-Acts certs_route r s =
      admin_auth-After (Within json decoders env (Allowed r s) s) _ r s (inl refl)
        (λ _. inl (wired_or-store certs_handler _ r s))
  dispatch-Acts cert_route r s =
      admin_auth-After (Within json decoders env (Allowed r s) s) _ r s (inl refl)
        (λ _. inl (wired_or-store cert_handler _ r s))
  dispatch-Acts no_route r s = inl refl

  -- A request changes the store, if at all, as one call of the store does: a call on tenants or
  -- edges only with the administrator's key, and an update of a domain only by PUT.
  pub handle-Acts :
      (r : ApiRequest) (s : Server)
      → Acts json
          (May (same (extract_api_key r) s.admin_key) (same r.method put_word))
          s.store
          (handle json decoders env r s).0.store
  unfolding handle
  handle-Acts r s = dispatch-Acts (route r.path) r s
