-- ===== src/ControlPlane/Api/Guards.antt =====
-- What the keys of controlplane/api/api.go protect, and what they do not.
use mathlib.Core.List.{lookup}
use cdn_edge.Common.{
  ◌≡◌, [], ◌∷◌, ◌++◌, refl, subst, Bool, false, inl, inr, Bool-cases, Option-cases, none, some,
  Text, text_discrete,
}
use cdn_edge.Common.Strings.{same}
use cdn_edge.Common.Assoc.{lookup-delete_self}
use cdn_edge.ControlPlane.Tenant.{Tenant, Domain}
use cdn_edge.ControlPlane.Store.{
  StoreData, Store, Json, Env, get_tenant, get_tenant_by_api_key, find_by_hostname, drop_domain,
  save_data, create_domain, create_cache_rule, update_domain, delete_domain, delete_cache_rule,
}
use cdn_edge.ControlPlane.Store.Persistence.{save-records}
use cdn_edge.ControlPlane.Store.Calls.{
  Call, create_tenant_call, delete_tenant_call, create_domain_call, update_domain_call,
  delete_domain_call, create_rule_call, delete_rule_call, register_edge_call, heartbeat_edge_call,
  delete_edge_call, apply, Fits, Reachable, called,
}
use cdn_edge.ControlPlane.Api.Effects.{May, concluded-store}
use cdn_edge.ControlPlane.Api.Access.{handle-Acts}
use cdn_edge.ControlPlane.Api.Routing.{
  domain_route, ingest_route, route, HandlerFunc, auth, dispatch, handle,
}
use cdn_edge.ControlPlane.Api.{
  analytics_ingest, ApiRequest, Decoders, Server, delete_word, deleted, extract_api_key,
  handle_domain, last_path_segment, put_word,
}

-- A key that neither check knows.
abbrev Unknown : ApiRequest → Server → Type 0
Unknown r s =
    (same (extract_api_key r) s.admin_key ≡ false)
    × (get_tenant_by_api_key (extract_api_key r) s.store ≡ none)

-- Tenants and edges as they were.
abbrev pub Keeps : StoreData → StoreData → Type 0
Keeps x y = (y.tenants ≡ x.tenants) × (y.edge_nodes ≡ x.edge_nodes)

-- A request to the analytics without a key: it is handed on, if the analytics are wired in.
abbrev pub Ingested : ApiRequest → Server → Server → Type 0
Ingested r s s' =
    (route r.path ≡ ingest_route)
    × (s' ≡ record s { handed = s.handed ++ (analytics_ingest, r) ∷ [] })

save_data-Keeps :
    (json : Json) (env : Env) (x : StoreData) (s : Store)
    → Keeps s.records x
    → Keeps s.records (save_data json env x s).0.records
save_data-Keeps json env x s k = rw (save-records json env (record s { records = x })) (k.0, k.1)

apply-Keeps :
    (json : Json) (put : Bool) (c : Call) (s : Store)
    → May false put c
    → Keeps s.records (apply json c s).0.records
unfolding apply create_domain create_cache_rule update_domain delete_domain delete_cache_rule
    drop_domain
apply-Keeps json put (create_domain_call env d) s m =
    elim (Option-cases (get_tenant d.tenant_id s)) [
      | inl n ↦ rw (n, create_domain) (refl, refl)
      | inr (t, h) ↦ elim (Option-cases (find_by_hostname d.hostname s.records.domains)) [
        | inr (e, taken) ↦ rw (h, taken, create_domain) (refl, refl)
        | inl free ↦ rw (h, free, create_domain) (save_data-Keeps json env _ s (refl, refl))
      ]
    ]
apply-Keeps json put (update_domain_call env d) s m =
    elim (Option-cases (lookup text_discrete d.id s.records.domains)) [
      | inl n ↦ rw (n, update_domain) (refl, refl)
      | inr (e, h) ↦ rw (h, update_domain) (save_data-Keeps json env _ s (refl, refl))
    ]
apply-Keeps json put (delete_domain_call env id) s m =
    elim (Option-cases (lookup text_discrete id s.records.domains)) [
      | inl n ↦ rw (n, delete_domain) (refl, refl)
      | inr (e, h) ↦ rw (h, delete_domain) (save_data-Keeps json env _ s (refl, refl))
    ]
apply-Keeps json put (create_rule_call env rule) s m =
    elim (Option-cases (lookup text_discrete rule.domain_id s.records.domains)) [
      | inl n ↦ rw (n, create_cache_rule) (refl, refl)
      | inr (d, h) ↦ rw (h, create_cache_rule) (save_data-Keeps json env _ s (refl, refl))
    ]
apply-Keeps json put (delete_rule_call env id) s m =
    elim (Option-cases (lookup text_discrete id s.records.cache_rules)) [
      | inl n ↦ rw (n, delete_cache_rule) (refl, refl)
      | inr (d, h) ↦ rw (h, delete_cache_rule) (save_data-Keeps json env _ s (refl, refl))
    ]
apply-Keeps json put (create_tenant_call _ _) s m = absurd (cc)
apply-Keeps json put (delete_tenant_call _ _) s m = absurd (cc)
apply-Keeps json put (register_edge_call _ _ _ _) s m = absurd (cc)
apply-Keeps json put (heartbeat_edge_call _ _) s m = absurd (cc)
apply-Keeps json put (delete_edge_call _ _) s m = absurd (cc)

May-Fits : (admin : Bool) (c : Call) (x : StoreData) → May admin false c → Fits c x
May-Fits admin (update_domain_call _ _) x m = absurd (cc)
May-Fits admin (create_tenant_call _ _) x m = tt
May-Fits admin (delete_tenant_call _ _) x m = tt
May-Fits admin (create_domain_call _ _) x m = tt
May-Fits admin (delete_domain_call _ _) x m = tt
May-Fits admin (create_rule_call _ _) x m = tt
May-Fits admin (delete_rule_call _ _) x m = tt
May-Fits admin (register_edge_call _ _ _ _) x m = tt
May-Fits admin (heartbeat_edge_call _ _) x m = tt
May-Fits admin (delete_edge_call _ _) x m = tt

auth-known :
    (next : HandlerFunc) (r : ApiRequest) (s : Server) (t : Tenant)
    → get_tenant_by_api_key (extract_api_key r) s.store ≡ some t
    → auth next r s ≡ next r s
unfolding auth
auth-known next r s t n = elim (Bool-cases (same (extract_api_key r) s.admin_key)) [
  | inl e ↦ rw (e, auth) refl
  | inr e ↦ rw (e, auth) (rw n refl)
]

delete_domain-lookup :
    (json : Json) (env : Env) (id : Text) (s : Store) (d : Domain)
    → lookup text_discrete id s.records.domains ≡ some d
    → lookup text_discrete id (delete_domain json env id s).0.records.domains ≡ none
unfolding delete_domain drop_domain
delete_domain-lookup json env id s d h =
    rw (h, delete_domain)
      (rw (save-records json env (record s { records = drop_domain id s.records }))
        (lookup-delete_self text_discrete id s.records.domains))

handle_domain-delete :
    (json : Json) (decoders : Decoders) (env : Env) (r : ApiRequest) (s : Server)
    → r.method ≡ delete_word
    → (handle_domain json decoders env r s).0.store
      ≡ (delete_domain json env (last_path_segment r.path) s.store).0
unfolding handle_domain same
handle_domain-delete json decoders env r s del = rw del (concluded-store 404 _ deleted _)

module _ (json : Json) (decoders : Decoders) (env : Env) where
  -- Without the administrator's key no request changes a tenant or an edge node.
  pub handle-Keeps :
      (r : ApiRequest) (s : Server)
      → same (extract_api_key r) s.admin_key ≡ false
      → Keeps s.store.records (handle json decoders env r s).0.store.records
  handle-Keeps r s e = elim (handle-Acts json decoders env r s) [
    | inl q ↦ rw q (refl, refl)
    | inr (c, m, q) ↦
        rw q (apply-Keeps json _ c s.store (subst (λ b. May b (same r.method put_word) c) e m))
  ]

  -- A request other than a PUT leads from a store that calls lead to to another one: the API never
  -- goes around the store's own operations.
  pub handle-Reachable :
      (r : ApiRequest) (s : Server)
      → same r.method put_word ≡ false
      → Reachable json s.store
      → Reachable json (handle json decoders env r s).0.store
  handle-Reachable r s e v = elim (handle-Acts json decoders env r s) [
    | inl q ↦ rw q v
    | inr (c, m, q) ↦ rw q (
        called s.store c v (
          May-Fits _ c s.store.records
            (subst (λ b. May (same (extract_api_key r) s.admin_key) b c) e m)))
  ]

  -- A DELETE on the route of a domain that is there, with the key of any tenant, takes the domain out
  -- of the store, whichever tenant it belongs to.
  pub any_tenant-deletes :
      (r : ApiRequest) (s : Server) (t : Tenant) (d : Domain)
      → route r.path ≡ domain_route
      → r.method ≡ delete_word
      → get_tenant_by_api_key (extract_api_key r) s.store ≡ some t
      → lookup text_discrete (last_path_segment r.path) s.store.records.domains ≡ some d
      → lookup text_discrete
          (last_path_segment r.path)
          (handle json decoders env r s).0.store.records.domains
        ≡ none
  unfolding handle dispatch
  any_tenant-deletes r s t d at_domain del known there = rw at_domain (
      rw (auth-known (handle_domain json decoders env) r s t known) (
        rw (handle_domain-delete json decoders env r s del)
          (delete_domain-lookup json env _ s.store d there)))
