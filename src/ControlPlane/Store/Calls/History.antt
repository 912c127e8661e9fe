-- ===== src/ControlPlane/Store/Calls/History.antt =====
-- What every store of controlplane/store/store.go satisfies, whether the writes of its file
-- succeed or not.
use mathlib.Core.List.{lookup}
use cdn_edge.Common.{◌≡◌, ◌≢◌, inl, inr, Option-cases, List, none, some, Text, text_discrete}
use cdn_edge.Common.Assoc.{delete}
use cdn_edge.ControlPlane.Tenant.{Domain, CacheRule, EdgeNode}
use cdn_edge.ControlPlane.Store.{
  StoreData, Store, Json, Env, find_by_hostname, get_tenant, new_tenant, new_domain, save_data,
  create_tenant, delete_tenant, create_domain, update_domain, delete_domain, create_cache_rule,
  delete_cache_rule, register_edge, heartbeat_edge, delete_edge,
}
use cdn_edge.ControlPlane.Store.Persistence.{save-records}
use cdn_edge.ControlPlane.Store.Integrity.{
  IsSound, insert_domain-IsSound, find_by_hostname-delete, insert_tenant-IsSound,
  insert_rule-IsSound, delete_rule-IsSound, drop_domain-IsSound,
}
use cdn_edge.ControlPlane.Store.TenantDeletion.{drop_tenant, drop_tenant-IsSound}
use cdn_edge.ControlPlane.Store.Calls.{
  Call, create_tenant_call, delete_tenant_call, create_domain_call, update_domain_call,
  delete_domain_call, create_rule_call, delete_rule_call, register_edge_call, heartbeat_edge_call,
  delete_edge_call, apply, Fits, Reachable, fresh, called,
}

module _ (json : Json) (env : Env) where
  save_data-IsSound :
      (r : StoreData) (s : Store) → IsSound r → IsSound (save_data json env r s).0.records
  save_data-IsSound r s v =
      rw (save-records json env (record s { records = r }))
        (record { owned = v.owned; attached = v.attached; unshared = v.unshared })

  create_tenant-IsSound :
      (name : Text) (s : Store)
      → IsSound s.records
      → IsSound (create_tenant json env name s).0.records
  unfolding create_tenant
  create_tenant-IsSound name s v =
      save_data-IsSound _ s (insert_tenant-IsSound env.gen_id (new_tenant env name) s.records v)

  create_domain-IsSound :
      (d : Domain) (s : Store) → IsSound s.records → IsSound (create_domain json env d s).0.records
  unfolding create_domain
  create_domain-IsSound d s v = elim (Option-cases (get_tenant d.tenant_id s)) [
    | inl n ↦ rw (n, create_domain) v
    | inr (t, h) ↦ elim (Option-cases (find_by_hostname d.hostname s.records.domains)) [
      | inr (e, taken) ↦ rw (h, taken, create_domain) v
      | inl free ↦
          rw (h, free, create_domain)
            (save_data-IsSound _ s (
              insert_domain-IsSound (new_domain env d).id (new_domain env d) s.records
                (unfold get_tenant new_domain in
                  (λ z. absurd (
                    let h' : lookup text_discrete d.tenant_id s.records.tenants ≡ some t = h in
                    cc)))
                (unfold new_domain in
                  find_by_hostname-delete d.hostname env.gen_id s.records.domains free)
                v))
    ]
  ]

  delete_tenant-IsSound :
      (id : Text) (s : Store) → IsSound s.records → IsSound (delete_tenant json env id s).0.records
  unfolding delete_tenant drop_tenant
  delete_tenant-IsSound id s v = elim (Option-cases (get_tenant id s)) [
    | inl n ↦ rw (n, delete_tenant) v
    | inr (t, h) ↦
        rw (h, delete_tenant) (save_data-IsSound _ s (drop_tenant-IsSound id s.records v).0)
  ]

  update_domain-IsSound :
      (d : Domain) (s : Store)
      → lookup text_discrete d.tenant_id s.records.tenants ≢ none
      → find_by_hostname d.hostname (delete text_discrete d.id s.records.domains) ≡ none
      → IsSound s.records
      → IsSound (update_domain json env d s).0.records
  unfolding update_domain
  update_domain-IsSound d s own free v =
      elim (Option-cases (lookup text_discrete d.id s.records.domains)) [
        | inl n ↦ rw (n, update_domain) v
        | inr (e, h) ↦
            rw (h, update_domain)
              (save_data-IsSound _ s (
                insert_domain-IsSound d.id (record d { updated_at = env.now }) s.records own free
                  v))
      ]

  delete_domain-IsSound :
      (id : Text) (s : Store) → IsSound s.records → IsSound (delete_domain json env id s).0.records
  unfolding delete_domain
  delete_domain-IsSound id s v = elim (Option-cases (lookup text_discrete id s.records.domains)) [
    | inl n ↦ rw (n, delete_domain) v
    | inr (e, h) ↦
        rw (h, delete_domain) (save_data-IsSound _ s (drop_domain-IsSound id s.records v))
  ]

  create_cache_rule-IsSound :
      (r : CacheRule) (s : Store)
      → IsSound s.records
      → IsSound (create_cache_rule json env r s).0.records
  unfolding create_cache_rule
  create_cache_rule-IsSound r s v =
      elim (Option-cases (lookup text_discrete r.domain_id s.records.domains)) [
        | inl n ↦ rw (n, create_cache_rule) v
        | inr (d, h) ↦
            rw (h, create_cache_rule)
              (save_data-IsSound _ s (
                insert_rule-IsSound env.gen_id (record r { id = env.gen_id }) s.records
                  (λ z. absurd (cc)) v))
      ]

  delete_cache_rule-IsSound :
      (id : Text) (s : Store)
      → IsSound s.records
      → IsSound (delete_cache_rule json env id s).0.records
  unfolding delete_cache_rule
  delete_cache_rule-IsSound id s v =
      elim (Option-cases (lookup text_discrete id s.records.cache_rules)) [
        | inl n ↦ rw (n, delete_cache_rule) v
        | inr (r, h) ↦
            rw (h, delete_cache_rule) (save_data-IsSound _ s (delete_rule-IsSound id s.records v))
      ]

  save_edges-IsSound :
      (edges : List (Text × EdgeNode)) (s : Store)
      → IsSound s.records
      → IsSound (save_data json env (record (s.records) { edge_nodes = edges }) s).0.records
  save_edges-IsSound edges s v =
      save_data-IsSound _ s
        (record { owned = v.owned; attached = v.attached; unshared = v.unshared })

  heartbeat_edge-IsSound :
      (id : Text) (s : Store) → IsSound s.records → IsSound (heartbeat_edge json env id s).0.records
  unfolding heartbeat_edge
  heartbeat_edge-IsSound id s v =
      elim (Option-cases (lookup text_discrete id s.records.edge_nodes)) [
        | inl n ↦ rw (n, heartbeat_edge) v
        | inr (e, h) ↦ rw (h, heartbeat_edge) (save_edges-IsSound _ s v)
      ]

apply-IsSound :
    (json : Json) (c : Call) (s : Store)
    → Fits c s.records
    → IsSound s.records
    → IsSound (apply json c s).0.records
unfolding apply create_tenant register_edge create_domain create_cache_rule delete_edge
apply-IsSound json (create_tenant_call env name) s f v = create_tenant-IsSound json env name s v
apply-IsSound json (delete_tenant_call env id) s f v = delete_tenant-IsSound json env id s v
apply-IsSound json (create_domain_call env d) s f v = create_domain-IsSound json env d s v
apply-IsSound json (update_domain_call env d) s f v = update_domain-IsSound json env d s f.0 f.1 v
apply-IsSound json (delete_domain_call env id) s f v = delete_domain-IsSound json env id s v
apply-IsSound json (create_rule_call env r) s f v = create_cache_rule-IsSound json env r s v
apply-IsSound json (delete_rule_call env id) s f v = delete_cache_rule-IsSound json env id s v
apply-IsSound json (register_edge_call env name addr region) s f v =
    save_edges-IsSound json env _ s v
apply-IsSound json (heartbeat_edge_call env id) s f v = heartbeat_edge-IsSound json env id s v
apply-IsSound json (delete_edge_call env id) s f v = save_edges-IsSound json env _ s v

-- In every store that calls lead to from a fresh one, each domain has its tenant, each rule has its
-- domain, and no two domains share a hostname, if each update of a domain names a tenant that is
-- there and no hostname of another domain.
pub Reachable-IsSound : (json : Json) (s : Store) → Reachable json s → IsSound s.records
Reachable-IsSound json _ fresh = record { owned = tt; attached = tt; unshared = tt }
Reachable-IsSound json _ (called s c r f) = apply-IsSound json c s f (Reachable-IsSound json s r)
