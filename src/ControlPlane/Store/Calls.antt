-- ===== src/ControlPlane/Store/Calls.antt =====
-- The mutations of controlplane/store/store.go as calls, and the stores that they lead to.
pub mod History
use mathlib.Core.List.{lookup}
use cdn_edge.Common.{◌≡◌, ◌≢◌, Option, none, some, Text, text_discrete}
use cdn_edge.Common.Assoc.{delete}
use cdn_edge.ControlPlane.Tenant.{Domain, CacheRule}
use cdn_edge.ControlPlane.Store.{
  StoreData, Store, Json, Env, Error, empty_data, find_by_hostname, create_tenant, delete_tenant,
  create_domain, update_domain, delete_domain, create_cache_rule, delete_cache_rule, register_edge,
  heartbeat_edge, delete_edge,
}

pub data Call : Type 0 where
  create_tenant_call : Env → Text → Call
  delete_tenant_call : Env → Text → Call
  create_domain_call : Env → Domain → Call
  update_domain_call : Env → Domain → Call
  delete_domain_call : Env → Text → Call
  create_rule_call : Env → CacheRule → Call
  delete_rule_call : Env → Text → Call
  register_edge_call : Env → Text → Text → Text → Call
  heartbeat_edge_call : Env → Text → Call
  delete_edge_call : Env → Text → Call

-- The store after a call, and the error of the call.
unfoldable pub apply : Json → Call → Store → Store × Option Error
apply json (create_tenant_call env name) s =
    let (s', r) = create_tenant json env name s in (s', r.1)
apply json (delete_tenant_call env id) s = delete_tenant json env id s
apply json (create_domain_call env d) s = let (s', r) = create_domain json env d s in (s', r.1)
apply json (update_domain_call env d) s = update_domain json env d s
apply json (delete_domain_call env id) s = delete_domain json env id s
apply json (create_rule_call env r) s = let (s', r') = create_cache_rule json env r s in (s', r'.1)
apply json (delete_rule_call env id) s = delete_cache_rule json env id s
apply json (register_edge_call env name addr region) s =
    let (s', r) = register_edge json env name addr region s in (s', r.1)
apply json (heartbeat_edge_call env id) s = heartbeat_edge json env id s
apply json (delete_edge_call env id) s = delete_edge json env id s

-- What `UpdateDomain` does not check, and `CreateDomain` does: the tenant is there, and no other
-- domain has the hostname.
abbrev pub Fits : Call → StoreData → Type 0
Fits (update_domain_call env d) r =
    (lookup text_discrete d.tenant_id r.tenants ≢ none)
    × (find_by_hostname d.hostname (delete text_discrete d.id r.domains) ≡ none)
Fits (create_tenant_call _ _) r = Unit {0}
Fits (delete_tenant_call _ _) r = Unit {0}
Fits (create_domain_call _ _) r = Unit {0}
Fits (delete_domain_call _ _) r = Unit {0}
Fits (create_rule_call _ _) r = Unit {0}
Fits (delete_rule_call _ _) r = Unit {0}
Fits (register_edge_call _ _ _ _) r = Unit {0}
Fits (heartbeat_edge_call _ _) r = Unit {0}
Fits (delete_edge_call _ _) r = Unit {0}

-- The stores that calls lead to from a fresh one.
pub data Reachable (json : Json) : Store → Type 0 where
  fresh : Reachable json (record { records = empty_data; file = none })
  called :
      (s : Store) (c : Call)
      → Reachable json s
      → Fits c s.records
      → Reachable json (apply json c s).0
