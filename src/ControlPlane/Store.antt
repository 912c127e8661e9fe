-- ===== src/ControlPlane/Store.antt =====
-- controlplane/store/store.go: tenants, domains, cache rules and edge nodes, in memory and in one
-- file. The mutex makes each method one step. Callers hand over objects that they do not keep,
-- and do not write to those that they get, so that the maps hold values. A map is an association
-- list in the order in which `range` goes through it. The version, an int64, does not wrap; a
-- file without one of the maps is not modelled. JSON is a parameter.
pub mod Entries
pub mod Integrity
pub mod TenantDeletion
pub mod Calls
pub mod Conflict
pub mod Persistence
pub mod Snapshot
mod Tests
use mathlib.Core.List.{lookup}
use cdn_edge.Common.{
  ℕ, zero, suc, ◌+◌, ◌==◌, Bool, true, false, ◌&&◌, if◌then◌else◌, ite, List, [], ◌∷◌, ◌++◌, Option,
  none, some, Text, text_discrete, length, codes,
}
use cdn_edge.Common.Assoc.{insert, delete}
use cdn_edge.Common.Int.{ℤ, pos}
use cdn_edge.ControlPlane.Tenant.{Tenant, Domain, CacheRule, EdgeNode, EdgeConfig}

pub record StoreData : Type 0 where
  pub version : ℕ
  pub tenants : List (Text × Tenant)
  pub domains : List (Text × Domain)
  pub cache_rules : List (Text × CacheRule)
  pub edge_nodes : List (Text × EdgeNode)

-- `file` is the content of store.json, if that exists.
pub record Store : Type 0 where
  pub records : StoreData
  pub file : Option Text

-- `json.MarshalIndent` and `json.Unmarshal`.
pub record Json : Type 0 where
  pub encode : StoreData → Option Text
  pub decode : Text → Option StoreData

-- What a call meets: the time, the random identifiers, and what a failed write leaves of the
-- file, `none` if the write succeeds.
pub record Env : Type 0 where
  pub now : ℤ
  pub gen_id : Text
  pub gen_api_key : Text
  pub failed_write : Option (Option Text)

pub data Error : Type 0 where
  tenant_not_found domain_not_found rule_not_found edge_not_found : Text → Error
  hostname_taken : Text → Error
  invalid_api_key marshal_failed write_failed : Error

abbrev pub empty_data : StoreData
empty_data = record { version = 0; tenants = []; domains = []; cache_rules = []; edge_nodes = [] }

module _ (json : Json) where
  -- `load`, on a file that can be read if it exists; `none` is the error of a file that is not
  -- JSON.
  pub load : Option Text → Option StoreData
  load none = some empty_data
  load (some raw) = json.decode raw

  -- `New`, in a directory that is there.
  pub new_store : Option Text → Option Store
  unfolding load
  new_store file = elim (load file) [
    | none ↦ none
    | some records ↦ some (record { records = records; file = file })
  ]

  pub save : Env → Store → Store × Option Error
  save env s =
      let records : StoreData = record (s.records) { version = s.records.version + 1 } in
      elim (json.encode records) [
        | none ↦ (record s { records = records }, some marshal_failed)
        | some raw ↦ elim env.failed_write [
          | none ↦ (record { records = records; file = some raw }, none)
          | some left ↦ (record { records = records; file = left }, some write_failed)
        ]
      ]

  -- The last statement of each mutation, with the maps as it has changed them.
  abbrev pub save_data : Env → StoreData → Store → Store × Option Error
  save_data env records s = save env (record s { records = records })

abbrev pub new_tenant : Env → Text → Tenant
new_tenant env name = record {
  id = env.gen_id;
  name = name;
  created_at = env.now;
  updated_at = env.now;
  active = true;
  api_key = env.gen_api_key;
}

pub get_tenant : Text → Store → Option Tenant
get_tenant id s = lookup text_discrete id s.records.tenants

-- The rules that the loops over `CacheRules` leave.
pub delete_rules_of : Text → List (Text × CacheRule) → List (Text × CacheRule)
delete_rules_of domain_id [] = []
delete_rules_of domain_id ((k, r) ∷ rs) =
    let rest = delete_rules_of domain_id rs in
    ite (text_discrete r.domain_id domain_id) rest ((k, r) ∷ rest)

unfoldable pub drop_domain : Text → StoreData → StoreData
unfolding delete_rules_of
drop_domain id records = record records {
  cache_rules = delete_rules_of id records.cache_rules;
  domains = delete text_discrete id records.domains;
}

-- The loop of `DeleteTenant` over the domains.
pub drop_domains_of : Text → List (Text × Domain) → StoreData → StoreData
unfolding drop_domain
drop_domains_of tenant_id [] records = records
drop_domains_of tenant_id ((k, d) ∷ ds) records =
    drop_domains_of tenant_id ds
      (ite (text_discrete d.tenant_id tenant_id) (drop_domain k records) records)

unfoldable pub find_by_api_key : Text → List (Text × Tenant) → Option Tenant
find_by_api_key key [] = none
find_by_api_key key ((_, t) ∷ ts) =
    ite (text_discrete t.api_key key) (some t) (find_by_api_key key ts)

unfoldable pub get_tenant_by_api_key : Text → Store → Option Tenant
unfolding find_by_api_key
get_tenant_by_api_key key s = find_by_api_key key s.records.tenants

pub find_by_hostname : Text → List (Text × Domain) → Option Domain
find_by_hostname hostname [] = none
find_by_hostname hostname ((_, d) ∷ ds) =
    ite (text_discrete d.hostname hostname) (some d) (find_by_hostname hostname ds)

pub get_domain_by_hostname : Text → Store → Option Domain
unfolding find_by_hostname
get_domain_by_hostname hostname s = find_by_hostname hostname s.records.domains

pub list_domains : Text → List (Text × Domain) → List Domain
list_domains tenant_id [] = []
list_domains tenant_id ((_, d) ∷ ds) =
    let rest = list_domains tenant_id ds in
    if length tenant_id == 0
    then d ∷ rest
    else ite (text_discrete d.tenant_id tenant_id) (d ∷ rest) rest

pub list_cache_rules : Text → List (Text × CacheRule) → List CacheRule
list_cache_rules domain_id [] = []
list_cache_rules domain_id ((_, r) ∷ rs) =
    let rest = list_cache_rules domain_id rs in
    ite (text_discrete r.domain_id domain_id) (r ∷ rest) rest

-- What `CreateDomain` makes of the domain that it gets.
pub new_domain : Env → Domain → Domain
new_domain env d = record d {
  id = env.gen_id;
  created_at = env.now;
  updated_at = env.now;
  default_ttl_sec = default_ttl d.default_ttl_sec;
  tls_mode = if length d.tls_mode == 0 then codes "managed" else d.tls_mode;
  active = true;
}
  where
    default_ttl : ℤ → ℤ
    default_ttl (pos zero) = pos 300
    default_ttl z = z

module _ (json : Json) (env : Env) where
  unfoldable pub create_tenant : Text → Store → Store × (Tenant × Option Error)
  create_tenant name s =
      let t = new_tenant env name in
      let (s', err) =
        save_data json env
          (record (s.records) { tenants = insert text_discrete t.id t s.records.tenants }) s in
      (s', (t, err))

  unfoldable pub delete_tenant : Text → Store → Store × Option Error
  unfolding drop_domains_of
  delete_tenant id s = elim (get_tenant id s) [
    | none ↦ (s, some (tenant_not_found id))
    | some t ↦
        let records = drop_domains_of id s.records.domains s.records in
        save_data json env (record records { tenants = delete text_discrete id records.tenants }) s
  ]

  unfoldable pub create_domain : Domain → Store → Store × (Option Domain × Option Error)
  create_domain d s = elim (get_tenant d.tenant_id s) [
    | none ↦ (s, (none, some (tenant_not_found d.tenant_id)))
    | some t ↦ elim (find_by_hostname d.hostname s.records.domains) [
      | some existing ↦ (s, (none, some (hostname_taken d.hostname)))
      | none ↦
          let d' = new_domain env d in
          let (s', err) =
            save_data json env
              (record (s.records) { domains = insert text_discrete d'.id d' s.records.domains })
              s in
          (s', (some d', err))
    ]
  ]

  unfoldable pub update_domain : Domain → Store → Store × Option Error
  update_domain d s = elim (lookup text_discrete d.id s.records.domains) [
    | none ↦ (s, some (domain_not_found d.id))
    | some _ ↦
        let d' : Domain = record d { updated_at = env.now } in
        save_data json env
          (record (s.records) { domains = insert text_discrete d.id d' s.records.domains }) s
  ]

  unfoldable pub delete_domain : Text → Store → Store × Option Error
  unfolding drop_domain
  delete_domain id s = elim (lookup text_discrete id s.records.domains) [
    | none ↦ (s, some (domain_not_found id))
    | some _ ↦ save_data json env (drop_domain id s.records) s
  ]

  unfoldable pub create_cache_rule : CacheRule → Store → Store × (Option CacheRule × Option Error)
  create_cache_rule r s = elim (lookup text_discrete r.domain_id s.records.domains) [
    | none ↦ (s, (none, some (domain_not_found r.domain_id)))
    | some _ ↦
        let r' : CacheRule = record r { id = env.gen_id } in
        let (s', err) =
          save_data json env
            (record (s.records) {
              cache_rules = insert text_discrete r'.id r' s.records.cache_rules;
            })
            s in
        (s', (some r', err))
  ]

  unfoldable pub delete_cache_rule : Text → Store → Store × Option Error
  delete_cache_rule id s = elim (lookup text_discrete id s.records.cache_rules) [
    | none ↦ (s, some (rule_not_found id))
    | some _ ↦
        save_data json env
          (record (s.records) { cache_rules = delete text_discrete id s.records.cache_rules }) s
  ]

  unfoldable pub register_edge : Text → Text → Text → Store → Store × (EdgeNode × Option Error)
  register_edge name addr region s =
      let node : EdgeNode = record {
        id = env.gen_id;
        name = name;
        addr = addr;
        region = region;
        last_seen = env.now;
        active = true;
      } in
      let (s', err) =
        save_data json env
          (record (s.records) {
            edge_nodes = insert text_discrete node.id node s.records.edge_nodes;
          })
          s in
      (s', (node, err))

  unfoldable pub heartbeat_edge : Text → Store → Store × Option Error
  heartbeat_edge id s = elim (lookup text_discrete id s.records.edge_nodes) [
    | none ↦ (s, some (edge_not_found id))
    | some n ↦
        let n' : EdgeNode = record n { last_seen = env.now } in
        save_data json env
          (record (s.records) { edge_nodes = insert text_discrete id n' s.records.edge_nodes }) s
  ]

  unfoldable pub delete_edge : Text → Store → Store × Option Error
  delete_edge id s =
      save_data json env
        (record (s.records) { edge_nodes = delete text_discrete id s.records.edge_nodes }) s
