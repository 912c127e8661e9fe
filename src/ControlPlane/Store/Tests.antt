-- ===== src/ControlPlane/Store/Tests.antt =====
-- The store of controlplane/store/store.go at concrete inputs.
use mathlib.Core.List.{lookup}
use cdn_edge.Common.{
  ℕ, ◌≡◌, ◌↔◌, ap, get_or, arith, if_pos, if_neg, refl, sym, ◌∙◌, Bool, true, false, List, [], ◌∷◌,
  none, some, Text, text_discrete,
}
use cdn_edge.Common.Format.{
  Format, number, both, items, as_format, int, text, read_whole, whole_law,
}
use cdn_edge.Common.Int.{pos}
use cdn_edge.ControlPlane.Tenant.{Tenant, Domain, CacheRule, EdgeNode}
use cdn_edge.ControlPlane.Store.{
  StoreData, Store, Json, Env, empty_data, new_tenant, new_store, save, update_domain,
}
use cdn_edge.ControlPlane.Store.Snapshot.{build_edge_config}
use cdn_edge.ControlPlane.Store.Persistence.{IsFaithful, new_store-save}
use cdn_edge.ControlPlane.Store.Integrity.{IsSound}
use cdn_edge.ControlPlane.Store.Calls.{
  create_tenant_call, create_domain_call, Reachable, fresh, called, apply,
}
use cdn_edge.ControlPlane.Store.Calls.History.{Reachable-IsSound}
use cdn_edge.ControlPlane.Store.Snapshot.Edge.{Holds, Served, build_edge_config-lookup_iff}
use cdn_edge.ControlPlane.Store.Conflict.{updated, update_domain-conflict}

abbrev bool_of : List ℕ → Bool
bool_of [] = false
bool_of (_ ∷ _) = true

abbrev of_bool : Bool → List ℕ
of_bool false = []
of_bool true = 1 ∷ []

bool_same : (b : Bool) → bool_of (of_bool b) ≡ b
bool_same true = refl
bool_same false = refl

bool : Format Bool
bool = as_format (items number) bool_of of_bool bool_same

tenant : Format Tenant
tenant =
    as_format (both (both text text) (both (both int int) (both bool text)))
      (λ x. record {
        id = x.0.0;
        name = x.0.1;
        created_at = x.1.0.0;
        updated_at = x.1.0.1;
        active = x.1.1.0;
        api_key = x.1.1.1;
      })
      (λ t. ((t.id, t.name), ((t.created_at, t.updated_at), (t.active, t.api_key)))) (λ t. refl)

domain : Format Domain
domain =
    as_format
      (both (both text (both text text)) (
        both (both int (both text (both text (both text (both text bool)))))
          (both bool (both int int))))
      (λ x. record {
        id = x.0.0;
        tenant_id = x.0.1.0;
        hostname = x.0.1.1;
        default_ttl_sec = x.1.0.0;
        tls_mode = x.1.0.1.0;
        settings = x.1.0.1.1.0;
        origin_url = x.1.0.1.1.1.0;
        origin_host = x.1.0.1.1.1.1.0;
        respect_origin_headers = x.1.0.1.1.1.1.1;
        active = x.1.1.0;
        created_at = x.1.1.1.0;
        updated_at = x.1.1.1.1;
      })
      (λ d. (
        (d.id, (d.tenant_id, d.hostname)),
        (
          (
            d.default_ttl_sec,
            (d.tls_mode, (d.settings, (d.origin_url, (d.origin_host, d.respect_origin_headers)))),
          ),
          (d.active, (d.created_at, d.updated_at)),
        ),
      ))
      (λ d. refl)

rule : Format CacheRule
rule =
    as_format (both (both text text) (both text (both int bool)))
      (λ x. record {
        id = x.0.0;
        domain_id = x.0.1;
        path_glob = x.1.0;
        ttl_sec = x.1.1.0;
        bypass = x.1.1.1;
      })
      (λ r. ((r.id, r.domain_id), (r.path_glob, (r.ttl_sec, r.bypass)))) (λ r. refl)

node : Format EdgeNode
node =
    as_format (both (both text text) (both (both text text) (both int bool)))
      (λ x. record {
        id = x.0.0;
        name = x.0.1;
        addr = x.1.0.0;
        region = x.1.0.1;
        last_seen = x.1.1.0;
        active = x.1.1.1;
      })
      (λ n. ((n.id, n.name), ((n.addr, n.region), (n.last_seen, n.active)))) (λ n. refl)

store_data : Format StoreData
store_data =
    as_format
      (both number (
        both (both (items (both text tenant)) (items (both text domain)))
          (both (items (both text rule)) (items (both text node)))))
      (λ x. record {
        version = x.0;
        tenants = x.1.0.0;
        domains = x.1.0.1;
        cache_rules = x.1.1.0;
        edge_nodes = x.1.1.1;
      })
      (λ r. (r.version, ((r.tenants, r.domains), (r.cache_rules, r.edge_nodes)))) (λ r. refl)

abbrev toy_json : Json
toy_json = record { encode = λ r. some (store_data.write r []); decode = read_whole store_data }

toy_json-IsFaithful : IsFaithful toy_json
toy_json-IsFaithful r raw e =
    let p : store_data.write r [] ≡ raw = cc in rw (← p) (whole_law store_data r)

abbrev env_at : Text → Env
env_at id = record { now = pos 7; gen_id = id; gen_api_key = 107 ∷ []; failed_write = none }

abbrev fresh_store : Store
fresh_store = record { records = empty_data; file = none }

abbrev tenant_store : Store
tenant_store = (apply toy_json (create_tenant_call (env_at (1 ∷ [])) (116 ∷ [])) fresh_store).0

abbrev site : Domain
site = record {
  id = [];
  tenant_id = 1 ∷ [];
  hostname = 104 ∷ [];
  default_ttl_sec = pos 0;
  tls_mode = [];
  settings = [];
  origin_url = [];
  origin_host = [];
  respect_origin_headers = false;
  active = false;
  created_at = pos 0;
  updated_at = pos 0;
}

abbrev one_domain : Store
one_domain = (apply toy_json (create_domain_call (env_at (2 ∷ [])) site) tenant_store).0

one_domain-Reachable : Reachable toy_json one_domain
one_domain-Reachable = called _ _ (called _ _ fresh tt) tt

Reachable-IsSound_example : IsSound one_domain.records
Reachable-IsSound_example = Reachable-IsSound toy_json one_domain one_domain-Reachable

new_store-save_example :
    new_store toy_json (save toy_json (env_at []) one_domain).0.file
    ≡ some (save toy_json (env_at []) one_domain).0
unfolding save
new_store-save_example = new_store-save toy_json (env_at []) one_domain toy_json-IsFaithful refl

build_edge_config-lookup_iff_example :
    (lookup text_discrete (104 ∷ []) (build_edge_config (pos 9) one_domain).domains ≡ some site) ↔ (
      (site.hostname ≡ 104 ∷ [])
      × Served one_domain.records.tenants site
      × Holds site one_domain.records.domains)
build_edge_config-lookup_iff_example =
    build_edge_config-lookup_iff (pos 9) one_domain (104 ∷ []) site
      (Reachable-IsSound toy_json one_domain one_domain-Reachable)

abbrev first_site : Domain
first_site = record site { id = 2 ∷ [] }

abbrev second_site : Domain
second_site = record site { id = 3 ∷ []; hostname = 105 ∷ [] }

abbrev two_domains : Store
two_domains = record {
  records = record empty_data {
    tenants = (1 ∷ [], new_tenant (env_at (1 ∷ [])) (116 ∷ [])) ∷ [];
    domains = (2 ∷ [], first_site) ∷ (3 ∷ [], second_site) ∷ [];
  };
  file = none;
}

-- The first site, under the hostname of the second.
abbrev moved_site : Domain
moved_site = record first_site { hostname = 105 ∷ [] }

first-present : lookup text_discrete (2 ∷ []) two_domains.records.domains ≡ some first_site
unfolding lookup
first-present = if_pos (text_discrete (2 ∷ []) (2 ∷ [])) refl _ _

second-present : lookup text_discrete (3 ∷ []) two_domains.records.domains ≡ some second_site
unfolding lookup
second-present =
    if_neg (text_discrete (3 ∷ []) (2 ∷ [])) (λ e. absurd (cc)) _ _
    ∙ if_pos (text_discrete (3 ∷ []) (3 ∷ [])) refl _ _

owner-present :
    lookup text_discrete (1 ∷ []) two_domains.records.tenants
    ≡ some (new_tenant (env_at (1 ∷ [])) (116 ∷ []))
unfolding lookup
owner-present = if_pos (text_discrete (1 ∷ []) (1 ∷ [])) refl _ _

two_domains-IsSound : IsSound two_domains.records
two_domains-IsSound = record {
  owned = (
    (λ n. absurd (let e = owner-present in cc)),
    ((λ n. absurd (let e = owner-present in cc)), tt),
  );
  attached = tt;
  unshared =
      (((λ e. let q : 105 ≡ 104 = ap (λ l. get_or l 0 0) e in absurd (omega arith)), tt), (tt, tt));
}

update_domain-conflict_example :
    let (s', err) = update_domain toy_json (env_at []) moved_site two_domains in
    (err ≡ none)
    × (lookup text_discrete (2 ∷ []) s'.records.domains ≡ some (updated (env_at []) moved_site))
    × (lookup text_discrete (3 ∷ []) s'.records.domains ≡ some second_site)
    × ¬ (IsSound s'.records)
update_domain-conflict_example =
    update_domain-conflict toy_json (env_at []) moved_site second_site (3 ∷ []) _ two_domains
      two_domains-IsSound
      (λ n. absurd (let z : some first_site ≡ none = sym first-present ∙ n in cc)) second-present
      (λ e. absurd (cc)) refl refl refl
