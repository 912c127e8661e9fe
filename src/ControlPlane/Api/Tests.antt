-- ===== src/ControlPlane/Api/Tests.antt =====
-- Requests to controlplane/api/api.go at a concrete server.
use mathlib.Core.List.{lookup}
use cdn_edge.Common.{◌≡◌, refl, if_pos, true, [], ◌∷◌, none, some, Text, codes, text_discrete}
use cdn_edge.Common.Int.{pos}
use cdn_edge.Common.Strings.{same, has_prefix, trim_end, last_index}
use cdn_edge.Common.Assoc.{insert, delete, lookup-insert_self}
use cdn_edge.Common.Http.{header_get}
use cdn_edge.ControlPlane.Tenant.{Tenant, Domain}
use cdn_edge.ControlPlane.Store.{Store, Json, Env, get_tenant_by_api_key, find_by_api_key}
use cdn_edge.ControlPlane.Api.Effects.{May, Acts}
use cdn_edge.ControlPlane.Api.Access.{handle-Acts}
use cdn_edge.ControlPlane.Api.Guards.{any_tenant-deletes}
use cdn_edge.ControlPlane.Api.Routing.{route, domain_route, handle}
use cdn_edge.ControlPlane.Api.{
  ApiRequest, Server, Decoders, extract_api_key, last_path_segment, put_word,
}

abbrev plain_json : Json
plain_json = record { encode = λ _. some []; decode = λ _. none }

abbrev no_decoders : Decoders
no_decoders = record {
  decode_name = λ _. none;
  decode_domain = λ _. none;
  decode_rule = λ _. none;
  decode_edge = λ _. none;
}

abbrev some_env : Env
some_env = record { now = pos 9; gen_id = codes "n"; gen_api_key = codes "k"; failed_write = none }

abbrev first_tenant : Tenant
first_tenant = record {
  id = codes "t1";
  name = codes "first";
  created_at = pos 1;
  updated_at = pos 1;
  active = true;
  api_key = codes "key1";
}

-- The domain of another tenant.
abbrev foreign_domain : Domain
foreign_domain = record {
  id = codes "d2";
  tenant_id = codes "t2";
  hostname = codes "b.test";
  origin_url = codes "http://o.test";
  origin_host = [];
  default_ttl_sec = pos 300;
  respect_origin_headers = true;
  tls_mode = codes "managed";
  settings = [];
  active = true;
  created_at = pos 2;
  updated_at = pos 2;
}

abbrev small_store : Store
small_store = record {
  records = record {
    version = 2;
    tenants = (codes "t1", first_tenant) ∷ [];
    domains = (codes "d2", foreign_domain) ∷ [];
    cache_rules = [];
    edge_nodes = [];
  };
  file = none;
}

abbrev server : Server
server = record {
  store = small_store;
  admin_key = codes "root";
  has_callback = true;
  notified = 0;
  wired = λ _. none;
  handed = [];
}

-- DELETE of a domain, with a key.
abbrev deletion : Text → ApiRequest
deletion key = record {
  method = codes "DELETE";
  path = codes "/api/v1/domains/d2";
  header = (codes "X-Api-Key", key ∷ []) ∷ [];
  query = [];
  body = [];
}

key_one : extract_api_key (deletion (codes "key1")) ≡ codes "key1"
unfolding extract_api_key header_get same
key_one = refl

at_domain : route (codes "/api/v1/domains/d2") ≡ domain_route
unfolding route same has_prefix
at_domain = refl

segment : last_path_segment (codes "/api/v1/domains/d2") ≡ codes "d2"
unfolding last_path_segment trim_end last_index
segment = refl

known_key : get_tenant_by_api_key (codes "key1") small_store ≡ some first_tenant
unfolding get_tenant_by_api_key find_by_api_key
known_key = if_pos (text_discrete first_tenant.api_key (codes "key1")) refl _ _

present :
    lookup {B = Domain} text_discrete (codes "d2") small_store.records.domains ≡ some foreign_domain
unfolding insert delete
present = lookup-insert_self text_discrete (codes "d2") foreign_domain []

handle-Acts_example :
    Acts plain_json
      (May
        (same (extract_api_key (deletion (codes "key1"))) (codes "root"))
        (same (codes "DELETE") put_word))
      small_store
      (handle plain_json no_decoders some_env (deletion (codes "key1")) server).0.store
handle-Acts_example = handle-Acts plain_json no_decoders some_env (deletion (codes "key1")) server

any_tenant-deletes_example :
    lookup text_discrete
      (last_path_segment (codes "/api/v1/domains/d2"))
      (handle plain_json no_decoders some_env
        (deletion (codes "key1"))
        server).0.store.records.domains
    ≡ none
any_tenant-deletes_example =
    any_tenant-deletes plain_json no_decoders some_env (deletion (codes "key1")) server first_tenant
      foreign_domain at_domain refl (rw key_one known_key) (rw segment present)
