-- ===== src/ControlPlane/Api.antt =====
-- controlplane/api/api.go: the REST API over the store. A request is one call of `handle`. The body
-- is decoded by `encoding/json`, a parameter; the query is the parsed one, and the path is one that
-- the mux does not clean. `onConfigChange` runs in a goroutine: `notified` counts those started.
pub mod Routing
pub mod Effects
pub mod Access
pub mod Guards
mod Tests
use mathlib.Core.List.{lookup}
use cdn_edge.Common.{
  ℕ, suc, ◌+◌, Bool, true, false, not, ◌&&◌, ◌||◌, if◌then◌else◌, List, [], ◌∷◌, ◌++◌, Option, none,
  some, Text, codes, text_discrete, drop,
}
use cdn_edge.Common.Strings.{same, is_empty, has_prefix, trim_prefix, trim_end, last_index}
use cdn_edge.Common.Http.{Fields, header_get}
use cdn_edge.ControlPlane.Tenant.{Tenant, Domain, CacheRule, EdgeNode, EdgeConfig}
use cdn_edge.ControlPlane.Store.{
  Store, Json, Env, Error, tenant_not_found, domain_not_found, get_tenant, get_tenant_by_api_key,
  list_domains, list_cache_rules, create_tenant, delete_tenant, create_domain, update_domain,
  delete_domain, create_cache_rule, delete_cache_rule, register_edge, delete_edge,
}
use cdn_edge.ControlPlane.Store.Snapshot.{build_edge_config}

pub record ApiRequest : Type 0 where
  pub method : Text
  pub path : Text
  pub header : Fields
  pub query : List (Text × Text)
  pub body : Text

-- What `writeJSON` encodes.
pub data Payload : Type 0 where
  tenant_list : List Tenant → Payload
  one_tenant : Tenant → Payload
  domain_list : List Domain → Payload
  one_domain : Domain → Payload
  rule_list : List CacheRule → Payload
  one_rule : CacheRule → Payload
  edge_list : List EdgeNode → Payload
  one_edge : EdgeNode → Payload
  edge_config : EdgeConfig → Payload
  status_text : Text → Payload
  error_text : Text → Payload
  store_error : Error → Payload
  null : Payload

pub record ApiReply : Type 0 where
  pub status : ℕ
  pub payload : Payload

-- The fields for handlers of other packages.
pub data Socket : Type 0 where
  analytics_ingest analytics_query purge_handler certs_handler cert_handler : Socket

-- What has been handed to the wired handlers, in order. The state that they keep is a function of
-- that, and so is what they answer.
abbrev pub Handed : Type 0
Handed = List (Socket × ApiRequest)

-- A handler that is wired in, if one is.
abbrev pub Wired : Type 0
Wired = Option (Handed → ApiRequest → ApiReply)

pub record Server : Type 0 where
  pub store : Store
  pub admin_key : Text
  pub has_callback : Bool
  pub notified : ℕ
  pub wired : Socket → Wired
  pub handed : Handed

-- `json.NewDecoder(r.Body).Decode` of each of the bodies; `none` is an error.
pub record Decoders : Type 0 where
  pub decode_name : Text → Option Text
  pub decode_domain : Text → Option Domain
  pub decode_rule : Text → Option CacheRule
  pub decode_edge : Text → Option (Text × Text × Text)

abbrev pub get_word : Text
get_word = codes "GET"

abbrev pub post_word : Text
post_word = codes "POST"

abbrev pub put_word : Text
put_word = codes "PUT"

abbrev pub delete_word : Text
delete_word = codes "DELETE"

unfoldable pub write_json : ℕ → Payload → ApiReply
write_json status payload = record { status = status; payload = payload }

unfoldable pub method_not_allowed : ApiReply
method_not_allowed = write_json 405 (error_text (codes "method not allowed"))

abbrev pub unauthorized : ApiReply
unauthorized = write_json 401 (error_text (codes "unauthorized"))

-- `r.URL.Query().Get(key)`
unfoldable pub query_get : Text → List (Text × Text) → Text
query_get key query = elim (lookup text_discrete key query) [ none ↦ [] | some v ↦ v ]

unfoldable pub bearer_key : Text → ApiRequest → Text
bearer_key auth r = elim (trim_prefix (codes "Bearer ") auth) [
  | some key ↦ key
  | none ↦ query_get (codes "api_key") r.query
]

unfoldable pub extract_api_key : ApiRequest → Text
extract_api_key r =
    let key = header_get (codes "X-Api-Key") r.header in
    if not (is_empty key) then key else bearer_key (header_get (codes "Authorization") r.header) r

unfoldable pub last_path_segment : Text → Text
last_path_segment path =
    let trimmed = trim_end 47 path in
    elim (last_index 47 trimmed) [ none ↦ trimmed | some i ↦ drop (i + 1) trimmed ]

unfoldable pub values : {V : Type 0} → List (Text × V) → List V
values [] = []
values ((_, v) ∷ m) = v ∷ values m

unfoldable pub notify_config_change : Server → Server
notify_config_change s = if s.has_callback then record s { notified = suc s.notified } else s

-- The end of a handler that changes the configuration: an error with its status, or a notification
-- and the reply.
unfoldable pub concluded : ℕ → Option Error → ApiReply → Server → Server × ApiReply
concluded code (some e) reply s = (s, write_json code (store_error e))
concluded code none reply s = (notify_config_change s, reply)

-- The end of one that does not.
unfoldable pub answered : ℕ → Option Error → ApiReply → Server → Server × ApiReply
answered code (some e) reply s = (s, write_json code (store_error e))
answered code none reply s = (s, reply)

-- A request goes to the handler that is wired in, or gets a fixed reply.
unfoldable pub wired_or : Socket → ApiReply → ApiRequest → Server → Server × ApiReply
wired_or socket reply r s = elim (s.wired socket) [
  | none ↦ (s, reply)
  | some h ↦ (record s { handed = s.handed ++ (socket, r) ∷ [] }, h s.handed r)
]

abbrev pub deleted : ApiReply
deleted = write_json 200 (status_text (codes "deleted"))

abbrev pub bad_request : Text → ApiReply
bad_request message = write_json 400 (error_text message)

-- The reply with the domain or the rule that was created; a nil pointer is encoded as null.
abbrev pub created_domain : Option Domain → ApiReply
created_domain (some d) = write_json 201 (one_domain d)
created_domain none = write_json 201 null

abbrev pub created_rule : Option CacheRule → ApiReply
created_rule (some r) = write_json 201 (one_rule r)
created_rule none = write_json 201 null

module _ (json : Json) (decoders : Decoders) (env : Env) where
  unfoldable pub post_tenant : Text → Server → Server × ApiReply
  post_tenant name s =
      if is_empty name
      then (s, bad_request (codes "name is required"))
      else (let (store, (t, err)) = create_tenant json env name s.store in
          answered 500 err (write_json 201 (one_tenant t)) (record s { store = store }))

  unfoldable pub handle_tenants : ApiRequest → Server → Server × ApiReply
  handle_tenants r s =
      if same r.method get_word
      then (s, write_json 200 (tenant_list (values s.store.records.tenants)))
      else if same r.method post_word
      then (elim (decoders.decode_name r.body) [
        | none ↦ (s, bad_request (codes "name is required"))
        | some name ↦ post_tenant name s
      ])
      else (s, method_not_allowed)

  unfoldable pub handle_tenant : ApiRequest → Server → Server × ApiReply
  handle_tenant r s =
      let id = last_path_segment r.path in
      if same r.method get_word
      then (
        s,
        (elim (get_tenant id s.store) [
          | none ↦ write_json 404 (store_error (tenant_not_found id))
          | some t ↦ write_json 200 (one_tenant t)
        ]),
      )
      else if same r.method delete_word
      then (let (store, err) = delete_tenant json env id s.store in
          concluded 404 err deleted (record s { store = store }))
      else (s, method_not_allowed)

  unfoldable pub post_domain : Domain → Server → Server × ApiReply
  post_domain d s =
      if is_empty d.hostname || is_empty d.origin_url || is_empty d.tenant_id
      then (s, bad_request (codes "hostname, origin_url, and tenant_id are required"))
      else (let (store, (made, err)) = create_domain json env d s.store in
          concluded 400 err (created_domain made) (record s { store = store }))

  unfoldable pub handle_domains : ApiRequest → Server → Server × ApiReply
  handle_domains r s =
      if same r.method get_word
      then (let tenant_id = query_get (codes "tenant_id") r.query in
          (s, write_json 200 (domain_list (list_domains tenant_id s.store.records.domains))))
      else if same r.method post_word
      then (elim (decoders.decode_domain r.body) [
        | none ↦ (s, bad_request (codes "invalid JSON"))
        | some d ↦ post_domain d s
      ])
      else (s, method_not_allowed)

  unfoldable pub put_domain : Text → Domain → Server → Server × ApiReply
  put_domain id d s =
      let d' : Domain = record d { id = id } in
      let (store, err) = update_domain json env d' s.store in
      concluded 400 err (write_json 200 (one_domain (stamped d'))) (record s { store = store })
    where
      stamped : Domain → Domain
      stamped d = record d { updated_at = env.now }

  unfoldable pub handle_domain : ApiRequest → Server → Server × ApiReply
  handle_domain r s =
      let id = last_path_segment r.path in
      if same r.method get_word
      then (
        s,
        (elim (lookup text_discrete id s.store.records.domains) [
          | none ↦ write_json 404 (store_error (domain_not_found id))
          | some d ↦ write_json 200 (one_domain d)
        ]),
      )
      else if same r.method put_word
      then (elim (decoders.decode_domain r.body) [
        | none ↦ (s, bad_request (codes "invalid JSON"))
        | some d ↦ put_domain id d s
      ])
      else if same r.method delete_word
      then (let (store, err) = delete_domain json env id s.store in
          concluded 404 err deleted (record s { store = store }))
      else (s, method_not_allowed)

  unfoldable pub post_rule : CacheRule → Server → Server × ApiReply
  post_rule rule s =
      let (store, (made, err)) = create_cache_rule json env rule s.store in
      concluded 400 err (created_rule made) (record s { store = store })

  unfoldable pub handle_rules : ApiRequest → Server → Server × ApiReply
  handle_rules r s =
      if same r.method get_word
      then (let domain_id = query_get (codes "domain_id") r.query in
          (s, write_json 200 (rule_list (list_cache_rules domain_id s.store.records.cache_rules))))
      else if same r.method post_word
      then (elim (decoders.decode_rule r.body) [
        | none ↦ (s, bad_request (codes "invalid JSON"))
        | some rule ↦ post_rule rule s
      ])
      else (s, method_not_allowed)

  unfoldable pub handle_rule : ApiRequest → Server → Server × ApiReply
  handle_rule r s =
      if same r.method delete_word
      then (let (store, err) = delete_cache_rule json env (last_path_segment r.path) s.store in
          concluded 404 err deleted (record s { store = store }))
      else (s, method_not_allowed)

  unfoldable pub post_edge : Text × Text × Text → Server → Server × ApiReply
  post_edge (name, addr, region) s =
      let (store, (node, err)) = register_edge json env name addr region s.store in
      answered 500 err (write_json 201 (one_edge node)) (record s { store = store })

  unfoldable pub handle_edges : ApiRequest → Server → Server × ApiReply
  handle_edges r s =
      if same r.method get_word
      then (s, write_json 200 (edge_list (values s.store.records.edge_nodes)))
      else if same r.method post_word
      then (elim (decoders.decode_edge r.body) [
        | none ↦ (s, bad_request (codes "invalid JSON"))
        | some e ↦ post_edge e s
      ])
      else (s, method_not_allowed)

  unfoldable pub handle_edge : ApiRequest → Server → Server × ApiReply
  handle_edge r s =
      if same r.method delete_word
      then (let (store, err) = delete_edge json env (last_path_segment r.path) s.store in
          answered 404 err deleted (record s { store = store }))
      else (s, method_not_allowed)
