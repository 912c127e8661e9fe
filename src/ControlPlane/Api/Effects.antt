-- ===== src/ControlPlane/Api/Effects.antt =====
-- The handlers of controlplane/api/api.go change the store by calls of it.
use cdn_edge.Common.{
  ℕ, ◌≡◌, refl, Bool, true, false, ◌||◌, ◌⊎◌, inl, inr, Bool-cases, Option-cases, if◌then◌else◌, [],
  ◌∷◌, ◌++◌, Option, none, some, Text,
}
use cdn_edge.Common.Strings.{same, is_empty}
use cdn_edge.ControlPlane.Tenant.{Domain, CacheRule}
use cdn_edge.ControlPlane.Store.{Store, Json, Env, Error}
use cdn_edge.ControlPlane.Store.Calls.{
  Call, create_tenant_call, delete_tenant_call, create_domain_call, update_domain_call,
  delete_domain_call, create_rule_call, delete_rule_call, register_edge_call, heartbeat_edge_call,
  delete_edge_call, apply,
}
use cdn_edge.ControlPlane.Api.{
  Socket, ApiReply, ApiRequest, Decoders, Server, answered, concluded, delete_word, get_word,
  handle_domain, handle_domains, handle_edge, handle_edges, handle_rule, handle_rules,
  handle_tenant, handle_tenants, notify_config_change, post_domain, post_edge, post_rule,
  post_tenant, post_word, put_domain, put_word, wired_or,
}

-- The calls that a request may come to: those on tenants and edges only with the admin's key, an
-- update only by PUT.
abbrev pub May : Bool → Bool → Call → Type 0
May admin put (create_tenant_call _ _) = admin ≡ true
May admin put (delete_tenant_call _ _) = admin ≡ true
May admin put (create_domain_call _ _) = Unit {0}
May admin put (update_domain_call _ _) = put ≡ true
May admin put (delete_domain_call _ _) = Unit {0}
May admin put (create_rule_call _ _) = Unit {0}
May admin put (delete_rule_call _ _) = Unit {0}
May admin put (register_edge_call _ _ _ _) = admin ≡ true
May admin put (heartbeat_edge_call _ _) = admin ≡ true
May admin put (delete_edge_call _ _) = admin ≡ true

-- The store is as it was, or as one of the calls leaves it.
abbrev pub Acts : Json → (Call → Type 0) → Store → Store → Type 0
Acts json P s s' = (s' ≡ s) ⊎ ((c : Call) × P c × (s' ≡ (apply json c s).0))

pub concluded-store :
    (code : ℕ) (err : Option Error) (reply : ApiReply) (s : Server)
    → (concluded code err reply s).0.store ≡ s.store
unfolding concluded notify_config_change
concluded-store code (some e) reply s = refl
concluded-store code none reply s = elim (Bool-cases s.has_callback) [
  | inl e ↦ rw e refl
  | inr e ↦ rw e refl
]

answered-store :
    (code : ℕ) (err : Option Error) (reply : ApiReply) (s : Server)
    → (answered code err reply s).0.store ≡ s.store
unfolding answered
answered-store code (some e) reply s = refl
answered-store code none reply s = refl

-- A wired handler leaves the server alone, but for the list of what has been handed over.
pub wired_or-effect :
    (socket : Socket) (reply : ApiReply) (r : ApiRequest) (s : Server)
    → ((wired_or socket reply r s).0 ≡ s)
      ⊎ ((wired_or socket reply r s).0 ≡ record s { handed = s.handed ++ (socket, r) ∷ [] })
unfolding wired_or
wired_or-effect socket reply r s = elim (Option-cases (s.wired socket)) [
  | inl e ↦ inl (rw (e, wired_or) refl)
  | inr (h, e) ↦ inr (rw (e, wired_or) refl)
]

pub wired_or-store :
    (socket : Socket) (reply : ApiReply) (r : ApiRequest) (s : Server)
    → (wired_or socket reply r s).0.store ≡ s.store
wired_or-store socket reply r s = elim (wired_or-effect socket reply r s) [
  | inl e ↦ rw e refl
  | inr e ↦ rw e refl
]

-- A property of the server behind a handler, over its tests.
pub if-After :
    (Q : Server → Type 0) (b : Bool) (x y : Server × ApiReply)
    → (b ≡ true → Q x.0)
    → (b ≡ false → Q y.0)
    → Q (if b then x else y).0
if-After Q true x y f g = f refl
if-After Q false x y f g = g refl

pub option-After :
    {A : Type 0}
    → (Q : Server → Type 0) (o : Option A) (x : Server × ApiReply) (f : A → Server × ApiReply)
    → Q x.0
    → ((a : A) → Q (f a).0)
    → Q (elim o as (λ _. Server × ApiReply) [ none ↦ x | some a ↦ f a ]).0
option-After Q none x f p q = p
option-After Q (some a) x f p q = q a

module _ (json : Json) (decoders : Decoders) (env : Env) (P : Call → Type 0) where
  abbrev pub Within : Server → Server → Type 0
  Within s s' = Acts json P s.store s'.store

  pub tenants-Acts :
      (r : ApiRequest) (s : Server)
      → ((name : Text) → P (create_tenant_call env name))
      → Within s (handle_tenants json decoders env r s).0
  unfolding handle_tenants post_tenant apply
  tenants-Acts r s p =
      if-After (Within s) (same r.method get_word) _ _ (λ _. inl refl)
        (λ _.
          if-After (Within s) (same r.method post_word) _ _
            (λ _. option-After (Within s) (decoders.decode_name r.body) _ _ (inl refl) (λ name.
              if-After (Within s) (is_empty name) _ _ (λ _. inl refl)
                (λ _. inr (create_tenant_call env name, p name, answered-store _ _ _ _))))
            (λ _. inl refl))

  pub tenant-Acts :
      (r : ApiRequest) (s : Server)
      → ((id : Text) → P (delete_tenant_call env id))
      → Within s (handle_tenant json decoders env r s).0
  unfolding handle_tenant apply
  tenant-Acts r s p =
      if-After (Within s) (same r.method get_word) _ _ (λ _. inl refl)
        (λ _.
          if-After (Within s) (same r.method delete_word) _ _
            (λ _. inr (delete_tenant_call env _, p _, concluded-store _ _ _ _)) (λ _. inl refl))

  pub domains-Acts :
      (r : ApiRequest) (s : Server)
      → ((d : Domain) → P (create_domain_call env d))
      → Within s (handle_domains json decoders env r s).0
  unfolding handle_domains post_domain apply
  domains-Acts r s p =
      if-After (Within s) (same r.method get_word) _ _ (λ _. inl refl)
        (λ _.
          if-After (Within s) (same r.method post_word) _ _
            (λ _. option-After (Within s) (decoders.decode_domain r.body) _ _ (inl refl) (λ d.
              if-After (Within s)
                (is_empty d.hostname || is_empty d.origin_url || is_empty d.tenant_id) _ _
                (λ _. inl refl)
                (λ _. inr (create_domain_call env d, p d, concluded-store _ _ _ _))))
            (λ _. inl refl))

  pub domain-Acts :
      (r : ApiRequest) (s : Server)
      → ((d : Domain) → same r.method put_word ≡ true → P (update_domain_call env d))
      → ((id : Text) → P (delete_domain_call env id))
      → Within s (handle_domain json decoders env r s).0
  unfolding handle_domain put_domain apply
  domain-Acts r s p q =
      if-After (Within s) (same r.method get_word) _ _ (λ _. inl refl)
        (λ _.
          if-After (Within s) (same r.method put_word) _ _
            (λ e.
              option-After (Within s) (decoders.decode_domain r.body) _ _ (inl refl)
                (λ d. inr (update_domain_call env _, p _ e, concluded-store _ _ _ _)))
            (λ _.
              if-After (Within s) (same r.method delete_word) _ _
                (λ _. inr (delete_domain_call env _, q _, concluded-store _ _ _ _))
                (λ _. inl refl)))

  pub rules-Acts :
      (r : ApiRequest) (s : Server)
      → ((rule : CacheRule) → P (create_rule_call env rule))
      → Within s (handle_rules json decoders env r s).0
  unfolding handle_rules post_rule apply
  rules-Acts r s p =
      if-After (Within s) (same r.method get_word) _ _ (λ _. inl refl)
        (λ _.
          if-After (Within s) (same r.method post_word) _ _
            (λ _.
              option-After (Within s) (decoders.decode_rule r.body) _ _ (inl refl)
                (λ rule. inr (create_rule_call env rule, p rule, concluded-store _ _ _ _)))
            (λ _. inl refl))

  pub rule-Acts :
      (r : ApiRequest) (s : Server)
      → ((id : Text) → P (delete_rule_call env id))
      → Within s (handle_rule json decoders env r s).0
  unfolding handle_rule apply
  rule-Acts r s p =
      if-After (Within s) (same r.method delete_word) _ _
        (λ _. inr (delete_rule_call env _, p _, concluded-store _ _ _ _)) (λ _. inl refl)

  pub edges-Acts :
      (r : ApiRequest) (s : Server)
      → ((name addr region : Text) → P (register_edge_call env name addr region))
      → Within s (handle_edges json decoders env r s).0
  unfolding handle_edges post_edge apply
  edges-Acts r s p =
      if-After (Within s) (same r.method get_word) _ _ (λ _. inl refl)
        (λ _.
          if-After (Within s) (same r.method post_word) _ _
            (λ _.
              option-After (Within s) (decoders.decode_edge r.body) _ _ (inl refl)
                (λ (name, addr, region).
                  inr (register_edge_call env name addr region, p _ _ _, answered-store _ _ _ _)))
            (λ _. inl refl))

  pub edge-Acts :
      (r : ApiRequest) (s : Server)
      → ((id : Text) → P (delete_edge_call env id))
      → Within s (handle_edge json decoders env r s).0
  unfolding handle_edge apply
  edge-Acts r s p =
      if-After (Within s) (same r.method delete_word) _ _
        (λ _. inr (delete_edge_call env _, p _, answered-store _ _ _ _)) (λ _. inl refl)
