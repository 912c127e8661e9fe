-- ===== src/ControlPlane/Store/Integrity.antt =====
-- The maps of controlplane/store/store.go refer to each other: every domain to a tenant that is
-- there, every rule to a domain that is there; and no two domains share a hostname.
use mathlib.Core.List.{lookup}
use cdn_edge.Common.{◌≡◌, ◌≢◌, refl, if_pos, if_neg, List, [], ◌∷◌, none, some, Text, text_discrete}
use cdn_edge.Common.Assoc.{insert, delete}
use cdn_edge.ControlPlane.Tenant.{Tenant, Domain, CacheRule}
use cdn_edge.ControlPlane.Store.{StoreData, delete_rules_of, drop_domain, find_by_hostname}
use cdn_edge.ControlPlane.Store.Entries.{
  All, All-map, All-both, All-delete, insert-present, delete-present,
}

abbrev pub DistinctHosts : List (Text × Domain) → Type 0
DistinctHosts [] = Unit {0}
DistinctHosts ((_, d) ∷ m) = All (λ x. x.1.hostname ≢ d.hostname) m × DistinctHosts m

abbrev pub Owned : List (Text × Tenant) → Text × Domain → Type 0
Owned tenants x = lookup text_discrete x.1.tenant_id tenants ≢ none

abbrev pub Attached : List (Text × Domain) → Text × CacheRule → Type 0
Attached domains x = lookup text_discrete x.1.domain_id domains ≢ none

pub record IsSound (r : StoreData) : Type 0 where
  pub owned : All (Owned r.tenants) r.domains
  pub attached : All (Attached r.domains) r.cache_rules
  pub unshared : DistinctHosts r.domains

DistinctHosts-delete :
    (k : Text) (m : List (Text × Domain))
    → DistinctHosts m
    → DistinctHosts (delete text_discrete k m)
unfolding delete
DistinctHosts-delete k [] a = tt
DistinctHosts-delete k ((j, d) ∷ m) a = elim (text_discrete k j) [
  | yes p ↦ rw (if_pos _ p) (DistinctHosts-delete k m a.1)
  | no p ↦
      rw (if_neg _ p)
        (All-delete (λ x. x.1.hostname ≢ d.hostname) k m a.0, DistinctHosts-delete k m a.1)
]

find_by_hostname-none :
    (h : Text) (m : List (Text × Domain))
    → find_by_hostname h m ≡ none
    → All (λ x. x.1.hostname ≢ h) m
unfolding find_by_hostname
find_by_hostname-none h [] e = tt
find_by_hostname-none h ((k, d) ∷ m) e = elim (text_discrete d.hostname h) [
  | yes p ↦ absurd (let z : some d ≡ none = (rw (if_pos _ p) at e) in cc)
  | no p ↦ (p, find_by_hostname-none h m (rw (if_neg _ p) at e))
]

-- An entry for a domain with a tenant and a hostname of its own.
pub insert_domain-IsSound :
    (k : Text) (d : Domain) (r : StoreData)
    → Owned r.tenants (k, d)
    → find_by_hostname d.hostname (delete text_discrete k r.domains) ≡ none
    → IsSound r
    → IsSound (record r { domains = insert text_discrete k d r.domains })
unfolding insert
insert_domain-IsSound k d r own free s = record {
  owned = (own, All-delete (Owned r.tenants) k r.domains s.owned);
  attached =
      All-map (Attached r.domains) (Attached (insert text_discrete k d r.domains))
        (λ x. insert-present k x.1.domain_id d r.domains) r.cache_rules s.attached;
  unshared = (find_by_hostname-none d.hostname _ free, DistinctHosts-delete k r.domains s.unshared);
}

pub find_by_hostname-delete :
    (h k : Text) (m : List (Text × Domain))
    → find_by_hostname h m ≡ none
    → find_by_hostname h (delete text_discrete k m) ≡ none
unfolding find_by_hostname delete
find_by_hostname-delete h k [] e = refl
find_by_hostname-delete h k ((j, d) ∷ m) e = elim (text_discrete d.hostname h) [
  | yes p ↦ absurd (let z : some d ≡ none = (rw (if_pos _ p) at e) in cc)
  | no p ↦
      let ih = find_by_hostname-delete h k m (rw (if_neg _ p) at e) in
      elim (text_discrete k j) [
        | yes q ↦ rw (if_pos _ q) ih
        | no q ↦ rw (if_neg _ q) (rw (if_neg _ p) ih)
      ]
]

pub insert_tenant-IsSound :
    (k : Text) (t : Tenant) (r : StoreData)
    → IsSound r
    → IsSound (record r { tenants = insert text_discrete k t r.tenants })
insert_tenant-IsSound k t r s = record {
  owned =
      All-map (Owned r.tenants) (Owned (insert text_discrete k t r.tenants))
        (λ x. insert-present k x.1.tenant_id t r.tenants) r.domains s.owned;
  attached = s.attached;
  unshared = s.unshared;
}

pub insert_rule-IsSound :
    (k : Text) (x : CacheRule) (r : StoreData)
    → Attached r.domains (k, x)
    → IsSound r
    → IsSound (record r { cache_rules = insert text_discrete k x r.cache_rules })
unfolding insert
insert_rule-IsSound k x r at s = record {
  owned = s.owned;
  attached = (at, All-delete (Attached r.domains) k r.cache_rules s.attached);
  unshared = s.unshared;
}

pub delete_rule-IsSound :
    (k : Text) (r : StoreData)
    → IsSound r
    → IsSound (record r { cache_rules = delete text_discrete k r.cache_rules })
delete_rule-IsSound k r s = record {
  owned = s.owned;
  attached = All-delete (Attached r.domains) k r.cache_rules s.attached;
  unshared = s.unshared;
}

All-delete_rules_of :
    (P : Text × CacheRule → Type 0) (id : Text) (m : List (Text × CacheRule))
    → All P m
    → All P (delete_rules_of id m)
unfolding delete_rules_of
All-delete_rules_of P id [] a = tt
All-delete_rules_of P id ((k, r) ∷ m) a = elim (text_discrete r.domain_id id) [
  | yes p ↦ rw (if_pos _ p) (All-delete_rules_of P id m a.1)
  | no p ↦ rw (if_neg _ p) (a.0, All-delete_rules_of P id m a.1)
]

-- No rule of the domain is left.
delete_rules_of-gone :
    (id : Text) (m : List (Text × CacheRule)) → All (λ x. x.1.domain_id ≢ id) (delete_rules_of id m)
unfolding delete_rules_of
delete_rules_of-gone id [] = tt
delete_rules_of-gone id ((k, r) ∷ m) = elim (text_discrete r.domain_id id) [
  | yes p ↦ rw (if_pos _ p) (delete_rules_of-gone id m)
  | no p ↦ rw (if_neg _ p) (p, delete_rules_of-gone id m)
]

pub drop_domain-IsSound : (id : Text) (r : StoreData) → IsSound r → IsSound (drop_domain id r)
unfolding drop_domain
drop_domain-IsSound id r s =
    let left = delete_rules_of id r.cache_rules in
    record {
      owned = All-delete (Owned r.tenants) id r.domains s.owned;
      attached =
          All-map (λ x. Attached r.domains x × (x.1.domain_id ≢ id))
            (Attached (delete text_discrete id r.domains))
            (λ x y. delete-present id x.1.domain_id r.domains y.1 y.0) left
            (All-both (Attached r.domains) (λ x. x.1.domain_id ≢ id) left
              (All-delete_rules_of (Attached r.domains) id r.cache_rules s.attached)
              (delete_rules_of-gone id r.cache_rules));
      unshared = DistinctHosts-delete id r.domains s.unshared;
    }
