-- ===== src/ControlPlane/Store/TenantDeletion.antt =====
-- `DeleteTenant` of controlplane/store/store.go: the loop over the domains and their rules.
use cdn_edge.Common.{
  ◌≡◌, ◌≢◌, refl, sym, ◌∙◌, if_pos, if_neg, ite, Bool, true, false, List, [], ◌∷◌, Text,
  text_discrete,
}
use cdn_edge.Common.Assoc.{delete}
use cdn_edge.ControlPlane.Tenant.{Domain}
use cdn_edge.ControlPlane.Store.{StoreData, drop_domain, drop_domains_of}
use cdn_edge.ControlPlane.Store.Entries.{
  All, All-map, All-both, All-delete, All-delete_self, delete-present,
}
use cdn_edge.ControlPlane.Store.Integrity.{Owned, IsSound, drop_domain-IsSound}

-- The loop has a domain of the tenant under this key ahead of it.
listed : Text → Text → List (Text × Domain) → Bool
listed id k [] = false
listed id k ((j, e) ∷ ds) =
    let rest = listed id k ds in
    ite (text_discrete j k) (ite (text_discrete e.tenant_id id) true rest) rest

-- A domain of the tenant is still to come in the loop.
abbrev Pending : Text → List (Text × Domain) → Text × Domain → Type 0
Pending id ds x = x.1.tenant_id ≡ id → listed id x.0 ds ≡ true

listed-cons :
    (id k j : Text) (e : Domain) (ds : List (Text × Domain))
    → listed id k ds ≡ true
    → listed id k ((j, e) ∷ ds) ≡ true
unfolding listed
listed-cons id k j e ds h = elim (text_discrete j k) [
  | no p ↦ rw (if_neg _ p) h
  | yes p ↦
      rw (if_pos _ p)
        (elim (text_discrete e.tenant_id id) [ yes q ↦ rw (if_pos _ q) | no q ↦ rw (if_neg _ q) h ])
]

listed-head :
    (id k : Text) (e : Domain) (ds : List (Text × Domain))
    → e.tenant_id ≡ id
    → listed id k ((k, e) ∷ ds) ≡ true
unfolding listed
listed-head id k e ds q = rw (if_pos (text_discrete k k) refl, if_pos _ q)

All-Pending : (id : Text) (ds : List (Text × Domain)) → All (Pending id ds) ds
All-Pending id [] = tt
All-Pending id ((k, e) ∷ ds) = (
  listed-head id k e ds,
  All-map (Pending id ds) (Pending id ((k, e) ∷ ds))
      (λ x pending mine. listed-cons id x.0 k e ds (pending mine)) ds (All-Pending id ds),
)

listed-other :
    (id k j : Text) (e : Domain) (ds : List (Text × Domain))
    → k ≢ j
    → listed id k ((j, e) ∷ ds) ≡ true
    → listed id k ds ≡ true
unfolding listed
listed-other id k j e ds ne h = rw (if_neg _ (λ p. ne (sym p))) at h

listed-foreign :
    (id k j : Text) (e : Domain) (ds : List (Text × Domain))
    → e.tenant_id ≢ id
    → listed id k ((j, e) ∷ ds) ≡ true
    → listed id k ds ≡ true
unfolding listed
listed-foreign id k j e ds ne h = elim (text_discrete j k) [
  | yes p ↦ rw (if_pos _ p, if_neg _ ne) at h
  | no p ↦ rw (if_neg _ p) at h
]

drop_domain-Pending :
    (id j : Text) (e : Domain) (ds : List (Text × Domain)) (r : StoreData)
    → All (Pending id ((j, e) ∷ ds)) r.domains
    → All (Pending id ds) (drop_domain j r).domains
unfolding drop_domain
drop_domain-Pending id j e ds r a =
    let left = delete text_discrete j r.domains in
    All-map (λ x. Pending id ((j, e) ∷ ds) x × (x.0 ≢ j)) (Pending id ds)
      (λ x y mine. listed-other id x.0 j e ds y.1 (y.0 mine)) left
      (All-both (Pending id ((j, e) ∷ ds)) (λ x. x.0 ≢ j) left
        (All-delete (Pending id ((j, e) ∷ ds)) j r.domains a) (All-delete_self j r.domains))

-- What the loop makes of sound records.
record Dropped (id : Text) (before r : StoreData) : Type 0 where
  sound : IsSound r
  same_tenants : r.tenants ≡ before.tenants
  gone : All (λ x. x.1.tenant_id ≢ id) r.domains

drop_domains_of-Dropped :
    (id : Text) (ds : List (Text × Domain)) (r : StoreData)
    → IsSound r
    → All (Pending id ds) r.domains
    → Dropped id r (drop_domains_of id ds r)
unfolding drop_domains_of listed
drop_domains_of-Dropped id [] r s a = record {
  sound = s;
  same_tenants = refl;
  gone =
      All-map (Pending id []) (λ x. x.1.tenant_id ≢ id)
        (λ x pending mine. absurd (let z = pending mine in cc)) r.domains a;
}
drop_domains_of-Dropped id ((j, e) ∷ ds) r s a = elim (text_discrete e.tenant_id id) [
  | no p ↦ rw (if_neg _ p) (
      drop_domains_of-Dropped id ds r s (
        All-map (Pending id ((j, e) ∷ ds)) (Pending id ds)
          (λ x pending mine. listed-foreign id x.0 j e ds p (pending mine)) r.domains a))
  | yes p ↦ rw (if_pos _ p) (
      let d =
        drop_domains_of-Dropped id ds (drop_domain j r) (drop_domain-IsSound j r s)
          (drop_domain-Pending id j e ds r a) in
      record {
        sound = d.sound;
        same_tenants = d.same_tenants ∙ unfold drop_domain in refl;
        gone = d.gone;
      })
]

-- The records without the tenant.
unfoldable pub drop_tenant : Text → StoreData → StoreData
drop_tenant id r =
    let r' = drop_domains_of id r.domains r in
    record r' { tenants = delete text_discrete id r'.tenants }

pub drop_tenant-IsSound :
    (id : Text) (r : StoreData)
    → IsSound r
    → IsSound (drop_tenant id r) × All (λ x. x.1.tenant_id ≢ id) (drop_tenant id r).domains
unfolding drop_tenant
drop_tenant-IsSound id r s =
    let r' = drop_domains_of id r.domains r in
    let d = drop_domains_of-Dropped id r.domains r s (All-Pending id r.domains) in
    (
      record {
        owned =
            All-map (λ x. Owned r'.tenants x × (x.1.tenant_id ≢ id))
              (Owned (delete text_discrete id r'.tenants))
              (λ x y. delete-present id x.1.tenant_id r'.tenants y.1 y.0) r'.domains
              (All-both (Owned r'.tenants) (λ x. x.1.tenant_id ≢ id) r'.domains d.sound.owned
                d.gone);
        attached = d.sound.attached;
        unshared = d.sound.unshared;
      },
      d.gone,
    )
