-- ===== src/ControlPlane/Store/Snapshot/Edge.antt =====
-- What the edge servers get from controlplane/store/store.go.
use mathlib.Core.List.{lookup}
use cdn_edge.Common.{
  ◌≡◌, ◌≢◌, refl, sym, ap, subst, ◌∙◌, arith, true, inl, inr, Bool-cases, Option-cases, List, [],
  ◌∷◌, some, Text, text_discrete, ◌⊎◌, ◌↔◌,
}
use cdn_edge.Common.Assoc.{insert, lookup-insert_self, lookup-insert_ne}
use cdn_edge.Common.Int.{ℤ}
use cdn_edge.ControlPlane.Tenant.{Tenant, Domain}
use cdn_edge.ControlPlane.Store.{Store}
use cdn_edge.ControlPlane.Store.Snapshot.{is_served, config_domains, build_edge_config}
use cdn_edge.ControlPlane.Store.Entries.{All}
use cdn_edge.ControlPlane.Store.Integrity.{DistinctHosts, IsSound}

-- The domain stands in the map, under some key.
pub data Holds (d : Domain) : List (Text × Domain) → Type 0 where
  here : (k : Text) (m : List (Text × Domain)) → Holds d ((k, d) ∷ m)
  there : (x : Text × Domain) (m : List (Text × Domain)) → Holds d m → Holds d (x ∷ m)

module _ (tenants : List (Text × Tenant)) where
  -- A hostname that no domain to come has keeps its answer.
  config_domains_other :
      (ds acc : List (Text × Domain)) (h : Text)
      → All (λ x. x.1.hostname ≢ h) ds
      → lookup text_discrete h (config_domains tenants ds acc) ≡ lookup text_discrete h acc
  unfolding config_domains
  config_domains_other [] acc h a = refl
  config_domains_other ((k, d) ∷ ds) acc h a = elim (Bool-cases (is_served tenants d)) [
    | inl up ↦ rw up (
        config_domains_other ds (insert text_discrete d.hostname d acc) h a.1
        ∙ lookup-insert_ne text_discrete d.hostname h d acc (λ e. a.0 (sym e)))
    | inr down ↦ rw down (config_domains_other ds acc h a.1)
  ]

  config_domains_complete :
      (d : Domain) (ds acc : List (Text × Domain))
      → DistinctHosts ds
      → Holds d ds
      → is_served tenants d ≡ true
      → lookup text_discrete d.hostname (config_domains tenants ds acc) ≡ some d
  unfolding config_domains
  config_domains_complete d _ acc u (here k m) up = rw up (
      config_domains_other m (insert text_discrete d.hostname d acc) d.hostname u.0
      ∙ lookup-insert_self text_discrete d.hostname d acc)
  config_domains_complete d _ acc u (there (k, x) m h) up = config_domains_complete d m _ u.1 h up

  config_domains_sound :
      (ds acc : List (Text × Domain)) (h : Text) (d : Domain)
      → lookup text_discrete h (config_domains tenants ds acc) ≡ some d
      → (lookup text_discrete h acc ≡ some d)
        ⊎ ((d.hostname ≡ h) × (is_served tenants d ≡ true) × Holds d ds)
  unfolding config_domains
  config_domains_sound [] acc h d e = inl e
  config_domains_sound ((k, x) ∷ ds) acc h d e = elim (Bool-cases (is_served tenants x)) [
    | inr down ↦ elim (config_domains_sound ds acc h d (rw down at e)) [
      | inl before ↦ inl before
      | inr (n, s, l) ↦ inr (n, s, there (k, x) ds l)
    ]
    | inl up ↦
        elim (config_domains_sound ds (insert text_discrete x.hostname x acc) h d (rw up at e)) [
          | inr (n, s, l) ↦ inr (n, s, there (k, x) ds l)
          | inl before ↦ elim (text_discrete h x.hostname) [
            | no p ↦ inl (sym (lookup-insert_ne text_discrete x.hostname h x acc p) ∙ before)
            | yes p ↦
                let same : some x ≡ some d =
                  sym (lookup-insert_self text_discrete x.hostname x acc)
                  ∙ subst
                      (λ z. lookup text_discrete z (insert text_discrete x.hostname x acc) ≡ some d)
                      p before in
                let q : x ≡ d = cc in
                inr (
                  ap (λ z. z.hostname) (sym q) ∙ sym p,
                  subst (λ z. is_served tenants z ≡ true) q up,
                  subst (λ z. Holds z ((k, x) ∷ ds)) q (here k ds),
                )
          ]
        ]
  ]

-- The domain is active, and so is its tenant.
abbrev pub Served : List (Text × Tenant) → Domain → Type 0
Served tenants d =
    (t : Tenant) × (lookup text_discrete d.tenant_id tenants ≡ some t)
    × (t.active ≡ true)
    × (d.active ≡ true)

is_served-Served :
    (tenants : List (Text × Tenant)) (d : Domain) → (is_served tenants d ≡ true) ↔ Served tenants d
unfolding is_served
is_served-Served tenants d = elim (Option-cases (lookup text_discrete d.tenant_id tenants)) [
  | inl n ↦ ((λ e. absurd (ground (arith, n, e))), λ (t, h, a, b). absurd (cc))
  | inr (t, h) ↦ (
    (λ e. (t, h, ground (arith, h, e), ground (arith, h, e))),
    λ (t', h', a, b). ground (arith, h, h', a, b),
  )
]

-- In a store with sound records, a hostname leads to a domain in the snapshot exactly if the
-- domain is in the store, has the hostname, is active, and has an active tenant.
pub build_edge_config-lookup_iff :
    (now : ℤ) (s : Store) (h : Text) (d : Domain)
    → IsSound s.records
    → (lookup text_discrete h (build_edge_config now s).domains ≡ some d)
      ↔ ((d.hostname ≡ h) × Served s.records.tenants d × Holds d s.records.domains)
unfolding build_edge_config lookup
build_edge_config-lookup_iff now s h d v = (sound, complete)
  where
    sound :
        lookup text_discrete h (config_domains s.records.tenants s.records.domains []) ≡ some d
        → (d.hostname ≡ h) × Served s.records.tenants d × Holds d s.records.domains
    sound e = elim (config_domains_sound s.records.tenants s.records.domains [] h d e) [
      | inl z ↦ absurd (cc)
      | inr (n, up, l) ↦ (n, (is_served-Served s.records.tenants d).0 up, l)
    ]

    complete :
        (d.hostname ≡ h) × Served s.records.tenants d × Holds d s.records.domains
        → lookup text_discrete h (config_domains s.records.tenants s.records.domains []) ≡ some d
    complete (n, up, l) =
        subst
          (λ z.
            lookup text_discrete z (config_domains s.records.tenants s.records.domains []) ≡ some d)
          n
          (config_domains_complete s.records.tenants d s.records.domains [] v.unshared l
            ((is_served-Served s.records.tenants d).1 up))
