-- ===== src/ControlPlane/Store/Conflict.antt =====
-- The hostname that `UpdateDomain` of controlplane/store/store.go sets.
use mathlib.Core.List.{lookup}
use cdn_edge.Common.{
  ◌+◌, ◌≡◌, ◌≢◌, refl, ◌∙◌, if_pos, if_neg, inl, inr, Option-cases, List, [], ◌∷◌, none, some, Text,
  text_discrete,
}
use cdn_edge.Common.Assoc.{insert, delete, lookup-delete_ne, lookup-insert_self, lookup-insert_ne}
use cdn_edge.ControlPlane.Tenant.{Domain}
use cdn_edge.ControlPlane.Store.{StoreData, Store, Json, Env, save, update_domain}
use cdn_edge.ControlPlane.Store.Entries.{All}
use cdn_edge.ControlPlane.Store.Integrity.{IsSound}
use cdn_edge.ControlPlane.Store.Persistence.{save-records}

All-lookup :
    (P : Text × Domain → Type 0) (k : Text) (e : Domain) (m : List (Text × Domain))
    → All P m
    → lookup text_discrete k m ≡ some e
    → P (k, e)
unfolding lookup
All-lookup P k e [] a h = absurd (let z : none ≡ some e = h in cc)
All-lookup P k e ((j, x) ∷ m) a h = elim (text_discrete k j) [
  | yes p ↦
      let h' : some x ≡ some e = (rw (if_pos _ p) at h) in let q : x ≡ e = cc in rw (p, ← q) a.0
  | no p ↦ All-lookup P k e m a.1 (rw (if_neg _ p) at h)
]

unsound :
    (json : Json) (env : Env) (d other : Domain) (k : Text) (s : Store)
    → lookup text_discrete d.id s.records.domains ≢ none
    → lookup text_discrete k s.records.domains ≡ some other
    → k ≢ d.id
    → other.hostname ≡ d.hostname
    → ¬ (IsSound (update_domain json env d s).0.records)
unfolding update_domain insert
unsound json env d other k s own at ne same v =
    elim (Option-cases (lookup text_discrete d.id s.records.domains)) [
      | inl n ↦ own n
      | inr (e, h) ↦
          let w = rw (h, update_domain, save-records json env) at v in
          All-lookup (λ x. x.1.hostname ≢ d.hostname) k other
            (delete text_discrete d.id s.records.domains) w.unshared.0
            (lookup-delete_ne text_discrete d.id k s.records.domains ne ∙ at) same
    ]

saved :
    (json : Json) (env : Env) (s : Store) (raw : Text)
    → json.encode (record (s.records) { version = s.records.version + 1 }) ≡ some raw
    → env.failed_write ≡ none
    → (save json env s).1 ≡ none
unfolding save
saved json env s raw e w = rw (e, save) (rw w refl)

-- The domain as the update stores it.
abbrev pub updated : Env → Domain → Domain
updated env d = record d { updated_at = env.now }

-- The records behind an update, with the version that is saved.
abbrev pub with_domain : Env → Domain → StoreData → StoreData
with_domain env d r = record r {
  version = r.version + 1;
  domains = insert text_discrete d.id (updated env d) r.domains;
}

-- In a store with sound records, an update of a domain to the hostname of another domain, whose JSON
-- can be made and written, is accepted without an error: then two domains are in the store under
-- one hostname, and the records are no longer sound.
pub update_domain-conflict :
    (json : Json) (env : Env) (d other : Domain) (k raw : Text) (s : Store)
    → IsSound s.records
    → lookup text_discrete d.id s.records.domains ≢ none
    → lookup text_discrete k s.records.domains ≡ some other
    → k ≢ d.id
    → other.hostname ≡ d.hostname
    → json.encode (with_domain env d s.records) ≡ some raw
    → env.failed_write ≡ none
    → let (s', err) = update_domain json env d s in
      (err ≡ none)
      × (lookup text_discrete d.id s'.records.domains ≡ some (updated env d))
      × (lookup text_discrete k s'.records.domains ≡ some other)
      × ¬ (IsSound s'.records)
unfolding update_domain
update_domain-conflict json env d other k raw s sound own at ne same e w =
    elim (Option-cases (lookup text_discrete d.id s.records.domains)) [
      | inl n ↦ absurd (own n)
      | inr (x, h) ↦
          let s1 : Store = record s {
            records = record (s.records) {
              domains = insert text_discrete d.id (updated env d) s.records.domains;
            };
          } in
          let q : update_domain json env d s ≡ save json env s1 = rw (h, update_domain) refl in
          let n : ¬ (IsSound (save json env s1).0.records) =
            rw q at (unsound json env d other k s own at ne same) in
          rw (q, save-records json env s1)
            (
              saved json env s1 raw e w,
              lookup-insert_self text_discrete d.id (updated env d) s.records.domains,
              lookup-insert_ne text_discrete d.id k (updated env d) s.records.domains ne ∙ at,
              (rw (save-records json env s1) at n),
            )
    ]
