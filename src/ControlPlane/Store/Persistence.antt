-- ===== src/ControlPlane/Store/Persistence.antt =====
-- The file of controlplane/store/store.go.
use cdn_edge.Common.{◌≡◌, ◌+◌, arith, inl, inr, Option-cases, none, some, Text}
use cdn_edge.ControlPlane.Store.{StoreData, Store, Json, Env, load, new_store, save}

-- Whatever becomes of the file, saving counts one version and leaves the maps.
pub save-records :
    (json : Json) (env : Env) (s : Store)
    → (save json env s).0.records ≡ record (s.records) { version = s.records.version + 1 }
unfolding save
save-records json env s = ground arith

-- The documented behaviour of JSON: what is encoded is decoded to the same.
abbrev pub IsFaithful : Json → Type 0
IsFaithful json = (r : StoreData) (raw : Text) → json.encode r ≡ some raw → json.decode raw ≡ some r

-- After a save that reports no error, with JSON that loses nothing, a store that is opened on the
-- file has the same records.
pub new_store-save :
    (json : Json) (env : Env) (s : Store)
    → IsFaithful json
    → (save json env s).1 ≡ none
    → new_store json (save json env s).0.file ≡ some (save json env s).0
unfolding save new_store load
new_store-save json env s f e =
    elim (Option-cases (json.encode (record (s.records) { version = s.records.version + 1 }))) [
      | inl n ↦ absurd (ground (arith, n))
      | inr (raw, h) ↦ ground (arith, h, f _ raw h)
    ]
