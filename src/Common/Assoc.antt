-- ===== src/Common/Assoc.antt =====
-- Go's maps, as association lists over the library's `lookup`.
use mathlib.Core.List.{List, [], ◌∷◌, lookup}
use mathlib.Core.Logic.{◌≢◌, ite, if_pos, if_neg}
use mathlib.Core.Option.{none, some}
use mathlib.Core.Path.{◌≡◌, refl, ◌∙◌}
use native.Mathlib.Omega.{arith}
use Prim.Native.Nat.{◌+◌, ◌≤◌, ◌<◌}
use cdn_edge.Common.{length}

module _ {ℓ} {K V : Type ℓ} (dec : Discrete K) where
  -- `delete(m, k)`
  unfoldable pub delete : K → List (K × V) → List (K × V)
  delete k [] = []
  delete k ((j, v) ∷ m) = ite (dec k j) (delete k m) ((j, v) ∷ delete k m)

  -- `m[k] = v`
  unfoldable pub insert : K → V → List (K × V) → List (K × V)
  insert k v m = (k, v) ∷ delete k m

  pub lookup-delete_self : (k : K) (m : List (K × V)) → lookup dec k (delete k m) ≡ none
  unfolding lookup delete
  lookup-delete_self k [] = refl
  lookup-delete_self k ((j, v) ∷ m) = ground (arith, lookup-delete_self k m)

  pub lookup-delete_ne :
      (k j : K) (m : List (K × V)) → j ≢ k → lookup dec j (delete k m) ≡ lookup dec j m
  unfolding lookup delete
  lookup-delete_ne k j [] h = refl
  lookup-delete_ne k j ((i, v) ∷ m) h = ground (arith, lookup-delete_ne k j m h)

  pub lookup-insert_self : (k : K) (v : V) (m : List (K × V)) → lookup dec k (insert k v m) ≡ some v
  unfolding lookup insert
  lookup-insert_self k v m = ground arith

  pub lookup-insert_ne :
      (k j : K) (v : V) (m : List (K × V)) → j ≢ k → lookup dec j (insert k v m) ≡ lookup dec j m
  unfolding lookup insert
  lookup-insert_ne k j v m h = ground (arith, lookup-delete_ne k j m h)

  pub lookup-insert :
      (k j : K) (v : V) (m : List (K × V))
      → lookup dec j (insert k v m) ≡ ite (dec j k) (some v) (lookup dec j m)
  lookup-insert k j v m = elim (dec j k) [
    | yes p ↦ rw (if_pos _ p, p) (lookup-insert_self k v m)
    | no p ↦ rw (if_neg _ p) (lookup-insert_ne k j v m p)
  ]

  -- Each key stands once.
  abbrev pub Unique : List (K × V) → Type ℓ
  Unique [] = Unit
  Unique ((k, v) ∷ m) = (lookup dec k m ≡ none) × Unique m

  pub delete_absent : (k : K) (m : List (K × V)) → lookup dec k m ≡ none → delete k m ≡ m
  unfolding lookup delete
  delete_absent k [] h = refl
  delete_absent k ((j, v) ∷ m) h = ground (arith, delete_absent k m)

  pub lookup-delete-none :
      (k j : K) (m : List (K × V)) → lookup dec j m ≡ none → lookup dec j (delete k m) ≡ none
  lookup-delete-none k j m h = elim (dec j k) [
    | yes p ↦ rw p (lookup-delete_self k m)
    | no p ↦ lookup-delete_ne k j m p ∙ h
  ]

  pub delete-Unique : (k : K) (m : List (K × V)) → Unique m → Unique (delete k m)
  unfolding delete
  delete-Unique k [] u = tt
  delete-Unique k ((j, v) ∷ m) u = elim (dec k j) [
    | yes p ↦ rw (if_pos _ p) (delete-Unique k m u.1)
    | no p ↦ rw (if_neg _ p) (lookup-delete-none k j m u.0, delete-Unique k m u.1)
  ]

  pub insert-Unique : (k : K) (v : V) (m : List (K × V)) → Unique m → Unique (insert k v m)
  unfolding insert
  insert-Unique k v m u = (lookup-delete_self k m, delete-Unique k m u)

  pub length-delete :
      (k : K) (m : List (K × V)) (v : V)
      → Unique m
      → lookup dec k m ≡ some v
      → length (delete k m) + 1 ≡ length m
  unfolding lookup delete
  length-delete k [] v u h = cc
  length-delete k ((j, w) ∷ m) v u h = elim (dec k j) [
    | yes p ↦ rw (if_pos _ p, delete_absent k m (rw p u.0)) (omega arith)
    | no p ↦ rw (if_neg _ p) (let e = length-delete k m v u.1 (rw (if_neg _ p) at h) in omega arith)
  ]

  pub length-delete-le : (k : K) (m : List (K × V)) → length (delete k m) ≤ length m
  unfolding delete
  length-delete-le k [] = omega arith
  length-delete-le k ((j, v) ∷ m) = ground (arith, length-delete-le k m)

  pub length-delete-lt :
      (k : K) (m : List (K × V)) → lookup dec k m ≢ none → length (delete k m) < length m
  unfolding delete lookup
  length-delete-lt k [] h = absurd (h refl)
  length-delete-lt k ((j, v) ∷ m) h = elim (dec k j) [
    | yes p ↦ rw (if_pos _ p) (omega (arith, length-delete-le k m))
    | no p ↦ rw (if_neg _ p) (let ih = length-delete-lt k m (rw (if_neg _ p) at h) in omega arith)
  ]
