-- ===== src/ControlPlane/Store/Entries.antt =====
-- Statements about every entry of a map of controlplane/store/store.go.
use mathlib.Core.List.{lookup}
use cdn_edge.Common.{◌≢◌, sym, if_pos, if_neg, List, [], ◌∷◌, none, Text, text_discrete}
use cdn_edge.Common.Assoc.{insert, delete, lookup-insert, lookup-delete_ne}

module _ {V : Type 0} where
  abbrev pub All : (Text × V → Type 0) → List (Text × V) → Type 0
  All P [] = Unit {0}
  All P (x ∷ m) = P x × All P m

  pub All-map :
      (P Q : Text × V → Type 0)
      → ((x : Text × V) → P x → Q x)
      → (m : List (Text × V)) → All P m
      → All Q m
  All-map P Q f [] a = tt
  All-map P Q f (x ∷ m) a = (f x a.0, All-map P Q f m a.1)

  pub All-both :
      (P Q : Text × V → Type 0) (m : List (Text × V)) → All P m → All Q m → All (λ x. P x × Q x) m
  All-both P Q [] a b = tt
  All-both P Q (x ∷ m) a b = ((a.0, b.0), All-both P Q m a.1 b.1)

  pub All-delete :
      (P : Text × V → Type 0) (k : Text) (m : List (Text × V))
      → All P m
      → All P (delete text_discrete k m)
  unfolding delete
  All-delete P k [] a = tt
  All-delete P k ((j, v) ∷ m) a = elim (text_discrete k j) [
    | yes p ↦ rw (if_pos _ p) (All-delete P k m a.1)
    | no p ↦ rw (if_neg _ p) (a.0, All-delete P k m a.1)
  ]

  -- A deleted key is on no entry.
  pub All-delete_self :
      (k : Text) (m : List (Text × V)) → All (λ x. x.0 ≢ k) (delete text_discrete k m)
  unfolding delete
  All-delete_self k [] = tt
  All-delete_self k ((j, v) ∷ m) = elim (text_discrete k j) [
    | yes p ↦ rw (if_pos _ p) (All-delete_self k m)
    | no p ↦ rw (if_neg _ p) ((λ e. p (sym e)), All-delete_self k m)
  ]

  pub insert-present :
      (k j : Text) (v : V) (m : List (Text × V))
      → lookup text_discrete j m ≢ none
      → lookup text_discrete j (insert text_discrete k v m) ≢ none
  insert-present k j v m h = rw (lookup-insert text_discrete k j v m) (elim (text_discrete j k) [
    | yes p ↦ rw (if_pos _ p) (λ z. absurd (cc))
    | no p ↦ rw (if_neg _ p) h
  ])

  pub delete-present :
      (k j : Text) (m : List (Text × V))
      → j ≢ k
      → lookup text_discrete j m ≢ none
      → lookup text_discrete j (delete text_discrete k m) ≢ none
  delete-present k j m ne h = rw (lookup-delete_ne text_discrete k j m ne) h
