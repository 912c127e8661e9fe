-- ===== src/Cache/Key/Sorting.antt =====
-- The order on strings and the sort of cache/cache.go.
use cdn_edge.Common.{
  ◌≡◌, refl, ap, sym, ◌∙◌, arith, true, false, List, [], ◌∷◌, Text, text_discrete, length, suc,
}
use cdn_edge.Cache.Key.{less, place, sort_strings}
use mathlib.Core.HLevel.{hedberg}
use mathlib.Core.List.{Perm, List-discrete, foldr}
use mathlib.Core.List.Perm

pub less_asym : (a b : Text) → less a b ≡ true → less b a ≡ false
unfolding less
less_asym [] [] h = refl
less_asym [] (d ∷ r) h = refl
less_asym (c ∷ l) [] h = absurd (cc)
less_asym (c ∷ l) (d ∷ r) h = ground (arith, less_asym l r)

pub eq_of_not_less : (a b : Text) → less a b ≡ false → less b a ≡ false → a ≡ b
unfolding less
eq_of_not_less [] [] h k = refl
eq_of_not_less [] (d ∷ r) h k = absurd (cc)
eq_of_not_less (c ∷ l) [] h k = absurd (cc)
eq_of_not_less (c ∷ l) (d ∷ r) h k =
    let e : c ≡ d = ground arith in
    let t : l ≡ r = eq_of_not_less l r (ground arith) (ground arith) in cc

pub less_trans : (q x p : Text) → less x q ≡ false → less x p ≡ true → less q p ≡ true
unfolding less
less_trans [] x [] h k = ground arith
less_trans [] x (e ∷ p) h k = refl
less_trans (c ∷ q) [] p h k = absurd (cc)
less_trans (c ∷ q) (d ∷ x) [] h k = absurd (cc)
less_trans (c ∷ q) (d ∷ x) (e ∷ p) h k = ground (arith, less_trans q x p)

pub place_comm : (p q : Text) (l : List Text) → place p (place q l) ≡ place q (place p l)
unfolding place
place_comm p q [] = ground (arith, less_asym p q, less_asym q p, eq_of_not_less p q)
place_comm p q (x ∷ l) = ground (
  arith,
  place_comm p q l,
  less_asym p q,
  less_asym q p,
  eq_of_not_less p q,
  less_trans q x p,
  less_trans p x q,
)

texts_set : IsSet (List Text)
texts_set = hedberg (List-discrete text_discrete)

sort_strings-foldr : (l : List Text) → sort_strings l ≡ foldr place [] l
unfolding sort_strings
sort_strings-foldr [] = refl
sort_strings-foldr (p ∷ l) = ap (place p) (sort_strings-foldr l)

-- Two orders of the same strings are sorted to one list.
pub sort_strings-perm : {l r : List Text} → Perm l r → sort_strings l ≡ sort_strings r
sort_strings-perm {l} {r} p =
    sort_strings-foldr l
    ∙ Perm.foldr-eq texts_set place place_comm p []
    ∙ sym (sort_strings-foldr r)

length-place : (p : Text) (l : List Text) → length (place p l) ≡ suc (length l)
unfolding place
length-place p [] = refl
length-place p (q ∷ l) = ground (arith, length-place p l)

pub length-sort_strings : (l : List Text) → length (sort_strings l) ≡ length l
unfolding sort_strings
length-sort_strings [] = refl
length-sort_strings (p ∷ l) = length-place p (sort_strings l) ∙ ap suc (length-sort_strings l)

-- Only a list of one string is sorted to one.
pub sort_strings-singleton : (l : List Text) (x : Text) → sort_strings l ≡ x ∷ [] → l ≡ x ∷ []
unfolding sort_strings place
sort_strings-singleton [] x h = absurd (cc)
sort_strings-singleton (p ∷ []) x h = h
sort_strings-singleton (p ∷ q ∷ l) x h =
    let n = length-sort_strings (p ∷ q ∷ l) in
    let one : length (sort_strings (p ∷ q ∷ l)) ≡ 1 = ap length h in absurd (omega arith)
