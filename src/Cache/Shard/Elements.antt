-- ===== src/Cache/Shard/Elements.antt =====
-- The element lists of the shards of cache/cache.go, where no key and no address stands twice.
use mathlib.Core.List.{lookup}
use cdn_edge.Common.{
  ℕ, suc, ◌+◌, ◌<◌, ◌≡◌, ◌≢◌, refl, ◌∙◌, ap, sym, subst, ite, if_pos, if_neg, arith, List, [], ◌∷◌,
  Option, none, some, Text, text_discrete, ℕ_discrete, length,
}
use cdn_edge.Common.Assoc.{delete, delete_absent}
use cdn_edge.Cache.Shard.{Element, find, remove_element, back, pairs, pair_of}

-- The address of the element with a key.
unfoldable pub address_of : Text → List Element → Option ℕ
address_of k [] = none
address_of k (e ∷ l) = ite (text_discrete k e.key) (some e.address) (address_of k l)

abbrev pub Distinct : List Element → Type 0
Distinct [] = Unit {0}
Distinct (e ∷ l) = (address_of e.key l ≡ none) × (find e.address l ≡ none) × Distinct l

-- Every address is below the next one to be given out.
abbrev pub Below : ℕ → List Element → Type 0
Below n [] = Unit {0}
Below n (e ∷ l) = (e.address < n) × Below n l

pub lookup-pairs-none :
    (k : Text) (l : List Element) → address_of k l ≡ none → lookup text_discrete k (pairs l) ≡ none
unfolding lookup address_of
lookup-pairs-none k [] h = refl
lookup-pairs-none k (e ∷ l) h = ground (arith, lookup-pairs-none k l)

address_of-none :
    (k : Text) (l : List Element) → lookup text_discrete k (pairs l) ≡ none → address_of k l ≡ none
unfolding lookup address_of
address_of-none k [] h = refl
address_of-none k (e ∷ l) h = ground (arith, address_of-none k l)

-- What is known of the element whose address a key leads to.
pub record Points (k : Text) (l : List Element) (a : ℕ) (e : Element) : Type 0 where
  pub found : find a l ≡ some e
  pub keyed : e.key ≡ k
  pub addressed : e.address ≡ a
  pub read : lookup text_discrete k (pairs l) ≡ some e.entry
  pub removed : pairs (remove_element a l) ≡ delete text_discrete k (pairs l)

-- An address that is found elsewhere is not the one of a key.
find_of_address : (k : Text) (l : List Element) (a : ℕ) → address_of k l ≡ some a → find a l ≢ none
unfolding address_of find
find_of_address k [] a h = absurd (cc)
find_of_address k (e ∷ l) a h = ground (arith, find_of_address k l a)

pub Points-of :
    (k : Text) (l : List Element) (a : ℕ)
    → Distinct l
    → address_of k l ≡ some a
    → (e : Element) × Points k l a e
unfolding address_of find remove_element lookup delete
Points-of k [] a d h = absurd (cc)
Points-of k (e ∷ l) a d h = elim (text_discrete k e.key) [
  | yes p ↦
      let here : e.address ≡ a = ground arith in
      (
        e,
        record {
          found = ground arith;
          keyed = sym p;
          addressed = here;
          read = ground arith;
          removed =
              ground
                (arith, delete_absent text_discrete k (pairs l) (lookup-pairs-none k l (rw p d.0)));
        },
      )
  | no p ↦
      let later : address_of k l ≡ some a = ground arith in
      let (x, ih) = Points-of k l a d.2 later in
      let other : a ≢ e.address = λ q. find_of_address k l a later (rw q d.1) in
      (
        x,
        record {
          found = rw (if_neg _ other) ih.found;
          keyed = ih.keyed;
          addressed = ih.addressed;
          read = rw (if_neg _ p) ih.read;
          removed = rw (if_neg _ other, if_neg _ p) (ap (◌∷◌ (pair_of e)) ih.removed);
        },
      )
]

find-remove_ne : (a b : ℕ) (l : List Element) → find b l ≡ none → find b (remove_element a l) ≡ none
unfolding find remove_element
find-remove_ne a b [] h = refl
find-remove_ne a b (e ∷ l) h = ground (arith, find-remove_ne a b l)

pub find-remove_self : (a : ℕ) (l : List Element) → Distinct l → find a (remove_element a l) ≡ none
unfolding find remove_element
find-remove_self a [] d = refl
find-remove_self a (e ∷ l) d = ground (arith, find-remove_self a l d.2)

pub Below-remove : (a n : ℕ) (l : List Element) → Below n l → Below n (remove_element a l)
unfolding remove_element
Below-remove a n [] b = tt
Below-remove a n (e ∷ l) b = ground (arith, Below-remove a n l b.1)

pub find_above : (n : ℕ) (l : List Element) → Below n l → find n l ≡ none
unfolding find
find_above n [] b = refl
find_above n (e ∷ l) b = ground (arith, find_above n l b.1)

pub Below-suc : (n : ℕ) (l : List Element) → Below n l → Below (suc n) l
Below-suc n [] b = tt
Below-suc n (e ∷ l) b = (omega arith, Below-suc n l b.1)

pub Below-find :
    (n a : ℕ) (l : List Element) (e : Element) → Below n l → find a l ≡ some e → e.address < n
unfolding find
Below-find n a [] x b h = absurd (cc)
Below-find n a (e ∷ l) x b h = ground (arith, Below-find n a l x b.1)

address_of-remove_none :
    (a : ℕ) (j : Text) (l : List Element)
    → address_of j l ≡ none
    → address_of j (remove_element a l) ≡ none
unfolding address_of remove_element
address_of-remove_none a j [] h = refl
address_of-remove_none a j (e ∷ l) h = ground (arith, address_of-remove_none a j l)

pub Distinct-remove : (a : ℕ) (l : List Element) → Distinct l → Distinct (remove_element a l)
unfolding remove_element
Distinct-remove a [] d = tt
Distinct-remove a (e ∷ l) d = elim (ℕ_discrete a e.address) [
  | yes p ↦ rw (if_pos _ p) d.2
  | no p ↦ rw (if_neg _ p) (
    address_of-remove_none a e.key l d.0,
    find-remove_ne a e.address l d.1,
    Distinct-remove a l d.2,
  )
]

pub address_of-remove_self :
    (k : Text) (a : ℕ) (l : List Element)
    → Distinct l
    → address_of k l ≡ some a
    → address_of k (remove_element a l) ≡ none
unfolding address_of remove_element
address_of-remove_self k a [] d h = refl
address_of-remove_self k a (e ∷ l) d h = elim (text_discrete k e.key) [
  | yes p ↦ let here : a ≡ e.address = ground arith in rw (if_pos _ here, p) d.0
  | no p ↦
      let later : address_of k l ≡ some a = ground arith in
      let other : a ≢ e.address = λ q. find_of_address k l a later (rw q d.1) in
      rw (if_neg _ other, if_neg _ p) (address_of-remove_self k a l d.2 later)
]

pub address_of-remove_ne :
    (k j : Text) (a : ℕ) (l : List Element)
    → Distinct l
    → address_of k l ≡ some a
    → j ≢ k
    → address_of j (remove_element a l) ≡ address_of j l
unfolding address_of remove_element
address_of-remove_ne k j a [] d h ne = refl
address_of-remove_ne k j a (e ∷ l) d h ne = elim (text_discrete k e.key) [
  | yes p ↦
      let here : a ≡ e.address = ground arith in
      let off : j ≢ e.key = λ q. ne (q ∙ sym p) in rw (if_pos _ here, if_neg _ off)
  | no p ↦
      let later : address_of k l ≡ some a = ground arith in
      let other : a ≢ e.address = λ q. find_of_address k l a later (rw q d.1) in
      rw (if_neg _ other) (
        ap (ite (text_discrete j e.key) (some e.address))
          (address_of-remove_ne k j a l d.2 later ne))
]

pub length-remove :
    (a : ℕ) (l : List Element) (e : Element)
    → find a l ≡ some e
    → length (remove_element a l) + 1 ≡ length l
unfolding find remove_element
length-remove a [] x h = absurd (cc)
length-remove a (e ∷ l) x h = ground (arith, length-remove a l x)

-- The last element is where its key leads to.
pub back-address :
    (l : List Element) (e : Element)
    → Distinct l
    → back l ≡ some e
    → address_of e.key l ≡ some e.address
unfolding back address_of
back-address [] e d h = absurd (cc)
back-address (x ∷ []) e d h =
    let p : x ≡ e = cc in rw p (if_pos (text_discrete e.key e.key) refl _ _)
back-address (x ∷ y ∷ l) e d h =
    let ih = back-address (y ∷ l) e d.2 h in
    let off : e.key ≢ x.key = λ q. absurd (
      let gone : address_of e.key (y ∷ l) ≡ none =
        subst (λ j. address_of j (y ∷ l) ≡ none) (sym q) d.0 in
      cc) in
    rw (if_neg _ off) ih

pub back-none : (l : List Element) → back l ≡ none → l ≡ []
unfolding back
back-none [] h = refl
back-none (x ∷ []) h = absurd (cc)
back-none (x ∷ y ∷ l) h = absurd (let e = back-none (y ∷ l) h in cc)

pub back-find :
    (l : List Element) (e : Element) → Distinct l → back l ≡ some e → find e.address l ≡ some e
unfolding back find
back-find [] e d h = absurd (cc)
back-find (x ∷ []) e d h =
    let p : x ≡ e = cc in rw p (if_pos (ℕ_discrete e.address e.address) refl _ _)
back-find (x ∷ y ∷ l) e d h =
    let ih = back-find (y ∷ l) e d.2 h in
    let off : e.address ≢ x.address = λ q. absurd (
      let gone : find e.address (y ∷ l) ≡ none = subst (λ a. find a (y ∷ l) ≡ none) (sym q) d.1 in
      cc) in
    rw (if_neg _ off) ih
