-- ===== src/Cache/Shard/Coherence.antt =====
-- How the map and the list of a shard of cache/cache.go belong together.
use mathlib.Core.List.{lookup}
use mathlib.Core.Option
use mathlib.Core.Path.{ap₂}
use cdn_edge.Common.{
  ℕ, suc, ◌+◌, ◌≡◌, refl, ◌∙◌, ap, sym, subst, inl, inr, ite, if_pos, if_neg, arith, [], ◌∷◌, none,
  some, Text, text_discrete, length, Option-cases,
}
use cdn_edge.Common.Assoc.{
  insert, delete, Unique, lookup-insert, lookup-delete_self, lookup-delete_ne, delete-Unique,
  insert-Unique, length-delete, delete_absent,
}
use cdn_edge.Cache.Entry.{Entry}
use cdn_edge.Cache.Shard.{
  Element, Shard, new_shard, remove_element, back, contents, element_of, move_to_front, overwrite,
  drop_element, push_front,
}
use cdn_edge.Cache.Shard.Elements.{
  address_of, Distinct, Below, Points, Points-of, lookup-pairs-none, Distinct-remove,
  find-remove_self, Below-remove, Below-suc, Below-find, find_above, address_of-remove_self,
  address_of-remove_ne, length-remove, back-address, back-find,
}

pub record IsCoherent (s : Shard) : Type 0 where
  pub keyed : (k : Text) → lookup text_discrete k s.items ≡ address_of k s.eviction
  pub unique : Unique text_discrete s.items
  pub sized : length s.items ≡ length s.eviction
  pub distinct : Distinct s.eviction
  pub fresh : Below s.next_address s.eviction

pub new_shard-IsCoherent : (n : ℕ) → IsCoherent (new_shard n)
unfolding new_shard lookup address_of
new_shard-IsCoherent n = record {
  keyed = λ k. refl;
  unique = tt;
  sized = refl;
  distinct = tt;
  fresh = tt;
}

pub empty-IsCoherent : (s : Shard) → IsCoherent (record s { items = []; eviction = [] })
unfolding lookup address_of
empty-IsCoherent s = record {
  keyed = λ k. refl;
  unique = tt;
  sized = refl;
  distinct = tt;
  fresh = tt;
}

-- The element that a key leads to.
pub element_of-address :
    (k : Text) (s : Shard) (e : Element)
    → IsCoherent s
    → element_of k s ≡ some e
    → (address_of k s.eviction ≡ some e.address) × Points k s.eviction e.address e
unfolding element_of
element_of-address k s e c h = elim (Option-cases (lookup text_discrete k s.items)) [
  | inl n ↦ absurd (ground arith)
  | inr (a, at) ↦
      let p : address_of k s.eviction ≡ some a = sym (c.keyed k) ∙ at in
      let (x, pt) = Points-of k s.eviction a c.distinct p in
      let q : x ≡ e = ground (arith, pt.found) in
      subst (λ y. (address_of k s.eviction ≡ some y.address) × Points k s.eviction y.address y) q
        (subst (λ b. (address_of k s.eviction ≡ some b) × Points k s.eviction b x)
          (sym pt.addressed) (p, pt))
]

pub element_of-none :
    (k : Text) (s : Shard) → IsCoherent s → element_of k s ≡ none → address_of k s.eviction ≡ none
unfolding element_of
element_of-none k s c h = elim (Option-cases (address_of k s.eviction)) [
  | inl n ↦ n
  | inr (a, p) ↦
      let (x, pt) = Points-of k s.eviction a c.distinct p in
      absurd (ground (arith, pt.found, c.keyed k))
]

-- In a coherent shard, the map leads each key to the entry that the list holds for it.
pub lookup-contents :
    (k : Text) (s : Shard)
    → IsCoherent s
    → lookup text_discrete k (contents s) ≡ Option.map (λ e. e.entry) (element_of k s)
unfolding contents
lookup-contents k s c = elim (Option-cases (element_of k s)) [
  | inl n ↦ rw n (lookup-pairs-none k s.eviction (element_of-none k s c n))
  | inr (e, h) ↦ rw h (element_of-address k s e c h).1.read
]

pub element_of-contents :
    (k : Text) (s : Shard)
    → IsCoherent s
    → lookup text_discrete k (contents s) ≡ none
    → element_of k s ≡ none
element_of-contents k s c h = elim (Option-cases (element_of k s)) [
  | inl n ↦ n
  | inr (e, q) ↦ absurd (ground (arith, lookup-contents k s c, q))
]

module _ (s : Shard) (c : IsCoherent s) where
  module _ (k : Text) (e : Element) (h : element_of k s ≡ some e) where
    keeps :
        (j : Text) (v : Entry)
        → address_of j (record e { entry = v } ∷ remove_element e.address s.eviction)
          ≡ address_of j s.eviction
    unfolding address_of
    keeps j v =
        let (p, pt) = element_of-address k s e c h in
        elim (text_discrete j e.key) [
          | yes q ↦ rw (if_pos _ q, q, pt.keyed) (sym p)
          | no q ↦ rw (if_neg _ q) (
              address_of-remove_ne k j e.address s.eviction c.distinct p
                (λ r. q (r ∙ sym pt.keyed)))
        ]

    -- Moving the element to the front under a new entry, or under its old one.
    pub overwrite-IsCoherent : (v : Entry) → IsCoherent (overwrite e v s)
    unfolding overwrite
    overwrite-IsCoherent v =
        let (p, pt) = element_of-address k s e c h in
        record {
          keyed = λ j. c.keyed j ∙ sym (keeps j v);
          unique = c.unique;
          sized = omega (arith, c.sized, length-remove e.address s.eviction e pt.found);
          distinct = (
            rw pt.keyed (address_of-remove_self k e.address s.eviction c.distinct p),
            find-remove_self e.address s.eviction c.distinct,
            Distinct-remove e.address s.eviction c.distinct,
          );
          fresh = (
            Below-find _ _ s.eviction e c.fresh pt.found,
            Below-remove e.address _ s.eviction c.fresh,
          );
        }

    pub contents-overwrite :
        (v : Entry) → contents (overwrite e v s) ≡ insert text_discrete k v (contents s)
    unfolding overwrite contents insert
    contents-overwrite v =
        let (p, pt) = element_of-address k s e c h in ap₂ ◌∷◌ (ap (λ j. (j, v)) pt.keyed) pt.removed

    pub move_to_front-overwrite : move_to_front e s ≡ overwrite e e.entry s
    unfolding overwrite move_to_front
    move_to_front-overwrite = refl

    pub drop_element-IsCoherent : IsCoherent (drop_element e s)
    unfolding drop_element
    drop_element-IsCoherent =
        let (p, pt) = element_of-address k s e c h in
        let p' : address_of e.key s.eviction ≡ some e.address =
          subst (λ j. address_of j s.eviction ≡ some e.address) (sym pt.keyed) p in
        let l = s.eviction in
        record {
          keyed = λ j. elim (text_discrete j e.key) [
            | yes q ↦ rw q (
                lookup-delete_self text_discrete e.key s.items
                ∙ sym (address_of-remove_self e.key e.address l c.distinct p'))
            | no q ↦
                lookup-delete_ne text_discrete e.key j s.items q
                ∙ c.keyed j
                ∙ sym (address_of-remove_ne e.key j e.address l c.distinct p' q)
          ];
          unique = delete-Unique text_discrete e.key s.items c.unique;
          sized = omega (
            arith,
            c.sized,
            length-delete text_discrete e.key s.items e.address c.unique (c.keyed e.key ∙ p'),
            length-remove e.address l e pt.found,
          );
          distinct = Distinct-remove e.address s.eviction c.distinct;
          fresh = Below-remove e.address _ s.eviction c.fresh;
        }

    pub drop_element-size :
        (length (drop_element e s).eviction + 1 ≡ length s.eviction)
        × ((drop_element e s).max_items ≡ s.max_items)
    unfolding drop_element
    drop_element-size =
        (length-remove e.address s.eviction e (element_of-address k s e c h).1.found, refl)

    pub overwrite-size :
        (v : Entry)
        → (length (overwrite e v s).eviction ≡ length s.eviction)
          × ((overwrite e v s).max_items ≡ s.max_items)
    unfolding overwrite
    overwrite-size v = (
      omega (arith, length-remove e.address s.eviction e (element_of-address k s e c h).1.found),
      refl,
    )

    pub contents-drop_element : contents (drop_element e s) ≡ delete text_discrete k (contents s)
    unfolding drop_element contents
    contents-drop_element = (element_of-address k s e c h).1.removed

  module _ (k : Text) (v : Entry) (new : element_of k s ≡ none) where
    pub push_front-IsCoherent : IsCoherent (push_front k v s)
    unfolding push_front address_of
    push_front-IsCoherent =
        let gone = element_of-none k s c new in
        record {
          keyed = λ j.
              lookup-insert text_discrete k j s.next_address s.items
              ∙ ap (ite (text_discrete j k) (some s.next_address)) (c.keyed j);
          unique = insert-Unique text_discrete k s.next_address s.items c.unique;
          sized =
              unfold insert in
              rw (delete_absent text_discrete k s.items (c.keyed k ∙ gone)) (ap suc c.sized);
          distinct = (gone, find_above _ s.eviction c.fresh, c.distinct);
          fresh = (omega arith, Below-suc _ s.eviction c.fresh);
        }

    pub push_front-size :
        (length (push_front k v s).eviction ≡ length s.eviction + 1)
        × ((push_front k v s).max_items ≡ s.max_items)
    unfolding push_front
    push_front-size = (omega arith, refl)

    pub contents-push_front : contents (push_front k v s) ≡ insert text_discrete k v (contents s)
    unfolding push_front contents insert
    contents-push_front = ap (◌∷◌ (k, v)) (
        sym (
          delete_absent text_discrete k _
            (lookup-pairs-none k s.eviction (element_of-none k s c new))))

-- The least recently used element is the one that its own key leads to.
pub element_of-back :
    (s : Shard) (e : Element)
    → IsCoherent s
    → back s.eviction ≡ some e
    → element_of e.key s ≡ some e
unfolding element_of
element_of-back s e c h =
    let at : lookup text_discrete e.key s.items ≡ some e.address =
      c.keyed e.key ∙ back-address s.eviction e c.distinct h in
    rw (at, element_of) (back-find s.eviction e c.distinct h)
