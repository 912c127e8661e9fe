-- ===== src/Cache/Tiered/Slot.antt =====
-- `putInShard` of cache/cache.go against a bounded LRU list.
use mathlib.Core.List.{lookup}
use mathlib.Core.Option
use cdn_edge.Common.{
  ℕ, suc, ◌≤◌, ◌<◌, ◌≡◌, refl, ◌∙◌, ◌-◌, ap, sym, subst, inl, inr, arith, Bool, true, false, none,
  some, Text, text_discrete, length, length-map, dec_lt, leb, if◌then◌else◌, Option-cases,
  Bool-cases,
}
use cdn_edge.Common.Assoc.{insert, lookup-delete-none}
use cdn_edge.Common.Int.{ℤ}
use cdn_edge.Cache.Entry.{Entry}
use cdn_edge.Cache.TinyLfu.{TinyLfu, admit}
use cdn_edge.Cache.Shard.{Element, back, pair_of, contents, element_of, drop_element}
use cdn_edge.Cache.Shard.Coherence.{
  element_of-contents, element_of-back, contents-overwrite, overwrite-size, push_front-size,
  contents-drop_element, contents-push_front, lookup-contents,
}
use cdn_edge.Cache.Shard.Elements.{back-none}
use cdn_edge.Cache.Disk.{Platform}
use cdn_edge.Cache.Tiered.Lru.{last_key, lru_put}
use cdn_edge.Cache.Tiered.Occupancy.{
  IsValid, back-last_key, drop_element-smaller, overwrite-IsValid, push_front-IsValid,
}
use cdn_edge.Cache.Tiered.{SlotState, evict_item, evict_loop, put_in_slot}

module _ (p : Platform) (now : ℤ) (has_disk : Bool) (lfu : TinyLfu) (key : Text) where
  evict_loop-room :
      (fuel : ℕ) (x : SlotState)
      → length x.shard.eviction < x.shard.max_items
      → evict_loop p now (suc fuel) has_disk lfu key x ≡ (x, true)
  unfolding evict_loop
  evict_loop-room fuel x lt =
      let e : leb x.shard.max_items (length x.shard.eviction) ≡ false = ground arith in
      rw (e, evict_loop)

  evict_loop-full :
      (x : SlotState) (victim : Element)
      → IsValid x.shard
      → x.shard.max_items ≤ length x.shard.eviction
      → back x.shard.eviction ≡ some victim
      → evict_loop p now (suc (length x.shard.eviction)) has_disk lfu key x ≡ (
          if admit p.hash key victim.key lfu
          then (evict_item p now has_disk victim x, true)
          else (x, false))
  unfolding evict_loop
  evict_loop-full x victim v le last =
      let e : leb x.shard.max_items (length x.shard.eviction) ≡ true = ground arith in
      elim (Bool-cases (admit p.hash key victim.key lfu)) [
        | inr refused ↦ rw (e, last, refused, evict_loop)
        | inl admitted ↦
            let (small, same, _) =
              drop_element-smaller x.shard victim.key victim v
                (element_of-back x.shard victim v.coherent last) in
            let n : length x.shard.eviction ≡ suc (length x.shard.eviction - 1) = omega arith in
            rw (e, last, admitted, evict_loop)
              (subst
                (λ f.
                  evict_loop p now f has_disk lfu key (evict_item p now has_disk victim x)
                  ≡ (evict_item p now has_disk victim x, true))
                (sym n)
                (evict_loop-room (length x.shard.eviction - 1) (evict_item p now has_disk victim x)
                  (omega arith)))
      ]

  -- What a put leaves of the shard, of a valid one.
  pub record Stored (entry : Entry) (x y : SlotState) : Type 0 where
    pub valid : IsValid y.shard
    pub capacity : y.shard.max_items ≡ x.shard.max_items
    pub lru :
        contents y.shard
        ≡ lru_put x.shard.max_items
            (λ victim. admit p.hash key victim lfu)
            key
            entry
            (contents x.shard)

  put_existing :
      (entry : Entry) (x : SlotState) (e : Element)
      → IsValid x.shard
      → element_of key x.shard ≡ some e
      → Stored entry x (put_in_slot p now has_disk lfu key entry x)
  unfolding put_in_slot lru_put
  put_existing entry x e v h =
      let at : lookup text_discrete key (contents x.shard) ≡ some e.entry =
        lookup-contents key x.shard v.coherent ∙ ap (Option.map (λ e. e.entry)) h in
      rw (h, put_in_slot)
        (record {
          valid = overwrite-IsValid x.shard key e entry v h;
          capacity = (overwrite-size x.shard v.coherent key e h entry).1;
          lru = rw (at, lru_put) (contents-overwrite x.shard v.coherent key e h entry);
        })

  put_room :
      (entry : Entry) (x : SlotState)
      → IsValid x.shard
      → element_of key x.shard ≡ none
      → length x.shard.eviction < x.shard.max_items
      → Stored entry x (put_in_slot p now has_disk lfu key entry x)
  unfolding put_in_slot lru_put
  put_room entry x v h lt =
      let at : lookup text_discrete key (contents x.shard) ≡ none =
        lookup-contents key x.shard v.coherent ∙ ap (Option.map (λ e. e.entry)) h in
      let room : leb x.shard.max_items (length (contents x.shard)) ≡ false =
        unfold contents in ground (arith, length-map x.shard.eviction pair_of) in
      rw (h, evict_loop-room (length x.shard.eviction) x lt, put_in_slot)
        (record {
          valid = push_front-IsValid x.shard key entry v lt h;
          capacity = (push_front-size x.shard v.coherent key entry h).1;
          lru = rw (at, room, lru_put) (contents-push_front x.shard v.coherent key entry h);
        })

  put_full :
      (entry : Entry) (x : SlotState) (victim : Element)
      → IsValid x.shard
      → element_of key x.shard ≡ none
      → x.shard.max_items ≤ length x.shard.eviction
      → back x.shard.eviction ≡ some victim
      → Stored entry x (put_in_slot p now has_disk lfu key entry x)
  unfolding put_in_slot lru_put evict_item
  put_full entry x victim v h le last =
      let s = x.shard in
      let at : lookup text_discrete key (contents s) ≡ none =
        lookup-contents key s v.coherent ∙ ap (Option.map (λ e. e.entry)) h in
      let full : leb s.max_items (length (contents s)) ≡ true =
        unfold contents in ground (arith, length-map s.eviction pair_of) in
      let last_one : last_key (contents s) ≡ some victim.key =
        unfold contents in back-last_key s.eviction ∙ ap (Option.map (λ e. e.key)) last in
      let own = element_of-back s victim v.coherent last in
      let (small, same, valid) = drop_element-smaller s victim.key victim v own in
      let dropped = contents-drop_element s v.coherent victim.key victim own in
      let still : element_of key (drop_element victim s) ≡ none =
        element_of-contents key _ valid.coherent (
          ap (lookup text_discrete key) dropped
          ∙ lookup-delete-none text_discrete victim.key key (contents s) at) in
      elim (Bool-cases (admit p.hash key victim.key lfu)) [
        | inr refused ↦
            rw (h, evict_loop-full x victim v le last, refused, put_in_slot)
              (record {
                valid = v;
                capacity = refl;
                lru = rw (at, full, last_one, refused, lru_put);
              })
        | inl admitted ↦
            rw (h, evict_loop-full x victim v le last, admitted, put_in_slot)
              (record {
                valid = push_front-IsValid _ key entry valid (omega arith) still;
                capacity = (push_front-size _ valid.coherent key entry still).1 ∙ same;
                lru =
                    rw (at, full, last_one, admitted, lru_put)
                      (contents-push_front _ valid.coherent key entry still
                        ∙ ap (insert text_discrete key entry) dropped);
              })
      ]

  -- On a valid shard the map, the list and the eviction loop of `putInShard` do what the bounded
  -- LRU list with admission does, and leave the shard valid.
  pub put_in_slot-lru :
      (entry : Entry) (x : SlotState)
      → IsValid x.shard
      → Stored entry x (put_in_slot p now has_disk lfu key entry x)
  put_in_slot-lru entry x v = elim (Option-cases (element_of key x.shard)) [
    | inr (e, h) ↦ put_existing entry x e v h
    | inl h ↦ elim (dec_lt (length x.shard.eviction) x.shard.max_items) [
      | yes lt ↦ put_room entry x v h lt
      | no ge ↦ elim (Option-cases (back x.shard.eviction)) [
        | inr (victim, last) ↦ put_full entry x victim v h (omega arith) last
        | inl n ↦
            absurd (let z = ap length (back-none x.shard.eviction n) in omega (arith, v.positive))
      ]
    ]
  ]
