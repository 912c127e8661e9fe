-- ===== src/Proxy/Balancer/Selection.antt =====
-- What `Next` of proxy/balancer.go returns.
use cdn_edge.Common.{
  ℕ, zero, suc, ◌+◌, ◌-◌, ◌%◌, ◌≤◌, ◌<◌, ◌≡◌, ◌≢◌, ◌↔◌, subst, inl, inr, Option-cases, Bool-cases,
  refl, Bool, true, arith, none, some, List, [], ◌∷◌, dec_lt, length, get_elem?, ap, sym, ◌∙◌,
  replicate, get_elem?-replicate, get_elem?-append_cases, get_elem?-append_right, get_elem?_of_lt,
  lt-length_of_get_elem?,
}
use cdn_edge.Common.Int.{pos_part}
use cdn_edge.Proxy.Balancer.{
  Balancer, Backend, Strategy, u64_mod, try_next, next_round_robin, advance, is_healthy, next,
  next_random, healthy_of, healthy_backends, build_weighted_list, with_default_weights,
  new_balancer, random, round_robin, least_conn,
}

-- `j` rounds from now the loop looks at this position.
abbrev pub slot : Balancer → ℕ → ℕ
slot b j = (b.counter + j) % length b.expanded

-- What the loop finds is healthy, and stands in the weighted list.
try_next_sound :
    (k : ℕ) (b : Balancer) (x : Backend)
    → (try_next k b).1 ≡ some x
    → (i : ℕ) × (get_elem? b.expanded i ≡ some x) × (is_healthy b x ≡ true)
unfolding try_next
try_next_sound zero b x e = absurd (cc)
try_next_sound (suc k) b x e =
    let again = try_next_sound k (advance b) x in
    elim (Option-cases (get_elem? b.expanded (slot b 0))) [
      | inl gone ↦ again (ground arith)
      | inr (y, here) ↦ elim (Bool-cases (is_healthy b y)) [
        | inl up ↦ (slot b 0, ground arith, ground arith)
        | inr down ↦ again (ground arith)
      ]
    ]

-- It stops at a healthy backend that stands in one of the rounds ahead.
try_next_finds :
    (k : ℕ) (b : Balancer) (j : ℕ) (x : Backend)
    → j < k
    → b.counter + j < u64_mod
    → get_elem? b.expanded (slot b j) ≡ some x
    → is_healthy b x ≡ true
    → (try_next k b).1 ≢ none
unfolding try_next
try_next_finds zero b j x lt nowrap at up = absurd (omega arith)
try_next_finds (suc k) b zero x lt nowrap at up =
    let e : b.counter + 0 ≡ b.counter = omega arith in
    let at' : get_elem? b.expanded (b.counter % length b.expanded) ≡ some x = rw e at at in
    ground arith
try_next_finds (suc k) b (suc j) x lt nowrap at up =
    let e : (advance b).counter + j ≡ b.counter + suc j = unfold advance in omega arith in
    let ih = try_next_finds k (advance b) j x (omega arith) (omega arith) (rw e at) up in
    ground arith

-- The round that looks at position `i` of a list of length `n`.
pub round_of : (c n i : ℕ) → i < n → (j : ℕ) × (j < n) × ((c + j) % n ≡ i)
round_of c n i h = elim (dec_lt i (c % n)) [
  | yes lt ↦ (i + n - c % n, grind arith, grind arith)
  | no ge ↦ (i - c % n, omega arith, grind arith)
]

build_members :
    (bs : List Backend) (i : ℕ) (x : Backend)
    → get_elem? (build_weighted_list bs) i ≡ some x
    → (j : ℕ) × (get_elem? bs j ≡ some x)
unfolding build_weighted_list
build_members [] i x h = absurd (cc)
build_members (b ∷ bs) i x h =
    elim (get_elem?-append_cases (replicate (pos_part b.weight) b) _ i x h) [
      | inl l ↦ (0, ap some (sym (get_elem?-replicate _ b x i l)))
      | inr (_, r) ↦ let (j, e) = build_members bs _ x r in (suc j, e)
    ]

-- Every weight is at least 1, as the constructor leaves it.
abbrev pub Weighted : List Backend → Type 0
Weighted [] = Unit {0}
Weighted (b ∷ bs) = (0 < pos_part b.weight) × Weighted bs

members_build :
    (bs : List Backend) (j : ℕ) (x : Backend)
    → Weighted bs
    → get_elem? bs j ≡ some x
    → (i : ℕ) × (get_elem? (build_weighted_list bs) i ≡ some x)
unfolding build_weighted_list
members_build [] j x w h = absurd (cc)
members_build (b ∷ bs) zero x w h =
    (0, let e : pos_part b.weight ≡ suc (pos_part b.weight - 1) = omega arith in rw e h)
members_build (b ∷ bs) (suc j) x w h =
    let (i, e) = members_build bs j x w.1 h in
    (length (replicate (pos_part b.weight) b) + i, get_elem?-append_right _ _ i ∙ e)

healthy_of_sound :
    (flags : ℕ → Bool) (bs : List Backend) (i : ℕ) (x : Backend)
    → get_elem? (healthy_of flags bs) i ≡ some x
    → (j : ℕ) × (get_elem? bs j ≡ some x) × (flags x.address ≡ true)
unfolding healthy_of
healthy_of_sound flags [] i x h = absurd (cc)
healthy_of_sound flags (b ∷ bs) zero x h = elim (Bool-cases (flags b.address)) [
  | inl up ↦ (0, rw up at h, ground arith)
  | inr down ↦ let (j, e, f) = healthy_of_sound flags bs 0 x (rw down at h) in (suc j, e, f)
]
healthy_of_sound flags (b ∷ bs) (suc i) x h = elim (Bool-cases (flags b.address)) [
  | inl up ↦ let (j, e, f) = healthy_of_sound flags bs i x (rw up at h) in (suc j, e, f)
  | inr down ↦ let (j, e, f) = healthy_of_sound flags bs (suc i) x (rw down at h) in (suc j, e, f)
]

healthy_of_complete :
    (flags : ℕ → Bool) (bs : List Backend) (j : ℕ) (x : Backend)
    → get_elem? bs j ≡ some x
    → flags x.address ≡ true
    → healthy_of flags bs ≢ []
unfolding healthy_of
healthy_of_complete flags [] j x h up = absurd (cc)
healthy_of_complete flags (b ∷ bs) zero x h up = ground arith
healthy_of_complete flags (b ∷ bs) (suc j) x h up =
    ground (arith, healthy_of_complete flags bs j x h up)

-- A balancer as the constructor builds it, whatever the counter and the health flags are now.
pub record IsBuilt (b : Balancer) : Type 0 where
  pub weighted : Weighted b.backends
  pub expands : b.expanded ≡ build_weighted_list b.backends

with_default_weights-Weighted : (bs : List Backend) → Weighted (with_default_weights bs)
unfolding with_default_weights
with_default_weights-Weighted [] = tt
with_default_weights-Weighted (b ∷ bs) = (ground arith, with_default_weights-Weighted bs)

pub new_balancer-IsBuilt : (bs : List Backend) (s : Strategy) → IsBuilt (new_balancer bs s)
unfolding new_balancer
new_balancer-IsBuilt bs s = record { weighted = with_default_weights-Weighted bs; expands = refl }

next_round_robin_sound :
    (b : Balancer) (x : Backend)
    → IsBuilt b
    → (next_round_robin b).1 ≡ some x
    → (j : ℕ) × (get_elem? b.backends j ≡ some x) × (is_healthy b x ≡ true)
unfolding next_round_robin
next_round_robin_sound b x built e =
    let (i, at, up) = try_next_sound _ b x e in
    let (j, at') =
      build_members b.backends i x (subst (λ l. get_elem? l i ≡ some x) built.expands at) in
    (j, at', up)

next_random_sound :
    (drawn : ℕ) (b : Balancer) (x : Backend)
    → (next_random drawn b).1 ≡ some x
    → (j : ℕ) × (get_elem? b.backends j ≡ some x) × (is_healthy b x ≡ true)
unfolding next_random is_healthy
next_random_sound drawn b x e = healthy_of_sound b.healthy b.backends drawn x e

-- Whatever the strategy, what `Next` returns from a balancer as the constructor builds it is one of
-- its backends, and a healthy one.
pub next_sound :
    (drawn : ℕ) (b : Balancer) (x : Backend)
    → IsBuilt b
    → (next drawn b).1 ≡ some x
    → (j : ℕ) × (get_elem? b.backends j ≡ some x) × (is_healthy b x ≡ true)
unfolding next
next_sound drawn b x built = split b.strategy refl
  where
    split :
        (s : Strategy)
        → b.strategy ≡ s
        → (next drawn b).1 ≡ some x
        → (j : ℕ) × (get_elem? b.backends j ≡ some x) × (is_healthy b x ≡ true)
    split random s e = next_random_sound drawn b x (rw (s, next) at e)
    split round_robin s e = next_round_robin_sound b x built (rw (s, next) at e)
    split least_conn s e = next_round_robin_sound b x built (rw (s, next) at e)

next_round_robin_complete :
    (b : Balancer) (j : ℕ) (x : Backend)
    → IsBuilt b
    → b.counter + length b.expanded ≤ u64_mod
    → get_elem? b.backends j ≡ some x
    → is_healthy b x ≡ true
    → (next_round_robin b).1 ≢ none
unfolding next_round_robin
next_round_robin_complete b j x built room at up =
    let (i, listed) = members_build b.backends j x built.weighted at in
    let here : get_elem? b.expanded i ≡ some x = rw built.expands listed in
    let (k, lt, e) = round_of b.counter (length b.expanded) i (lt-length_of_get_elem? _ _ _ here) in
    try_next_finds _ b k x lt (omega arith) (rw e here) up

next_complete :
    (drawn : ℕ) (b : Balancer) (j : ℕ) (x : Backend)
    → IsBuilt b
    → b.counter + length b.expanded ≤ u64_mod
    → drawn < length (healthy_backends b)
    → get_elem? b.backends j ≡ some x
    → is_healthy b x ≡ true
    → (next drawn b).1 ≢ none
unfolding next
next_complete drawn b j x built room draw at up = split b.strategy refl
  where
    robin : (next_round_robin b).1 ≢ none
    robin = next_round_robin_complete b j x built room at up

    split : (s : Strategy) → b.strategy ≡ s → (next drawn b).1 ≢ none
    split random s =
        let (y, e) = get_elem?_of_lt _ drawn draw in
        rw (s, next) (unfold next_random in (λ n. absurd (cc)))
    split round_robin s = rw (s, next) robin
    split least_conn s = rw (s, next) robin

-- From a balancer as the constructor builds it, while the uint64 counter does not wrap during the
-- call and `rand.Intn` draws below the number of healthy backends, `Next` fails exactly when no
-- backend is healthy.
pub next-eq-none_iff :
    (drawn : ℕ) (b : Balancer)
    → IsBuilt b
    → b.counter + length b.expanded ≤ u64_mod
    → (healthy_backends b ≢ [] → drawn < length (healthy_backends b))
    → ((next drawn b).1 ≡ none) ↔ (healthy_backends b ≡ [])
unfolding healthy_backends is_healthy
next-eq-none_iff drawn b built room draw = (fails (healthy_backends b) refl, rejects)
  where
    fails :
        (l : List Backend)
        → healthy_backends b ≡ l
        → (next drawn b).1 ≡ none
        → healthy_backends b ≡ []
    fails [] e _ = e
    fails (x ∷ l) e n =
        let some_healthy : healthy_backends b ≢ [] = λ z. cc in
        let at : get_elem? (healthy_backends b) 0 ≡ some x = rw e in
        let (j, here, up) = healthy_of_sound b.healthy b.backends 0 x at in
        absurd (next_complete drawn b j x built room (draw some_healthy) here up n)

    rejects : healthy_backends b ≡ [] → (next drawn b).1 ≡ none
    rejects e = elim (Option-cases (next drawn b).1) [
      | inl n ↦ n
      | inr (x, f) ↦
          let (j, at, up) = next_sound drawn b x built f in
          absurd (healthy_of_complete b.healthy b.backends j x at up e)
    ]
