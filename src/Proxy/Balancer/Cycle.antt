-- ===== src/Proxy/Balancer/Cycle.antt =====
-- The order and the shares in which the round robin of proxy/balancer.go serves healthy backends.
use native.Mathlib.Nat.{mod-lt, mod-eq_of_lt, add-mod}
use cdn_edge.Common.{
  ℕ, zero, suc, ◌+◌, ◌%◌, ◌≤◌, ◌<◌, ◌≡◌, refl, sym, ap, ◌∙◌, true, arith, Option, none, some, List,
  [], ◌∷◌, ◌++◌, map, replicate, length, get_elem?, get_elem?-nonempty, list_ext, length-map,
  get_elem?-map, get_elem?_of_lt, if◌then◌else◌, ◌==◌,
}
use cdn_edge.Common.Int.{pos_part}
use cdn_edge.Proxy.Balancer.{
  Balancer, Backend, u64_mod, try_next, next_round_robin, advance, build_weighted_list,
}
use cdn_edge.Proxy.Balancer.Selection.{IsBuilt}

-- The backends that so many calls return.
pub served : ℕ → Balancer → List (Option Backend)
served zero b = []
served (suc k) b = let (b', r) = next_round_robin b in r ∷ served k b'

abbrev pub AllHealthy : Balancer → Type 0
AllHealthy b = (a : ℕ) → b.healthy a ≡ true

next_healthy :
    (b : Balancer) (x : Backend)
    → AllHealthy b
    → get_elem? b.expanded (b.counter % length b.expanded) ≡ some x
    → next_round_robin b ≡ (advance b, some x)
unfolding next_round_robin try_next
next_healthy b x up at =
    let n = get_elem?-nonempty b.expanded _ x at in
    rw (n, try_next, at) (ground (arith, up x.address))

-- With all backends healthy, a list that is not empty and no wrap of the counter, the calls go
-- through the weighted list in order, from where the counter stands.
pub served-slot :
    (k : ℕ) (b : Balancer) (j : ℕ)
    → AllHealthy b
    → 0 < length b.expanded
    → b.counter + k ≤ u64_mod
    → j < k
    → get_elem? (served k b) j ≡ some (get_elem? b.expanded ((b.counter + j) % length b.expanded))
unfolding served advance
served-slot zero b j up ne room lt = absurd (omega arith)
served-slot (suc k) b zero up ne room lt =
    let (x, at) = get_elem?_of_lt b.expanded (b.counter % length b.expanded) (mod-lt _ ne) in
    let e : b.counter + 0 ≡ b.counter = omega arith in
    rw (e, next_healthy b x up at) (ap some (sym at))
served-slot (suc k) b (suc j) up ne room lt =
    let (x, at) = get_elem?_of_lt b.expanded (b.counter % length b.expanded) (mod-lt _ ne) in
    let e : (advance b).counter + j ≡ b.counter + suc j = unfold advance in omega arith in
    rw (next_healthy b x up at, ← e)
      (served-slot k (advance b) j up ne (unfold advance in omega arith) (omega arith))

length-served : (k : ℕ) (b : Balancer) → length (served k b) ≡ k
unfolding served
length-served zero b = refl
length-served (suc k) b = ap suc (length-served k _)

full_cycle :
    (b : Balancer)
    → AllHealthy b
    → b.counter % length b.expanded ≡ 0
    → b.counter + length b.expanded ≤ u64_mod
    → served (length b.expanded) b ≡ map some b.expanded
full_cycle b up start room =
    list_ext _ _ (length-served _ b ∙ sym (length-map b.expanded some)) λ i lt'.
      let lt : i < length b.expanded = omega (arith, length-served (length b.expanded) b) in
      let (x, at) = get_elem?_of_lt b.expanded i lt in
      let e : (b.counter + i) % length b.expanded ≡ i =
        grind (arith, add-mod b.counter i (length b.expanded), mod-eq_of_lt lt) in
      rw (get_elem?-map some b.expanded i x at, served-slot _ b i up (omega arith) room lt, e)
        (ap some at)

-- How often the backend at an address was returned.
pub times_served : ℕ → List (Option Backend) → ℕ
times_served a [] = 0
times_served a (none ∷ rs) = times_served a rs
times_served a (some x ∷ rs) = (if x.address == a then 1 else 0) + times_served a rs

-- The weight that the balancer was given for it.
pub weight_of : ℕ → List Backend → ℕ
weight_of a [] = 0
weight_of a (x ∷ xs) = (if x.address == a then pos_part x.weight else 0) + weight_of a xs

times_served-append :
    (a n : ℕ) (x : Backend) (l : List Backend)
    → times_served a (map some (replicate n x ++ l))
      ≡ (if x.address == a then n else 0) + times_served a (map some l)
unfolding times_served
times_served-append a zero x l = ground arith
times_served-append a (suc n) x l = ground (arith, times_served-append a n x l)

times_served-build :
    (a : ℕ) (bs : List Backend)
    → times_served a (map some (build_weighted_list bs)) ≡ weight_of a bs
unfolding build_weighted_list weight_of times_served
times_served-build a [] = refl
times_served-build a (x ∷ bs) =
    times_served-append a _ x _
    ∙ ap (λ k. (if x.address == a then pos_part x.weight else 0) + k) (times_served-build a bs)

-- With all backends healthy, in a full round of the counter that starts at the head of the list and
-- does not wrap, each backend is served exactly as often as its weight.
pub times_served-weight :
    (b : Balancer) (a : ℕ)
    → IsBuilt b
    → AllHealthy b
    → b.counter % length b.expanded ≡ 0
    → b.counter + length b.expanded ≤ u64_mod
    → times_served a (served (length b.expanded) b) ≡ weight_of a b.backends
times_served-weight b a built up start room =
    ap (times_served a) (full_cycle b up start room ∙ ap (map some) built.expands)
    ∙ times_served-build a b.backends
