-- ===== src/Proxy/Balancer.antt =====
-- proxy/balancer.go: the load balancer. A backend is a shared object: `address` stands for its
-- pointer, and the balancer's state holds the atomic `healthy` flag of each address. What
-- `rand.Intn` draws is an argument.
pub mod Selection
pub mod Cycle
pub mod Wrap
mod Tests
use cdn_edge.Common.{
  ℕ, zero, suc, ◌+◌, ◌%◌, ◌^◌, Bool, true, false, if◌then◌else◌, ◌==◌, List, [], ◌∷◌, ◌++◌, Option,
  none, some, Text, length, get_elem?, replicate,
}
use cdn_edge.Common.Int.{ℤ, pos, pos_part, leb_ℤ}

abbrev pub u64_mod : ℕ
u64_mod = 2 ^ 64

pub data Strategy : Type 0 where
  round_robin random least_conn : Strategy

pub record Backend : Type 0 where
  pub address : ℕ
  pub url : Text
  pub weight : ℤ

pub record Balancer : Type 0 where
  pub backends : List Backend
  pub counter : ℕ
  pub strategy : Strategy
  pub expanded : List Backend
  pub healthy : ℕ → Bool

-- `Weight <= 0` becomes 1.
pub with_default_weight : Backend → Backend
with_default_weight b = if leb_ℤ b.weight (pos 0) then record b { weight = pos 1 } else b

pub with_default_weights : List Backend → List Backend
unfolding with_default_weight
with_default_weights [] = []
with_default_weights (b ∷ bs) = with_default_weight b ∷ with_default_weights bs

pub build_weighted_list : List Backend → List Backend
build_weighted_list [] = []
build_weighted_list (b ∷ bs) = replicate (pos_part b.weight) b ++ build_weighted_list bs

pub new_balancer : List Backend → Strategy → Balancer
new_balancer backends strategy =
    let weighted = with_default_weights backends in
    record {
      backends = weighted;
      counter = 0;
      strategy = strategy;
      expanded = build_weighted_list weighted;
      healthy = λ _. true;
    }

pub is_healthy : Balancer → Backend → Bool
is_healthy b backend = b.healthy backend.address

-- `b.counter.Add(1)`: the counter is a uint64.
pub advance : Balancer → Balancer
advance b = record b { counter = (b.counter + 1) % u64_mod }

-- The `for` loop of `nextRoundRobin`, with the number of rounds left. `none` is
-- `ErrNoHealthyBackends`.
pub try_next : ℕ → Balancer → Balancer × Option Backend
unfolding advance is_healthy
try_next zero b = (b, none)
try_next (suc rounds) b =
    let rest = try_next rounds (advance b) in
    elim (get_elem? b.expanded (b.counter % length b.expanded)) [
      | none ↦ rest
      | some backend ↦ if is_healthy b backend then (advance b, some backend) else rest
    ]

pub next_round_robin : Balancer → Balancer × Option Backend
next_round_robin b = try_next (length b.expanded) b

pub healthy_of : (ℕ → Bool) → List Backend → List Backend
healthy_of flags [] = []
healthy_of flags (b ∷ bs) =
    let rest = healthy_of flags bs in if flags b.address then b ∷ rest else rest

-- `Healthy()`
pub healthy_backends : Balancer → List Backend
healthy_backends b = healthy_of b.healthy b.backends

-- `drawn` is the value of `rand.Intn(len(healthy))`.
pub next_random : ℕ → Balancer → Balancer × Option Backend
unfolding healthy_backends
next_random drawn b = (b, get_elem? (healthy_backends b) drawn)

pub next : ℕ → Balancer → Balancer × Option Backend
unfolding next_random next_round_robin
next drawn b = elim b.strategy [
  | random ↦ next_random drawn b
  | least_conn ↦ next_round_robin b
  | round_robin ↦ next_round_robin b
]

pub set_flag : ℕ → Bool → (ℕ → Bool) → ℕ → Bool
set_flag address v flags a = if a == address then v else flags a

unfoldable pub mark_down : Backend → Balancer → Balancer
unfolding set_flag
mark_down backend b = record b { healthy = set_flag backend.address false b.healthy }

unfoldable pub mark_up : Backend → Balancer → Balancer
unfolding set_flag
mark_up backend b = record b { healthy = set_flag backend.address true b.healthy }
