-- ===== src/Proxy/Balancer/Tests.antt =====
-- The load balancer of proxy/balancer.go at concrete inputs.
use cdn_edge.Common.{◌-◌, ◌≡◌, ◌↔◌, refl, arith, true, false, [], ◌∷◌, none, length}
use cdn_edge.Common.Int.{pos}
use cdn_edge.Proxy.Balancer.{
  Backend, Balancer, u64_mod, round_robin, new_balancer, with_default_weights, with_default_weight,
  build_weighted_list, mark_down, set_flag, next, healthy_backends, healthy_of,
}
use cdn_edge.Proxy.Balancer.Selection.{IsBuilt, new_balancer-IsBuilt, next-eq-none_iff}
use cdn_edge.Proxy.Balancer.Cycle.{served, times_served, times_served-weight, weight_of}

abbrev light : Backend
light = record { address = 1; url = []; weight = pos 0 }

abbrev heavy : Backend
heavy = record { address = 2; url = []; weight = pos 2 }

abbrev light_1 : Backend
light_1 = record { address = 1; url = []; weight = pos 1 }

abbrev pair_balancer : Balancer
pair_balancer = new_balancer (light ∷ heavy ∷ []) round_robin

-- The light one is down.
abbrev half_balancer : Balancer
half_balancer = mark_down light pair_balancer

expands : pair_balancer.expanded ≡ light_1 ∷ heavy ∷ heavy ∷ []
unfolding new_balancer with_default_weights with_default_weight build_weighted_list
expands = refl

half_balancer-IsBuilt : IsBuilt half_balancer
unfolding mark_down
half_balancer-IsBuilt =
    let v = new_balancer-IsBuilt (light ∷ heavy ∷ []) round_robin in
    record { weighted = v.weighted; expands = v.expands }

next-eq-none_iff_example : ((next 0 half_balancer).1 ≡ none) ↔ (healthy_backends half_balancer ≡ [])
unfolding new_balancer with_default_weights with_default_weight build_weighted_list healthy_backends
    healthy_of mark_down set_flag
next-eq-none_iff_example =
    next-eq-none_iff 0 half_balancer half_balancer-IsBuilt (omega arith) (λ _. omega arith)

times_served-weight_example :
    times_served 2 (served (length pair_balancer.expanded) pair_balancer)
    ≡ weight_of 2 pair_balancer.backends
unfolding new_balancer with_default_weights with_default_weight build_weighted_list
times_served-weight_example =
    times_served-weight pair_balancer 2 (new_balancer-IsBuilt (light ∷ heavy ∷ []) round_robin)
      (λ a. refl) refl (omega arith)

-- Three backends, of which only the last is up, after 2^64 - 1 calls.
abbrev worn_balancer : Balancer
worn_balancer = record {
  backends = light_1 ∷ record light_1 { address = 2 } ∷ record light_1 { address = 3 } ∷ [];
  counter = u64_mod - 1;
  strategy = round_robin;
  expanded = light_1 ∷ record light_1 { address = 2 } ∷ record light_1 { address = 3 } ∷ [];
  healthy = set_flag 1 false (set_flag 2 false (λ _. true));
}
