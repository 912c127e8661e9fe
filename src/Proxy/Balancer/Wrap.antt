-- ===== src/Proxy/Balancer/Wrap.antt =====
-- The wrap of the uint64 counter of proxy/balancer.go.
use cdn_edge.Common.{◌-◌, ◌≡◌, true, false, arith, none, [], ◌∷◌}
use cdn_edge.Proxy.Balancer.{Balancer, Backend, u64_mod, next_round_robin, try_next, is_healthy}

-- With three entries, at the last value of the counter, the round robin never looks at the third:
-- if only that one is healthy, the call fails all the same.
pub next_round_robin_misses :
    (b : Balancer) (x y z : Backend)
    → b.expanded ≡ x ∷ y ∷ z ∷ []
    → b.counter ≡ u64_mod - 1
    → is_healthy b x ≡ false
    → is_healthy b y ≡ false
    → is_healthy b z ≡ true
    → (next_round_robin b).1 ≡ none
unfolding next_round_robin try_next
next_round_robin_misses b x y z e c dx dy uz = ground arith
