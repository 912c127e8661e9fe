-- ===== src/Proxy/Circuit/Laws.antt =====
-- What one call of a method of the circuit breaker of proxy/circuit.go does.
use cdn_edge.Common.{◌≡◌, ◌↔◌, false, arith}
use cdn_edge.Common.Int.{ℤ, ◌-ℤ◌, ◌≤ℤ◌}
use cdn_edge.Proxy.Circuit.{open_state, CircuitBreaker, allow}

-- `allow` refuses exactly in the open state while the timeout has not passed since the last
-- failure, and a refusal changes nothing.
pub allow-eq-false_iff :
    (now : ℤ) (cb : CircuitBreaker)
    → (allow now cb ≡ (cb, false))
      ↔ ((cb.state ≡ open_state) × (now -ℤ cb.last_failure ≤ℤ cb.open_timeout))
unfolding allow
allow-eq-false_iff now cb = ground arith
