-- ===== src/Proxy/Circuit/Tests.antt =====
-- Runs of the circuit breaker of proxy/circuit.go, and its theorems at concrete inputs.
use cdn_edge.Common.{◌≡◌, refl, arith, List, [], ◌∷◌, some}
use cdn_edge.Common.Int.{ℤ, pos, ◌-ℤ◌, ◌≤ℤ◌}
use cdn_edge.Proxy.Circuit.{
  closed, open_state, CircuitBreaker, new_circuit_breaker, allow, asks, succeeds, fails, Event,
  step, run,
}
use cdn_edge.Proxy.Circuit.History.{latest_failure, refused_after_failure}

-- Two failures open it, one success closes it, and it stays open for 30.
abbrev small_breaker : CircuitBreaker
small_breaker = new_circuit_breaker (pos 2) (pos 1) (pos 30)

abbrev two_failures : List Event
two_failures = fails (pos 20) ∷ fails (pos 10) ∷ []

abbrev tripped_breaker : CircuitBreaker
tripped_breaker = run small_breaker two_failures

trips : tripped_breaker.state ≡ open_state
unfolding run step new_circuit_breaker
trips = refl

recovers : (run small_breaker (succeeds ∷ asks (pos 60) ∷ two_failures)).state ≡ closed
unfolding run step new_circuit_breaker
recovers = refl

refused_after_failure_example :
    (last : ℤ) × (latest_failure two_failures ≡ some last) × (pos 40 -ℤ last ≤ℤ pos 30)
unfolding run step allow new_circuit_breaker
refused_after_failure_example =
    refused_after_failure (pos 2) (pos 1) (pos 30) (pos 40) two_failures (omega arith) (omega arith)
      refl
