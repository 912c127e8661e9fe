-- ===== src/Proxy/Circuit.antt =====
-- proxy/circuit.go: the circuit breaker. The clock is an argument: `now` is what `time.Now()`
-- returns, in nanoseconds. The mutex makes each method one step. The `int` counters are natural
-- numbers: they start at 0, only grow by one, and stay below 2^63 in any feasible run.
pub mod Laws
pub mod History
mod Tests
use cdn_edge.Common.{ℕ, ◌+◌, Bool, true, false, if◌then◌else◌, ite, List, [], ◌∷◌}
use cdn_edge.Common.Int.{ℤ, pos, ◌-ℤ◌, leb_ℤ, ltb_ℤ}

pub data State : Type 0 where
  closed open_state half_open : State

pub record CircuitBreaker : Type 0 where
  pub state : State
  pub failures : ℕ
  pub successes : ℕ
  pub failure_threshold : ℤ
  pub success_threshold : ℤ
  pub open_timeout : ℤ
  pub last_failure : ℤ

-- `time.Time{}`, the value of the field before the first failure, is time 0 here; `allow` reads
-- the field in the open state only, after a failure has set it.
pub new_circuit_breaker : ℤ → ℤ → ℤ → CircuitBreaker
new_circuit_breaker failure_threshold success_threshold open_timeout = record {
  state = closed;
  failures = 0;
  successes = 0;
  failure_threshold = failure_threshold;
  success_threshold = success_threshold;
  open_timeout = open_timeout;
  last_failure = pos 0;
}

unfoldable pub allow : ℤ → CircuitBreaker → CircuitBreaker × Bool
unfolding ◌-ℤ◌
allow now cb = elim cb.state [
  | closed ↦ (cb, true)
  | open_state ↦
      if ltb_ℤ cb.open_timeout (now -ℤ cb.last_failure)
      then (record cb { state = half_open; successes = 0 }, true)
      else (cb, false)
  | half_open ↦ (cb, true)
]

is_half_open : State → Bool
is_half_open half_open = true
is_half_open _ = false

pub record_success : CircuitBreaker → CircuitBreaker
unfolding is_half_open
record_success cb =
    if is_half_open cb.state
    then (if leb_ℤ cb.success_threshold (pos (cb.successes + 1))
        then record cb { failures = 0; successes = cb.successes + 1; state = closed }
        else record cb { failures = 0; successes = cb.successes + 1 })
    else record cb { failures = 0 }

pub record_failure : ℤ → CircuitBreaker → CircuitBreaker
unfolding is_half_open
record_failure now cb =
    if is_half_open cb.state
    then tripped
    else (if leb_ℤ cb.failure_threshold (pos (cb.failures + 1)) then tripped else counted)
  where
    counted : CircuitBreaker
    counted = record cb { last_failure = now; failures = cb.failures + 1 }

    tripped : CircuitBreaker
    tripped = record counted { state = open_state; successes = 0 }

-- A call of one of the three methods, at the time that the clock shows.
pub data Event : Type 0 where
  asks : ℤ → Event
  succeeds : Event
  fails : ℤ → Event

pub step : Event → CircuitBreaker → CircuitBreaker
unfolding allow record_success record_failure
step (asks now) cb = (allow now cb).0
step succeeds cb = record_success cb
step (fails now) cb = record_failure now cb

-- The events of a history stand newest first.
pub run : CircuitBreaker → List Event → CircuitBreaker
unfolding step
run cb [] = cb
run cb (e ∷ h) = step e (run cb h)
