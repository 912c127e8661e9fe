-- ===== src/Proxy/Circuit/History.antt =====
-- The circuit breaker of proxy/circuit.go after any sequence of calls.
use cdn_edge.Common.{
  ℕ, zero, suc, ◌≡◌, ◌≢◌, true, false, arith, Option, none, some, List, [], ◌∷◌, ◌++◌, map, length,
  replicate, if◌then◌else◌,
}
use cdn_edge.Common.Int.{ℤ, pos, ◌-ℤ◌, ◌≤ℤ◌, leb_ℤ}
use cdn_edge.Proxy.Circuit.{
  closed, open_state, half_open, CircuitBreaker, new_circuit_breaker, allow, Event, asks, succeeds,
  fails, step, run,
}

-- The failures since the last success.
abbrev pub trailing_failures : List Event → ℕ
trailing_failures [] = 0
trailing_failures (asks _ ∷ h) = trailing_failures h
trailing_failures (succeeds ∷ h) = 0
trailing_failures (fails _ ∷ h) = suc (trailing_failures h)

abbrev pub latest_failure : List Event → Option ℤ
latest_failure [] = none
latest_failure (asks _ ∷ h) = latest_failure h
latest_failure (succeeds ∷ h) = latest_failure h
latest_failure (fails t ∷ h) = some t

-- The breaker `cb` has come about by the history `h`.
pub record Reflects (f s t : ℤ) (cb : CircuitBreaker) (h : List Event) : Type 0 where
  pub counted : cb.failures ≡ trailing_failures h
  pub same_failure_threshold : cb.failure_threshold ≡ f
  pub same_success_threshold : cb.success_threshold ≡ s
  pub same_timeout : cb.open_timeout ≡ t
  pub below : cb.state ≡ closed → pos (suc cb.failures) ≤ℤ f
  pub testing : cb.state ≡ half_open → pos (suc cb.successes) ≤ℤ s
  pub failed : cb.state ≢ closed → latest_failure h ≡ some cb.last_failure

step-Reflects :
    (f s t : ℤ) (cb : CircuitBreaker) (h : List Event) (e : Event)
    → pos 1 ≤ℤ f
    → pos 1 ≤ℤ s
    → Reflects f s t cb h
    → Reflects f s t (step e cb) (e ∷ h)
unfolding step
step-Reflects f s t cb h (asks now) pf ps r = ground arith
step-Reflects f s t cb h succeeds pf ps r = ground arith
step-Reflects f s t cb h (fails now) pf ps r = ground arith

run-Reflects :
    (f s t : ℤ) (h : List Event)
    → pos 1 ≤ℤ f
    → pos 1 ≤ℤ s
    → Reflects f s t (run (new_circuit_breaker f s t) h) h
unfolding run new_circuit_breaker
run-Reflects f s t [] pf ps = ground arith
run-Reflects f s t (e ∷ h) pf ps = step-Reflects f s t _ h e pf ps (run-Reflects f s t h pf ps)

-- With thresholds of at least 1, after any calls a breaker is closed only with fewer failures in
-- a row than the threshold, and in the other two states the failure that it measures its timeout
-- from is the latest one of the history.
pub run-closed-or-failed :
    (f s t : ℤ) (h : List Event)
    → pos 1 ≤ℤ f
    → pos 1 ≤ℤ s
    → let cb = run (new_circuit_breaker f s t) h in
      (cb.state ≡ closed → pos (suc (trailing_failures h)) ≤ℤ f)
      × (cb.state ≢ closed → latest_failure h ≡ some cb.last_failure)
run-closed-or-failed f s t h pf ps = let r = run-Reflects f s t h pf ps in ground arith

-- With thresholds of at least 1, after any calls a request is refused only within the timeout after
-- the latest failure that was recorded.
pub refused_after_failure :
    (f s t now : ℤ) (h : List Event)
    → pos 1 ≤ℤ f
    → pos 1 ≤ℤ s
    → (allow now (run (new_circuit_breaker f s t) h)).1 ≡ false
    → (last : ℤ) × (latest_failure h ≡ some last) × (now -ℤ last ≤ℤ t)
unfolding allow
refused_after_failure f s t now h pf ps refused =
    let r = run-Reflects f s t h pf ps in
    ((run (new_circuit_breaker f s t) h).last_failure, ground arith, ground arith)

record Failed (cb r : CircuitBreaker) (n : ℕ) : Type 0 where
  same : r.failure_threshold ≡ cb.failure_threshold
  counted : r.failures ≡ n
  tripped : r.state ≡ (if leb_ℤ cb.failure_threshold (pos n) then open_state else closed)

run-fails-Failed :
    (cb : CircuitBreaker) (times : List ℤ)
    → cb.state ≡ closed
    → cb.failures ≡ 0
    → pos 1 ≤ℤ cb.failure_threshold
    → Failed cb (run cb (map fails times)) (length times)
unfolding run
run-fails-Failed cb [] c z h = ground arith
run-fails-Failed cb (t ∷ times) c z h =
    let ih = run-fails-Failed cb times c z h in unfold step in ground arith

-- From a closed breaker without failures and with a threshold of at least 1, consecutive failures
-- open it exactly when they are as many as the threshold.
pub run-fails :
    (cb : CircuitBreaker) (times : List ℤ)
    → cb.state ≡ closed
    → cb.failures ≡ 0
    → pos 1 ≤ℤ cb.failure_threshold
    → (run cb (map fails times)).state
      ≡ (if leb_ℤ cb.failure_threshold (pos (length times)) then open_state else closed)
run-fails cb times c z h = (run-fails-Failed cb times c z h).tripped

record Recovered (cb r : CircuitBreaker) (k : ℕ) : Type 0 where
  same : r.success_threshold ≡ cb.success_threshold
  counted : r.state ≡ half_open → r.successes ≡ k
  state : r.state ≡ (if leb_ℤ cb.success_threshold (pos k) then closed else half_open)

run-succeeds-Recovered :
    (cb : CircuitBreaker) (now : ℤ) (k : ℕ)
    → cb.state ≡ open_state
    → (allow now cb).1 ≡ true
    → pos 1 ≤ℤ cb.success_threshold
    → Recovered cb (run cb (replicate k succeeds ++ asks now ∷ [])) k
unfolding run
run-succeeds-Recovered cb now zero o a h = unfold step in ground arith
run-succeeds-Recovered cb now (suc k) o a h =
    let ih = run-succeeds-Recovered cb now k o a h in unfold step in ground arith

-- An open breaker with a success threshold of at least 1 that lets a request through closes after
-- exactly as many successes in a row as its threshold, and is half-open until then.
pub run-recovers :
    (cb : CircuitBreaker) (now : ℤ) (k : ℕ)
    → cb.state ≡ open_state
    → (allow now cb).1 ≡ true
    → pos 1 ≤ℤ cb.success_threshold
    → (run cb (replicate k succeeds ++ asks now ∷ [])).state
      ≡ (if leb_ℤ cb.success_threshold (pos k) then closed else half_open)
run-recovers cb now k o a h = (run-succeeds-Recovered cb now k o a h).state
