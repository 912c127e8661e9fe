-- ===== src/Proxy/Health/Streak.antt =====
-- When the health checker of proxy/healthcheck.go holds a backend for healthy.
use mathlib.Core.List.{lookup}
use cdn_edge.Common.{ℕ, ◌+◌, ◌≡◌, true, not, arith, List, [], ◌∷◌, if◌then◌else◌, ◌==◌, Text}
use cdn_edge.Common.Int.{ℤ, pos, leb_ℤ, ◌≤ℤ◌}
use cdn_edge.Proxy.Balancer.{Balancer, Backend, mark_down, mark_up}
use cdn_edge.Proxy.Health.{
  HealthChecker, Probe, count_of, count_of-insert, check, check_all, record_success, record_failure,
  is_success, new_health_checker,
}

-- The probes of the backend at an address that have failed since its last success.
pub failed_in_a_row : ℕ → List (Backend × Probe) → ℕ
failed_in_a_row a [] = 0
failed_in_a_row a ((be, probe) ∷ h) =
    let rest = failed_in_a_row a h in
    if be.address == a then (if is_success probe then 0 else rest + 1) else rest

-- The checker after the history `h`, as the backend at the address `a` sees it.
record Tracks (t : ℤ) (a : ℕ) (hc : HealthChecker) (h : List (Backend × Probe)) : Type 0 where
  same : hc.threshold ≡ t
  eager : hc.recov_threshold ≡ pos 1
  counted : count_of hc.failure_counts a ≡ failed_in_a_row a h
  flagged : hc.balancer.healthy a ≡ not (leb_ℤ t (pos (failed_in_a_row a h)))

check-Tracks :
    (t : ℤ) (a : ℕ) (hc : HealthChecker) (h : List (Backend × Probe)) (be : Backend) (p : Probe)
    → pos 1 ≤ℤ t
    → Tracks t a hc h
    → Tracks t a (check p be hc) ((be, p) ∷ h)
unfolding check record_success record_failure failed_in_a_row mark_down mark_up
check-Tracks t a hc h be p pt r = ground (
  arith,
  count_of-insert hc.failure_counts be.address 0 a,
  count_of-insert hc.failure_counts be.address (count_of hc.failure_counts be.address + 1) a,
)

check_all-Tracks :
    (t : ℤ) (a : ℕ) (hc : HealthChecker) (h : List (Backend × Probe))
    → pos 1 ≤ℤ t
    → Tracks t a hc []
    → Tracks t a (check_all h hc) h
unfolding check_all
check_all-Tracks t a hc [] pt r = r
check_all-Tracks t a hc ((be, p) ∷ h) pt r =
    check-Tracks t a _ h be p pt (check_all-Tracks t a hc h pt r)

-- The threshold that the constructor sets: 3 if the given one is not positive.
abbrev pub effective_threshold : ℤ → ℤ
effective_threshold threshold = if leb_ℤ threshold (pos 0) then pos 3 else threshold

-- From a checker as the constructor makes it, after any rounds of probes in any order, a backend
-- that started healthy is healthy exactly if its failures since its last success are fewer than
-- the threshold.
pub check_all_streak :
    (b : Balancer) (interval timeout : ℤ) (path : Text) (threshold : ℤ) (a : ℕ)
    (h : List (Backend × Probe))
    → b.healthy a ≡ true
    → (check_all h (new_health_checker b interval timeout path threshold)).balancer.healthy a
      ≡ not (leb_ℤ (effective_threshold threshold) (pos (failed_in_a_row a h)))
unfolding new_health_checker failed_in_a_row lookup
check_all_streak b interval timeout path threshold a h up =
    (check_all-Tracks (effective_threshold threshold) a _ h (ground arith) (ground arith)).flagged
