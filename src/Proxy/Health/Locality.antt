-- ===== src/Proxy/Health/Locality.antt =====
-- The order in which the goroutines of a round of proxy/healthcheck.go record.
use cdn_edge.Common.{
  ℕ, ◌+◌, ◌≡◌, ◌≢◌, arith, List, [], ◌∷◌, if◌then◌else◌, ◌==◌, Bool-cases, inl, inr,
}
use cdn_edge.Proxy.Balancer.{Backend, mark_down, mark_up}
use cdn_edge.Proxy.Health.{
  HealthChecker, Probe, count_of, count_of-insert, check, check_all, record_success, record_failure,
}

-- The part of a schedule that is about one backend.
pub only : ℕ → List (Backend × Probe) → List (Backend × Probe)
only a [] = []
only a ((be, p) ∷ s) = let rest = only a s in if be.address == a then (be, p) ∷ rest else rest

-- Two states of the checker that are the same for one backend.
pub record Agree (a : ℕ) (hc hc' : HealthChecker) : Type 0 where
  pub thresholds : hc.threshold ≡ hc'.threshold
  pub recov_thresholds : hc.recov_threshold ≡ hc'.recov_threshold
  pub failures : count_of hc.failure_counts a ≡ count_of hc'.failure_counts a
  pub successes : count_of hc.success_counts a ≡ count_of hc'.success_counts a
  pub flags : hc.balancer.healthy a ≡ hc'.balancer.healthy a

check_same :
    (a : ℕ) (p : Probe) (be : Backend) (hc hc' : HealthChecker)
    → be.address ≡ a
    → Agree a hc hc'
    → Agree a (check p be hc) (check p be hc')
unfolding check record_success record_failure mark_down mark_up
check_same a p be hc hc' here r =
    let n = count_of hc.failure_counts be.address + 1 in
    let k = count_of hc.success_counts be.address + 1 in
    let n' = count_of hc'.failure_counts be.address + 1 in
    let k' = count_of hc'.success_counts be.address + 1 in
    ground (
      arith,
      count_of-insert hc.failure_counts be.address 0 a,
      count_of-insert hc.failure_counts be.address n a,
      count_of-insert hc.success_counts be.address 0 a,
      count_of-insert hc.success_counts be.address k a,
      count_of-insert hc'.failure_counts be.address 0 a,
      count_of-insert hc'.failure_counts be.address n' a,
      count_of-insert hc'.success_counts be.address 0 a,
      count_of-insert hc'.success_counts be.address k' a,
    )

check_other :
    (a : ℕ) (p : Probe) (be : Backend) (hc hc' : HealthChecker)
    → be.address ≢ a
    → Agree a hc hc'
    → Agree a (check p be hc) hc'
unfolding check record_success record_failure mark_down mark_up
check_other a p be hc hc' ne r = ground (
  arith,
  count_of-insert hc.failure_counts be.address 0 a,
  count_of-insert hc.failure_counts be.address (count_of hc.failure_counts be.address + 1) a,
  count_of-insert hc.success_counts be.address 0 a,
  count_of-insert hc.success_counts be.address (count_of hc.success_counts be.address + 1) a,
)

-- Whatever the order in which the goroutines of all backends record, a backend's counts and its
-- health flag come out as if only its own probes had been made.
pub check_all-only :
    (a : ℕ) (hc : HealthChecker) (s : List (Backend × Probe))
    → Agree a (check_all s hc) (check_all (only a s) hc)
unfolding check_all only
check_all-only a hc [] = ground arith
check_all-only a hc ((be, p) ∷ s) = elim (Bool-cases (be.address == a)) [
  | inl e ↦ rw e (check_same a p be _ _ (ground arith) (check_all-only a hc s))
  | inr ne ↦ rw ne (check_other a p be _ _ (ground arith) (check_all-only a hc s))
]
