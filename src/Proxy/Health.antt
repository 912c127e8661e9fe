-- ===== src/Proxy/Health.antt =====
-- proxy/healthcheck.go. The two count maps are keyed by the backend's address. The HTTP client
-- is not modelled: what one probe brings back is a `Probe`. `checkAll` runs a goroutine for each
-- backend, and the mutex makes each record a step: a run of it is a schedule, the order in which
-- the goroutines record.
pub mod Streak
pub mod Locality
mod Tests
use mathlib.Core.List.{lookup}
use mathlib.Core.Option.{get_or}
use cdn_edge.Common.{
  ℕ, ◌+◌, ◌≡◌, ◌==◌, arith, Bool, true, false, ◌&&◌, ltb, leb, if◌then◌else◌, List, [], ◌∷◌, Text,
  ℕ_discrete,
}
use cdn_edge.Common.Assoc.{insert, lookup-insert}
use cdn_edge.Common.Int.{ℤ, pos, leb_ℤ}
use cdn_edge.Proxy.Balancer.{Balancer, Backend, mark_down, mark_up}

pub record HealthChecker : Type 0 where
  pub balancer : Balancer
  pub interval : ℤ
  pub timeout : ℤ
  pub path : Text
  pub threshold : ℤ
  pub failure_counts : List (ℕ × ℕ)
  pub success_counts : List (ℕ × ℕ)
  pub recov_threshold : ℤ

pub new_health_checker : Balancer → ℤ → ℤ → Text → ℤ → HealthChecker
new_health_checker balancer interval timeout path threshold = record {
  balancer = balancer;
  interval = interval;
  timeout = timeout;
  path = path;
  threshold = if leb_ℤ threshold (pos 0) then pos 3 else threshold;
  failure_counts = [];
  success_counts = [];
  recov_threshold = pos 1;
}

-- `counts[be]`, 0 for a missing key.
abbrev pub count_of : List (ℕ × ℕ) → ℕ → ℕ
count_of counts a = get_or (lookup ℕ_discrete a counts) 0

pub count_of-insert :
    (counts : List (ℕ × ℕ)) (a n b : ℕ)
    → count_of (insert ℕ_discrete a n counts) b ≡ (if a == b then n else count_of counts b)
count_of-insert counts a n b = ground (arith, lookup-insert ℕ_discrete a b n counts)

pub record_failure : Backend → HealthChecker → HealthChecker
record_failure be hc =
    let n = count_of hc.failure_counts be.address + 1 in
    let counted = record hc {
      success_counts = insert ℕ_discrete be.address 0 hc.success_counts;
      failure_counts = insert ℕ_discrete be.address n hc.failure_counts;
    } in
    if leb_ℤ hc.threshold (pos n)
    then record counted { balancer = mark_down be hc.balancer }
    else counted

pub record_success : Backend → HealthChecker → HealthChecker
record_success be hc =
    let n = count_of hc.success_counts be.address + 1 in
    let counted = record hc {
      failure_counts = insert ℕ_discrete be.address 0 hc.failure_counts;
      success_counts = insert ℕ_discrete be.address n hc.success_counts;
    } in
    if leb_ℤ hc.recov_threshold (pos n)
    then record counted { balancer = mark_up be hc.balancer }
    else counted

-- What a request comes to: it cannot be built, it fails, or it is answered with a status.
pub data Probe : Type 0 where
  unbuilt failed : Probe
  answered : ℕ → Probe

pub is_success : Probe → Bool
is_success unbuilt = false
is_success failed = false
is_success (answered status) = leb 200 status && ltb status 400

pub check : Probe → Backend → HealthChecker → HealthChecker
check probe be hc = if is_success probe then record_success be hc else record_failure be hc

-- `checkAll` under a schedule, latest record first.
pub check_all : List (Backend × Probe) → HealthChecker → HealthChecker
check_all [] hc = hc
check_all ((be, probe) ∷ schedule) hc = check probe be (check_all schedule hc)
