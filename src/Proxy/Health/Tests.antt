-- ===== src/Proxy/Health/Tests.antt =====
-- The health checker of proxy/healthcheck.go at concrete inputs.
use cdn_edge.Common.{◌≡◌, refl, true, not, List, [], ◌∷◌}
use cdn_edge.Common.Int.{pos, leb_ℤ}
use cdn_edge.Proxy.Balancer.{Backend, Balancer, round_robin}
use cdn_edge.Proxy.Health.{HealthChecker, Probe, answered, failed, new_health_checker, check_all}
use cdn_edge.Proxy.Health.Streak.{failed_in_a_row, effective_threshold, check_all_streak}

abbrev first_backend : Backend
first_backend = record { address = 1; url = []; weight = pos 1 }

abbrev second_backend : Backend
second_backend = record { address = 2; url = []; weight = pos 1 }

abbrev watched : Balancer
watched = record {
  backends = first_backend ∷ second_backend ∷ [];
  counter = 0;
  strategy = round_robin;
  expanded = first_backend ∷ second_backend ∷ [];
  healthy = λ _. true;
}

abbrev schedule : List (Backend × Probe)
schedule =
    (first_backend, answered 503)
    ∷ (second_backend, answered 200)
    ∷ (first_backend, failed)
    ∷ (first_backend, failed)
    ∷ (second_backend, failed)
    ∷ []

abbrev checker : HealthChecker
checker = new_health_checker watched (pos 10) (pos 1) [] (pos 0)

check_all_streak_example :
    (check_all schedule checker).balancer.healthy 1
    ≡ not (leb_ℤ (effective_threshold (pos 0)) (pos (failed_in_a_row 1 schedule)))
check_all_streak_example = check_all_streak watched (pos 10) (pos 1) [] (pos 0) 1 schedule refl
