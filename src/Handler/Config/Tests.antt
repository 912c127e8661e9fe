-- ===== src/Handler/Config/Tests.antt =====
-- Configurations of handler/multitenant.go that arrive, at concrete answers.
use cdn_edge.Common.{◌≡◌, refl, inl, List, [], ◌∷◌, Option, none, some, Text, codes}
use cdn_edge.Common.Int.{ℤ, pos}
use cdn_edge.ControlPlane.Tenant.{EdgeConfig}
use cdn_edge.Handler.Fetching.Tests.{empty_cache, small_origin}
use cdn_edge.Handler.Tenants.{MultiTenantCdn, update_config}
use cdn_edge.Handler.Config.{
  new_config_poller, Answer, failed, answered, parsed, poll, handle_config_push,
}
use cdn_edge.Common.Strings.{same}
use cdn_edge.Handler.Config.Versions.{
  polls, newest, Synced, polls-newest, Arrival, push, polled, arrivals,
}

-- A configuration of one byte, its version.
abbrev unmarshal : Text → Option EdgeConfig
unmarshal [] = none
unmarshal (n ∷ l) = some (record { version = pos n; timestamp = pos 0; domains = []; rules = [] })

abbrev no_config : MultiTenantCdn
no_config = record {
  config = none;
  cache = empty_cache;
  origin = small_origin;
  predictor = none;
  default_ttl = pos 60;
}

abbrev answers : List Answer
answers =
    answered 200 (some (4 ∷ []))
    ∷ failed
    ∷ answered 500 (some (9 ∷ []))
    ∷ answered 200 (some (3 ∷ []))
    ∷ []

polls-newest_example :
    ((polls unmarshal answers (new_config_poller, no_config)).0.last_version
      ≡ newest unmarshal new_config_poller.last_version answers)
    × Synced unmarshal (polls unmarshal answers (new_config_poller, no_config))
polls-newest_example = polls-newest unmarshal answers (new_config_poller, no_config) (inl refl)

ends_at_four : newest unmarshal (pos 0) answers ≡ pos 4
unfolding parsed
ends_at_four = refl

abbrev versioned : ℤ → EdgeConfig
versioned v = record { version = v; timestamp = pos 0; domains = []; rules = [] }

-- A poll brings 3, a push 5, and a second poll 4.
abbrev before : List (Arrival unmarshal)
before = polled (answered 200 (some (3 ∷ []))) ∷ push (codes "POST") (some (5 ∷ [])) ∷ []

five_in_force :
    (arrivals unmarshal before (new_config_poller, no_config)).1.config ≡ some (versioned (pos 5))
unfolding parsed poll handle_config_push update_config same
five_in_force = refl
