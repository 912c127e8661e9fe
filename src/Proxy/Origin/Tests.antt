-- ===== src/Proxy/Origin/Tests.antt =====
-- The client of proxy/origin.go at concrete requests.
use cdn_edge.Common.{◌≡◌, refl, true, false, [], ◌∷◌, none, Text, codes, text_discrete}
use cdn_edge.Common.Int.{pos, ◌-ℤ◌}
use cdn_edge.Common.Strings.{same}
use cdn_edge.Common.Http.{Fields, header_get, header_set, header_put, header_del}
use cdn_edge.Proxy.Circuit.{CircuitBreaker, allow, open_state, closed}
use cdn_edge.Proxy.Origin.{
  Origin, OriginRequest, Result, response, begin, leads, build_request, forward, forward_all,
  accept_key, user_agent_key, user_agent,
}
use cdn_edge.Proxy.Origin.Requests.{KeysIn, sent_keys, build_request-KeysIn}
use mathlib.Core.List.{lookup}

abbrev breaker : CircuitBreaker
breaker = record {
  state = closed;
  failures = 0;
  successes = 0;
  failure_threshold = pos 5;
  success_threshold = pos 3;
  open_timeout = pos 30;
  last_failure = pos 0;
}

abbrev small_origin : Origin
small_origin = record {
  sent = [];
  cb = breaker;
  max_body_bytes = pos 2;
  host_override = [];
  flights = [];
  landed = [];
}

-- Three bytes for every request.
abbrev echo : OriginRequest → Result
echo r = response (record { status_code = 200; header = []; body = 1 ∷ 2 ∷ 3 ∷ [] })

abbrev page : Text
page = 47 ∷ []

-- A cookie and an Accept.
abbrev asked : Fields
asked =
    ((67 ∷ 111 ∷ 111 ∷ 107 ∷ 105 ∷ 101 ∷ []), (120 ∷ []) ∷ []) ∷ (accept_key, (42 ∷ []) ∷ []) ∷ []

sent :
    (build_request [] page asked).header
    ≡ (user_agent_key, user_agent ∷ []) ∷ (accept_key, (42 ∷ []) ∷ []) ∷ []
unfolding build_request forward_all forward header_get header_set header_put header_del same
sent = refl

build_request-KeysIn_example :
    let h = (build_request [] page asked).header in
    KeysIn sent_keys h
    × (header_get (codes "Cookie") h ≡ [])
    × (header_get (codes "Authorization") h ≡ [])
build_request-KeysIn_example = build_request-KeysIn [] page asked

first_leads : (begin (pos 1) page small_origin).1 ≡ leads 0
unfolding begin allow lookup
first_leads = refl

still_allowed : (allow (pos 2) (begin (pos 1) page small_origin).0.cb).1 ≡ true
unfolding begin allow lookup
still_allowed = refl

abbrev tripped : Origin
tripped = record small_origin { cb = record breaker { state = open_state; last_failure = pos 90 } }

refused : (allow (pos 100) tripped.cb).1 ≡ false
unfolding allow ◌-ℤ◌
refused = refl

allowed : (allow (pos 1) breaker).1 ≡ true
unfolding allow
allowed = refl

no_flight : lookup text_discrete page small_origin.flights ≡ none
unfolding lookup
no_flight = refl
