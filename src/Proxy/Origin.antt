-- ===== src/Proxy/Origin.antt =====
-- proxy/origin.go: the client of the origin, behind the circuit breaker, with one request in
-- flight for each cache key. `mu` makes each access to `flights` one step: a fetch is `begin` up
-- to the request, the request itself, and `finish` behind it. `client` stands for net/http's
-- client: the request gives a response with its whole body, or fails. An error is its text.
pub mod Requests
pub mod Flights
mod Tests
use cdn_edge.Common.{
  ℕ, ◌+◌, ◌*◌, ◌^◌, Bool, true, false, ◌&&◌, leb, if◌then◌else◌, List, [], ◌∷◌, ◌++◌, Option, none,
  some, Text, length, take, get_or, set, text_discrete,
}
use cdn_edge.Common.Int.{ℤ, pos, leb_ℤ, pos_part}
use cdn_edge.Common.Assoc.{insert, delete}
use cdn_edge.Common.Strings.{is_empty}
use cdn_edge.Common.Http.{Fields, header_get, header_set}
use cdn_edge.Proxy.Circuit.{CircuitBreaker, allow, record_success, record_failure}
use mathlib.Core.List.{lookup}

pub record Response : Type 0 where
  pub status_code : ℕ
  pub header : Fields
  pub body : Text

-- What a fetch returns: a response, or the text of an error.
pub data Result : Type 0 where
  response : Response → Result
  error : Text → Result

pub record Flight : Type 0 where
  pub done : Bool
  pub result : Result

-- A request to the origin; `host` is set when `req.Host` is.
pub record OriginRequest : Type 0 where
  pub url : Text
  pub header : Fields
  pub host : Option Text

-- `sent` is no field of the code: it lists the requests that have been handed to the client.
pub record Origin : Type 0 where
  pub sent : List OriginRequest
  pub cb : CircuitBreaker
  pub max_body_bytes : ℤ
  pub host_override : Text
  pub flights : List (Text × ℕ)
  pub landed : List Flight

-- `Accept`
abbrev pub accept_key : Text
accept_key = 65 ∷ 99 ∷ 99 ∷ 101 ∷ 112 ∷ 116 ∷ []

-- `Accept-Encoding`
abbrev pub accept_encoding_key : Text
accept_encoding_key = accept_key ++ 45 ∷ 69 ∷ 110 ∷ 99 ∷ 111 ∷ 100 ∷ 105 ∷ 110 ∷ 103 ∷ []

-- `Accept-Language`
abbrev pub accept_language_key : Text
accept_language_key = accept_key ++ 45 ∷ 76 ∷ 97 ∷ 110 ∷ 103 ∷ 117 ∷ 97 ∷ 103 ∷ 101 ∷ []

-- `Range`
abbrev pub range_key : Text
range_key = 82 ∷ 97 ∷ 110 ∷ 103 ∷ 101 ∷ []

-- `X-Forwarded-For`
abbrev pub forwarded_for_key : Text
forwarded_for_key =
    88 ∷ 45 ∷ 70 ∷ 111 ∷ 114 ∷ 119 ∷ 97 ∷ 114 ∷ 100 ∷ 101 ∷ 100 ∷ 45 ∷ 70 ∷ 111 ∷ 114 ∷ []

-- `User-Agent`
abbrev pub user_agent_key : Text
user_agent_key = 85 ∷ 115 ∷ 101 ∷ 114 ∷ 45 ∷ 65 ∷ 103 ∷ 101 ∷ 110 ∷ 116 ∷ []

-- `CDN-Edge/1.0`
abbrev pub user_agent : Text
user_agent = 67 ∷ 68 ∷ 78 ∷ 45 ∷ 69 ∷ 100 ∷ 103 ∷ 101 ∷ 47 ∷ 49 ∷ 46 ∷ 48 ∷ []

-- `Host`
abbrev pub host_key : Text
host_key = 72 ∷ 111 ∷ 115 ∷ 116 ∷ []

abbrev pub forward_headers : List Text
forward_headers = accept_key ∷ accept_encoding_key ∷ accept_language_key ∷ range_key ∷ []

-- `if v := reqHeader.Get(h); v != "" { req.Header.Set(h, v) }`
unfoldable pub forward : Text → Fields → Fields → Fields
forward h req_header out =
    if is_empty (header_get h req_header) then out else header_set h (header_get h req_header) out

unfoldable pub forward_all : List Text → Fields → Fields → Fields
forward_all [] req_header out = out
forward_all (h ∷ hs) req_header out = forward_all hs req_header (forward h req_header out)

-- The two overrides of `req.Host`, the second for a tenant.
unfoldable pub host_of : Text → Fields → Option Text
host_of host_override req_header =
    if is_empty host_override
    then (if is_empty (header_get host_key req_header)
        then none
        else some (header_get host_key req_header))
    else some host_override

-- The request of `doFetch`.
unfoldable pub build_request : Text → Text → Fields → OriginRequest
build_request host_override url req_header = record {
  url = url;
  header =
      header_set user_agent_key user_agent
        (forward forwarded_for_key req_header (forward_all forward_headers req_header []));
  host = host_of host_override req_header;
}

-- `100 << 20` without a bound.
unfoldable pub max_body : ℤ → ℕ
max_body max_body_bytes =
    if leb_ℤ max_body_bytes (pos 0) then 100 * 2 ^ 20 else pos_part max_body_bytes

-- `io.LimitReader` ends the body at the bound.
unfoldable pub limited : ℤ → Result → Result
limited max_body_bytes (error e) = error e
limited max_body_bytes (response r) =
    response (record r { body = take (max_body max_body_bytes) r.body })

module _ (client : OriginRequest → Result) where
  unfoldable pub do_fetch : Text → Fields → Origin → Origin × Result
  do_fetch url req_header o =
      let request = build_request o.host_override url req_header in
      (record o { sent = o.sent ++ request ∷ [] }, limited o.max_body_bytes (client request))

-- How `Fetch` begins: the circuit is open, it waits for the flight at an address, or it is the one
-- that asks the origin, with its own flight.
pub data Begun : Type 0 where
  circuit_open : Begun
  joins : ℕ → Begun
  leads : ℕ → Begun

-- Nothing reads the result of a flight that is not done.
abbrev pub new_flight : Flight
new_flight = record { done = false; result = error [] }

unfoldable pub begin : ℤ → Text → Origin → Origin × Begun
begin now cache_key o0 =
    let (cb, allowed) = allow now o0.cb in
    let o = record o0 { cb = cb } in
    if allowed
    then (elim (lookup text_discrete cache_key o.flights) [
      | some a ↦ (o, joins a)
      | none ↦ (
        record o {
          flights = insert text_discrete cache_key (length o.landed) o.flights;
          landed = o.landed ++ new_flight ∷ [];
        },
        leads (length o.landed),
      )
    ])
    else (o, circuit_open)

-- What the circuit breaker learns of a result.
unfoldable pub record_result : ℤ → Result → CircuitBreaker → CircuitBreaker
record_result now (error e) cb = record_failure now cb
record_result now (response r) cb =
    if leb 500 r.status_code then record_failure now cb else record_success cb

unfoldable pub finish : ℤ → Text → ℕ → Result → Origin → Origin
finish now cache_key a result o = record o {
  cb = record_result now result o.cb;
  landed = set o.landed a (record { done = true; result = result });
  flights = delete text_discrete cache_key o.flights;
}

-- What a caller that joined a flight receives; `none` while it is not done. A caller that gives
-- up, for its context or the coalescing timeout, returns an error instead.
unfoldable pub joined : ℕ → Origin → Option Result
joined a o = let f = get_or o.landed a new_flight in if f.done then some f.result else none

-- `ErrCircuitOpen`
abbrev pub err_circuit_open : Result
err_circuit_open = error (99 ∷ 105 ∷ 114 ∷ 99 ∷ 117 ∷ 105 ∷ 116 ∷ 32 ∷ 111 ∷ 112 ∷ 101 ∷ 110 ∷ [])

-- A call of `Fetch` that runs alone, so that no flight of another call can be in the way; `later`
-- is the time at its end, `awaited` what a flight that another call left would give.
module _ (client : OriginRequest → Result) where
  unfoldable pub fetch : ℤ → ℤ → Result → Text → Text → Fields → Origin → Origin × Result
  fetch now later awaited cache_key url req_header o =
      let (o', begun) = begin now cache_key o in
      elim begun [
        | circuit_open ↦ (o', err_circuit_open)
        | joins a ↦ (o', awaited)
        | leads a ↦
            let (o1, result) = do_fetch client url req_header o' in
            (finish later cache_key a result o1, result)
      ]
