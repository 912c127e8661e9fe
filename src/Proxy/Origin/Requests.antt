-- ===== src/Proxy/Origin/Requests.antt =====
-- What proxy/origin.go sends to the origin, and what it takes of the answer.
use cdn_edge.Common.{
  ℕ, ◌≤◌, ◌≡◌, refl, Bool, true, false, ◌||◌, codes, arith, Bool-cases, inl, inr, List, [], ◌∷◌,
  Text, length, length-take,
}
use cdn_edge.Common.Strings.{same, is_empty, eq_of_same}
use cdn_edge.Common.Http.{Fields, header_get, header_set, header_put, header_del}
use cdn_edge.Proxy.Origin.{
  Origin, OriginRequest, Result, response, error, forwarded_for_key, user_agent_key, user_agent,
  accept_key, accept_encoding_key, accept_language_key, range_key, forward, forward_all,
  build_request, limited, do_fetch, max_body,
}

-- Whether a key is one of some keys.
abbrev pub listed : Text → List Text → Bool
listed key [] = false
listed key (k ∷ ks) = same k key || listed key ks

-- Every key of a header is one of some keys.
abbrev pub KeysIn : List Text → Fields → Type 0
KeysIn ks [] = Unit
KeysIn ks ((k, vs) ∷ h) = (listed k ks ≡ true) × KeysIn ks h

del-KeysIn : (ks : List Text) (key : Text) (h : Fields) → KeysIn ks h → KeysIn ks (header_del key h)
unfolding header_del
del-KeysIn ks key [] i = tt
del-KeysIn ks key ((k, vs) ∷ h) (m, i) = elim (Bool-cases (same k key)) [
  | inl e ↦ rw e (del-KeysIn ks key h i)
  | inr e ↦ rw e (m, del-KeysIn ks key h i)
]

set-KeysIn :
    (ks : List Text) (key v : Text) (h : Fields)
    → listed key ks ≡ true
    → KeysIn ks h
    → KeysIn ks (header_set key v h)
unfolding header_set header_put
set-KeysIn ks key v h m i = (m, del-KeysIn ks key h i)

forward-KeysIn :
    (ks : List Text) (k : Text) (req out : Fields)
    → listed k ks ≡ true
    → KeysIn ks out
    → KeysIn ks (forward k req out)
unfolding forward
forward-KeysIn ks k req out m i = elim (Bool-cases (is_empty (header_get k req))) [
  | inl e ↦ rw e i
  | inr e ↦ rw e (set-KeysIn ks k (header_get k req) out m i)
]

-- The keys that may reach the origin.
abbrev pub sent_keys : List Text
sent_keys =
    codes "User-Agent"
    ∷ codes "X-Forwarded-For"
    ∷ codes "Accept"
    ∷ codes "Accept-Encoding"
    ∷ codes "Accept-Language"
    ∷ codes "Range"
    ∷ []

absent-KeysIn :
    (key : Text) (ks : List Text) (h : Fields)
    → listed key ks ≡ false
    → KeysIn ks h
    → header_get key h ≡ []
unfolding header_get
absent-KeysIn key ks [] n i = refl
absent-KeysIn key ks ((k, vs) ∷ h) n (m, i) = elim (Bool-cases (same k key)) [
  | inl e ↦ absurd (let q = eq_of_same k key e in cc)
  | inr e ↦ rw e (absent-KeysIn key ks h n i)
]

sent-KeysIn :
    (host_override url : Text) (req_header : Fields)
    → KeysIn sent_keys (build_request host_override url req_header).header
unfolding build_request forward_all same
sent-KeysIn host_override url req =
    let ks = sent_keys in
    let m0 : listed user_agent_key ks ≡ true = refl in
    let m1 : listed forwarded_for_key ks ≡ true = refl in
    let m2 : listed accept_key ks ≡ true = refl in
    let m3 : listed accept_encoding_key ks ≡ true = refl in
    let m4 : listed accept_language_key ks ≡ true = refl in
    let m5 : listed range_key ks ≡ true = refl in
    set-KeysIn ks user_agent_key user_agent _ m0 (
      forward-KeysIn ks forwarded_for_key req _ m1 (
        forward-KeysIn ks range_key req _ m5 (
          forward-KeysIn ks accept_language_key req _ m4 (
            forward-KeysIn ks accept_encoding_key req _ m3
              (forward-KeysIn ks accept_key req [] m2 tt)))))

-- Whatever headers a client sends, the request to the origin has no others than User-Agent,
-- X-Forwarded-For, Accept, Accept-Encoding, Accept-Language and Range; in particular neither the
-- cookies nor the Authorization of the client reach it.
pub build_request-KeysIn :
    (host_override url : Text) (req_header : Fields)
    → let h = (build_request host_override url req_header).header in
      KeysIn sent_keys h
      × (header_get (codes "Cookie") h ≡ [])
      × (header_get (codes "Authorization") h ≡ [])
unfolding same
build_request-KeysIn host url req =
    let i = sent-KeysIn host url req in
    (i, absent-KeysIn _ sent_keys _ refl i, absent-KeysIn _ sent_keys _ refl i)

-- The body of a result, within a bound.
abbrev pub Bounded : ℕ → Result → Type 0
Bounded n (response r) = length r.body ≤ n
Bounded n (error e) = Unit

-- However much the origin sends, the body of a fetch is within the configured bound, or within
-- 100 MiB without one.
pub do_fetch-Bounded :
    (client : OriginRequest → Result) (url : Text) (req_header : Fields) (o : Origin)
    → Bounded (max_body o.max_body_bytes) (do_fetch client url req_header o).1
unfolding do_fetch limited
do_fetch-Bounded client url req o = bounded (client (build_request o.host_override url req))
  where
    bounded : (x : Result) → Bounded (max_body o.max_body_bytes) (limited o.max_body_bytes x)
    bounded (error e) = tt
    bounded (response r) = omega (arith, length-take (max_body o.max_body_bytes) r.body)
