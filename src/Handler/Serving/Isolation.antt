-- ===== src/Handler/Serving/Isolation.antt =====
-- What keeps the tenants of handler/multitenant.go apart, and where it fails.
use cdn_edge.Common.{
  ℕ, ◌⊎◌, ◌≡◌, refl, ap, ◌∙◌, Bool, true, false, not, ◌&&◌, if◌then◌else◌, Bool-cases, Option-cases,
  inl, inr, List, ◌++◌, Option, none, some, Text, codes, text_discrete,
}
use cdn_edge.Common.Strings.{same, is_empty}
use cdn_edge.Common.Http.{Fields, header_get}
use cdn_edge.Common.Int.{ℤ}
use cdn_edge.Cache.Key.{normalize_key}
use cdn_edge.ControlPlane.Tenant.{Domain, CacheRule}
use cdn_edge.Proxy.Circuit.{allow}
use cdn_edge.Proxy.Origin.{Response, Result, response, error, range_key}
use cdn_edge.Proxy.Origin.Flights.{fetch-joined}
use cdn_edge.Handler.Path.{mt_is_valid_path}
use cdn_edge.Handler.Requests.Answers.{status_of}
use cdn_edge.Handler.Writer.{Ending, replied, http_error, serve_response, bypass_word}
use cdn_edge.Handler.Cdn.{Request, World, response_key}
use cdn_edge.Handler.Fetching.{bad_gateway}
use cdn_edge.Handler.Tenants.{
  MultiTenantCdn, strip_port, lookup_domain, lookup_rules, bypassed, mt_determine_ttl,
}
use cdn_edge.Handler.Serving.{
  mt_origin_fetch, origin_url_of, mt_primary_key, at_hostname, mt_is_kept, mt_fetch_and_serve,
  mt_proxy_passthrough, mt_serve_whole, mt_serve_domain, mt_serve_http, with_origin_host,
}
use mathlib.Core.List.{lookup}

-- The keys that a request of the multi-tenant handler reads or writes the cache under: the one that
-- it is looked up by first, that of any response that it stores, and that of a lookup by the Vary of
-- an entry.
pub data KeyOf (w : World) (r : Request) : Text → Type 0 where
  primary : KeyOf w r (mt_primary_key w r)
  stored : (resp : Response) → KeyOf w r (response_key w (at_hostname r) resp)
  varied :
      (vary : Text)
      → KeyOf w r (normalize_key w.to_lower (strip_port r.host) r.path r.raw_query vary r.header)

-- A passthrough names its flight by the URI alone. While one is under way and the circuit lets
-- requests through, a passthrough of the same URI for any domain answers with the response of that
-- flight, whatever its own origin would send.
pub passthrough_shared :
    (w : World) (h : Fields) (r : Request) (domain : Domain) (mt : MultiTenantCdn) (a : ℕ)
    (resp : Response)
    → (allow w.now mt.origin.cb).1 ≡ true
    → lookup text_discrete (codes "passthrough:" ++ r.request_uri) mt.origin.flights ≡ some a
    → w.awaited ≡ response resp
    → (mt_proxy_passthrough w h r domain mt).1 ≡ (serve_response h resp bypass_word)
unfolding mt_proxy_passthrough mt_origin_fetch
passthrough_shared w h r domain mt a resp allowed flying got =
    let key = codes "passthrough:" ++ r.request_uri in
    let f : (mt_origin_fetch w key (origin_url_of domain r) r.header mt).1 ≡ response resp =
      ap (λ x. x.1)
        (fetch-joined w.client w.now w.later w.awaited key (origin_url_of domain r) r.header
          mt.origin a allowed flying)
      ∙ got in
    rw (f, mt_proxy_passthrough) refl

-- A response that the lifetime or the status keeps out leaves the cache as it was.
pub mt_not_kept-cache :
    (w : World) (h : Fields) (r : Request) (domain : Domain) (primary_key : Text)
    (rules : List (Option CacheRule)) (mt : MultiTenantCdn) (resp : Response) (ttl swr : ℤ)
    → (mt_origin_fetch w primary_key
        (origin_url_of domain r)
        (with_origin_host domain r.header)
        mt).1
      ≡ response resp
    → mt_determine_ttl resp.header domain rules r.path mt.default_ttl ≡ some (ttl, swr)
    → mt_is_kept resp ttl ≡ false
    → (mt_fetch_and_serve w h r domain primary_key rules mt).0.cache ≡ mt.cache
unfolding mt_fetch_and_serve mt_origin_fetch
mt_not_kept-cache w h r domain key rules mt resp ttl swr e t k =
    rw (e, mt_fetch_and_serve) (rw t (rw k refl))

passthrough-cache :
    (w : World) (h : Fields) (r : Request) (domain : Domain) (mt : MultiTenantCdn)
    → (mt_proxy_passthrough w h r domain mt).0.cache ≡ mt.cache
unfolding mt_proxy_passthrough mt_origin_fetch
passthrough-cache w h r domain mt =
    either
      (mt_origin_fetch w (codes "passthrough:" ++ r.request_uri) (origin_url_of domain r) r.header
        mt).1
  where
    either :
        (x : Result)
        → let mt1 =
            (mt_origin_fetch w
              (codes "passthrough:" ++ r.request_uri)
              (origin_url_of domain r)
              r.header
              mt).0 in
          (elim x as (λ _. MultiTenantCdn × Ending) [
            | error e ↦ (mt1, replied (bad_gateway h))
            | response resp ↦ (mt1, serve_response h resp bypass_word)
          ]).0.cache
          ≡ mt.cache
    either (error e) = refl
    either (response resp) = refl

-- A request without a Range to a path that a rule of its domain bypasses neither reads the cache
-- nor stores anything in it.
pub bypassed-cache :
    (w : World) (h : Fields) (r : Request) (domain : Domain) (mt : MultiTenantCdn)
    → is_empty (header_get range_key r.header) ≡ true
    → bypassed r.path (lookup_rules domain.id mt) ≡ some true
    → (mt_serve_domain w h r domain mt).0.cache ≡ mt.cache
unfolding mt_serve_domain mt_serve_whole
bypassed-cache w h r domain mt no_range b = elim (Bool-cases domain.active) [
  | inr i ↦ rw (i, mt_serve_domain) refl
  | inl i ↦
      rw (i, no_range, mt_serve_domain)
        (rw (b, mt_serve_whole) (passthrough-cache w h r (record domain { active = true }) mt))
]

-- Whether the configuration has an active domain of a hostname.
abbrev pub has_active : Option Domain → Bool
has_active none = false
has_active (some d) = d.active

-- The status of a refusal.
abbrev pub IsRefusal : Option ℕ → Type 0
IsRefusal s = (s ≡ some 405) ⊎ ((s ≡ some 400) ⊎ (s ≡ some 403))

abbrev Refused : MultiTenantCdn → MultiTenantCdn × Ending → Type 0
Refused mt x = (x.0 ≡ mt) × IsRefusal (status_of x.1)

if-Refused :
    (mt : MultiTenantCdn) (b : Bool) (x y : MultiTenantCdn × Ending)
    → Refused mt x
    → Refused mt y
    → Refused mt (if b then x else y)
if-Refused mt true x y p q = p
if-Refused mt false x y p q = q

-- A request for a hostname without an active domain is refused and changes nothing: it reaches
-- neither the cache nor an origin.
pub mt_serve_http-refuses :
    (w : World) (h : Fields) (r : Request) (mt : MultiTenantCdn)
    → has_active (lookup_domain (strip_port r.host) mt) ≡ false
    → ((mt_serve_http w h r mt).0 ≡ mt) × IsRefusal (status_of (mt_serve_http w h r mt).1)
unfolding mt_serve_http mt_serve_domain http_error
mt_serve_http-refuses w h r mt none_active =
    if-Refused mt (not (same r.method (codes "GET")) && not (same r.method (codes "HEAD"))) _ _
      (refl, inl refl)
      (if-Refused mt (not (mt_is_valid_path r.path)) _ _ (refl, inr (inl refl))
        (if-Refused mt (is_empty (strip_port r.host)) _ _ (refl, inr (inl refl))
          (elim (Option-cases (lookup_domain (strip_port r.host) mt)) [
            | inl n ↦ rw n (refl, inr (inr refl))
            | inr (d, e) ↦
                let i : d.active ≡ false = rw e at none_active in
                rw (e, mt_serve_domain) (inactive d i)
          ])))
  where
    inactive : (d : Domain) → d.active ≡ false → Refused mt (mt_serve_domain w h r d mt)
    inactive d i = rw (i, mt_serve_domain) (refl, inr (inr refl))
