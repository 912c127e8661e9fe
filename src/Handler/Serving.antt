-- ===== src/Handler/Serving.antt =====
-- handler/multitenant.go: `ServeHTTP` of the multi-tenant handler, as one run from its state to the
-- state behind it, in a `World` as in Handler/Cdn.antt.
pub mod Isolation
pub mod Replies
mod Tests
use cdn_edge.Common.{
  Bool, false, not, ◌&&◌, ◌||◌, if◌then◌else◌, List, [], ◌++◌, Option, none, some, Text, codes,
  length,
}
use cdn_edge.Common.Int.{ℤ, pos, ltb_ℤ}
use cdn_edge.Common.Strings.{same, is_empty, trim_end}
use cdn_edge.Common.Http.{Fields, header_get, header_set, header_del}
use cdn_edge.Cache.Entry.{Entry, get_header, is_expired, is_stale_servable}
use cdn_edge.Cache.Tiered.{get}
use cdn_edge.Cache.Key.{normalize_key}
use cdn_edge.Cache.Predictor.{is_likely_uncacheable}
use cdn_edge.ControlPlane.Tenant.{Domain, CacheRule}
use cdn_edge.Proxy.Origin.{Response, Result, response, error, fetch, range_key, host_key}
use cdn_edge.Handler.Range.{parse_range}
use cdn_edge.Handler.Directives.{has_cache_directive, is_cacheable_status, cache_control}
use cdn_edge.Handler.Path.{mt_is_valid_path}
use cdn_edge.Handler.Writer.{
  Ending, replied, panicked, serve_entry, serve_response, http_error, not_modified,
  serve_range_reply, hit_word, miss_word, stale_word, stale_error_word, bypass_word, fields_of,
}
use cdn_edge.Handler.Cdn.{Request, World, entry_of, response_key, put_both}
use cdn_edge.Handler.Fetching.{bad_gateway, teach}
use cdn_edge.Handler.Requests.{serve_part}
use cdn_edge.Handler.Tenants.{
  MultiTenantCdn, strip_port, lookup_domain, lookup_rules, bypassed, mt_determine_ttl,
}

-- `h.cache.Get(key)`
unfoldable pub mt_cache_get : World → ℤ → Text → MultiTenantCdn → MultiTenantCdn × Option Entry
mt_cache_get w now key mt =
    let (c, found) = get w.platform now key mt.cache in (record mt { cache = c }, found)

-- `h.origin.Fetch`
unfoldable pub mt_origin_fetch :
    World → Text → Text → Fields → MultiTenantCdn → MultiTenantCdn × Result
mt_origin_fetch w key url header mt =
    let (o, result) = fetch w.client w.now w.later w.awaited key url header mt.origin in
    (record mt { origin = o }, result)

unfoldable pub origin_url_of : Domain → Request → Text
origin_url_of domain r = trim_end 47 domain.origin_url ++ r.request_uri

-- The header of a request to the origin of a domain.
unfoldable pub with_origin_host : Domain → Fields → Fields
with_origin_host domain header =
    if is_empty domain.origin_host then header else header_set host_key domain.origin_host header

-- The request under the hostname without its port, which the keys are made of.
abbrev pub at_hostname : Request → Request
at_hostname r = record r { host = strip_port r.host }

unfoldable pub mt_primary_key : World → Request → Text
mt_primary_key w r = normalize_key w.to_lower (strip_port r.host) r.path r.raw_query [] []

unfoldable pub mt_is_kept : Response → ℤ → Bool
mt_is_kept resp ttl = ltb_ℤ (pos 0) ttl && is_cacheable_status resp.status_code

unfoldable pub mt_serve_stale_or_502 :
    World → Fields → Text → MultiTenantCdn → MultiTenantCdn × Ending
mt_serve_stale_or_502 w h key mt =
    let (mt', stale) = mt_cache_get w w.later key mt in
    elim stale [
      | some e ↦ (mt', serve_entry w.platform.codec w.later h e stale_error_word)
      | none ↦ (mt', replied (bad_gateway h))
    ]

unfoldable pub mt_fetch_and_serve :
    World
    → Fields
    → Request
    → Domain
    → Text
    → List (Option CacheRule)
    → MultiTenantCdn
    → MultiTenantCdn × Ending
mt_fetch_and_serve w h r domain primary_key rules mt =
    let (mt1, result) =
      mt_origin_fetch w primary_key (origin_url_of domain r) (with_origin_host domain r.header)
        mt in
    elim result [
      | error e ↦ mt_serve_stale_or_502 w h primary_key mt1
      | response resp ↦ elim (mt_determine_ttl resp.header domain rules r.path mt.default_ttl) [
        | none ↦ (mt1, panicked)
        | some (ttl, swr) ↦
            let entry = entry_of w (at_hostname r) resp ttl swr in
            let cache_key = response_key w (at_hostname r) resp in
            if mt_is_kept resp ttl
            then (
              record mt1 { cache = put_both w primary_key cache_key entry mt1.cache },
              serve_entry w.platform.codec w.later h entry miss_word,
            )
            else (
              record mt1 { predictor = teach w primary_key mt1.predictor },
              serve_response h resp bypass_word,
            )
      ]
    ]

-- `mtProxyPassthrough`
unfoldable pub mt_proxy_passthrough :
    World → Fields → Request → Domain → MultiTenantCdn → MultiTenantCdn × Ending
mt_proxy_passthrough w h r domain mt =
    let (mt1, result) =
      mt_origin_fetch w (codes "passthrough:" ++ r.request_uri) (origin_url_of domain r) r.header
        mt in
    elim result [
      | error e ↦ (mt1, replied (bad_gateway h))
      | response resp ↦ (mt1, serve_response h resp bypass_word)
    ]

-- `mtServeByteRange` behind a miss.
unfoldable pub mt_fetch_range :
    World → Fields → Request → Domain → Text → Text → MultiTenantCdn → MultiTenantCdn × Ending
mt_fetch_range w h r domain range_header primary_key mt =
    let (mt1, result) =
      mt_origin_fetch w primary_key (origin_url_of domain r)
        (with_origin_host domain (header_del range_key r.header)) mt in
    elim result [
      | error e ↦ (mt1, replied (bad_gateway h))
      | response resp ↦
          let rules = lookup_rules domain.id mt1 in
          elim (mt_determine_ttl resp.header domain rules r.path mt.default_ttl) [
            | none ↦ (mt1, panicked)
            | some (ttl, swr) ↦
                let entry = entry_of w (at_hostname r) resp ttl swr in
                let cache_key = response_key w (at_hostname r) resp in
                if mt_is_kept resp ttl
                then (
                  record mt1 { cache = put_both w primary_key cache_key entry mt1.cache },
                  serve_part w h range_header entry,
                )
                else (mt1, serve_response h resp bypass_word)
          ]
    ]

unfoldable pub mt_serve_byte_range :
    World → Fields → Request → Domain → Text → MultiTenantCdn → MultiTenantCdn × Ending
mt_serve_byte_range w h r domain range_header mt =
    let primary_key = mt_primary_key w r in
    let (mt1, found) = mt_cache_get w w.now primary_key mt in
    elim found [
      | none ↦ mt_fetch_range w h r domain range_header primary_key mt1
      | some entry ↦ elim (parse_range range_header (length entry.body)) [
        | none ↦ mt_proxy_passthrough w h r domain mt1
        | some (start, end) ↦ (mt1, serve_range_reply w.platform.codec h entry start end)
      ]
    ]

-- An entry that the cache has.
unfoldable pub mt_serve_cached : World → Fields → Request → Entry → Ending
mt_serve_cached w h r entry =
    let etag = header_get (codes "If-None-Match") r.header in
    let codec = w.platform.codec in
    if is_expired w.now entry && is_stale_servable w.now entry
    then serve_entry codec w.now h entry stale_word
    else if not (is_empty etag) && same etag entry.etag
    then replied (not_modified h (codes "Etag") entry.etag)
    else serve_entry codec w.now h entry hit_word

-- The entry behind the Vary of the one under the primary key; `*` names none.
unfoldable pub mt_re_keyed :
    World → Request → Text → Entry → MultiTenantCdn → MultiTenantCdn × Option Entry
mt_re_keyed w r primary_key entry mt =
    let vary = header_get (codes "Vary") (fields_of (get_header w.platform.codec (some entry))) in
    let vary_key = normalize_key w.to_lower (strip_port r.host) r.path r.raw_query vary r.header in
    let second = mt_cache_get w w.now vary_key mt in
    if is_empty vary || same vary (codes "*") || same vary_key primary_key
    then (mt, some entry)
    else second

unfoldable pub mt_serve_from_cache :
    World
    → Fields
    → Request
    → Domain
    → Text
    → List (Option CacheRule)
    → MultiTenantCdn
    → MultiTenantCdn × Ending
mt_serve_from_cache w h r domain primary_key rules mt =
    let (mt1, found) = mt_cache_get w w.now primary_key mt in
    elim found [
      | none ↦ mt_fetch_and_serve w h r domain primary_key rules mt1
      | some entry ↦
          let (mt2, chosen) = mt_re_keyed w r primary_key entry mt1 in
          elim chosen [
            | none ↦ mt_fetch_and_serve w h r domain primary_key rules mt2
            | some e ↦ (mt2, mt_serve_cached w h r e)
          ]
    ]

unfoldable pub mt_predicts : World → Text → MultiTenantCdn → MultiTenantCdn × Bool
mt_predicts w key mt = elim mt.predictor [
  | none ↦ (mt, false)
  | some p ↦
      let (p', likely) = is_likely_uncacheable w.hash key p in
      (record mt { predictor = some p' }, likely)
]

-- A request to an active domain, without a Range.
unfoldable pub mt_serve_whole :
    World → Fields → Request → Domain → MultiTenantCdn → MultiTenantCdn × Ending
mt_serve_whole w h r domain mt =
    let primary_key = mt_primary_key w r in
    let rules = lookup_rules domain.id mt in
    let (mt1, likely) = mt_predicts w primary_key mt in
    elim (bypassed r.path rules) [
      | none ↦ (mt, panicked)
      | some bypass ↦
          if bypass
          then mt_proxy_passthrough w h r domain mt
          else if likely
          then mt_fetch_and_serve w h r domain primary_key rules mt1
          else if has_cache_directive (header_get cache_control r.header) (codes "no-cache")
          then mt_fetch_and_serve w h r domain primary_key rules mt1
          else mt_serve_from_cache w h r domain primary_key rules mt1
    ]

-- A request to a domain that the configuration has.
unfoldable pub mt_serve_domain :
    World → Fields → Request → Domain → MultiTenantCdn → MultiTenantCdn × Ending
mt_serve_domain w h r domain mt =
    let range_header = header_get range_key r.header in
    if not domain.active
    then (mt, replied (http_error h (codes "Domain inactive") 403))
    else if not (is_empty range_header)
    then mt_serve_byte_range w h r domain range_header mt
    else mt_serve_whole w h r domain mt

unfoldable pub mt_serve_http : World → Fields → Request → MultiTenantCdn → MultiTenantCdn × Ending
mt_serve_http w h r mt =
    if not (same r.method (codes "GET")) && not (same r.method (codes "HEAD"))
    then (
      mt,
      replied (
          http_error (header_set (codes "Allow") (codes "GET, HEAD") h) (codes "Method Not Allowed")
            405),
    )
    else if not (mt_is_valid_path r.path)
    then (mt, replied (http_error h (codes "Bad Request") 400))
    else if is_empty (strip_port r.host)
    then (mt, replied (http_error h (codes "Bad Request: missing Host") 400))
    else (elim (lookup_domain (strip_port r.host) mt) [
      | none ↦ (mt, replied (http_error h (codes "Unknown domain") 403))
      | some domain ↦ mt_serve_domain w h r domain mt
    ])
