-- ===== src/Handler/Requests.antt =====
-- handler/handler.go: `ServeHTTP`, byte ranges, the passthrough and the background revalidation.
pub mod Answers
pub mod Replies
mod Tests
use cdn_edge.Common.{
  zero, suc, ◌+◌, ◌-◌, Bool, false, not, ◌&&◌, ◌||◌, leb, if◌then◌else◌, [], ◌∷◌, ◌++◌, Option,
  none, some, Text, codes, length,
}
use cdn_edge.Common.Int.{leb_ℤ}
use cdn_edge.Common.Strings.{same, is_empty}
use cdn_edge.Common.Http.{Fields, header_get, header_set, header_del}
use cdn_edge.Cache.Entry.{Entry, get_header, is_expired, is_stale_servable}
use cdn_edge.Cache.Key.{normalize_key}
use cdn_edge.Cache.Predictor.{is_likely_uncacheable}
use cdn_edge.Proxy.Origin.{response, error, range_key}
use cdn_edge.Handler.Range.{parse_range}
use cdn_edge.Handler.Directives.{has_cache_directive, determine_ttl, cache_control}
use cdn_edge.Handler.Path.{is_valid_path}
use cdn_edge.Handler.Writer.{
  Ending, replied, serve_entry, serve_response, http_error, not_modified, serve_range_reply,
  hit_word, miss_word, stale_word, bypass_word, fields_of,
}
use cdn_edge.Handler.Cdn.{
  Request, Job, Cdn, World, entry_of, response_key, put_both, primary_key_of, cache_get,
  origin_fetch,
}
use cdn_edge.Handler.Fetching.{bad_gateway, is_kept, fetch_and_serve}

-- `proxyPassthrough`
unfoldable pub proxy_passthrough : World → Fields → Request → Cdn → Cdn × Ending
proxy_passthrough w h r cdn =
    let (cdn1, result) =
      origin_fetch w (codes "passthrough:" ++ r.request_uri) (cdn.origin_url ++ r.request_uri)
        r.header cdn in
    elim result [
      | error e ↦ (cdn1, replied (bad_gateway h))
      | response resp ↦ (cdn1, serve_response h resp bypass_word)
    ]

-- A range of a body, or the whole entry for a range that does not parse.
unfoldable pub serve_part : World → Fields → Text → Entry → Ending
serve_part w h range_header entry = elim (parse_range range_header (length entry.body)) [
  | none ↦ (serve_entry w.platform.codec w.later h entry miss_word)
  | some (start, end) ↦ serve_range_reply w.platform.codec h entry start end
]

-- `serveByteRange` behind a miss: the whole response is fetched and stored.
unfoldable pub fetch_range : World → Fields → Request → Text → Text → Cdn → Cdn × Ending
fetch_range w h r range_header primary_key cdn =
    let (cdn1, result) =
      origin_fetch w primary_key (cdn.origin_url ++ r.request_uri) (header_del range_key r.header)
        cdn in
    elim result [
      | error e ↦ (cdn1, replied (bad_gateway h))
      | response resp ↦
          let (ttl, swr) = determine_ttl cdn.default_ttl resp.header in
          let entry = entry_of w r resp ttl swr in
          if is_kept cdn.default_ttl resp
          then (
            record cdn1 { cache = put_both w primary_key (response_key w r resp) entry cdn1.cache },
            serve_part w h range_header entry,
          )
          else (cdn1, serve_response h resp bypass_word)
    ]

unfoldable pub serve_byte_range : World → Fields → Request → Text → Cdn → Cdn × Ending
serve_byte_range w h r range_header cdn =
    let primary_key = primary_key_of w r in
    let (cdn1, found) = cache_get w w.now primary_key cdn in
    elim found [
      | none ↦ fetch_range w h r range_header primary_key cdn1
      | some entry ↦ elim (parse_range range_header (length entry.body)) [
        | none ↦ proxy_passthrough w h r cdn1
        | some (start, end) ↦ (cdn1, serve_range_reply w.platform.codec h entry start end)
      ]
    ]

-- `revalidateAsync`, when the goroutine of a job runs.
unfoldable pub revalidate_async : World → Job → Cdn → Cdn
revalidate_async w job cdn =
    let r = job.request in
    let (cdn1, result) =
      origin_fetch w (codes "revalidate:" ++ job.primary_key) (cdn.origin_url ++ r.request_uri)
        r.header cdn in
    elim result [
      | error e ↦ cdn1
      | response resp ↦
          let (ttl, swr) = determine_ttl cdn.default_ttl resp.header in
          if leb 500 resp.status_code || not (is_kept cdn.default_ttl resp)
          then cdn1
          else record cdn1 {
            cache =
                put_both w job.primary_key (response_key w r resp) (entry_of w r resp ttl swr)
                  cdn1.cache;
          }
    ]

-- The `If-Modified-Since` of a request against an entry.
unfoldable pub not_modified_since : World → Fields → Entry → Bool
not_modified_since w header entry =
    let ims = header_get (codes "If-Modified-Since") header in
    if not (is_empty ims) && not (is_empty entry.last_mod)
    then (elim (w.parse_time ims) [
      | none ↦ false
      | some ims_time ↦ elim (w.parse_time entry.last_mod) [
        | none ↦ false
        | some last_mod ↦ leb_ℤ last_mod ims_time
      ]
    ])
    else false

-- An entry that the cache has: stale, with a revalidation, or by a conditional request, or whole.
unfoldable pub serve_cached : World → Fields → Request → Text → Entry → Cdn → Cdn × Ending
serve_cached w h r primary_key entry cdn =
    let etag = header_get (codes "If-None-Match") r.header in
    let codec = w.platform.codec in
    if is_expired w.now entry && is_stale_servable w.now entry
    then (
      record cdn { jobs = cdn.jobs ++ record { request = r; primary_key = primary_key } ∷ [] },
      serve_entry codec w.now h entry stale_word,
    )
    else if not (is_empty etag) && same etag entry.etag
    then (cdn, replied (not_modified h (codes "Etag") entry.etag))
    else if not_modified_since w r.header entry
    then (cdn, replied (not_modified h (codes "Last-Modified") entry.last_mod))
    else (cdn, serve_entry codec w.now h entry hit_word)

-- The entry behind the Vary of the one under the primary key.
unfoldable pub re_keyed : World → Request → Text → Text → Entry → Cdn → Cdn × Option Entry
re_keyed w r primary_key vary entry cdn =
    let vary_key = normalize_key w.to_lower r.host r.path r.raw_query vary r.header in
    let second = cache_get w w.now vary_key cdn in
    if is_empty vary || same vary_key primary_key then (cdn, some entry) else second

-- The lookup of `ServeHTTP`, without the predictor and without `no-cache`.
unfoldable pub serve_from_cache : World → Fields → Request → Text → Cdn → Cdn × Ending
serve_from_cache w h r primary_key cdn =
    let (cdn1, found) = cache_get w w.now primary_key cdn in
    elim found [
      | none ↦ fetch_and_serve w h r primary_key cdn1
      | some entry ↦
          let vary =
            header_get (codes "Vary") (fields_of (get_header w.platform.codec (some entry))) in
          let (cdn2, chosen) = re_keyed w r primary_key vary entry cdn1 in
          if same vary (42 ∷ []) then fetch_and_serve w h r primary_key cdn1 else (elim chosen [
            | none ↦ fetch_and_serve w h r primary_key cdn2
            | some e ↦ serve_cached w h r primary_key e cdn2
          ])
    ]

-- `h.predictor != nil && h.predictor.IsLikelyUncacheable(key)`
unfoldable pub predicts : World → Text → Cdn → Cdn × Bool
predicts w key cdn = elim cdn.predictor [
  | none ↦ (cdn, false)
  | some p ↦
      let (p', likely) = is_likely_uncacheable w.hash key p in
      (record cdn { predictor = some p' }, likely)
]

-- `ServeHTTP` of a request that is valid and has no Range.
unfoldable pub serve_whole : World → Fields → Request → Cdn → Cdn × Ending
serve_whole w h r cdn =
    let primary_key = primary_key_of w r in
    let (cdn1, likely) = predicts w primary_key cdn in
    if likely
    then fetch_and_serve w h r primary_key cdn1
    else if has_cache_directive (header_get cache_control r.header) (codes "no-cache")
    then fetch_and_serve w h r primary_key cdn1
    else serve_from_cache w h r primary_key cdn1

unfoldable pub serve_http : World → Fields → Request → Cdn → Cdn × Ending
serve_http w h r cdn =
    let range_header = header_get range_key r.header in
    if not (same r.method (codes "GET")) && not (same r.method (codes "HEAD"))
    then (
      cdn,
      replied (
          http_error (header_set (codes "Allow") (codes "GET, HEAD") h) (codes "Method Not Allowed")
            405),
    )
    else if not (is_valid_path r.path)
    then (cdn, replied (http_error h (codes "Bad Request") 400))
    else if is_empty r.host
    then (cdn, replied (http_error h (codes "Bad Request: missing Host header") 400))
    else if not (is_empty range_header)
    then serve_byte_range w h r range_header cdn
    else serve_whole w h r cdn
