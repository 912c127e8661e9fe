-- ===== src/Handler/Fetching.antt =====
-- handler/handler.go: fetching from the origin under the stampede lock, `fetchAndServe`. A download
-- is written whole in the step that publishes it, and `w.Header()` is an argument.
pub mod Outcome
pub mod Tests
use cdn_edge.Common.{
  zero, suc, ◌+◌, ◌-◌, Bool, not, ◌&&◌, if◌then◌else◌, [], ◌∷◌, ◌++◌, Option, none, some, Text,
  codes, length,
}
use cdn_edge.Common.Int.{ℤ, pos, ltb_ℤ}
use cdn_edge.Common.Http.{Fields, header_get}
use cdn_edge.Cache.Predictor.{Predictor, mark_uncacheable}
use cdn_edge.Cache.Stampede.{fetches, waits, acquire, release, set_streaming}
use cdn_edge.Cache.Streaming.{new_streaming_entry, close, panics, nil_entry, converted, to_entry}
use cdn_edge.Proxy.Origin.{Response, response, error, fetch}
use cdn_edge.Handler.Directives.{determine_ttl, is_cacheable_status}
use cdn_edge.Handler.Writer.{
  Reply, Ending, replied, panicked, serve_entry, serve_response, http_error, serve_streaming_entry,
  hit_word, miss_word, stale_error_word, bypass_word,
}
use cdn_edge.Handler.Cdn.{
  Request, Cdn, World, write_chunks, etag_of, response_key, put_both, cache_get, origin_fetch,
}

unfoldable pub bad_gateway : Fields → Reply
bad_gateway h = http_error h (codes "Bad Gateway") 502

-- After a fetch that failed: whatever the cache has, else 502.
unfoldable pub serve_stale_or_502 : World → Fields → Text → Cdn → Cdn × Ending
serve_stale_or_502 w h key cdn =
    let (cdn', stale) = cache_get w w.later key cdn in
    elim stale [
      | some e ↦ (cdn', serve_entry w.platform.codec w.later h e stale_error_word)
      | none ↦ (cdn', replied (bad_gateway h))
    ]

-- A response that may be kept: it is streamed to the waiters, stored under both keys, released and
-- served.
unfoldable pub keep_response :
    World → Fields → Request → Text → Response → ℤ → ℤ → Cdn → Cdn × Ending
keep_response w h r primary_key resp ttl swr cdn =
    let address = length cdn.streams in
    let se = new_streaming_entry resp.header resp.status_code in
    let full = close none (write_chunks (length resp.body) 0 resp.body se) in
    let cache_key = response_key w r resp in
    let last_mod = header_get (codes "Last-Modified") resp.header in
    elim (set_streaming primary_key address cdn.stampede) [
      | none ↦ (cdn, panicked)
      | some locks ↦
          let cdn1 = record cdn { stampede = locks; streams = cdn.streams ++ full ∷ [] } in
          elim (to_entry w.later ttl swr (etag_of w resp) last_mod cache_key full) [
            | panics ↦ (cdn1, panicked)
            | nil_entry ↦ (cdn1, panicked)
            | converted entry ↦ (
              record cdn1 {
                cache = put_both w primary_key cache_key entry cdn1.cache;
                stampede = release primary_key (some entry) none cdn1.stampede;
              },
              serve_entry w.platform.codec w.later h entry miss_word,
            )
          ]
    ]

-- `if h.predictor != nil { h.predictor.MarkUncacheable(key) }`
unfoldable pub teach : World → Text → Option Predictor → Option Predictor
teach w key none = none
teach w key (some p) = some (mark_uncacheable w.hash key p)

-- A response that may not be kept.
unfoldable pub pass_response : World → Fields → Text → Response → Cdn → Cdn × Ending
pass_response w h primary_key resp cdn = (
  record cdn {
    stampede = release primary_key none (some (codes "not cacheable")) cdn.stampede;
    predictor = teach w primary_key cdn.predictor;
  },
  serve_response h resp bypass_word,
)

unfoldable pub is_kept : ℤ → Response → Bool
is_kept default_ttl resp =
    ltb_ℤ (pos 0) (determine_ttl default_ttl resp.header).0 && is_cacheable_status resp.status_code

unfoldable pub fetch_and_serve_streaming : World → Fields → Request → Text → Cdn → Cdn × Ending
fetch_and_serve_streaming w h r primary_key cdn =
    let (cdn1, result) =
      origin_fetch w primary_key (cdn.origin_url ++ r.request_uri) r.header cdn in
    elim result [
      | error e ↦
          serve_stale_or_502 w h primary_key
            (record cdn1 { stampede = release primary_key none (some e) cdn1.stampede })
      | response resp ↦
          let (ttl, swr) = determine_ttl cdn.default_ttl resp.header in
          if is_kept cdn.default_ttl resp
          then keep_response w h r primary_key resp ttl swr cdn1
          else pass_response w h primary_key resp cdn1
    ]

-- What a waiter at the stampede lock does when it wakes up.
unfoldable pub serve_waited : World → Fields → Text → Cdn → Cdn × Ending
serve_waited w h primary_key cdn =
    let (entry, streaming) = w.waited in
    elim streaming [
      | some se ↦ (cdn, serve_streaming_entry h se hit_word)
      | none ↦ elim entry [
        | some e ↦ (cdn, serve_entry w.platform.codec w.later h e hit_word)
        | none ↦ serve_stale_or_502 w h primary_key cdn
      ]
    ]

unfoldable pub fetch_and_serve : World → Fields → Request → Text → Cdn → Cdn × Ending
fetch_and_serve w h r primary_key cdn =
    let (locks, turn) = acquire primary_key cdn.stampede in
    let cdn1 = record cdn { stampede = locks } in
    elim turn [
      | waits a ↦ serve_waited w h primary_key cdn1
      | fetches ↦ fetch_and_serve_streaming w h r primary_key cdn1
    ]
