-- ===== src/Handler/Cdn.antt =====
-- handler/handler.go: the request handler. A request is one run of `serve_http`, from its state to
-- the state behind it, not interleaved with other requests: what it would wait for from them, the
-- outcome of a fetch of theirs, is in `World`. A goroutine that it starts is a job in the state.
pub mod Chunks
use cdn_edge.Common.{
  ℕ, zero, suc, ◌+◌, ◌-◌, ◌*◌, not, ltb, if◌then◌else◌, List, [], Option, none, some, Text, codes,
  length, take, drop, min,
}
use cdn_edge.Common.Int.{ℤ}
use cdn_edge.Common.Strings.{same, is_empty}
use cdn_edge.Common.Http.{Fields, header_get}
use cdn_edge.Cache.Entry.{Entry}
use cdn_edge.Cache.Disk.{Platform}
use cdn_edge.Cache.Tiered.{Cache, get, put}
use cdn_edge.Cache.Key.{normalize_key}
use cdn_edge.Cache.Predictor.{Predictor}
use cdn_edge.Cache.Stampede.{StampedeLock}
use cdn_edge.Cache.Streaming.{StreamingEntry, write}
use cdn_edge.Proxy.Origin.{Origin, OriginRequest, Response, Result, response, fetch}

pub record Request : Type 0 where
  pub method : Text
  pub host : Text
  pub path : Text
  pub raw_query : Text
  pub request_uri : Text
  pub header : Fields

-- A background revalidation that was started: its request and the key.
pub record Job : Type 0 where
  pub request : Request
  pub primary_key : Text

-- The handler, with the parts it points to; `streams` are the streaming entries, by address.
pub record Cdn : Type 0 where
  pub cache : Cache
  pub origin : Origin
  pub stampede : StampedeLock
  pub streams : List StreamingEntry
  pub predictor : Option Predictor
  pub default_ttl : ℤ
  pub origin_url : Text
  pub jobs : List Job

-- What a request meets: the time at which it starts and that at which a fetch of its own returns;
-- the origin; what a fetch that it joins gives, and what a waiter at the stampede lock wakes up
-- with; the functions of packages that are not modelled (`content_etag` for the quoted SHA-256,
-- `parse_time` for `http.ParseTime`, `hash` for that of the predictor, `to_lower` for
-- `strings.ToLower`).
pub record World : Type 0 where
  pub now : ℤ
  pub later : ℤ
  pub client : OriginRequest → Result
  pub awaited : Result
  pub waited : Option Entry × Option StreamingEntry
  pub platform : Platform
  pub hash : Text → ℕ
  pub content_etag : Text → Text
  pub parse_time : Text → Option ℤ
  pub to_lower : Text → Text

abbrev pub chunk_size : ℕ
chunk_size = 32 * 1024

-- The loop that writes a body into a streaming entry chunk by chunk. Each round moves on by a
-- byte at least, so that the length of the body is enough fuel.
unfoldable pub write_chunks : ℕ → ℕ → Text → StreamingEntry → StreamingEntry
write_chunks zero off body se = se
write_chunks (suc fuel) off body se =
    let end = min (off + chunk_size) (length body) in
    let written = (write (take (end - off) (drop off body)) se).0 in
    let rest = write_chunks fuel (off + chunk_size) body written in
    if ltb off (length body) then rest else se

unfoldable pub etag_of : World → Response → Text
etag_of w resp =
    let etag = header_get (codes "Etag") resp.header in
    if is_empty etag then w.content_etag resp.body else etag

-- The cache key of a response, which may include its Vary.
unfoldable pub response_key : World → Request → Response → Text
response_key w r resp =
    normalize_key w.to_lower r.host r.path r.raw_query (header_get (codes "Vary") resp.header)
      r.header

-- The entry that a response is stored as, where it is not streamed.
unfoldable pub entry_of : World → Request → Response → ℤ → ℤ → Entry
entry_of w r resp ttl swr = record {
  body = resp.body;
  header = some resp.header;
  compressed_header = none;
  status_code = resp.status_code;
  stored_at = w.later;
  ttl = ttl;
  etag = etag_of w resp;
  last_mod = header_get (codes "Last-Modified") resp.header;
  vary_key = response_key w r resp;
  stale_while_revalidate = swr;
}

-- Both keys, the one without the Vary for the first lookup.
unfoldable pub put_both : World → Text → Text → Entry → Cache → Cache
put_both w primary_key cache_key entry c =
    let c1 = put w.platform w.later primary_key entry c in
    if same cache_key primary_key then c1 else put w.platform w.later cache_key entry c1

unfoldable pub primary_key_of : World → Request → Text
primary_key_of w r = normalize_key w.to_lower r.host r.path r.raw_query [] []

-- `h.cache.Get(key)`
unfoldable pub cache_get : World → ℤ → Text → Cdn → Cdn × Option Entry
cache_get w now key cdn =
    let (c, found) = get w.platform now key cdn.cache in (record cdn { cache = c }, found)

-- `h.origin.Fetch`
unfoldable pub origin_fetch : World → Text → Text → Fields → Cdn → Cdn × Result
origin_fetch w key url header cdn =
    let (o, result) = fetch w.client w.now w.later w.awaited key url header cdn.origin in
    (record cdn { origin = o }, result)
