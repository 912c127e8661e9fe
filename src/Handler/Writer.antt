-- ===== src/Handler/Writer.antt =====
-- The answers that handler/handler.go and handler/range.go write. `w.Header()` is an argument, what
-- stands in it before. A reply is what the handler hands to the writer, which leaves the body out
-- for a HEAD, a 204 and a 304.
pub mod Endings
pub mod Streams
mod Tests
use cdn_edge.Common.{
  ℕ, zero, suc, ◌+◌, ◌-◌, ◌*◌, ◌/◌, Bool, true, false, leb, ◌&&◌, if◌then◌else◌, List, [], ◌∷◌,
  ◌++◌, Option, none, some, Text, codes, length,
}
use cdn_edge.Common.Int.{ℤ, pos, negsuc, ◌-ℤ◌}
use cdn_edge.Common.Strings.{same, is_empty, itoa}
use cdn_edge.Common.Http.{Fields, header_put, header_set, header_add, header_del}
use cdn_edge.Cache.Headers.{Codec}
use cdn_edge.Cache.Entry.{Entry, get_header}
use cdn_edge.Cache.Streaming.{StreamingEntry, read, ReadResult, blocks, bytes, end_of_file, aborted}
use cdn_edge.Proxy.Origin.{Response}
use cdn_edge.Handler.Range.{serve_range}

pub record Reply : Type 0 where
  pub status : ℕ
  pub header : Fields
  pub body : Text

-- How a run of a handler ends: with a reply; at `WriteHeader`, which panics at the status of the
-- reply; by another panic; or not yet, waiting for a download. net/http recovers from a panic, and
-- the client gets no reply.
pub data Ending : Type 0 where
  replied : Reply → Ending
  refused : Reply → Ending
  panicked : Ending
  waiting : Ending

-- `checkWriteHeaderCode` of net/http: the codes from 100 to 999.
unfoldable pub is_sendable : ℕ → Bool
is_sendable status = leb 100 status && leb status 999

-- `w.WriteHeader(status)` and the body behind it. The transport takes an origin's status of three
-- digits from 000 on, and keeps 100 and 102 to 199 to itself.
unfoldable pub write_header : Reply → Ending
write_header reply = if is_sendable reply.status then replied reply else refused reply

-- What was handed to the writer.
abbrev pub handed : Ending → Option Reply
handed (replied reply) = some reply
handed (refused reply) = some reply
handed panicked = none
handed waiting = none

abbrev pub hit_word : Text
hit_word = codes "HIT"

abbrev pub miss_word : Text
miss_word = codes "MISS"

abbrev pub stale_word : Text
stale_word = codes "STALE"

abbrev pub stale_error_word : Text
stale_error_word = codes "STALE-ERROR"

abbrev pub bypass_word : Text
bypass_word = codes "BYPASS"

abbrev pub x_cache_key : Text
x_cache_key = codes "X-Cache"

-- `cacheStatusSlice`, with its shared values.
unfoldable pub cache_status_slice : Text → List Text
cache_status_slice status =
    if same status hit_word
    then hit_word ∷ []
    else if same status miss_word
    then miss_word ∷ []
    else if same status stale_word
    then stale_word ∷ []
    else if same status stale_error_word
    then stale_error_word ∷ []
    else if same status bypass_word
    then bypass_word ∷ []
    else status ∷ []

-- `h[k] = vals`, for each field.
unfoldable pub put_fields : Fields → Fields → Fields
put_fields [] h = h
put_fields ((k, vs) ∷ fields) h = put_fields fields (header_put k vs h)

unfoldable pub add_values : Text → List Text → Fields → Fields
add_values k [] h = h
add_values k (v ∷ vs) h = add_values k vs (header_add k v h)

-- `w.Header().Add(k, v)`, for each value of each field.
unfoldable pub add_fields : Fields → Fields → Fields
add_fields [] h = h
add_fields ((k, vs) ∷ fields) h = add_fields fields (add_values k vs h)

abbrev pub fields_of : Option Fields → Fields
fields_of none = []
fields_of (some h) = h

-- Whole seconds, cut towards zero; the float64 in between is taken for exact.
unfoldable pub seconds_of : ℤ → ℤ
seconds_of (pos n) = pos (n / 1000000000)
seconds_of (negsuc n) = negated ((n + 1) / 1000000000)
  where
    negated : ℕ → ℤ
    negated zero = pos 0
    negated (suc m) = negsuc m

unfoldable pub serve_entry : Codec → ℤ → Fields → Entry → Text → Ending
serve_entry codec now w entry cache_status =
    let h = put_fields (fields_of (get_header codec (some entry))) w in
    let h1 = header_put x_cache_key (cache_status_slice cache_status) h in
    let h2 = if is_empty entry.etag then h1 else header_put (codes "Etag") (entry.etag ∷ []) h1 in
    write_header (record {
      status = entry.status_code;
      header = header_put (codes "Age") (itoa (seconds_of (now -ℤ entry.stored_at)) ∷ []) h2;
      body = entry.body;
    })

unfoldable pub serve_response : Fields → Response → Text → Ending
serve_response w resp cache_status = write_header (record {
  status = resp.status_code;
  header = header_set x_cache_key cache_status (add_fields resp.header w);
  body = resp.body;
})

-- `http.Error`
unfoldable pub http_error : Fields → Text → ℕ → Reply
http_error w message code = record {
  status = code;
  header = header_set (codes "X-Content-Type-Options") (codes "nosniff") (
      header_set (codes "Content-Type") (codes "text/plain; charset=utf-8")
        (header_del (codes "Content-Length") w));
  body = message ++ 10 ∷ [];
}

-- A 304, with the field that matched.
unfoldable pub not_modified : Fields → Text → Text → Reply
not_modified w key value = record {
  status = 304;
  header = header_set x_cache_key hit_word (header_set key value w);
  body = [];
}

-- `serveRange`; a slice out of bounds panics.
unfoldable pub serve_range_reply : Codec → Fields → Entry → ℕ → ℕ → Ending
serve_range_reply codec w entry start end = elim (serve_range entry.body (start, end)) [
  | none ↦ panicked
  | some slice ↦ replied (record {
    status = 206;
    header = header_set x_cache_key hit_word (
        header_set (codes "Content-Length") (itoa (pos (end + 1 - start))) (
          header_set (codes "Content-Range")
            (codes "bytes "
              ++ itoa (pos start)
              ++ 45 ∷ itoa (pos end)
              ++ 47 ∷ itoa (pos (length entry.body)))
            (add_fields (fields_of (get_header codec (some entry))) w)));
    body = slice;
  })
]

-- The buffer of the loop, `32*1024`.
abbrev pub buffer_size : ℕ
buffer_size = 32 * 1024

-- The read loop of `serveStreamingEntry` on an entry that is not written to any more, and whether
-- it ended without an error of the download; `none` while it waits or out of fuel.
unfoldable pub stream_loop : ℕ → ℕ → StreamingEntry → Option (Text × Bool)
stream_loop zero offset se = none
stream_loop (suc fuel) offset se =
    let (result, next) = read buffer_size offset se in
    let rest = stream_loop fuel next se in
    elim result [
      | blocks ↦ none
      | bytes p ↦ elim rest [ none ↦ none | some (body, ok) ↦ some (p ++ body, ok) ]
      | end_of_file ↦ some ([], true)
      | aborted e ↦ some ([], false)
    ]

-- `serveStreamingEntry`. Each round reads a byte at least, so that the length of the buffer and
-- one more is enough fuel.
unfoldable pub serve_streaming_entry : Fields → StreamingEntry → Text → Ending
serve_streaming_entry w se cache_status = elim (stream_loop (suc (length se.buf)) 0 se) [
  | none ↦ if is_sendable se.status then waiting else panicked
  | some (body, ok) ↦ write_header (record {
    status = se.status;
    header = header_set x_cache_key cache_status (add_fields se.header w);
    body = body;
  })
]
