-- ===== src/Handler/Writer/Tests.antt =====
-- Answers of handler/handler.go at concrete entries.
use cdn_edge.Common.{◌≡◌, refl, true, [], ◌∷◌, Option, none, some, Text, codes}
use cdn_edge.Common.Int.{pos, ◌-ℤ◌}
use cdn_edge.Common.Strings.{same, itoa, decimal_digits}
use cdn_edge.Common.Http.{header_put, header_get, header_del}
use cdn_edge.Cache.Entry.{get_header}
use cdn_edge.Cache.Streaming.{StreamingEntry}
use cdn_edge.Cache.Toy.{sample_entry, toy_codec}
use cdn_edge.Handler.Writer.{
  Reply, handed, write_header, is_sendable, serve_entry, serve_streaming_entry, put_fields,
  cache_status_slice, seconds_of, hit_word,
}
use cdn_edge.Handler.Writer.Streams.{body_of, serve_streaming_entry-body}

abbrev downloaded : StreamingEntry
downloaded = record { buf = 1 ∷ 2 ∷ []; err = none; header = []; status = 200; complete = true }

serve_streaming_entry-body_example :
    body_of (serve_streaming_entry [] downloaded hit_word) ≡ some (1 ∷ 2 ∷ [])
serve_streaming_entry-body_example = serve_streaming_entry-body [] downloaded hit_word refl

abbrev age_of : Option Reply → Option Text
age_of none = none
age_of (some r) = some (header_get (codes "Age") r.header)

-- Stored at 100, so that its age a second later is 1.
aged :
    age_of (handed (serve_entry toy_codec (pos 1000000105) [] sample_entry hit_word))
    ≡ some (codes "1")
unfolding serve_entry write_header is_sendable put_fields header_put header_del header_get same
    cache_status_slice itoa decimal_digits seconds_of get_header ◌-ℤ◌
aged = refl
