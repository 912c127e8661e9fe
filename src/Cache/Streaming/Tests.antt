-- ===== src/Cache/Streaming/Tests.antt =====
-- Streaming entries of cache/streaming.go at concrete inputs.
use cdn_edge.Common.{◌≡◌, refl, List, [], ◌∷◌, none}
use cdn_edge.Cache.Streaming.{new_streaming_entry, write, close, read, end_of_file}
use cdn_edge.Cache.Streaming.Delivery.{
  Event, writes, closes, reads, step, run, opened, Tells, read-Tells,
}

-- Two chunks with reads in between, a close, and a write that comes too late.
abbrev two_chunks : List Event
two_chunks =
    writes (1 ∷ 2 ∷ []) ∷ reads 1 ∷ writes (3 ∷ []) ∷ closes none ∷ reads 8 ∷ writes (9 ∷ []) ∷ []

whole_body : (run two_chunks (opened [] 200)).received ≡ 1 ∷ 2 ∷ 3 ∷ []
unfolding run step new_streaming_entry write close read
whole_body = refl

ended : (read 8 3 (run two_chunks (opened [] 200)).entry).0 ≡ end_of_file
unfolding run step new_streaming_entry write close read
ended = refl

late_write : (write (9 ∷ []) (run two_chunks (opened [] 200)).entry).1 ≡ none
unfolding run step new_streaming_entry write close read
late_write = refl

read-Tells_example :
    let s = run two_chunks (opened [] 200) in
    Tells two_chunks s.received (read 8 s.offset s.entry).0
read-Tells_example = read-Tells two_chunks [] 200 8
