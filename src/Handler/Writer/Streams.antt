-- ===== src/Handler/Writer/Streams.antt =====
-- The read loop of handler/handler.go on an entry whose download has ended.
use cdn_edge.Common.{
  ℕ, zero, suc, ◌+◌, ◌-◌, ◌<◌, ◌≡◌, refl, ap, arith, Bool, true, false, ltb, Bool-cases,
  Option-cases, inl, inr, ◌++◌, Option, none, some, Text, length, take, drop, length-take,
  length-drop, take-append-drop,
}
use cdn_edge.Common.Slices.{drop-drop, drop_all, drop-length-take}
use cdn_edge.Common.Http.{Fields}
use cdn_edge.Cache.Streaming.{StreamingEntry, read, bytes, end_of_file, aborted}
use cdn_edge.Handler.Writer.{buffer_size, stream_loop, serve_streaming_entry, Reply, Ending, handed}
use cdn_edge.Handler.Writer.Endings.{handed-write_header}

-- Whether a download ended without an error.
abbrev pub sound : Option Text → Bool
sound none = true
sound (some e) = false

read_more :
    (n o : ℕ) (se : StreamingEntry)
    → ltb o (length se.buf) ≡ true
    → let piece = take n (drop o se.buf) in read n o se ≡ (bytes piece, o + length piece)
unfolding read
read_more n o se h = rw (h, read) refl

read_end :
    (n o : ℕ) (se : StreamingEntry)
    → ltb o (length se.buf) ≡ false
    → se.complete ≡ true
    → se.err ≡ none
    → read n o se ≡ (end_of_file, o)
unfolding read
read_end n o se h c e = rw (h, c, e, read) refl

read_abort :
    (n o : ℕ) (se : StreamingEntry) (x : Text)
    → ltb o (length se.buf) ≡ false
    → se.complete ≡ true
    → se.err ≡ some x
    → read n o se ≡ (aborted x, o)
unfolding read
read_abort n o se x h c e = rw (h, c, e, read) refl

stream_loop-drop :
    (fuel o : ℕ) (se : StreamingEntry)
    → se.complete ≡ true
    → length se.buf - o < fuel
    → stream_loop fuel o se ≡ some (drop o se.buf, sound se.err)
unfolding stream_loop
stream_loop-drop zero o se c lt = elim lt [ ]
stream_loop-drop (suc fuel) o se c lt = elim (Bool-cases (ltb o (length se.buf))) [
  | inl h ↦
      let piece : Text = take buffer_size (drop o se.buf) in
      let ih : stream_loop fuel (o + length piece) se
          ≡ some (drop (o + length piece) se.buf, sound se.err) =
        stream_loop-drop fuel (o + length piece) se c
          (ground (arith, length-take buffer_size (drop o se.buf), length-drop o se.buf)) in
      let e : piece ++ drop (o + length piece) se.buf ≡ drop o se.buf =
        rw (← drop-drop o (length piece) se.buf, drop-length-take buffer_size (drop o se.buf))
          (take-append-drop buffer_size (drop o se.buf)) in
      let r = read_more buffer_size o se h in
      rw (r, stream_loop) (rw (r, ih) (ap (λ t. some (t, sound se.err)) e))
  | inr h ↦ elim (Option-cases se.err) [
    | inl e ↦
        rw (read_end buffer_size o se h c e, stream_loop, e)
          (rw (drop_all o se.buf (ground arith)) refl)
    | inr (x, e) ↦
        rw (read_abort buffer_size o se x h c e, stream_loop, e)
          (rw (drop_all o se.buf (ground arith)) refl)
  ]
]

abbrev body_in : Option Reply → Option Text
body_in none = none
body_in (some r) = some r.body

-- The body that is handed to the writer, if there is one.
abbrev pub body_of : Ending → Option Text
body_of x = body_in (handed x)

-- The loop that serves a client from a download that has ended comes to an end, and hands the
-- writer every byte that was written.
pub serve_streaming_entry-body :
    (w : Fields) (se : StreamingEntry) (cache_status : Text)
    → se.complete ≡ true
    → body_of (serve_streaming_entry w se cache_status) ≡ some se.buf
unfolding serve_streaming_entry
serve_streaming_entry-body w se cache_status c =
    rw (stream_loop-drop (suc (length se.buf)) 0 se c (omega arith), serve_streaming_entry)
      (ap body_in (handed-write_header _))
