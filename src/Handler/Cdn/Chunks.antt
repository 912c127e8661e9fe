-- ===== src/Handler/Cdn/Chunks.antt =====
-- The chunk loop of handler/handler.go writes the whole body.
use cdn_edge.Common.{
  ℕ, zero, suc, ◌+◌, ◌-◌, ◌≤◌, ◌<◌, ◌≡◌, refl, ap, ◌∙◌, arith, true, ltb, leb, Bool-cases, inl, inr,
  [], ◌++◌, none, some, Text, length, take, drop, min, take-append-drop, length-drop,
}
use cdn_edge.Common.Int.{ℤ}
use cdn_edge.Cache.Headers.{Header}
use cdn_edge.Cache.Streaming.{
  StreamingEntry, new_streaming_entry, write, close, converted, to_entry,
}
use cdn_edge.Handler.Cdn.{chunk_size, write_chunks}
use cdn_edge.Common.Slices.{drop-drop, drop_all, take_all}
use mathlib.Core.List.{append-nil, append_assoc}

-- An entry that is open, with a buffer.
abbrev pub open_with : Header → ℕ → Text → StreamingEntry
open_with header status buf = record (new_streaming_entry header status) { buf = buf }

-- One chunk and what is left behind it.
chunk-rest :
    (off : ℕ) (body : Text)
    → off < length body
    → take (min (off + chunk_size) (length body) - off) (drop off body)
        ++ drop (off + chunk_size) body
      ≡ drop off body
chunk-rest off body lt = elim (Bool-cases (leb (length body) (off + chunk_size))) [
  | inl e ↦
      let le : length body ≤ off + chunk_size = ground arith in
      let m : length (drop off body) ≤ min (off + chunk_size) (length body) - off =
        omega (arith, length-drop off body) in
      rw (drop_all (off + chunk_size) body le, take_all _ (drop off body) m)
        (append-nil (drop off body))
  | inr e ↦
      let m : min (off + chunk_size) (length body) - off ≡ chunk_size = ground arith in
      rw (m, ← drop-drop off chunk_size body) (take-append-drop chunk_size (drop off body))
]

write_chunks-drop :
    (fuel off : ℕ) (body : Text) (header : Header) (status : ℕ) (buf : Text)
    → length body - off ≤ fuel
    → write_chunks fuel off body (open_with header status buf)
      ≡ open_with header status (buf ++ drop off body)
unfolding write_chunks write new_streaming_entry
write_chunks-drop zero off body header status buf h =
    rw (drop_all off body (omega arith), append-nil buf) refl
write_chunks-drop (suc fuel) off body header status buf h =
    elim (Bool-cases (ltb off (length body))) [
      | inr e ↦ rw (e, drop_all off body (ground arith), append-nil buf) refl
      | inl e ↦ rw e (
          write_chunks-drop fuel (off + chunk_size) body header status _ (omega arith)
          ∙ ap (open_with header status) (
              append_assoc buf (take (min (off + chunk_size) (length body) - off) (drop off body))
                (drop (off + chunk_size) body)
              ∙ ap (λ t. buf ++ t) (chunk-rest off body (ground arith))))
    ]

-- A download, chunk by chunk and closed, as an entry that was closed.
abbrev pub closed_with : Header → ℕ → Text → StreamingEntry
closed_with header status buf = record (open_with header status buf) { complete = true }

pub close-write_chunks :
    (header : Header) (status : ℕ) (body : Text)
    → close none (write_chunks (length body) 0 body (new_streaming_entry header status))
      ≡ closed_with header status body
unfolding new_streaming_entry close
close-write_chunks header status body =
    let e = write_chunks-drop (length body) 0 body header status [] (omega arith) in rw e refl

-- The chunks of a body, however long, written into a streaming entry and closed, come out as a
-- cache entry with that body, header and status: the loop has fuel enough, and no chunk is lost,
-- doubled or cut.
pub to_entry-write_chunks :
    (header : Header) (status : ℕ) (body : Text) (later ttl swr : ℤ) (etag last_mod vary_key : Text)
    → to_entry later ttl swr etag last_mod vary_key
        (close none (write_chunks (length body) 0 body (new_streaming_entry header status)))
      ≡ converted (record {
        body = body;
        header = some header;
        compressed_header = none;
        status_code = status;
        stored_at = later;
        ttl = ttl;
        etag = etag;
        last_mod = last_mod;
        vary_key = vary_key;
        stale_while_revalidate = swr;
      })
unfolding to_entry new_streaming_entry
to_entry-write_chunks header status body later ttl swr etag last_mod vary_key =
    ap (to_entry later ttl swr etag last_mod vary_key) (close-write_chunks header status body)
