-- ===== src/Cache/Streaming.antt =====
-- cache/streaming.go: entries that are still being written. The mutex makes each method one step,
-- but for a read that waits: `blocks` is the state in which `cond.Wait` leaves it, and a wakeup is
-- a read again. An error is its text.
pub mod Delivery
mod Tests
use cdn_edge.Common.{
  ℕ, ◌+◌, Bool, true, false, ltb, if◌then◌else◌, ◌++◌, [], Option, none, some, Text, length, take,
  drop,
}
use cdn_edge.Common.Int.{ℤ}
use cdn_edge.Cache.Headers.{Header}
use cdn_edge.Cache.Entry.{Entry}

pub record StreamingEntry : Type 0 where
  pub buf : Text
  pub err : Option Text
  pub header : Header
  pub status : ℕ
  pub complete : Bool

unfoldable pub new_streaming_entry : Header → ℕ → StreamingEntry
new_streaming_entry header status = record {
  buf = [];
  err = none;
  header = header;
  status = status;
  complete = false;
}

-- `none` is the error of a write after the close.
unfoldable pub write : Text → StreamingEntry → StreamingEntry × Option ℕ
write p se = if se.complete then (se, none) else (record se { buf = se.buf ++ p }, some (length p))

unfoldable pub close : Option Text → StreamingEntry → StreamingEntry
close err se = if se.complete then se else record se { complete = true; err = err }

pub is_complete : StreamingEntry → Bool
is_complete se = se.complete

pub stream_err : StreamingEntry → Option Text
stream_err se = se.err

pub len : StreamingEntry → ℕ
len se = length se.buf

-- What `ToEntry` does: `nil_entry` is the nil of a download that failed.
pub data Conversion : Type 0 where
  panics : Conversion
  nil_entry : Conversion
  converted : Entry → Conversion

unfoldable pub to_entry : ℤ → ℤ → ℤ → Text → Text → Text → StreamingEntry → Conversion
to_entry now ttl swr etag last_mod vary_key se =
    if se.complete
    then (elim se.err [
      | some e ↦ nil_entry
      | none ↦ converted (record {
        body = se.buf;
        header = some se.header;
        compressed_header = none;
        status_code = se.status;
        stored_at = now;
        ttl = ttl;
        etag = etag;
        last_mod = last_mod;
        vary_key = vary_key;
        stale_while_revalidate = swr;
      })
    ])
    else panics

pub data ReadResult : Type 0 where
  blocks : ReadResult
  bytes : Text → ReadResult
  end_of_file : ReadResult
  aborted : Text → ReadResult

-- `Read` with a buffer of `size` bytes, from an offset, and the offset behind.
unfoldable pub read : ℕ → ℕ → StreamingEntry → ReadResult × ℕ
read size offset se =
    let piece = take size (drop offset se.buf) in
    if ltb offset (length se.buf)
    then (bytes piece, offset + length piece)
    else if se.complete
    then (elim se.err [ some e ↦ (aborted e, offset) | none ↦ (end_of_file, offset) ])
    else (blocks, offset)
