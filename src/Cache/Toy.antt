-- ===== src/Cache/Toy.antt =====
-- Concrete functions in place of what cache/ calls: a hash, the two encoders of cache/headers.go
-- and the JSON of the disk tier.
use cdn_edge.Common.{
  ℕ, ◌+◌, ◌≡◌, refl, arith, true, ◌&&◌, ◌==◌, if◌then◌else◌, [], ◌∷◌, Option, none, some, Text,
}
use cdn_edge.Common.Int.{ℤ, pos}
use cdn_edge.Common.Format.{
  Format, number, both, items, as_format, option_of, of_option, option_same, int, text, read_whole,
  whole_law,
}
use cdn_edge.Cache.Headers.{Header, Codec}
use cdn_edge.Cache.Headers.RoundTrip.{IsLossless}
use cdn_edge.Cache.Entry.{Entry}
use cdn_edge.Cache.Disk.{DiskEntry, Platform}
use cdn_edge.Cache.Disk.RoundTrip.{IsFaithful}

abbrev header : Format Header
header = items (both text (items text))

abbrev maybe_header : Format (Option Header)
maybe_header = as_format (items header) option_of of_option option_same

abbrev Fields : Type 0
Fields = (Text × Option Header) × ((ℕ × (ℤ × ℤ)) × ((Text × Text) × (Text × ℤ)))

abbrev entry_of : Fields → DiskEntry
entry_of ((body, h), ((status, (stored, ttl)), ((etag, last), (vary, swr)))) = record {
  body = body;
  header = h;
  status_code = status;
  stored_at = stored;
  ttl_ns = ttl;
  etag = etag;
  last_mod = last;
  vary_key = vary;
  swr_ns = swr;
}

abbrev of_entry : DiskEntry → Fields
of_entry d = (
  (d.body, d.header),
  ((d.status_code, (d.stored_at, d.ttl_ns)), ((d.etag, d.last_mod), (d.vary_key, d.swr_ns))),
)

abbrev disk_entry : Format DiskEntry
disk_entry =
    as_format
      (both (both text maybe_header)
        (both (both number (both int int)) (both (both text text) (both text int))))
      entry_of of_entry (λ d. refl)

-- A compression that only knows three ones in front.
pub squeeze : Text → Text
squeeze (a ∷ b ∷ c ∷ l) = if (a == 1) && ((b == 1) && (c == 1)) then 1 ∷ l else 0 ∷ a ∷ b ∷ c ∷ l
squeeze l = 0 ∷ l

pub expand : Text → Option Text
expand [] = none
expand (n ∷ l) = if n == 0 then some l else some (1 ∷ 1 ∷ 1 ∷ l)

squeeze_law : (raw : Text) → expand (squeeze raw) ≡ some raw
unfolding squeeze expand
squeeze_law [] = refl
squeeze_law (a ∷ []) = refl
squeeze_law (a ∷ b ∷ []) = refl
squeeze_law (a ∷ b ∷ c ∷ l) = ground arith

abbrev pub toy_codec : Codec
toy_codec = record {
  gob_encode = λ h. some (header.write h []);
  gob_decode = read_whole header;
  zstd_encode = squeeze;
  zstd_decode = expand;
}

pub toy_codec-IsLossless : IsLossless toy_codec
toy_codec-IsLossless = record { gob = λ h raw e. subst_law h raw e; zstd = squeeze_law }
  where
    subst_law :
        (h : Header) (raw : Text)
        → some (header.write h []) ≡ some raw
        → read_whole header raw ≡ some h
    subst_law h raw e = let p : header.write h [] ≡ raw = cc in rw (← p) (whole_law header h)

-- The sum of the bytes.
abbrev pub toy_hash : Text → ℕ
toy_hash [] = 0
toy_hash (c ∷ l) = c + toy_hash l

abbrev pub toy_platform : Platform
toy_platform = record {
  hash = toy_hash;
  disk_path = λ key. key;
  encode = λ d. disk_entry.write d [];
  decode = read_whole disk_entry;
  writable = λ path. true;
  codec = toy_codec;
}

pub toy_platform-IsFaithful : IsFaithful toy_platform
toy_platform-IsFaithful = record {
  json = λ d _. whole_law disk_entry d;
  codec_lossless = toy_codec-IsLossless;
  gob_total = λ h e. absurd (cc);
}

-- One field of one letter, so that its gob text starts with three ones.
abbrev pub small_header : Header
small_header = (120 ∷ [], (121 ∷ []) ∷ []) ∷ []

-- Fresh for 10, stale for 20 more.
abbrev pub sample_entry : Entry
sample_entry = record {
  body = 104 ∷ 105 ∷ [];
  header = some small_header;
  compressed_header = none;
  status_code = 200;
  stored_at = pos 100;
  ttl = pos 10;
  etag = 101 ∷ [];
  last_mod = [];
  vary_key = [];
  stale_while_revalidate = pos 20;
}
