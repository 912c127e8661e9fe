-- ===== src/Cache/Headers.antt =====
-- cache/headers.go: HTTP headers stored compressed. Gob and zstd are parameters: `gob_encode`
-- fails by `none`, and the encoders are `hdrEncoder` and `hdrDecoder`. A header is a Go map with
-- its entries in the order of some iteration.
pub mod RoundTrip
use cdn_edge.Common.{
  ℕ, ◌+◌, Bool, leb, if◌then◌else◌, ◌==◌, List, [], ◌∷◌, Option, none, some, Text, length,
}

abbrev pub Header : Type 0
Header = List (Text × List Text)

pub record Codec : Type 0 where
  pub gob_encode : Header → Option Text
  pub gob_decode : Text → Option Header
  pub zstd_encode : Text → Text
  pub zstd_decode : Text → Option Text

pub record CompressedHeader : Type 0 where
  pub bytes : Text

abbrev pub hdr_flag_raw : ℕ
hdr_flag_raw = 0x00

abbrev pub hdr_flag_zstd : ℕ
hdr_flag_zstd = 0x01

module _ (codec : Codec) where
  open codec use {gob_encode, gob_decode, zstd_encode, zstd_decode}

  -- Behind the gob encoder: compressed if that is shorter.
  pub store_raw : Text → CompressedHeader
  store_raw raw =
      let compressed = zstd_encode raw in
      if leb (length raw + 1) (length compressed + 1)
      then record { bytes = hdr_flag_raw ∷ raw }
      else record { bytes = hdr_flag_zstd ∷ compressed }

  pub new_compressed_header : Header → Option CompressedHeader
  unfolding store_raw
  new_compressed_header [] = none
  new_compressed_header (f ∷ h) = elim (gob_encode (f ∷ h)) [
    | none ↦ none
    | some raw ↦ some (store_raw raw)
  ]

  -- What a payload decodes to behind the flag byte.
  pub decode_payload : ℕ → Text → Option Text
  decode_payload flag payload =
      if flag == hdr_flag_raw
      then some payload
      else if flag == hdr_flag_zstd
      then zstd_decode payload
      else none

  pub decode_header : Option Text → Header
  decode_header none = []
  decode_header (some raw) = elim (gob_decode raw) [ none ↦ [] | some m ↦ m ]

  pub decode_bytes : Text → Header
  unfolding decode_payload decode_header
  decode_bytes [] = []
  decode_bytes (flag ∷ payload) = decode_header (decode_payload flag payload)

  -- `Decode`, with nil for `none`.
  pub decode : Option CompressedHeader → Header
  unfolding decode_bytes
  decode none = []
  decode (some ch) = decode_bytes ch.bytes

pub size : Option CompressedHeader → ℕ
size none = 0
size (some ch) = length ch.bytes
