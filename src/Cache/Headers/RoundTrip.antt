-- ===== src/Cache/Headers/RoundTrip.antt =====
-- Storing a header by cache/headers.go and reading it back.
use cdn_edge.Common.{
  ◌+◌, ◌≡◌, ◌≢◌, refl, min, arith, [], ◌∷◌, none, some, Text, length, inl, inr, Option-cases,
}
use cdn_edge.Cache.Headers.{Header, Codec, new_compressed_header, decode, size, store_raw}

-- The documented behaviour of the two encoders: what they write is read back.
pub record IsLossless (c : Codec) : Type 0 where
  pub gob : (h : Header) (raw : Text) → c.gob_encode h ≡ some raw → c.gob_decode raw ≡ some h
  pub zstd : (raw : Text) → c.zstd_decode (c.zstd_encode raw) ≡ some raw

decode-store_raw :
    (c : Codec) (h : Header) (raw : Text)
    → IsLossless c
    → c.gob_encode h ≡ some raw
    → decode c (some (store_raw c raw)) ≡ h
unfolding decode store_raw
decode-store_raw c h raw l e = ground (arith, l.gob h raw e, l.zstd raw)

-- With encoders that lose nothing, a header that is empty or that gob can encode is read back
-- whole.
pub decode-new_compressed_header :
    (c : Codec) (h : Header)
    → IsLossless c
    → (h ≢ [] → c.gob_encode h ≢ none)
    → decode c (new_compressed_header c h) ≡ h
unfolding new_compressed_header
decode-new_compressed_header c [] l enc = unfold decode in refl
decode-new_compressed_header c (f ∷ h) l enc = elim (Option-cases (c.gob_encode (f ∷ h))) [
  | inl e ↦ absurd (enc (λ z. cc) e)
  | inr (raw, e) ↦ rw (e, new_compressed_header) (decode-store_raw c (f ∷ h) raw l e)
]

-- A header that is not empty and that gob can encode takes one byte more than the shorter of its
-- gob encoding and the compressed one.
pub size-new_compressed_header :
    (c : Codec) (h : Header) (raw : Text)
    → h ≢ []
    → c.gob_encode h ≡ some raw
    → size (new_compressed_header c h) ≡ min (length raw) (length (c.zstd_encode raw)) + 1
unfolding new_compressed_header size store_raw
size-new_compressed_header c [] raw ne e = absurd (ne refl)
size-new_compressed_header c (f ∷ h) raw ne e = rw (e, new_compressed_header) (ground arith)

pub decode-none : (c : Codec) → decode c none ≡ []
unfolding decode
decode-none c = refl
