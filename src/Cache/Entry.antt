-- ===== src/Cache/Entry.antt =====
-- The entries of cache/cache.go and their age. `now` is the time of `time.Now()`, in nanoseconds;
-- the clock's times lie within the 292 years in which `time.Since` does not saturate.
pub mod Age
use cdn_edge.Common.{Bool, false, ◌&&◌, ◌||◌, not, if◌then◌else◌, Option, none, some, [], ℕ, Text}
use cdn_edge.Common.Int.{ℤ, pos, ◌+ℤ◌, ◌-ℤ◌, leb_ℤ, ltb_ℤ, wrap_i64}
use cdn_edge.Cache.Headers.{Header, Codec, CompressedHeader, decode}

pub record Entry : Type 0 where
  pub body : Text
  pub header : Option Header
  pub compressed_header : Option CompressedHeader
  pub status_code : ℕ
  pub stored_at : ℤ
  pub ttl : ℤ
  pub etag : Text
  pub last_mod : Text
  pub vary_key : Text
  pub stale_while_revalidate : ℤ

unfoldable pub get_header : Codec → Option Entry → Option Header
get_header codec none = none
get_header codec (some e) = elim e.header [
  | some h ↦ some h
  | none ↦ elim e.compressed_header [ some ch ↦ some (decode codec (some ch)) | none ↦ some [] ]
]

unfoldable pub is_expired : ℤ → Entry → Bool
unfolding ◌-ℤ◌
is_expired now e = if leb_ℤ e.ttl (pos 0) then false else ltb_ℤ e.ttl (now -ℤ e.stored_at)

-- The int64 sum of the two durations may wrap.
unfoldable pub is_stale_servable : ℤ → Entry → Bool
unfolding ◌-ℤ◌ ◌+ℤ◌
is_stale_servable now e =
    if leb_ℤ e.stale_while_revalidate (pos 0) || leb_ℤ e.ttl (pos 0)
    then false
    else (let age = now -ℤ e.stored_at in
        ltb_ℤ e.ttl age && leb_ℤ age (wrap_i64 (e.ttl +ℤ e.stale_while_revalidate)))
