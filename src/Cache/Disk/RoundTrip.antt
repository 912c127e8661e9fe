-- ===== src/Cache/Disk/RoundTrip.antt =====
-- What comes back from the disk tier of cache/cache.go, and how large it is there.
use cdn_edge.Common.{
  ℕ, ◌<◌, ◌≡◌, ◌≢◌, arith, Bool, true, ◌&&◌, List, [], ◌∷◌, length, Text, text_discrete, none, some,
  Option-cases, inl, inr,
}
use mathlib.Core.List.{lookup}
use cdn_edge.Common.Assoc.{insert, lookup-delete_self}
use cdn_edge.Common.Utf8.{valid_utf8}
use cdn_edge.Common.Int.{ℤ, pos, ◌+ℤ◌, ◌≤ℤ◌}
use cdn_edge.Cache.Headers.{Header, Codec, decode}
use cdn_edge.Cache.Headers.RoundTrip.{IsLossless}
use cdn_edge.Cache.Entry.{Entry, get_header}
use cdn_edge.Cache.Disk.{
  Disk, DiskEntry, Platform, make_room, entry_size, spill_to_disk, write_counted, remove_from_disk,
  save_to_disk, to_disk_entry, load_from_disk, calculate_disk_usage,
}

-- The keys and the values of a header are UTF-8.
abbrev pub valid_values : List Text → Bool
valid_values [] = true
valid_values (v ∷ vs) = valid_utf8 v && valid_values vs

abbrev pub valid_header : Header → Bool
valid_header [] = true
valid_header ((k, vs) ∷ h) = valid_utf8 k && valid_values vs && valid_header h

-- Every string of an entry is UTF-8, whatever the bytes of its body are.
abbrev pub is_text : DiskEntry → Bool
is_text de =
    (elim de.header [ none ↦ true | some h ↦ valid_header h ])
    && valid_utf8 de.etag
    && valid_utf8 de.last_mod
    && valid_utf8 de.vary_key

-- The documented behaviour of JSON and of the header codec: what is written is read back, by JSON
-- where the strings are UTF-8, since it replaces other bytes.
pub record IsFaithful (p : Platform) : Type 0 where
  pub json : (de : DiskEntry) → is_text de ≡ true → p.decode (p.encode de) ≡ some de
  pub codec_lossless : IsLossless p.codec
  pub gob_total : (h : Header) → p.codec.gob_encode h ≢ none

-- The same response, however its header is stored.
pub record SameResponse (c : Codec) (e e' : Entry) : Type 0 where
  pub bodies : e.body ≡ e'.body
  pub headers : get_header c (some e) ≡ get_header c (some e')
  pub statuses : e.status_code ≡ e'.status_code
  pub times : e.stored_at ≡ e'.stored_at
  pub ttls : e.ttl ≡ e'.ttl
  pub windows : e.stale_while_revalidate ≡ e'.stale_while_revalidate
  pub etags : e.etag ≡ e'.etag
  pub dates : e.last_mod ≡ e'.last_mod
  pub vary_keys : e.vary_key ≡ e'.vary_key

pub load_from_disk-remove :
    (p : Platform) (compress : Bool) (key : Text) (d : Disk)
    → load_from_disk p compress key (remove_from_disk p key d) ≡ none
unfolding load_from_disk remove_from_disk
load_from_disk-remove p compress key d =
    elim (Option-cases (lookup text_discrete (p.disk_path key) d.files)) [
      | inl n ↦ rw (n, remove_from_disk, load_from_disk) (rw n)
      | inr (f, h) ↦ rw (
        h,
        remove_from_disk,
        load_from_disk,
        lookup-delete_self text_discrete (p.disk_path key) d.files,
      )
    ]

-- The budget counts the body and 512 bytes, and the file holds the JSON text, with the body in
-- base64 and the headers: whenever that text alone is longer than the limit, and what is counted
-- still fits, the spill leaves more bytes on the disk than the limit allows.
pub spill_over_limit :
    (p : Platform) (now : ℤ) (key : Text) (e : Entry) (d : Disk) (limit : ℕ)
    → d.max_bytes ≡ pos limit
    → p.writable (p.disk_path key) ≡ true
    → d.used_bytes +ℤ pos (entry_size e) ≤ℤ pos limit
    → limit < length (p.encode (to_disk_entry p e))
    → limit < calculate_disk_usage (spill_to_disk p now key e d).files
unfolding spill_to_disk make_room write_counted save_to_disk calculate_disk_usage insert
spill_over_limit p now key e d limit m w fits long = ground arith
