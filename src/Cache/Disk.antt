-- ===== src/Cache/Disk.antt =====
-- The disk tier of cache/cache.go: one file for each key. `Platform` holds what the code calls:
-- `hash` is `xxhash.Sum64String`, `disk_path` the file name that `diskPath` makes of the SHA-256
-- of a key, `encode` and `decode` are `json.Marshal` and `json.Unmarshal`, and `writable` says
-- whether `os.WriteFile` succeeds on a path. The directory holds files only, in the order in which
-- `os.ReadDir` lists them; listing, stat and remove do not fail on a file that is there.
pub mod Budget
pub mod RoundTrip
use mathlib.Core.List.{lookup}
use cdn_edge.Common.{
  ℕ, zero, suc, ◌+◌, ◌-◌, Bool, true, false, if◌then◌else◌, List, [], ◌∷◌, Option, none, some, Text,
  text_discrete, length,
}
use cdn_edge.Common.Assoc.{insert, delete}
use cdn_edge.Common.Int.{ℤ, pos, ◌+ℤ◌, ◌-ℤ◌, leb_ℤ, ltb_ℤ}
use cdn_edge.Cache.Entry.{Entry}
use cdn_edge.Cache.Headers.{
  Header, Codec, CompressedHeader, new_compressed_header, decode as decode_header,
}

pub record DiskEntry : Type 0 where
  pub body : Text
  pub header : Option Header
  pub status_code : ℕ
  pub stored_at : ℤ
  pub ttl_ns : ℤ
  pub etag : Text
  pub last_mod : Text
  pub vary_key : Text
  pub swr_ns : ℤ

pub record Platform : Type 0 where
  pub hash : Text → ℕ
  pub disk_path : Text → Text
  pub encode : DiskEntry → Text
  pub decode : Text → Option DiskEntry
  pub writable : Text → Bool
  pub codec : Codec

pub record File : Type 0 where
  pub content : Text
  pub mod_time : ℤ

-- `max_bytes` is `diskMaxBytes`, `used_bytes` is `diskUsedBytes`.
pub record Disk : Type 0 where
  pub files : List (Text × File)
  pub used_bytes : ℤ
  pub max_bytes : ℤ

-- `used -= size`, and then not below 0.
pub release_bytes : ℕ → ℤ → ℤ
unfolding ◌-ℤ◌
release_bytes size used = let u = used -ℤ pos size in if ltb_ℤ u (pos 0) then pos 0 else u

-- The scan of `evictOldestDiskEntry`: the first file with the least modification time.
pub oldest : Text × File → List (Text × File) → Text × File
oldest best [] = best
oldest best (f ∷ fs) = oldest (if ltb_ℤ f.1.mod_time best.1.mod_time then f else best) fs

pub evict_oldest_disk_entry : Disk → Disk × Bool
unfolding oldest release_bytes
evict_oldest_disk_entry d = elim d.files [
  | [] ↦ (d, false)
  | f ∷ fs ↦
      let victim = oldest f fs in
      (
        record d {
          files = delete text_discrete victim.0 d.files;
          used_bytes = release_bytes (length victim.1.content) d.used_bytes;
        },
        true,
      )
]

unfoldable pub calculate_disk_usage : List (Text × File) → ℕ
calculate_disk_usage [] = 0
calculate_disk_usage ((_, f) ∷ fs) = length f.content + calculate_disk_usage fs

-- The size by which the budget counts an entry.
abbrev pub entry_size : Entry → ℕ
entry_size e = length e.body + 512

-- The `for` loop of `spillToDisk`; `false` is its early return. An iteration removes a file, so
-- that the number of files and one more is enough fuel.
pub make_room : ℕ → ℕ → Disk → Disk × Bool
unfolding evict_oldest_disk_entry ◌+ℤ◌
make_room zero size d = (d, false)
make_room (suc fuel) size d =
    let (d', evicted) = evict_oldest_disk_entry d in
    let rest = make_room fuel size d' in
    if ltb_ℤ d.max_bytes (d.used_bytes +ℤ pos size)
    then (if evicted then rest else (d', false))
    else (d, true)

module _ (p : Platform) where
  unfoldable pub to_disk_entry : Entry → DiskEntry
  to_disk_entry e = record {
    body = e.body;
    header = elim e.header [
      | some h ↦ some h
      | none ↦ elim e.compressed_header [
        | none ↦ none
        | some ch ↦ some (decode_header p.codec (some ch))
      ]
    ];
    status_code = e.status_code;
    stored_at = e.stored_at;
    ttl_ns = e.ttl;
    etag = e.etag;
    last_mod = e.last_mod;
    vary_key = e.vary_key;
    swr_ns = e.stale_while_revalidate;
  }

  -- `saveToDisk` at the time `now`; the result says whether it succeeded.
  pub save_to_disk : ℤ → Text → Entry → Disk → Disk × Bool
  unfolding to_disk_entry
  save_to_disk now key e d =
      if p.writable (p.disk_path key)
      then (
        record d {
          files =
              insert text_discrete (p.disk_path key)
                (record { content = p.encode (to_disk_entry e); mod_time = now }) d.files;
        },
        true,
      )
      else (d, false)

  pub write_counted : ℤ → Text → Entry → Disk → Disk
  unfolding save_to_disk ◌+ℤ◌
  write_counted now key e d =
      let (d', saved) = save_to_disk now key e d in
      if saved then record d' { used_bytes = d'.used_bytes +ℤ pos (entry_size e) } else d'

  pub spill_to_disk : ℤ → Text → Entry → Disk → Disk
  unfolding make_room write_counted
  spill_to_disk now key e d =
      if ltb_ℤ (pos 0) d.max_bytes
      then (let (d', room) = make_room (suc (length d.files)) (entry_size e) d in
          if room then write_counted now key e d' else d')
      else write_counted now key e d

  pub from_disk_entry : Bool → DiskEntry → Entry
  from_disk_entry compress de = record {
    body = de.body;
    header = if compress then none else de.header;
    compressed_header =
        if compress
        then elim de.header [ none ↦ none | some h ↦ new_compressed_header p.codec h ]
        else none;
    status_code = de.status_code;
    stored_at = de.stored_at;
    ttl = de.ttl_ns;
    etag = de.etag;
    last_mod = de.last_mod;
    vary_key = de.vary_key;
    stale_while_revalidate = de.swr_ns;
  }

  -- `loadFromDisk`; `none` is an error.
  pub load_from_disk : Bool → Text → Disk → Option Entry
  unfolding from_disk_entry
  load_from_disk compress key d = elim (lookup text_discrete (p.disk_path key) d.files) [
    | none ↦ none
    | some f ↦ elim (p.decode f.content) [
      | none ↦ none
      | some de ↦ some (from_disk_entry compress de)
    ]
  ]

  pub remove_from_disk : Text → Disk → Disk
  unfolding release_bytes
  remove_from_disk key d = elim (lookup text_discrete (p.disk_path key) d.files) [
    | none ↦ d
    | some f ↦ record d {
      files = delete text_discrete (p.disk_path key) d.files;
      used_bytes = release_bytes (length f.content) d.used_bytes;
    }
  ]
