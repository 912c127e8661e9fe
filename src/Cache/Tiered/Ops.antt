-- ===== src/Cache/Tiered/Ops.antt =====
-- The calls that a cache of cache/cache.go gets, one after the other, each at its time.
pub mod History
use cdn_edge.Common.{List, [], ◌∷◌, Text}
use cdn_edge.Common.Int.{ℤ}
use cdn_edge.Cache.Entry.{Entry}
use cdn_edge.Cache.Disk.{Platform}
use cdn_edge.Cache.Tiered.{Cache, put, get, delete_entry, purge}

pub data Op : Type 0 where
  put_op : ℤ → Text → Entry → Op
  get_op : ℤ → Text → Op
  delete_op : ℤ → Text → Op
  purge_op : Op

module _ (p : Platform) where
  pub apply : Op → Cache → Cache
  apply (put_op now key e) c = put p now key e c
  apply (get_op now key) c = (get p now key c).0
  apply (delete_op now key) c = delete_entry p now key c
  apply purge_op c = purge c

  pub run : List Op → Cache → Cache
  run [] c = c
  run (o ∷ os) c = run os (apply o c)
