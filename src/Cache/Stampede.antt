-- ===== src/Cache/Stampede.antt =====
-- cache/stampede.go: one fetch for each key. `mu` makes each call one step; a call that waits for
-- the fetcher is a step that yields the address of the lock entry, and what the wait returns is
-- read there later. `release` closes `done` in the step that publishes the result. A lock entry
-- lives at an address, its index in `entries`, which the waiters keep when the key is deleted; a
-- streaming entry is shared and named by its address. An error is its text.
pub mod Locked
pub mod Fetching
pub mod Waiters
mod Tests
use cdn_edge.Common.{
  ℕ, ◌+◌, Bool, true, false, if◌then◌else◌, List, [], ◌∷◌, ◌++◌, Option, none, some, Text, length,
  get_elem?, get_or, set, text_discrete,
}
use cdn_edge.Common.Assoc.{insert, delete}
use cdn_edge.Cache.Entry.{Entry}
use mathlib.Core.List.{lookup}

pub record LockEntry : Type 0 where
  pub done : Bool
  pub stream_ready : Bool
  pub entry : Option Entry
  pub streaming : Option ℕ
  pub err : Option Text
  pub waiters : ℕ

pub record StampedeLock : Type 0 where
  pub locks : List (Text × ℕ)
  pub entries : List LockEntry

abbrev pub new_lock_entry : LockEntry
new_lock_entry = record {
  done = false;
  stream_ready = false;
  entry = none;
  streaming = none;
  err = none;
  waiters = 0;
}

abbrev pub new_stampede_lock : StampedeLock
new_stampede_lock = record { locks = []; entries = [] }

unfoldable pub locked : Text → StampedeLock → Option ℕ
locked key sl = lookup text_discrete key sl.locks

abbrev pub entry_at : ℕ → StampedeLock → LockEntry
entry_at a sl = get_or sl.entries a new_lock_entry

unfoldable pub put_entry : ℕ → LockEntry → StampedeLock → StampedeLock
put_entry a le sl = record sl { entries = set sl.entries a le }

-- Whether the caller fetches, or waits at an address.
pub data Turn : Type 0 where
  fetches : Turn
  waits : ℕ → Turn

-- `Acquire` and `AcquireStreaming`, up to the wait.
unfoldable pub acquire : Text → StampedeLock → StampedeLock × Turn
acquire key sl = elim (locked key sl) [
  | some a ↦
      let le = entry_at a sl in (put_entry a (record le { waiters = le.waiters + 1 }) sl, waits a)
  | none ↦ (
    record {
      locks = insert text_discrete key (length sl.entries) sl.locks;
      entries = sl.entries ++ new_lock_entry ∷ [];
    },
    fetches,
  )
]

-- What `Acquire` returns behind `<-le.done`; `none` while it waits.
unfoldable pub acquired : LockEntry → Option (Option Entry)
acquired le = if le.done then some (elim le.err [ some e ↦ none | none ↦ le.entry ]) else none

unfoldable pub release : Text → Option Entry → Option Text → StampedeLock → StampedeLock
release key entry err sl = elim (locked key sl) [
  | none ↦ sl
  | some a ↦
      let le = entry_at a sl in
      put_entry a (record le { entry = entry; err = err; done = true })
        (record sl { locks = delete text_discrete key sl.locks })
]

-- `none` is the panic of `close` on a channel that is closed.
unfoldable pub set_streaming : Text → ℕ → StampedeLock → Option StampedeLock
set_streaming key se sl = elim (locked key sl) [
  | none ↦ some sl
  | some a ↦
      let le = entry_at a sl in
      if le.stream_ready
      then none
      else some (put_entry a (record le { streaming = some se; stream_ready = true }) sl)
]

-- The `case <-le.done` of `AcquireStreaming`.
unfoldable pub completed : LockEntry → Option Entry × Option ℕ
completed le = elim le.err [
  | some e ↦ (none, none)
  | none ↦ elim le.streaming [ some se ↦ (none, some se) | none ↦ (le.entry, none) ]
]

-- The `select` of `AcquireStreaming`; `none` while it waits. With both channels closed, Go takes
-- either case: `first` is its choice.
unfoldable pub acquired_streaming : Bool → LockEntry → Option (Option Entry × Option ℕ)
acquired_streaming first le =
    if le.stream_ready
    then (if le.done
        then some (if first then (none, le.streaming) else completed le)
        else some (none, le.streaming))
    else if le.done
    then some (completed le)
    else none

unfoldable pub waiters : Text → StampedeLock → ℕ
waiters key sl = elim (locked key sl) [ none ↦ 0 | some a ↦ (entry_at a sl).waiters ]
