-- ===== src/Cache/Stampede/Tests.antt =====
-- The lock of cache/stampede.go at concrete calls.
use cdn_edge.Common.{◌≡◌, refl, List, [], ◌∷◌, none, some, Text, length, if_pos, text_discrete}
use cdn_edge.Cache.Toy.{sample_entry}
use cdn_edge.Cache.Stampede.{new_stampede_lock, locked, entry_at, fetches, waits, acquire, acquired}
use cdn_edge.Cache.Stampede.Fetching.{Call, acquires, releases, step, run, first_release, outcome}
use cdn_edge.Cache.Stampede.Waiters.{waiter_served, one_fetcher, fetches-locked, locked-waits}
use mathlib.Core.List.{lookup}

abbrev page : Text
page = 47 ∷ []

abbrev once : List Call
once = acquires page ∷ []

abbrev fetched : List Call
fetched = acquires page ∷ releases page (some sample_entry) none ∷ []

first_fetches : (acquire page (run [] new_stampede_lock)).1 ≡ fetches
unfolding acquire run locked lookup
first_fetches = refl

second_waits : (acquire page (run once new_stampede_lock)).1 ≡ waits 0
unfolding run step
second_waits =
    locked-waits page 0 (acquire page new_stampede_lock).0
      (fetches-locked page new_stampede_lock first_fetches)

released : first_release page fetched ≡ some (some sample_entry, none)
released = rw (if_pos (text_discrete page page) refl) refl

waiter_served_example :
    acquired (entry_at 0 (run fetched (acquire page (run once new_stampede_lock)).0))
    ≡ outcome (first_release page fetched)
waiter_served_example = waiter_served once fetched page 0 second_waits

one_fetcher_example :
    (acquire page (run once (acquire page (run [] new_stampede_lock)).0)).1
    ≡ waits (length (run [] new_stampede_lock).entries)
one_fetcher_example = one_fetcher [] once page first_fetches refl
