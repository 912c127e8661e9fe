-- ===== src/Cache/Stampede/Waiters.antt =====
-- What the callers of a lock of cache/stampede.go can count on.
use cdn_edge.Common.{
  ℕ, ◌≡◌, ◌≢◌, refl, ap, ◌∙◌, arith, Bool, List, [], ◌∷◌, Option, none, some, Text, Option-cases,
  inl, inr, if_pos, if_neg, length,
}
use cdn_edge.Cache.Entry.{Entry}
use cdn_edge.Cache.Stampede.{
  StampedeLock, LockEntry, new_stampede_lock, locked, entry_at, put_entry, fetches, waits, acquire,
  acquired, acquired_streaming,
}
use cdn_edge.Cache.Stampede.Locked.{Inv, new-Inv, locked-grown_self}
use cdn_edge.Cache.Stampede.Fetching.{
  Call, acquires, releases, streams, step, run, run-Inv, first_release, outcome, run-acquired,
  step-Effect, Effect-Inv, Effect-Kept,
}

reached-Inv : (cs : List Call) → Inv (run cs new_stampede_lock)
reached-Inv cs = run-Inv cs new_stampede_lock new-Inv

waits-locked :
    (key : Text) (a : ℕ) (sl : StampedeLock)
    → (acquire key sl).1 ≡ waits a
    → locked key (acquire key sl).0 ≡ some a
unfolding acquire locked put_entry
waits-locked key a sl h = elim (Option-cases (locked key sl)) [
  | inl e ↦ absurd (let f = rw (e, acquire) at h in cc)
  | inr (b, e) ↦
      (let f = rw (e, acquire) at h in rw (e, acquire) (let g : b ≡ a = cc in e ∙ ap some g))
]

-- Whatever calls came before: a caller that Acquire makes wait goes on waiting exactly until the
-- first release of its key, and from then on gets what that release published, the entry or, with
-- an error, nothing, whatever other calls come in between or after.
pub waiter_served :
    (before after : List Call) (key : Text) (a : ℕ)
    → (acquire key (run before new_stampede_lock)).1 ≡ waits a
    → acquired (entry_at a (run after (acquire key (run before new_stampede_lock)).0))
      ≡ outcome (first_release key after)
unfolding step
waiter_served before after key a h =
    let sl = run before new_stampede_lock in
    let i = Effect-Inv (step-Effect (acquires key) sl) (reached-Inv before) in
    run-acquired after (acquire key sl).0 key a i (waits-locked key a sl h)

acquired-acquired_streaming :
    (first : Bool) (le : LockEntry) (x : Option Entry)
    → acquired le ≡ some x
    → acquired_streaming first le ≢ none
unfolding acquired acquired_streaming
acquired-acquired_streaming first le x h n = ground arith

-- A caller that AcquireStreaming makes wait is not left waiting behind the first release of its
-- key, whichever ready case the select takes.
pub streaming_waiter_served :
    (before after : List Call) (key : Text) (a : ℕ) (first : Bool) (r : Option Entry × Option Text)
    → (acquire key (run before new_stampede_lock)).1 ≡ waits a
    → first_release key after ≡ some r
    → acquired_streaming first
        (entry_at a (run after (acquire key (run before new_stampede_lock)).0))
      ≢ none
streaming_waiter_served before after key a first (entry, none) h f =
    let w = waiter_served before after key a h ∙ ap outcome f in
    acquired-acquired_streaming first _ entry w
streaming_waiter_served before after key a first (entry, some e) h f =
    let w = waiter_served before after key a h ∙ ap outcome f in
    acquired-acquired_streaming first _ none w

pub fetches-locked :
    (key : Text) (sl : StampedeLock)
    → (acquire key sl).1 ≡ fetches
    → locked key (acquire key sl).0 ≡ some (length sl.entries)
unfolding acquire
fetches-locked key sl h = elim (Option-cases (locked key sl)) [
  | inl e ↦ rw (e, acquire) (locked-grown_self key sl)
  | inr (b, e) ↦ absurd (let f = rw (e, acquire) at h in cc)
]

pub locked-waits :
    (key : Text) (a : ℕ) (sl : StampedeLock) → locked key sl ≡ some a → (acquire key sl).1 ≡ waits a
unfolding acquire
locked-waits key a sl l = rw (l, acquire) refl

run-locked :
    (cs : List Call) (sl : StampedeLock) (key : Text) (a : ℕ)
    → Inv sl
    → locked key sl ≡ some a
    → first_release key cs ≡ none
    → locked key (run cs sl) ≡ some a
unfolding run
run-locked [] sl key a i l n = l
run-locked (acquires k ∷ cs) sl key a i l n =
    let e = step-Effect (acquires k) sl in
    run-locked cs (step (acquires k) sl) key a (Effect-Inv e i) (Effect-Kept key a e i l) n
run-locked (streams k se ∷ cs) sl key a i l n =
    let e = step-Effect (streams k se) sl in
    run-locked cs (step (streams k se) sl) key a (Effect-Inv e i) (Effect-Kept key a e i l) n
run-locked (releases k entry err ∷ cs) sl key a i l n =
    let e = step-Effect (releases k entry err) sl in
    elim (Effect-Kept key a e i l) [
      | inl (m, l') ↦
          run-locked cs (step (releases k entry err) sl) key a (Effect-Inv e i) l'
            (rw (if_neg _ m) at n)
      | inr (p, _, _) ↦ absurd (let f = rw (if_pos _ p) at n in cc)
    ]

-- Whatever calls came before: once a caller is told to fetch a key, then as long as the key is not
-- released a further caller of Acquire waits, and all of them at one entry.
pub one_fetcher :
    (before between : List Call) (key : Text)
    → (acquire key (run before new_stampede_lock)).1 ≡ fetches
    → first_release key between ≡ none
    → let sl = run before new_stampede_lock in
      (acquire key (run between (acquire key sl).0)).1 ≡ waits (length sl.entries)
unfolding step
one_fetcher before between key h n =
    let sl = run before new_stampede_lock in
    let i = Effect-Inv (step-Effect (acquires key) sl) (reached-Inv before) in
    let a = length sl.entries in
    locked-waits key a (run between (acquire key sl).0)
      (run-locked between (acquire key sl).0 key a i (fetches-locked key sl h) n)
