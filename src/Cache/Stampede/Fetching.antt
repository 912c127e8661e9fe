-- ===== src/Cache/Stampede/Fetching.antt =====
-- Histories of calls on a lock of cache/stampede.go: who fetches, and what the others get.
use cdn_edge.Common.{
  ℕ, ◌≡◌, ◌≢◌, ◌⊎◌, refl, ap, sym, ◌∙◌, arith, true, ite, if_pos, if_neg, List, [], ◌∷◌, Option,
  none, length, length-set, length-append, ◌<◌, some, Text, text_discrete, Option-cases, Bool-cases,
  inl, inr,
}
use cdn_edge.Common.Assoc.{delete}
use cdn_edge.Cache.Entry.{Entry}
use cdn_edge.Cache.Stampede.{
  LockEntry, StampedeLock, new_lock_entry, locked, entry_at, put_entry, acquire, acquired, release,
  set_streaming,
}
use cdn_edge.Cache.Stampede.Locked.{
  Inv, put-Inv, grown, grown-Inv, freed, freed-Inv, entry_at-put_self, entry_at-put_ne,
  entry_at-grown, locked-freed_ne, locked-grown_ne, grown_cases, freed_cases,
}

pub data Call : Type 0 where
  acquires : Text → Call
  releases : Text → Option Entry → Option Text → Call
  streams : Text → ℕ → Call

-- A call that panics changes nothing that is read here.
unfoldable pub step : Call → StampedeLock → StampedeLock
step (acquires key) sl = (acquire key sl).0
step (releases key entry err) sl = release key entry err sl
step (streams key se) sl = elim (set_streaming key se sl) [ none ↦ sl | some t ↦ t ]

unfoldable pub run : List Call → StampedeLock → StampedeLock
run [] sl = sl
run (c ∷ cs) sl = run cs (step c sl)

-- What a call does to the state, by what it finds.
pub data Effect (sl : StampedeLock) : Call → StampedeLock → Type 0 where
  joined :
      (key : Text) (a : ℕ) (le : LockEntry)
      → locked key sl ≡ some a
      → le.done ≡ (entry_at a sl).done
      → Effect sl (acquires key) (put_entry a le sl)
  began : (key : Text) → locked key sl ≡ none → Effect sl (acquires key) (grown key sl)
  published :
      (key : Text) (entry : Option Entry) (err : Option Text) (a : ℕ)
      → locked key sl ≡ some a
      → Effect sl
          (releases key entry err)
          (freed key a (record (entry_at a sl) { entry = entry; err = err; done = true }) sl)
  streamed :
      (key : Text) (se a : ℕ) (le : LockEntry)
      → locked key sl ≡ some a
      → le.done ≡ (entry_at a sl).done
      → Effect sl (streams key se) (put_entry a le sl)
  missed_release :
      (key : Text) (entry : Option Entry) (err : Option Text)
      → locked key sl ≡ none
      → Effect sl (releases key entry err) sl
  no_change : (key : Text) (se : ℕ) → Effect sl (streams key se) sl

pub step-Effect : (c : Call) (sl : StampedeLock) → Effect sl c (step c sl)
unfolding step acquire release set_streaming
step-Effect (acquires key) sl = elim (Option-cases (locked key sl)) [
  | inl e ↦ rw (e, step, acquire) (began key e)
  | inr (a, e) ↦ rw (e, step, acquire) (joined key a _ e refl)
]
step-Effect (releases key entry err) sl = elim (Option-cases (locked key sl)) [
  | inl e ↦ rw (e, step, release) (missed_release key entry err e)
  | inr (a, e) ↦ rw (e, step, release) (published key entry err a e)
]
step-Effect (streams key se) sl = elim (Option-cases (locked key sl)) [
  | inl e ↦ rw (e, step, set_streaming) (no_change key se)
  | inr (a, e) ↦
      rw (e, step, set_streaming)
        (elim (Bool-cases (entry_at a sl).stream_ready) [
          | inl f ↦ rw f (no_change key se)
          | inr f ↦ rw f (streamed key se a _ e refl)
        ])
]

pub Effect-Inv : {sl t : StampedeLock} {c : Call} → Effect sl c t → Inv sl → Inv t
Effect-Inv {sl} (joined key a le e d) i = put-Inv a le sl d i
Effect-Inv {sl} (began key e) i = grown-Inv key sl i
Effect-Inv {sl} (published key entry err a e) i = freed-Inv key a _ sl e i
Effect-Inv {sl} (streamed key se a le e d) i = put-Inv a le sl d i
Effect-Inv {sl} (missed_release key entry err e) i = i
Effect-Inv {sl} (no_change key se) i = i

-- After any calls on a new lock, no two keys share an entry and a key that is locked has an entry
-- that is not done.
pub run-Inv : (cs : List Call) (sl : StampedeLock) → Inv sl → Inv (run cs sl)
unfolding run
run-Inv [] sl i = i
run-Inv (c ∷ cs) sl i = run-Inv cs (step c sl) (Effect-Inv (step-Effect c sl) i)

-- The first release of a key among some calls.
abbrev pub first_release : Text → List Call → Option (Option Entry × Option Text)
first_release key [] = none
first_release key (acquires k ∷ cs) = first_release key cs
first_release key (streams k se ∷ cs) = first_release key cs
first_release key (releases k entry err ∷ cs) =
    let rest = first_release key cs in ite (text_discrete key k) (some (entry, err)) rest

-- What a waiter gets of a release: nothing of a fetch that failed.
abbrev pub outcome : Option (Option Entry × Option Text) → Option (Option Entry)
outcome none = none
outcome (some (entry, none)) = some entry
outcome (some (entry, some e)) = some none

-- An address that was handed out and that no key locks any more.
abbrev pub Settled : ℕ → StampedeLock → Type 0
Settled a sl = (a < length sl.entries) × ((key : Text) → locked key sl ≢ some a)

put-Settled :
    (key : Text) (a b : ℕ) (le : LockEntry) (sl : StampedeLock)
    → locked key sl ≡ some b
    → Settled a sl
    → (entry_at a (put_entry b le sl) ≡ entry_at a sl) × Settled a (put_entry b le sl)
unfolding put_entry locked
put-Settled key a b le sl e (lt, far) = (
  entry_at-put_ne b a le sl (λ p. far key (rw (← p) e)),
  (omega (arith, length-set sl.entries b le), far),
)

Effect-Settled :
    {sl t : StampedeLock} {c : Call} (a : ℕ)
    → Effect sl c t
    → Settled a sl
    → (entry_at a t ≡ entry_at a sl) × Settled a t
Effect-Settled {sl} a (joined key b le e d) s = put-Settled key a b le sl e s
Effect-Settled {sl} a (began key e) (lt, far) = (
  entry_at-grown key a sl,
  (
    omega (arith, length-append sl.entries (new_lock_entry ∷ [])),
    λ k f. elim (grown_cases key k a sl f) [ inl (p, q) ↦ absurd (omega arith) | inr g ↦ far k g ],
  ),
)
Effect-Settled {sl} a (published key entry err b e) (lt, far) = (
  entry_at-put_ne b a _ (record sl { locks = delete text_discrete key sl.locks })
      (λ p. far key (rw (← p) e)),
  (
    unfold put_entry in
        omega (
          arith,
          length-set sl.entries b
              (record (entry_at b sl) { entry = entry; err = err; done = true }),
        ),
    λ k f. far k (freed_cases key k b a _ sl f).1,
  ),
)
Effect-Settled {sl} a (streamed key se b le e d) s = put-Settled key a b le sl e s
Effect-Settled {sl} a (missed_release key entry err e) s = (refl, s)
Effect-Settled {sl} a (no_change key se) s = (refl, s)

run-Settled :
    (a : ℕ) (cs : List Call) (sl : StampedeLock)
    → Settled a sl
    → entry_at a (run cs sl) ≡ entry_at a sl
unfolding run
run-Settled a [] sl s = refl
run-Settled a (c ∷ cs) sl s =
    let (e, t) = Effect-Settled a (step-Effect c sl) s in run-Settled a cs (step c sl) t ∙ e

-- A call on a lock where `key` locks `a`: it stays so, or the call releases the key.
abbrev pub Kept : Text → ℕ → Call → StampedeLock → Type 0
Kept key a (releases k entry err) t =
    ((key ≢ k) × (locked key t ≡ some a))
    ⊎ ((key ≡ k) × (acquired (entry_at a t) ≡ outcome (some (entry, err))) × Settled a t)
Kept key a c t = locked key t ≡ some a

acquired_published :
    (le : LockEntry) (entry : Option Entry) (err : Option Text)
    → acquired (record le { entry = entry; err = err; done = true }) ≡ outcome (some (entry, err))
unfolding acquired
acquired_published le entry none = refl
acquired_published le entry (some e) = refl

published-Settled :
    (key : Text) (entry : Option Entry) (err : Option Text) (a : ℕ) (sl : StampedeLock)
    → Inv sl
    → locked key sl ≡ some a
    → let t = freed key a (record (entry_at a sl) { entry = entry; err = err; done = true }) sl in
      (acquired (entry_at a t) ≡ outcome (some (entry, err))) × Settled a t
published-Settled key entry err a sl i l =
    let le : LockEntry = record (entry_at a sl) { entry = entry; err = err; done = true } in
    let rest : StampedeLock = record sl { locks = delete text_discrete key sl.locks } in
    let lt = i.bound key a l in
    (
      rw (entry_at-put_self a le rest lt) (acquired_published (entry_at a sl) entry err),
      (
        unfold put_entry in omega (arith, length-set sl.entries a le),
        λ k f. let (n, g) = freed_cases key k a a le sl f in n (i.apart k key a g l),
      ),
    )

pub Effect-Kept :
    {sl t : StampedeLock} {c : Call} (key : Text) (a : ℕ)
    → Effect sl c t
    → Inv sl
    → locked key sl ≡ some a
    → Kept key a c t
unfolding locked put_entry
Effect-Kept {sl} key a (joined k b le e d) i l = l
Effect-Kept {sl} key a (began k e) i l =
    locked-grown_ne k key sl (λ p. let f : some a ≡ none = sym l ∙ rw p e in cc) ∙ l
Effect-Kept {sl} key a (published k entry err b e) i l = elim (text_discrete key k) [
  | yes p ↦
      let f : locked key sl ≡ some b = rw p e in
      let q : a ≡ b = let g : some a ≡ some b = sym l ∙ f in cc in
      let (done, settled) = published-Settled k entry err b sl i e in
      inr (p, rw q done, rw q settled)
  | no n ↦ inl (
    n,
    locked-freed_ne k key b (record (entry_at b sl) { entry = entry; err = err; done = true }) sl n
        ∙ l,
  )
]
Effect-Kept {sl} key a (streamed k se b le e d) i l = l
Effect-Kept {sl} key a (missed_release k entry err e) i l =
    inl (λ p. let f : some a ≡ none = sym l ∙ rw p e in cc, l)
Effect-Kept {sl} key a (no_change k se) i l = l

pub run-acquired :
    (cs : List Call) (sl : StampedeLock) (key : Text) (a : ℕ)
    → Inv sl
    → locked key sl ≡ some a
    → acquired (entry_at a (run cs sl)) ≡ outcome (first_release key cs)
unfolding run acquired
run-acquired [] sl key a i l = rw (i.undone key a l) refl
run-acquired (acquires k ∷ cs) sl key a i l =
    let e = step-Effect (acquires k) sl in
    run-acquired cs (step (acquires k) sl) key a (Effect-Inv e i) (Effect-Kept key a e i l)
run-acquired (streams k se ∷ cs) sl key a i l =
    let e = step-Effect (streams k se) sl in
    run-acquired cs (step (streams k se) sl) key a (Effect-Inv e i) (Effect-Kept key a e i l)
run-acquired (releases k entry err ∷ cs) sl key a i l =
    let e = step-Effect (releases k entry err) sl in
    elim (Effect-Kept key a e i l) [
      | inl (n, l') ↦
          rw (if_neg _ n)
            (run-acquired cs (step (releases k entry err) sl) key a (Effect-Inv e i) l')
      | inr (p, out, s) ↦
          rw (if_pos _ p) (ap acquired (run-Settled a cs (step (releases k entry err) sl) s) ∙ out)
    ]
