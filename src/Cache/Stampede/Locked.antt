-- ===== src/Cache/Stampede/Locked.antt =====
-- The entries of a lock of cache/stampede.go, call by call.
use cdn_edge.Common.{
  ℕ, zero, suc, ap, ◌∙◌, sym, ℕ_discrete, ◌<◌, ◌≤◌, ◌≡◌, ◌≢◌, ◌⊎◌, refl, arith, false, List, [],
  ◌∷◌, ◌++◌, none, some, Text, length, get_or, text_discrete, get_or-set_self, get_or-set_ne,
  length-set, length-append, inl, inr,
}
use cdn_edge.Common.Assoc.{
  insert, delete, lookup-insert_self, lookup-insert_ne, lookup-delete_self, lookup-delete_ne,
}
use mathlib.Core.List.{lookup}
use cdn_edge.Cache.Stampede.{
  LockEntry, StampedeLock, new_lock_entry, new_stampede_lock, locked, entry_at, put_entry,
}

-- A key that is locked has an entry that is not done, and no other key has the same one.
pub record Inv (sl : StampedeLock) : Type 0 where
  pub bound : (key : Text) (a : ℕ) → locked key sl ≡ some a → a < length sl.entries
  pub undone : (key : Text) (a : ℕ) → locked key sl ≡ some a → (entry_at a sl).done ≡ false
  pub apart :
      (key other : Text) (a : ℕ) → locked key sl ≡ some a → locked other sl ≡ some a → key ≡ other

pub new-Inv : Inv new_stampede_lock
unfolding locked lookup
new-Inv = record {
  bound = λ key a e. absurd (cc);
  undone = λ key a e. absurd (cc);
  apart = λ key other a e f. absurd (cc);
}

get_or-append_default :
    {A : Type 0} (xs : List A) (i : ℕ) (d : A) → get_or (xs ++ d ∷ []) i d ≡ get_or xs i d
get_or-append_default [] zero d = refl
get_or-append_default [] (suc i) d = refl
get_or-append_default (x ∷ xs) zero d = refl
get_or-append_default (x ∷ xs) (suc i) d = get_or-append_default xs i d

pub entry_at-put_self :
    (a : ℕ) (le : LockEntry) (sl : StampedeLock)
    → a < length sl.entries
    → entry_at a (put_entry a le sl) ≡ le
unfolding put_entry
entry_at-put_self a le sl h = get_or-set_self sl.entries a le new_lock_entry h

pub entry_at-put_ne :
    (a b : ℕ) (le : LockEntry) (sl : StampedeLock)
    → a ≢ b
    → entry_at b (put_entry a le sl) ≡ entry_at b sl
unfolding put_entry
entry_at-put_ne a b le sl h = get_or-set_ne sl.entries a b le new_lock_entry h

-- An update of an entry that keeps `done`.
done-put_entry :
    (a b : ℕ) (le : LockEntry) (sl : StampedeLock)
    → le.done ≡ (entry_at a sl).done
    → b < length sl.entries
    → (entry_at b (put_entry a le sl)).done ≡ (entry_at b sl).done
done-put_entry a b le sl kept lt = elim (ℕ_discrete a b) [
  | yes p ↦
      let here : entry_at b (put_entry a le sl) ≡ le = rw p (entry_at-put_self b le sl lt) in
      let same_done : le.done ≡ (entry_at b sl).done = rw (← p) kept in rw here same_done
  | no n ↦ rw (entry_at-put_ne a b le sl n) refl
]

pub put-Inv :
    (a : ℕ) (le : LockEntry) (sl : StampedeLock)
    → le.done ≡ (entry_at a sl).done
    → Inv sl
    → Inv (put_entry a le sl)
unfolding put_entry locked
put-Inv a le sl kept i = record {
  bound = λ key b e. let h = i.bound key b e in omega (arith, length-set sl.entries a le);
  undone = λ key b e. done-put_entry a b le sl kept (i.bound key b e) ∙ i.undone key b e;
  apart = i.apart;
}

-- The lock behind an `Acquire` that fetches.
abbrev pub grown : Text → StampedeLock → StampedeLock
grown key sl = record {
  locks = insert text_discrete key (length sl.entries) sl.locks;
  entries = sl.entries ++ new_lock_entry ∷ [];
}

pub entry_at-grown :
    (key : Text) (a : ℕ) (sl : StampedeLock) → entry_at a (grown key sl) ≡ entry_at a sl
entry_at-grown key a sl = get_or-append_default sl.entries a new_lock_entry

pub locked-grown_ne :
    (key k : Text) (sl : StampedeLock) → k ≢ key → locked k (grown key sl) ≡ locked k sl
unfolding locked
locked-grown_ne key k sl n = lookup-insert_ne text_discrete key k (length sl.entries) sl.locks n

pub locked-grown_self :
    (key : Text) (sl : StampedeLock) → locked key (grown key sl) ≡ some (length sl.entries)
unfolding locked
locked-grown_self key sl = lookup-insert_self text_discrete key (length sl.entries) sl.locks

pub get_or_beyond : {A : Type 0} (xs : List A) (i : ℕ) (d : A) → length xs ≤ i → get_or xs i d ≡ d
get_or_beyond [] i d h = refl
get_or_beyond (x ∷ xs) zero d h = absurd (omega arith)
get_or_beyond (x ∷ xs) (suc i) d h = get_or_beyond xs i d (omega arith)

-- What a key locks behind a fetch: the new entry, or what it locked.
pub grown_cases :
    (key k : Text) (b : ℕ) (sl : StampedeLock)
    → locked k (grown key sl) ≡ some b
    → ((k ≡ key) × (b ≡ length sl.entries)) ⊎ (locked k sl ≡ some b)
grown_cases key k b sl e = elim (text_discrete k key) [
  | yes p ↦
      let f : locked k (grown key sl) ≡ some (length sl.entries) =
        rw p (locked-grown_self key sl) in
      inl (p, cc)
  | no n ↦ inr (sym (locked-grown_ne key k sl n) ∙ e)
]

pub grown-Inv : (key : Text) (sl : StampedeLock) → Inv sl → Inv (grown key sl)
grown-Inv key sl i = record {
  bound = λ k b e. elim (grown_cases key k b sl e) [
    | inl (p, q) ↦ omega (arith, length-append sl.entries (new_lock_entry ∷ []))
    | inr f ↦ let h = i.bound k b f in omega (arith, length-append sl.entries (new_lock_entry ∷ []))
  ];
  undone = λ k b e. rw (entry_at-grown key b sl) (elim (grown_cases key k b sl e) [
    | inl (p, q) ↦
        ap (λ (x : LockEntry). x.done) (get_or_beyond sl.entries b new_lock_entry (omega arith))
    | inr f ↦ i.undone k b f
  ]);
  apart = λ k o b e f. elim (grown_cases key k b sl e) [
    | inl (p, q) ↦ elim (grown_cases key o b sl f) [
      | inl (p', q') ↦ cc
      | inr g ↦ let h = i.bound o b g in absurd (omega arith)
    ]
    | inr g ↦ elim (grown_cases key o b sl f) [
      | inl (p, q) ↦ let h = i.bound k b g in absurd (omega arith)
      | inr g' ↦ i.apart k o b g g'
    ]
  ];
}

-- The lock behind a `Release` of a key that is locked.
abbrev pub freed : Text → ℕ → LockEntry → StampedeLock → StampedeLock
freed key a le sl = put_entry a le (record sl { locks = delete text_discrete key sl.locks })

pub locked-freed_self :
    (key : Text) (a : ℕ) (le : LockEntry) (sl : StampedeLock)
    → locked key (freed key a le sl) ≡ none
unfolding locked put_entry
locked-freed_self key a le sl = lookup-delete_self text_discrete key sl.locks

pub locked-freed_ne :
    (key k : Text) (a : ℕ) (le : LockEntry) (sl : StampedeLock)
    → k ≢ key
    → locked k (freed key a le sl) ≡ locked k sl
unfolding locked put_entry
locked-freed_ne key k a le sl n = lookup-delete_ne text_discrete key k sl.locks n

-- What is locked behind a release was locked before, by another key than the released one.
pub freed_cases :
    (key k : Text) (a b : ℕ) (le : LockEntry) (sl : StampedeLock)
    → locked k (freed key a le sl) ≡ some b
    → (k ≢ key) × (locked k sl ≡ some b)
freed_cases key k a b le sl e = elim (text_discrete k key) [
  | yes p ↦
      let f : locked k (freed key a le sl) ≡ none = rw p (locked-freed_self key a le sl) in
      absurd (cc)
  | no n ↦ (n, sym (locked-freed_ne key k a le sl n) ∙ e)
]

pub freed-Inv :
    (key : Text) (a : ℕ) (le : LockEntry) (sl : StampedeLock)
    → locked key sl ≡ some a
    → Inv sl
    → Inv (freed key a le sl)
freed-Inv key a le sl l i = record {
  bound = λ k b e.
      let h = i.bound k b (freed_cases key k a b le sl e).1 in
      unfold put_entry in omega (arith, length-set sl.entries a le);
  undone = λ k b e.
      let (n, f) = freed_cases key k a b le sl e in
      let far : a ≢ b = λ p. n (i.apart k key b f (rw p at l)) in
      rw (entry_at-put_ne a b le (record sl { locks = delete text_discrete key sl.locks }) far)
        (i.undone k b f);
  apart = λ k o b e f.
      i.apart k o b (freed_cases key k a b le sl e).1 (freed_cases key o a b le sl f).1;
}
