-- ===== src/Cache/Disk/Budget.antt =====
-- The byte budget of the disk tier of cache/cache.go.
use mathlib.Core.List.{lookup}
use cdn_edge.Common.{
  ℕ, zero, suc, ◌<◌, ◌≡◌, ◌≢◌, refl, subst, arith, Bool, true, false, length, List, [], ◌∷◌, Text,
  text_discrete, none, if◌then◌else◌, Bool-cases, inl, inr,
}
use cdn_edge.Common.Assoc.{length-delete-lt}
use cdn_edge.Common.Int.{ℤ, pos, ◌+ℤ◌, ◌-ℤ◌, ◌≤ℤ◌, ltb_ℤ}
use cdn_edge.Cache.Entry.{Entry}
use cdn_edge.Cache.Disk.{
  Disk, File, Platform, oldest, release_bytes, evict_oldest_disk_entry, make_room, entry_size,
  spill_to_disk, write_counted, save_to_disk,
}

lookup-head : (f : Text × File) (fs : List (Text × File)) → lookup text_discrete f.0 (f ∷ fs) ≢ none
unfolding lookup
lookup-head f fs h = ground arith

lookup-tail :
    (k : Text) (f : Text × File) (fs : List (Text × File))
    → lookup text_discrete k fs ≢ none
    → lookup text_discrete k (f ∷ fs) ≢ none
unfolding lookup
lookup-tail k f fs there h = ground arith

-- The scan returns a file of the directory.
oldest-listed :
    (best : Text × File) (fs l : List (Text × File))
    → lookup text_discrete best.0 l ≢ none
    → ((k : Text) → lookup text_discrete k fs ≢ none → lookup text_discrete k l ≢ none)
    → lookup text_discrete (oldest best fs).0 l ≢ none
unfolding oldest
oldest-listed best [] l h sub = h
oldest-listed best (f ∷ fs) l h sub =
    oldest-listed (if ltb_ℤ f.1.mod_time best.1.mod_time then f else best) fs l
      (elim (Bool-cases (ltb_ℤ f.1.mod_time best.1.mod_time)) [
        | inl older ↦ rw older (sub f.0 (lookup-head f fs))
        | inr newer ↦ rw newer h
      ])
      (λ k there. sub k (lookup-tail k f fs there))

evict-shrinks :
    (d : Disk)
    → (evict_oldest_disk_entry d).1 ≡ true
    → length (evict_oldest_disk_entry d).0.files < length d.files
unfolding evict_oldest_disk_entry
evict-shrinks d h = split d.files refl
  where
    split :
        (l : List (Text × File))
        → d.files ≡ l
        → length (evict_oldest_disk_entry d).0.files < length d.files
    split [] e = absurd (ground arith)
    split (f ∷ fs) e =
        rw (e, evict_oldest_disk_entry)
          (rw e (
            length-delete-lt text_discrete (oldest f fs).0 (f ∷ fs) (
              oldest-listed f fs (f ∷ fs) (lookup-head f fs)
                (λ k there. lookup-tail k f fs there))))

evict-fails :
    (d : Disk)
    → (evict_oldest_disk_entry d).1 ≡ false
    → (d.files ≡ []) × ((evict_oldest_disk_entry d).0 ≡ d)
unfolding evict_oldest_disk_entry
evict-fails d h = ground arith

evict-same_limit : (d : Disk) → (evict_oldest_disk_entry d).0.max_bytes ≡ d.max_bytes
unfolding evict_oldest_disk_entry
evict-same_limit d = ground arith

-- How the loop of `spillToDisk` ends.
pub record Room (size : ℕ) (limit : ℤ) (r : Disk × Bool) : Type 0 where
  pub same : r.0.max_bytes ≡ limit
  pub fits : r.1 ≡ true → r.0.used_bytes +ℤ pos size ≤ℤ limit
  pub empties : r.1 ≡ false → (r.0.files ≡ []) × (ltb_ℤ limit (r.0.used_bytes +ℤ pos size) ≡ true)

make_room-Room :
    (fuel size : ℕ) (d : Disk)
    → length d.files < fuel
    → Room size d.max_bytes (make_room fuel size d)
unfolding make_room
make_room-Room zero size d lt = elim lt [ ]
make_room-Room (suc fuel) size d lt =
    elim (Bool-cases (ltb_ℤ d.max_bytes (d.used_bytes +ℤ pos size))) [
      | inr fits ↦
          rw (fits, make_room)
            (record { same = refl; fits = λ _. ground arith; empties = λ h. absurd (cc) })
      | inl over ↦ elim (Bool-cases (evict_oldest_disk_entry d).1) [
        | inl more ↦
            rw (over, more, make_room)
              (subst (λ m. Room size m (make_room fuel size (evict_oldest_disk_entry d).0))
                (evict-same_limit d)
                (make_room-Room fuel size (evict_oldest_disk_entry d).0
                  (omega (arith, evict-shrinks d more))))
        | inr none_left ↦
            let (empty, same) = evict-fails d none_left in
            rw (over, none_left, make_room, same)
              (record { same = refl; fits = λ h. absurd (cc); empties = λ _. (empty, over) })
      ]
    ]

release_bytes-le :
    (size : ℕ) (used limit : ℤ) → pos 0 ≤ℤ limit → used ≤ℤ limit → release_bytes size used ≤ℤ limit
unfolding release_bytes ◌-ℤ◌
release_bytes-le size used limit h k = ground arith

evict-within :
    (d : Disk) (limit : ℤ)
    → pos 0 ≤ℤ limit
    → d.used_bytes ≤ℤ limit
    → (evict_oldest_disk_entry d).0.used_bytes ≤ℤ limit
evict-within d limit h k = split d.files refl
  where
    split :
        (l : List (Text × File)) → d.files ≡ l → (evict_oldest_disk_entry d).0.used_bytes ≤ℤ limit
    split [] e = unfold evict_oldest_disk_entry in rw (e, evict_oldest_disk_entry) k
    split (f ∷ fs) e =
        unfold evict_oldest_disk_entry in
        rw (e, evict_oldest_disk_entry)
          (release_bytes-le (length (oldest f fs).1.content) d.used_bytes limit h k)

make_room-within :
    (fuel size : ℕ) (d : Disk) (limit : ℤ)
    → pos 0 ≤ℤ limit
    → d.used_bytes ≤ℤ limit
    → (make_room fuel size d).0.used_bytes ≤ℤ limit
unfolding make_room
make_room-within zero size d limit h k = k
make_room-within (suc fuel) size d limit h k =
    let now = evict-within d limit h k in
    let later = make_room-within fuel size (evict_oldest_disk_entry d).0 limit h now in
    ground (arith, now, later)

write_counted-fits :
    (p : Platform) (now : ℤ) (key : Text) (e : Entry) (d : Disk) (limit : ℤ)
    → d.used_bytes ≤ℤ limit
    → d.used_bytes +ℤ pos (entry_size e) ≤ℤ limit
    → (write_counted p now key e d).used_bytes ≤ℤ limit
unfolding write_counted save_to_disk
write_counted-fits p now key e d limit h k = ground arith

-- With a byte limit, spilling an entry keeps the counted bytes within the limit, whether the entry
-- is written or given up.
pub spill_within_limit :
    (p : Platform) (now : ℤ) (key : Text) (e : Entry) (d : Disk)
    → pos 1 ≤ℤ d.max_bytes
    → d.used_bytes ≤ℤ d.max_bytes
    → (spill_to_disk p now key e d).used_bytes ≤ℤ d.max_bytes
unfolding spill_to_disk
spill_within_limit p now key e d limited within =
    let fuel = suc (length d.files) in
    let size = entry_size e in
    let limit = d.max_bytes in
    let r = make_room-Room fuel size d (omega arith) in
    let w = make_room-within fuel size d limit (omega arith) within in
    let on : ltb_ℤ (pos 0) d.max_bytes ≡ true = ground arith in
    rw (on, spill_to_disk)
      (elim (Bool-cases (make_room fuel size d).1) [
        | inl room ↦ rw room (write_counted-fits p now key e _ limit w (r.fits room))
        | inr full ↦ rw full w
      ])
