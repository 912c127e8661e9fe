-- ===== src/Cache/Doorkeeper/Members.antt =====
-- Which keys the doorkeeper of cache/tinylfu.go contains.
use native.Mathlib.Nat.{mod-lt}
use cdn_edge.Common.{
  ℕ, zero, suc, ◌*◌, ◌/◌, ◌%◌, ◌<◌, ◌≡◌, refl, ◌∙◌, arith, Bool, true, false, ◌&&◌, List, [], ◌∷◌,
  Text, map, get_or, set, length, length-set, length-map, length-replicate, replicate,
  get_or-set_self,
}
use cdn_edge.Cache.Doorkeeper.{
  Doorkeeper, new_doorkeeper, bit_at, set_bit, first_bit, second_bit, door_contains, door_add,
  door_reset,
}

abbrev pub AllWords : List (List Bool) → Type 0
AllWords [] = Unit {0}
AllWords (w ∷ ws) = (length w ≡ 64) × AllWords ws

pub record IsSized (d : Doorkeeper) : Type 0 where
  pub positive : 0 < d.n
  pub words : length d.bits ≡ d.n
  pub bits_sized : AllWords d.bits

length-word :
    (bits : List (List Bool)) (i : ℕ)
    → AllWords bits
    → i < length bits
    → length (get_or bits i []) ≡ 64
length-word [] i a h = elim h [ ]
length-word (w ∷ ws) zero a h = a.0
length-word (w ∷ ws) (suc i) a h = length-word ws i a.1 (omega arith)

AllWords-set :
    (bits : List (List Bool)) (i : ℕ) (w : List Bool)
    → AllWords bits
    → length w ≡ 64
    → AllWords (set bits i w)
AllWords-set [] i w a h = tt
AllWords-set (x ∷ xs) zero w a h = (h, a.1)
AllWords-set (x ∷ xs) (suc i) w a h = (a.0, AllWords-set xs i w a.1 h)

bit_at-set_bit_self :
    (bits : List (List Bool)) (p : ℕ)
    → AllWords bits
    → p < length bits * 64
    → bit_at (set_bit bits p) p ≡ true
unfolding bit_at set_bit
bit_at-set_bit_self bits p a h =
    let lt : p / 64 < length bits = omega arith in
    rw (get_or-set_self bits (p / 64) (set (get_or bits (p / 64) []) (p % 64) true) [] lt)
      (get_or-set_self _ (p % 64) true false (omega (arith, length-word bits (p / 64) a lt)))

set_word :
    (w : List Bool) (a b : ℕ) → get_or w b false ≡ true → get_or (set w a true) b false ≡ true
set_word [] a b h = h
set_word (x ∷ w) zero zero h = refl
set_word (x ∷ w) zero (suc b) h = h
set_word (x ∷ w) (suc a) zero h = h
set_word (x ∷ w) (suc a) (suc b) h = set_word w a b h

set_words :
    (ws : List (List Bool)) (i a j b : ℕ)
    → get_or (get_or ws j []) b false ≡ true
    → get_or (get_or (set ws i (set (get_or ws i []) a true)) j []) b false ≡ true
set_words [] i a j b h = h
set_words (w ∷ ws) zero a zero b h = set_word w a b h
set_words (w ∷ ws) zero a (suc j) b h = h
set_words (w ∷ ws) (suc i) a zero b h = h
set_words (w ∷ ws) (suc i) a (suc j) b h = set_words ws i a j b h

-- A bit that is set stays set.
bit_at-set_bit :
    (bits : List (List Bool)) (p q : ℕ) → bit_at bits q ≡ true → bit_at (set_bit bits p) q ≡ true
unfolding bit_at set_bit
bit_at-set_bit bits p q h = set_words bits (p / 64) (p % 64) (q / 64) (q % 64) h

set_bit-IsSized :
    (d : Doorkeeper) (bits : List (List Bool)) (p : ℕ)
    → IsSized (record d { bits = bits })
    → p < d.n * 64
    → IsSized (record d { bits = set_bit bits p })
unfolding set_bit
set_bit-IsSized d bits p s lt = record {
  positive = s.positive;
  words = length-set bits _ _ ∙ s.words;
  bits_sized =
      AllWords-set bits _ _ s.bits_sized
        (length-set _ (p % 64) true ∙ length-word bits (p / 64) s.bits_sized (omega arith));
}

both : (a b : Bool) → a ≡ true → b ≡ true → (a && b) ≡ true
both a b ha hb = ground arith

parts : (a b : Bool) → (a && b) ≡ true → (a ≡ true) × (b ≡ true)
parts a b h = ground arith

module _ (hash : Text → ℕ) where
  pub door_add-IsSized : (key : Text) (d : Doorkeeper) → IsSized d → IsSized (door_add hash key d).0
  unfolding door_add
  door_add-IsSized key d s =
      let one = set_bit-IsSized d d.bits (first_bit hash d key) s (mod-lt _ (omega arith)) in
      set_bit-IsSized d _ (second_bit hash d key) one (mod-lt _ (omega arith))

  -- In a doorkeeper whose words are as many as it says, a key that was added is contained.
  pub door_contains-add_self :
      (key : Text) (d : Doorkeeper)
      → IsSized d
      → door_contains hash key (door_add hash key d).0 ≡ true
  unfolding door_add door_contains
  door_contains-add_self key d s =
      let p1 = first_bit hash d key in
      let p2 = second_bit hash d key in
      let lt1 : p1 < length d.bits * 64 = rw s.words (mod-lt _ (omega arith)) in
      let lt2 : p2 < length d.bits * 64 = rw s.words (mod-lt _ (omega arith)) in
      let one = set_bit-IsSized d d.bits p1 s (mod-lt _ (omega arith)) in
      let lt2' : p2 < length (set_bit d.bits p1) * 64 = rw one.words (mod-lt _ (omega arith)) in
      both _ _ (bit_at-set_bit _ p2 p1 (bit_at-set_bit_self d.bits p1 s.bits_sized lt1))
        (bit_at-set_bit_self _ p2 one.bits_sized lt2')

  -- A key that is contained still is after another one has been added.
  pub door_contains-add :
      (key other : Text) (d : Doorkeeper)
      → door_contains hash key d ≡ true
      → door_contains hash key (door_add hash other d).0 ≡ true
  unfolding door_add door_contains
  door_contains-add key other d h =
      let p1 = first_bit hash d other in
      let p2 = second_bit hash d other in
      let q1 = first_bit hash d key in
      let q2 = second_bit hash d key in
      let (h1, h2) = parts (bit_at d.bits q1) (bit_at d.bits q2) h in
      both _ _ (bit_at-set_bit _ p2 q1 (bit_at-set_bit _ p1 q1 h1))
        (bit_at-set_bit _ p2 q2 (bit_at-set_bit _ p1 q2 h2))

  -- `add` reports what `contains` says.
  pub door_add-contains :
      (key : Text) (d : Doorkeeper) → (door_add hash key d).1 ≡ door_contains hash key d
  unfolding door_add door_contains
  door_add-contains key d = refl

AllWords-reset : (ws : List (List Bool)) → AllWords ws → AllWords (map (map (λ _. false)) ws)
AllWords-reset [] a = tt
AllWords-reset (w ∷ ws) a = (length-map w _ ∙ a.0, AllWords-reset ws a.1)

pub door_reset-IsSized : (d : Doorkeeper) → IsSized d → IsSized (door_reset d)
unfolding door_reset
door_reset-IsSized d s = record {
  positive = s.positive;
  words = length-map d.bits _ ∙ s.words;
  bits_sized = AllWords-reset d.bits s.bits_sized;
}

AllWords-replicate : (n : ℕ) → AllWords (replicate n (replicate 64 false))
AllWords-replicate zero = tt
AllWords-replicate (suc n) = (refl, AllWords-replicate n)

pub new_doorkeeper-IsSized : (max_items : ℕ) → IsSized (new_doorkeeper max_items)
unfolding new_doorkeeper
new_doorkeeper-IsSized m = record {
  positive = ground arith;
  words = length-replicate _ _;
  bits_sized = AllWords-replicate _;
}
