-- ===== src/Common/Strings.antt =====
-- Go's functions on strings, for ASCII text: `strings.TrimSpace` takes the six ASCII spaces away,
-- `strings.ToLower` and `strings.EqualFold` know the ASCII letters.
use cdn_edge.Common.{
  ℕ, zero, suc, ◌+◌, ◌-◌, ◌*◌, ◌/◌, ◌%◌, ◌^◌, ◌≡◌, refl, Bool, true, false, ◌&&◌, ◌||◌, ltb, leb,
  ◌==◌, if◌then◌else◌, List, [], ◌∷◌, ◌++◌, Option, none, some, Text, length, arith, Bool-cases,
  inl, inr, ◌<◌,
}
use cdn_edge.Common.Int.{ℤ, pos, negsuc}

-- `a == b`
unfoldable pub same : Text → Text → Bool
same [] [] = true
same [] (d ∷ r) = false
same (c ∷ l) [] = false
same (c ∷ l) (d ∷ r) = (c == d) && same l r

-- `l == ""`
abbrev pub is_empty : Text → Bool
is_empty [] = true
is_empty (c ∷ l) = false

-- `strings.HasPrefix` and `strings.TrimPrefix`.
unfoldable pub trim_prefix : Text → Text → Option Text
trim_prefix [] l = some l
trim_prefix (c ∷ p) [] = none
trim_prefix (c ∷ p) (d ∷ l) = let rest = trim_prefix p l in if c == d then rest else none

-- `strings.HasPrefix(l, p)`
unfoldable pub has_prefix : Text → Text → Bool
has_prefix [] l = true
has_prefix (c ∷ p) [] = false
has_prefix (c ∷ p) (d ∷ l) = (c == d) && has_prefix p l

-- `strings.Contains(l, p)`
unfoldable pub contains : Text → Text → Bool
contains p [] = has_prefix p []
contains p (c ∷ l) = has_prefix p (c ∷ l) || contains p l

unfoldable pub is_space : ℕ → Bool
is_space c = (c == 32) || (leb 9 c && leb c 13)

unfoldable pub trim_left : Text → Text
trim_left [] = []
trim_left (c ∷ l) = let rest = trim_left l in if is_space c then rest else c ∷ l

unfoldable pub trim_right : Text → Text
trim_right [] = []
trim_right (c ∷ l) =
    let rest = trim_right l in if is_space c && (length rest == 0) then [] else c ∷ rest

unfoldable pub trim_space : Text → Text
trim_space l = trim_right (trim_left l)

-- `strings.TrimRight(l, "c")` for one byte.
unfoldable pub trim_end : ℕ → Text → Text
trim_end d [] = []
trim_end d (c ∷ l) =
    let rest = trim_end d l in if (c == d) && (length rest == 0) then [] else c ∷ rest

-- `strings.LastIndex(l, d)`, of one byte.
unfoldable pub last_index : ℕ → Text → Option ℕ
last_index d [] = none
last_index d (c ∷ l) = elim (last_index d l) [
  | some i ↦ some (suc i)
  | none ↦ if c == d then some 0 else none
]

unfoldable pub lower : Text → Text
lower [] = []
lower (c ∷ l) = (if leb 65 c && leb c 90 then c + 32 else c) ∷ lower l

unfoldable pub is_ascii : Text → Bool
is_ascii [] = true
is_ascii (c ∷ l) = leb c 127 && is_ascii l

-- What is known of `strings.ToLower`, which lowers the letters of every script: on ASCII text it
-- lowers the ASCII letters.
abbrev pub LowersAscii : (Text → Text) → Type 0
LowersAscii to_lower = (l : Text) → is_ascii l ≡ true → to_lower l ≡ lower l

unfoldable pub equal_fold : Text → Text → Bool
equal_fold a b = same (lower a) (lower b)

-- What stands in front of the first `d`.
unfoldable pub until : ℕ → Text → Text
until d [] = []
until d (c ∷ l) = let rest = until d l in if c == d then [] else c ∷ rest

-- What stands behind the first `d`; `none` without one.
unfoldable pub behind : ℕ → Text → Option Text
behind d [] = none
behind d (c ∷ l) = let rest = behind d l in if c == d then some l else rest

-- `c` in front of the first of some parts.
abbrev pub grow : ℕ → List Text → List Text
grow c [] = (c ∷ []) ∷ []
grow c (p ∷ ps) = (c ∷ p) ∷ ps

-- `strings.Split(l, d)` for one byte `d`.
unfoldable pub split : ℕ → Text → List Text
split d [] = [] ∷ []
split d (c ∷ l) = let rest = split d l in if c == d then [] ∷ rest else grow c rest

-- `strings.Join(ps, d)` for one byte `d`.
unfoldable pub join : ℕ → List Text → Text
join d [] = []
join d (p ∷ []) = p
join d (p ∷ q ∷ ps) = p ++ d ∷ join d (q ∷ ps)

-- The value of digits behind those that are worth `n`.
unfoldable pub digits : ℕ → Text → Option ℕ
digits n [] = some n
digits n (c ∷ l) =
    let rest = digits (n * 10 + (c - 48)) l in if leb 48 c && leb c 57 then rest else none

-- Digits, at least one of them.
unfoldable pub number : Text → Option ℕ
number [] = none
number (c ∷ l) = digits 0 (c ∷ l)

abbrev pub in_range : Bool → ℕ → Option ℤ
in_range false n = if ltb n (2 ^ 63) then some (pos n) else none
in_range true zero = some (pos 0)
in_range true (suc n) = if ltb n (2 ^ 63) then some (negsuc n) else none

unfoldable pub signed : Bool → Text → Option ℤ
signed negative l = elim (number l) [ none ↦ none | some n ↦ in_range negative n ]

-- `strconv.Atoi`
unfoldable pub atoi : Text → Option ℤ
atoi [] = none
atoi (c ∷ l) =
    if c == 45 then signed true l else if c == 43 then signed false l else signed false (c ∷ l)

pub same_refl : (l : Text) → same l l ≡ true
unfolding same
same_refl [] = refl
same_refl (c ∷ l) = ground (arith, same_refl l)

pub eq_of_same : (a b : Text) → same a b ≡ true → a ≡ b
unfolding same
eq_of_same [] [] h = refl
eq_of_same [] (d ∷ r) h = absurd (cc)
eq_of_same (c ∷ l) [] h = absurd (cc)
eq_of_same (c ∷ l) (d ∷ r) h =
    let ih : same l r ≡ true → l ≡ r = eq_of_same l r in
    let e : c ≡ d = ground arith in let t : l ≡ r = ih (ground arith) in cc

-- A split is the text up to the first separator, and the split of what is behind it.
pub split-behind :
    (d : ℕ) (l : Text)
    → split d l ≡ until d l ∷ (elim (behind d l) [ some r ↦ split d r | none ↦ [] ])
unfolding split until behind
split-behind d [] = refl
split-behind d (c ∷ l) = elim (Bool-cases (c == d)) [
  | inl e ↦ rw e refl
  | inr e ↦ rw (e, split-behind d l) refl
]

pub length-behind : (d : ℕ) (l r : Text) → behind d l ≡ some r → length r < length l
unfolding behind
length-behind d [] r h = absurd (cc)
length-behind d (c ∷ l) r h = ground (arith, length-behind d l r)

-- The decimal digits of a number in front of others; fuel for 20 digits, those of any uint64.
unfoldable pub decimal_digits : ℕ → ℕ → Text → Text
decimal_digits zero n done = done
decimal_digits (suc fuel) n done =
    let rest = decimal_digits fuel (n / 10) ((n % 10 + 48) ∷ done) in
    if ltb n 10 then (n + 48) ∷ done else rest

-- `strconv.Itoa` and `strconv.AppendInt` in base 10, of an int64.
unfoldable pub itoa : ℤ → Text
itoa (pos n) = decimal_digits 20 n []
itoa (negsuc n) = 45 ∷ decimal_digits 20 (suc n) []
