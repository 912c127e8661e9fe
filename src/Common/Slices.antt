-- ===== src/Common/Slices.antt =====
-- Lemmas on `take` and `drop` of byte strings.
use cdn_edge.Common.{
  ℕ, zero, suc, ◌+◌, ◌≤◌, ◌≡◌, refl, ap, sym, arith, [], ◌∷◌, ◌++◌, Text, length, take, drop,
}

pub take-append : (n : ℕ) (xs ys : Text) → n ≤ length xs → take n (xs ++ ys) ≡ take n xs
take-append zero xs ys h = refl
take-append (suc n) [] ys h = absurd (omega arith)
take-append (suc n) (x ∷ xs) ys h = ap (◌∷◌ x) (take-append n xs ys (omega arith))

take_nil : (n : ℕ) → take {A = ℕ} n [] ≡ []
take_nil zero = refl
take_nil (suc n) = refl

drop_nil : (n : ℕ) → drop {A = ℕ} n [] ≡ []
drop_nil zero = refl
drop_nil (suc n) = refl

pub take_add : (m n : ℕ) (xs : Text) → take (m + n) xs ≡ take m xs ++ take n (drop m xs)
take_add zero n xs = let e : 0 + n ≡ n = omega arith in rw e refl
take_add (suc m) n [] = let e : suc m + n ≡ suc (m + n) = omega arith in rw e (sym (take_nil n))
take_add (suc m) n (x ∷ xs) =
    let e : suc m + n ≡ suc (m + n) = omega arith in rw e (ap (◌∷◌ x) (take_add m n xs))

pub drop-drop : (m n : ℕ) (xs : Text) → drop n (drop m xs) ≡ drop (m + n) xs
drop-drop zero n xs = let e : 0 + n ≡ n = omega arith in rw e refl
drop-drop (suc m) n [] = let e : suc m + n ≡ suc (m + n) = omega arith in rw e (drop_nil n)
drop-drop (suc m) n (x ∷ xs) =
    let e : suc m + n ≡ suc (m + n) = omega arith in rw e (drop-drop m n xs)

pub take_all : (n : ℕ) (xs : Text) → length xs ≤ n → take n xs ≡ xs
take_all zero [] h = refl
take_all zero (x ∷ xs) h = absurd (omega arith)
take_all (suc n) [] h = refl
take_all (suc n) (x ∷ xs) h = ap (◌∷◌ x) (take_all n xs (omega arith))

pub drop_all : (n : ℕ) (xs : Text) → length xs ≤ n → drop n xs ≡ []
drop_all zero [] h = refl
drop_all zero (x ∷ xs) h = absurd (omega arith)
drop_all (suc n) [] h = refl
drop_all (suc n) (x ∷ xs) h = drop_all n xs (omega arith)

pub take-length-take : (n : ℕ) (xs : Text) → take (length (take n xs)) xs ≡ take n xs
take-length-take zero xs = refl
take-length-take (suc n) [] = refl
take-length-take (suc n) (x ∷ xs) = ap (◌∷◌ x) (take-length-take n xs)

pub drop-length-take : (n : ℕ) (xs : Text) → drop (length (take n xs)) xs ≡ drop n xs
drop-length-take zero xs = refl
drop-length-take (suc n) [] = refl
drop-length-take (suc n) (x ∷ xs) = drop-length-take n xs
