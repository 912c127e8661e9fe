-- ===== src/Common/Format.antt =====
-- Formats of bytes that stand for the encoders that the code calls, in tests.
use cdn_edge.Common.{ℕ, zero, suc, ◌≡◌, refl, ap, List, [], ◌∷◌, Option, none, some, Text, length}
use cdn_edge.Common.Int.{ℤ, pos, negsuc}

-- A format: what is written before any rest is read back, with the rest.
pub record Format (A : Type 0) : Type 0 where
  pub write : A → Text → Text
  pub read : Text → Option (A × Text)
  pub law : (a : A) (rest : Text) → read (write a rest) ≡ some (a, rest)

pub read_number : Text → Option (ℕ × Text)
read_number [] = none
read_number (n ∷ l) = some (n, l)

pub number_law : (n : ℕ) (l : Text) → read_number (n ∷ l) ≡ some (n, l)
unfolding read_number
number_law n l = refl

abbrev pub number : Format ℕ
number = record { write = λ n l. n ∷ l; read = read_number; law = number_law }

module _ {A B : Type 0} (f : Format A) (g : Format B) where
  pub read_both : Text → Option ((A × B) × Text)
  read_both l = elim (f.read l) [
    | none ↦ none
    | some (a, l') ↦ elim (g.read l') [ none ↦ none | some (b, r) ↦ some ((a, b), r) ]
  ]

  pub both_law : (x : A × B) (r : Text) → read_both (f.write x.0 (g.write x.1 r)) ≡ some (x, r)
  unfolding read_both
  both_law (a, b) r = rw (f.law a (g.write b r), read_both, g.law b r)

abbrev pub both : {A B : Type 0} → Format A → Format B → Format (A × B)
both f g = record {
  write = λ x r. f.write x.0 (g.write x.1 r);
  read = read_both f g;
  law = both_law f g;
}

module _ {A : Type 0} (f : Format A) where
  unfoldable pub write_items : List A → Text → Text
  write_items [] r = r
  write_items (a ∷ l) r = f.write a (write_items l r)

  pub read_items : ℕ → Text → Option (List A × Text)
  read_items zero l = some ([], l)
  read_items (suc n) l = elim (f.read l) [
    | none ↦ none
    | some (a, l') ↦ elim (read_items n l') [ none ↦ none | some (rest, r) ↦ some (a ∷ rest, r) ]
  ]

  pub items_law : (l : List A) (r : Text) → read_items (length l) (write_items l r) ≡ some (l, r)
  unfolding write_items read_items
  items_law [] r = refl
  items_law (a ∷ l) r = rw (f.law a (write_items l r), items_law l r)

  pub read_list : Text → Option (List A × Text)
  unfolding read_items
  read_list [] = none
  read_list (n ∷ l) = read_items n l

  pub list_law : (l : List A) (r : Text) → read_list (length l ∷ write_items l r) ≡ some (l, r)
  unfolding read_list
  list_law l r = items_law l r

abbrev pub items : {A : Type 0} → Format A → Format (List A)
items f = record {
  write = λ l r. length l ∷ write_items f l r;
  read = read_list f;
  law = list_law f;
}

module _ {A B : Type 0} (f : Format A) (to : A → B) where
  pub read_as : Text → Option (B × Text)
  read_as l = elim (f.read l) [ none ↦ none | some (a, r) ↦ some (to a, r) ]

  pub as_law :
      (back : B → A)
      → ((b : B) → to (back b) ≡ b)
      → (b : B) (r : Text) → read_as (f.write (back b) r) ≡ some (b, r)
  unfolding read_as
  as_law back same b r = rw (f.law (back b) r, read_as) (ap (λ x. some (x, r)) (same b))

abbrev pub as_format :
    {A B : Type 0} → Format A → (to : A → B) (back : B → A) → ((b : B) → to (back b) ≡ b) → Format B
as_format f to back same = record {
  write = λ b r. f.write (back b) r;
  read = read_as f to;
  law = as_law f to back same;
}

abbrev pub int_of : ℕ × ℕ → ℤ
int_of (zero, n) = pos n
int_of (suc _, n) = negsuc n

abbrev pub of_int : ℤ → ℕ × ℕ
of_int (pos n) = (0, n)
of_int (negsuc n) = (1, n)

pub int_same : (z : ℤ) → int_of (of_int z) ≡ z
int_same (pos n) = refl
int_same (negsuc n) = refl

abbrev pub int : Format ℤ
int = as_format (both number number) int_of of_int int_same

abbrev pub option_of : {A : Type 0} → List A → Option A
option_of [] = none
option_of (a ∷ _) = some a

abbrev pub of_option : {A : Type 0} → Option A → List A
of_option none = []
of_option (some a) = a ∷ []

pub option_same : {A : Type 0} → (o : Option A) → option_of (of_option o) ≡ o
option_same none = refl
option_same (some a) = refl

abbrev pub text : Format Text
text = items number

module _ {A : Type 0} (f : Format A) where
  pub read_whole : Text → Option A
  read_whole l = elim (f.read l) [ none ↦ none | some (a, r) ↦ some a ]

  pub whole_law : (a : A) → read_whole (f.write a []) ≡ some a
  unfolding read_whole
  whole_law a = rw (f.law a [], read_whole)
