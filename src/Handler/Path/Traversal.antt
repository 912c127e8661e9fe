-- ===== src/Handler/Path/Traversal.antt =====
-- No path that handler/handler.go accepts climbs to a parent directory.
use cdn_edge.Common.{
  ◌≡◌, ◌≢◌, refl, subst, sym, ◌∙◌, arith, true, false, not, ◌&&◌, ◌||◌, ◌==◌, Bool-cases, inl, inr,
  List, [], ◌∷◌, ◌++◌, Text,
}
use cdn_edge.Common.Strings.{split-behind, until, same, is_empty, has_prefix, contains, split, join}
use cdn_edge.Handler.Path.{
  slash, dot_dot, push_element, push_all, reversed, path_clean, is_valid_path,
}

-- No element has two dots in a row.
abbrev pub Plain : List Text → Type 0
Plain [] = Unit
Plain (p ∷ ps) = (contains dot_dot p ≡ false) × Plain ps

contains-until : (l : Text) → contains dot_dot l ≡ false → contains dot_dot (until 47 l) ≡ false
unfolding contains has_prefix until
contains-until [] h = refl
contains-until (c ∷ []) h = ground arith
contains-until (c ∷ d ∷ l) h = ground (arith, contains-until (d ∷ l))

pub split-Plain : (l : Text) → contains dot_dot l ≡ false → Plain (split 47 l)
unfolding contains has_prefix split until
split-Plain [] h = (refl, tt)
split-Plain (c ∷ l) h =
    let ih : Plain (split 47 l) = split-Plain l (ground arith) in
    let u : contains dot_dot (until 47 (c ∷ l)) ≡ false = contains-until (c ∷ l) h in
    elim (Bool-cases (c == 47)) [
      | inl e ↦ rw e (refl, ih)
      | inr e ↦ rw (e, split-behind 47 l) (rw e at u, (rw (split-behind 47 l) at ih).1)
    ]

-- Text on both sides of a slash.
contains-slash :
    (p r : Text)
    → contains dot_dot p ≡ false
    → contains dot_dot r ≡ false
    → contains dot_dot (p ++ 47 ∷ r) ≡ false
unfolding contains has_prefix
contains-slash [] r h k = ground arith
contains-slash (c ∷ []) r h k = ground arith
contains-slash (c ∷ d ∷ p) r h k = ground (arith, contains-slash (d ∷ p) r)

join-Plain : (ps : List Text) → Plain ps → contains dot_dot (join 47 ps) ≡ false
unfolding join contains has_prefix
join-Plain [] pl = refl
join-Plain (p ∷ []) pl = pl.0
join-Plain (p ∷ q ∷ ps) pl = contains-slash p (join 47 (q ∷ ps)) pl.0 (join-Plain (q ∷ ps) pl.1)

push_element-Plain :
    (e : Text) (stack : List Text)
    → contains dot_dot e ≡ false
    → Plain stack
    → Plain (push_element e stack)
unfolding push_element
push_element-Plain e stack h pl = elim (Bool-cases (is_empty e || same e (46 ∷ []))) [
  | inl f ↦ rw f pl
  | inr f ↦
      rw f (elim (Bool-cases (same e dot_dot)) [
        | inl g ↦ rw g (popped stack pl)
        | inr g ↦ rw g (h, pl)
      ])
]
  where
    popped : (stack : List Text) → Plain stack → Plain (elim stack [ [] ↦ [] | top ∷ rest ↦ rest ])
    popped [] pl = tt
    popped (top ∷ rest) pl = pl.1

push_all-Plain : (es stack : List Text) → Plain es → Plain stack → Plain (push_all es stack)
unfolding push_all
push_all-Plain [] stack h pl = pl
push_all-Plain (e ∷ es) stack h pl =
    push_all-Plain es (push_element e stack) h.1 (push_element-Plain e stack h.0 pl)

reversed-Plain : (es done : List Text) → Plain es → Plain done → Plain (reversed es done)
unfolding reversed
reversed-Plain [] done h pl = pl
reversed-Plain (e ∷ es) done h pl = reversed-Plain es (e ∷ done) h.1 (h.0, pl)

path_clean-Plain : (p : Text) → contains dot_dot p ≡ false → contains dot_dot (path_clean p) ≡ false
unfolding path_clean contains has_prefix
path_clean-Plain p h =
    let pl = push_all-Plain (split 47 p) [] (split-Plain p h) tt in
    let j = join-Plain _ (reversed-Plain (push_all (split 47 p) []) [] pl tt) in ground arith

-- The cleaned path never holds two dots that the raw path does not hold, so that the second look
-- for them refuses nothing: a path is accepted exactly if it starts with a slash and holds no two
-- dots in a row.
pub is_valid_path-eq :
    (p : Text) → is_valid_path p ≡ (has_prefix slash p && not (contains dot_dot p))
unfolding is_valid_path
is_valid_path-eq p = elim (Bool-cases (contains dot_dot p)) [
  | inl e ↦ rw e (ground arith)
  | inr e ↦ rw (e, path_clean-Plain p e) (ground arith)
]

abbrev pub NoParent : List Text → Type 0
NoParent [] = Unit
NoParent (p ∷ ps) = (p ≢ dot_dot) × NoParent ps

Plain-NoParent : (ps : List Text) → Plain ps → NoParent ps
unfolding contains has_prefix
Plain-NoParent [] pl = tt
Plain-NoParent (p ∷ ps) pl = (
  λ e. absurd (let f = subst (λ t. contains dot_dot t ≡ false) e pl.0 in cc),
  Plain-NoParent ps pl.1,
)

-- A path that is accepted starts with a slash, and none of its elements between the slashes is a
-- step to the parent.
pub is_valid_path-NoParent :
    (p : Text) → is_valid_path p ≡ true → (has_prefix slash p ≡ true) × NoParent (split 47 p)
is_valid_path-NoParent p h =
    let e : (has_prefix slash p && not (contains dot_dot p)) ≡ true =
      sym (is_valid_path-eq p) ∙ h in
    (ground arith, Plain-NoParent (split 47 p) (split-Plain p (ground arith)))
