-- ===== src/Handler/Path.antt =====
-- The check of request paths in handler/handler.go, and its copy in handler/multitenant.go.
pub mod Traversal
mod Tests
use cdn_edge.Common.{Bool, true, false, not, ◌||◌, if◌then◌else◌, List, [], ◌∷◌, Text}
use cdn_edge.Common.Strings.{same, is_empty, has_prefix, contains, split, join}

abbrev pub slash : Text
slash = 47 ∷ []

-- `".."`
abbrev pub dot_dot : Text
dot_dot = 46 ∷ 46 ∷ []

-- One element of a path, onto the elements before it, the last first: `path.Clean` drops empty
-- elements and dots, and lets `..` take back the element before.
unfoldable pub push_element : Text → List Text → List Text
push_element e stack =
    if is_empty e || same e (46 ∷ [])
    then stack
    else if same e dot_dot
    then (elim stack [ [] ↦ [] | top ∷ rest ↦ rest ])
    else e ∷ stack

unfoldable pub push_all : List Text → List Text → List Text
push_all [] stack = stack
push_all (e ∷ es) stack = push_all es (push_element e stack)

unfoldable pub reversed : List Text → List Text → List Text
reversed [] done = done
reversed (e ∷ es) done = reversed es (e ∷ done)

-- `path.Clean`, of a path that starts with a slash.
unfoldable pub path_clean : Text → Text
path_clean p = 47 ∷ join 47 (reversed (push_all (split 47 p) []) [])

unfoldable pub is_valid_path : Text → Bool
is_valid_path p =
    if not (has_prefix slash p)
    then false
    else if contains dot_dot p
    then false
    else if contains dot_dot (path_clean p)
    then false
    else true

unfoldable pub mt_is_valid_path : Text → Bool
mt_is_valid_path p =
    if not (has_prefix slash p)
    then false
    else if contains dot_dot p
    then false
    else if contains dot_dot (path_clean p)
    then false
    else true
