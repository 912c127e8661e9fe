-- ===== src/Handler/Path/Tests.antt =====
-- Paths of handler/handler.go at concrete requests.
use cdn_edge.Common.{◌≡◌, refl, true, false, [], ◌∷◌, Text}
use cdn_edge.Common.Strings.{same, has_prefix, contains, split, join}
use cdn_edge.Handler.Path.{slash, push_element, push_all, reversed, path_clean, is_valid_path}
use cdn_edge.Handler.Path.Traversal.{NoParent, is_valid_path-NoParent}

-- `/a/./b`
abbrev dotted : Text
dotted = 47 ∷ 97 ∷ 47 ∷ 46 ∷ 47 ∷ 98 ∷ []

cleaned : path_clean dotted ≡ 47 ∷ 97 ∷ 47 ∷ 98 ∷ []
unfolding path_clean split same push_all push_element reversed join
cleaned = refl

-- `/a/../b`
climbing : is_valid_path (47 ∷ 97 ∷ 47 ∷ 46 ∷ 46 ∷ 47 ∷ 98 ∷ []) ≡ false
unfolding is_valid_path has_prefix contains
climbing = refl

accepted : is_valid_path dotted ≡ true
unfolding is_valid_path has_prefix contains path_clean split same push_all push_element reversed
    join
accepted = refl

is_valid_path-NoParent_example : (has_prefix slash dotted ≡ true) × NoParent (split 47 dotted)
is_valid_path-NoParent_example = is_valid_path-NoParent dotted accepted
