-- ===== src/Common/Http.antt =====
-- HTTP headers as Go's http.Header: a map, with its entries in the order of some iteration, whose
-- keys are canonical.
use cdn_edge.Common.{
  ◌+◌, ◌-◌, Bool, true, not, ◌&&◌, ◌||◌, leb, ◌==◌, if◌then◌else◌, List, [], ◌∷◌, ◌++◌, Text, ◌≡◌,
  arith,
}
use cdn_edge.Common.Strings.{same, same_refl}

abbrev pub Fields : Type 0
Fields = List (Text × List Text)

-- The bytes of a token of RFC 7230, the only ones of a header's key.
unfoldable pub is_token : Text → Bool
is_token [] = true
is_token (c ∷ l) =
    ((leb 48 c && leb c 57)
      || ((leb 65 c && leb c 90) || (leb 94 c && leb c 122))
      || (c == 124)
      || (c == 126)
      || (c == 33)
      || (leb 35 c && leb c 39)
      || (c == 42)
      || (c == 43)
      || (c == 45)
      || (c == 46))
    && is_token l

-- Upper case for the first letter and for one behind a dash, lower case else.
unfoldable pub title : Bool → Text → Text
title upper [] = []
title upper (c ∷ l) =
    (if upper && (leb 97 c && leb c 122)
      then c - 32
      else if not upper && (leb 65 c && leb c 90)
      then c + 32
      else c)
    ∷ title (c == 45) l

-- `http.CanonicalHeaderKey`
unfoldable pub canonical_header_key : Text → Text
canonical_header_key l = if is_token l then title true l else l

abbrev pub first_of : List Text → Text
first_of [] = []
first_of (v ∷ vs) = v

-- `h.Get(key)`, of a canonical key.
unfoldable pub header_get : Text → Fields → Text
header_get key [] = []
header_get key ((k, vs) ∷ h) =
    let rest = header_get key h in if same k key then first_of vs else rest

-- `h.Del(key)`
unfoldable pub header_del : Text → Fields → Fields
header_del key [] = []
header_del key ((k, vs) ∷ h) =
    let rest = header_del key h in if same k key then rest else (k, vs) ∷ rest

-- `h[key] = vs`
unfoldable pub header_put : Text → List Text → Fields → Fields
header_put key vs h = (key, vs) ∷ header_del key h

-- `h.Set(key, v)`
unfoldable pub header_set : Text → Text → Fields → Fields
header_set key v h = header_put key (v ∷ []) h

-- `h.Add(key, v)`
unfoldable pub header_add : Text → Text → Fields → Fields
header_add key v [] = (key, v ∷ []) ∷ []
header_add key v ((k, vs) ∷ h) =
    let rest = header_add key v h in if same k key then (k, vs ++ v ∷ []) ∷ h else (k, vs) ∷ rest

pub header_get-set_self : (key v : Text) (h : Fields) → header_get key (header_set key v h) ≡ v
unfolding header_get header_set header_put
header_get-set_self key v h = ground (arith, same_refl key)
