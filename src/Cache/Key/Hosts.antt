-- ===== src/Cache/Key/Hosts.antt =====
-- The host in the cache keys of cache/cache.go.
use cdn_edge.Common.{ℕ, ◌≡◌, ◌≢◌, refl, ap, sym, ◌∙◌, arith, true, [], ◌∷◌, ◌++◌, none, Text}
use cdn_edge.Common.Strings.{LowersAscii, is_ascii, until, behind, lower, has_prefix}
use cdn_edge.Common.Http.{Fields}
use cdn_edge.Cache.Key.{normalize_key, parse_vary, vary_suffix}
use cdn_edge.Cache.Key.Queries.{normalize_key-eq, query_part}
use mathlib.Core.List.{append_assoc}

until-append : (d : ℕ) (a r : Text) → behind d a ≡ none → until d (a ++ d ∷ r) ≡ a
unfolding until behind
until-append d [] r h = ground arith
until-append d (c ∷ a) r h = ground (arith, until-append d a r)

behind-lower : (l : Text) → behind 47 l ≡ none → behind 47 (lower l) ≡ none
unfolding behind lower
behind-lower [] h = refl
behind-lower (c ∷ l) h = ground (arith, behind-lower l)

-- The host in lower case stands in front of the first slash of a key, if the host has none and the
-- path starts with one.
pub until-normalize_key :
    (to_lower : Text → Text) (host path query vary : Text) (h : Fields)
    → LowersAscii to_lower
    → is_ascii host ≡ true
    → behind 47 host ≡ none
    → has_prefix (47 ∷ []) path ≡ true
    → until 47 (normalize_key to_lower host path query vary h) ≡ lower host
unfolding has_prefix
until-normalize_key to_lower host [] query vary h known ascii n p = absurd (cc)
until-normalize_key to_lower host (c ∷ path) query vary h known ascii n p =
    let slash : c ≡ 47 = ground arith in
    let q = query_part query in
    let v = vary_suffix (parse_vary to_lower vary) h in
    let tail = path ++ q ++ v in
    let e : normalize_key to_lower host (c ∷ path) query vary h ≡ lower host ++ 47 ∷ tail =
      normalize_key-eq to_lower host (c ∷ path) query vary h known ascii
      ∙ rw slash (
          append_assoc (lower host ++ 47 ∷ path) q v
          ∙ append_assoc (lower host) (47 ∷ path) (q ++ v)
          ∙ ap (λ t. lower host ++ 47 ∷ t) (sym (append_assoc path q v))) in
    rw e (until-append 47 (lower host) tail (behind-lower host n))

-- Requests for different hosts in ASCII never share a cache key, whatever their paths, queries and
-- Vary headers are.
pub normalize_key-apart :
    (to_lower : Text → Text) (host host' path path' query query' vary vary' : Text) (h h' : Fields)
    → LowersAscii to_lower
    → is_ascii host ≡ true
    → is_ascii host' ≡ true
    → behind 47 host ≡ none
    → behind 47 host' ≡ none
    → has_prefix (47 ∷ []) path ≡ true
    → has_prefix (47 ∷ []) path' ≡ true
    → lower host ≢ lower host'
    → normalize_key to_lower host path query vary h
      ≢ normalize_key to_lower host' path' query' vary' h'
normalize_key-apart to_lower host host' path path' query query' vary vary' h h' known a a' n n' p p'
      apart e =
    apart (
      sym (until-normalize_key to_lower host path query vary h known a n p)
      ∙ ap (until 47) e
      ∙ until-normalize_key to_lower host' path' query' vary' h' known a' n' p')
