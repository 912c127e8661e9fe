-- ===== src/Cache/Key/Queries.antt =====
-- The cache keys of cache/cache.go against the query, the host and the Vary header.
use cdn_edge.Common.{
  ℕ, ◌≡◌, ◌≢◌, refl, ap, sym, ◌∙◌, arith, true, false, Bool-cases, inl, inr, List, [], ◌∷◌, ◌++◌,
  Text, ◌==◌,
}
use cdn_edge.Common.Strings.{
  LowersAscii, is_ascii, split, join, grow, contains, has_prefix, lower, same, trim_space,
  trim_left, trim_right,
}
use cdn_edge.Common.Http.{Fields}
use cdn_edge.Cache.Key.{
  sort_strings, place, is_lower_ascii, sort_query, write_parts, write_sorted_query, vary_headers,
  parse_vary, vary_suffix, key_base, normalize_key,
}
use cdn_edge.Cache.Key.Sorting.{sort_strings-perm, sort_strings-singleton}
use mathlib.Core.List.{Perm, append-nil, append_assoc}
use mathlib.Core.List.Perm

join-grow : (d c : ℕ) (ps : List Text) → join d (grow c ps) ≡ c ∷ join d ps
unfolding join
join-grow d c [] = refl
join-grow d c (p ∷ []) = refl
join-grow d c (p ∷ q ∷ ps) = refl

split_some : (d : ℕ) (l : Text) → (p : Text) × (ps : List Text) × (split d l ≡ p ∷ ps)
unfolding split
split_some d [] = ([], [], refl)
split_some d (c ∷ l) = elim (Bool-cases (c == d)) [
  | inl e ↦ ([], split d l, rw e refl)
  | inr e ↦ (let (p, ps, f) = split_some d l in (c ∷ p, ps, rw (e, f) refl))
]

pub join-split : (d : ℕ) (l : Text) → join d (split d l) ≡ l
unfolding split join
join-split d [] = refl
join-split d (c ∷ l) = elim (Bool-cases (c == d)) [
  | inl e ↦
      let (p, ps, f) = split_some d l in
      let ih : join d (p ∷ ps) ≡ l = ap (join d) (sym f) ∙ join-split d l in
      let same_byte : c ≡ d = ground arith in rw (e, f, join) (rw (ih, same_byte) refl)
  | inr e ↦ rw e (join-grow d c (split d l) ∙ ap (◌∷◌ c) (join-split d l))
]

write_parts_rest : (p : Text) (ps : List Text) → join 38 (p ∷ ps) ≡ p ++ write_parts false ps
unfolding join write_parts
write_parts_rest p [] = sym (append-nil p)
write_parts_rest p (q ∷ ps) = ap (λ t. p ++ 38 ∷ t) (write_parts_rest q ps)

pub write_parts-join : (ps : List Text) → write_parts true ps ≡ join 38 ps
unfolding write_parts join
write_parts-join [] = refl
write_parts-join (p ∷ ps) = sym (write_parts_rest p ps)

split_plain : (q : Text) → contains (38 ∷ []) q ≡ false → split 38 q ≡ q ∷ []
unfolding contains has_prefix split
split_plain [] h = refl
split_plain (c ∷ q) h = ground (arith, split_plain q)

pub write_sorted_query-sort_query : (q : Text) → write_sorted_query q ≡ sort_query q
unfolding write_sorted_query sort_query join
write_sorted_query-sort_query q = elim (Bool-cases (contains (38 ∷ []) q)) [
  | inl e ↦ rw e (write_parts-join (sort_strings (split 38 q)))
  | inr e ↦ rw (e, split_plain q e) refl
]

lower_id : (l : Text) → is_lower_ascii l ≡ true → lower l ≡ l
unfolding is_lower_ascii lower
lower_id [] h = refl
lower_id (c ∷ l) h = ground (arith, lower_id l)

-- What stands in a key for a query.
abbrev pub query_part : Text → Text
query_part [] = []
query_part (c ∷ q) = 63 ∷ sort_query (c ∷ q)

key_base-eq :
    (host path query : Text) → key_base host path query ≡ lower host ++ path ++ query_part query
unfolding key_base
key_base-eq host path [] = elim (Bool-cases (is_lower_ascii host)) [
  | inl e ↦ rw (e, lower_id host e) refl
  | inr e ↦ rw e refl
]
key_base-eq host path (c ∷ q) = elim (Bool-cases (is_lower_ascii host)) [
  | inl e ↦ rw (e, lower_id host e, write_sorted_query-sort_query (c ∷ q)) refl
  | inr e ↦ rw (e, write_sorted_query-sort_query (c ∷ q)) refl
]

-- The three ways through NormalizeKey, the fast one for a request with neither a query nor a Vary
-- included, write one key for a host in ASCII, where `strings.ToLower` lowers ASCII text like the
-- loop over the bytes does: the host in lower case, the path, the parts of the query in order, and
-- the values of the headers that the Vary names.
pub normalize_key-eq :
    (to_lower : Text → Text) (host path query vary : Text) (h : Fields)
    → LowersAscii to_lower
    → is_ascii host ≡ true
    → normalize_key to_lower host path query vary h
      ≡ lower host ++ path ++ query_part query ++ vary_suffix (parse_vary to_lower vary) h
unfolding normalize_key parse_vary vary_suffix split same vary_headers trim_space trim_left is_ascii
    trim_right lower sort_strings
normalize_key-eq to_lower host path [] [] h known ascii =
    rw (known [] refl) (elim (Bool-cases (is_lower_ascii host)) [
      | inl e ↦ rw (e, lower_id host e, append-nil (host ++ path)) (sym (append-nil (host ++ path)))
      | inr e ↦
          rw (e, known host ascii, append-nil (lower host ++ path))
            (sym (append-nil (lower host ++ path)))
    ])
normalize_key-eq to_lower host path (c ∷ q) [] h known ascii =
    rw (known [] refl) (key_base-eq host path (c ∷ q) ∙ sym (append-nil _))
normalize_key-eq to_lower host path [] (v ∷ vs) h known ascii = rw (key_base-eq host path []) refl
normalize_key-eq to_lower host path (c ∷ q) (v ∷ vs) h known ascii =
    rw (key_base-eq host path (c ∷ q)) refl

empty_alone : (d : ℕ) (r : Text) → Perm (split 38 []) (split 38 (d ∷ r)) → ⊥
unfolding sort_strings place split join
empty_alone d r p =
    let e : sort_strings (split 38 (d ∷ r)) ≡ [] ∷ [] = sym (sort_strings-perm p) in
    let f = sort_strings-singleton (split 38 (d ∷ r)) [] e in
    let g : [] ≡ d ∷ r = ap (join 38) (sym f) ∙ join-split 38 (d ∷ r) in cc

query_part-perm : (q r : Text) → Perm (split 38 q) (split 38 r) → query_part q ≡ query_part r
unfolding sort_query
query_part-perm [] [] p = refl
query_part-perm [] (d ∷ r) p = absurd (empty_alone d r p)
query_part-perm (c ∷ q) [] p = absurd (empty_alone c q (Perm.symm p))
query_part-perm (c ∷ q) (d ∷ r) p = ap (λ l. 63 ∷ join 38 l) (sort_strings-perm p)

key_base-perm :
    (host path q r : Text)
    → Perm (split 38 q) (split 38 r)
    → key_base host path q ≡ key_base host path r
key_base-perm host path q r p =
    key_base-eq host path q
    ∙ ap (λ t. lower host ++ path ++ t) (query_part-perm q r p)
    ∙ sym (key_base-eq host path r)

-- Two queries with the same parameters in another order get the same cache key.
pub normalize_key-perm :
    (to_lower : Text → Text) (host path q r vary : Text) (h : Fields)
    → Perm (split 38 q) (split 38 r)
    → normalize_key to_lower host path q vary h ≡ normalize_key to_lower host path r vary h
unfolding normalize_key
normalize_key-perm to_lower host path [] [] vary h p = refl
normalize_key-perm to_lower host path [] (d ∷ r) vary h p = absurd (empty_alone d r p)
normalize_key-perm to_lower host path (c ∷ q) [] vary h p = absurd (empty_alone c q (Perm.symm p))
normalize_key-perm to_lower host path (c ∷ q) (d ∷ r) [] h p =
    key_base-perm host path (c ∷ q) (d ∷ r) p
normalize_key-perm to_lower host path (c ∷ q) (d ∷ r) (v ∷ vs) h p =
    ap (λ t. t ++ vary_suffix (parse_vary to_lower (v ∷ vs)) h)
      (key_base-perm host path (c ∷ q) (d ∷ r) p)

-- A path with a question mark (`%3F` on the wire) gets the key of another path with a query: the
-- two resources share one cache entry, for a host in ASCII.
pub keys_collide :
    (to_lower : Text → Text) (host path query : Text) (h : Fields)
    → LowersAscii to_lower
    → is_ascii host ≡ true
    → contains (38 ∷ []) query ≡ false
    → query ≢ []
    → normalize_key to_lower host (path ++ 63 ∷ query) [] [] h
      ≡ normalize_key to_lower host path query [] h
unfolding sort_query sort_strings place join
keys_collide to_lower host path [] h known ascii plain full = absurd (full refl)
keys_collide to_lower host path (c ∷ q) h known ascii plain full =
    let e : sort_query (c ∷ q) ≡ c ∷ q = rw (split_plain (c ∷ q) plain, sort_query) refl in
    normalize_key-eq to_lower host (path ++ 63 ∷ c ∷ q) [] [] h known ascii
    ∙ rw (e, append-nil (lower host ++ (path ++ 63 ∷ c ∷ q)))
        (ap (λ t. t ++ vary_suffix (parse_vary to_lower []) h)
          (sym (append_assoc (lower host) path (63 ∷ c ∷ q))))
    ∙ sym (normalize_key-eq to_lower host path (c ∷ q) [] h known ascii)
