-- ===== src/Cache/Predictor/Forgetting.antt =====
-- The predictor of cache/predictor.go after rotations.
use cdn_edge.Common.{
  ℕ, zero, suc, ◌<◌, ◌≡◌, refl, arith, Bool, true, false, leb, List, [], ◌∷◌, map, Text, get_or,
}
use cdn_edge.Cache.Predictor.{
  Predictor, active_bucket, shadow_bucket, set_active, first_hash, is_likely_uncacheable, rotate,
}

zeros : List ℕ → List ℕ
zeros l = map (λ _. 0) l

get_or-zeros : (l : List ℕ) (i : ℕ) → get_or (zeros l) i 0 ≡ 0
unfolding zeros
get_or-zeros [] i = refl
get_or-zeros (c ∷ l) zero = refl
get_or-zeros (c ∷ l) (suc i) = get_or-zeros l i

rotate-rotate :
    (p : Predictor)
    → (active_bucket (rotate (rotate p)) ≡ zeros (active_bucket p))
      × (shadow_bucket (rotate (rotate p)) ≡ zeros (shadow_bucket p))
      × ((rotate (rotate p)).bits ≡ p.bits)
      × ((rotate (rotate p)).threshold ≡ p.threshold)
unfolding rotate set_active zeros
rotate-rotate p = split p.active refl
  where
    split :
        (b : Bool)
        → p.active ≡ b
        → (active_bucket (rotate (rotate p)) ≡ zeros (active_bucket p))
          × (shadow_bucket (rotate (rotate p)) ≡ zeros (shadow_bucket p))
          × ((rotate (rotate p)).bits ≡ p.bits)
          × ((rotate (rotate p)).threshold ≡ p.threshold)
    split true e = ground arith
    split false e = ground arith

below : (n : ℕ) → 0 < n → leb n 0 ≡ false
below n lt = ground arith

unlikely :
    (hash : Text → ℕ) (key : Text) (q : Predictor)
    → 0 < q.threshold
    → get_or (active_bucket q) (first_hash hash q.bits key) 0 ≡ 0
    → get_or (shadow_bucket q) (first_hash hash q.bits key) 0 ≡ 0
    → (is_likely_uncacheable hash key q).1 ≡ false
unfolding is_likely_uncacheable
unlikely hash key q pos a s = rw (a, s, is_likely_uncacheable, below q.threshold pos)

-- With a threshold of at least 1, after two rotations without a mark no key is predicted, whatever
-- was marked before.
pub forgotten :
    (hash : Text → ℕ) (key : Text) (p : Predictor)
    → 0 < p.threshold
    → (is_likely_uncacheable hash key (rotate (rotate p))).1 ≡ false
forgotten hash key p pos =
    let (a, s, b, t) = rotate-rotate p in
    let q = rotate (rotate p) in
    unlikely hash key q (omega (arith, t))
      (rw a (get_or-zeros (active_bucket p) (first_hash hash q.bits key)))
      (rw s (get_or-zeros (shadow_bucket p) (first_hash hash q.bits key)))
