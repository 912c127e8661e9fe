-- ===== src/Cache/Predictor/Tests.antt =====
-- The predictor of cache/predictor.go at concrete inputs.
use cdn_edge.Common.{
  ℕ, ◌≡◌, inr, refl, replicate, if_pos, text_discrete, arith, true, List, [], ◌∷◌, Text,
}
use cdn_edge.Common.Int.{pos}
use cdn_edge.Cache.Predictor.{Predictor, with_counters, is_likely_uncacheable}
use cdn_edge.Cache.Predictor.Window.{
  Event, marks, rotates, run, recent_marks, previous_marks, predicted-window,
}

abbrev flat_hash : Text → ℕ
flat_hash key = 42

abbrev key_a : Text
key_a = 97 ∷ []

abbrev small_predictor : Predictor
small_predictor = with_counters 8 1 (pos 60)

-- Two marks, then a rotation.
abbrev marked_twice : List Event
marked_twice = rotates ∷ marks key_a ∷ marks key_a ∷ []

twice : previous_marks key_a marked_twice ≡ 2
unfolding previous_marks recent_marks
twice = rw (if_pos (text_discrete key_a key_a) refl)

predicted-window_example :
    (is_likely_uncacheable flat_hash key_a (run flat_hash small_predictor marked_twice)).1 ≡ true
predicted-window_example =
    predicted-window flat_hash key_a marked_twice 8 1 (pos 60) (omega arith)
      (inr (omega (arith, twice)))

-- Every counter of both buckets is at 9.
abbrev full_predictor : Predictor
full_predictor = record small_predictor { first = replicate 8 9; second = replicate 8 9 }
