-- ===== src/Handler/Directives/Tests.antt =====
-- Directives of handler/handler.go at concrete headers.
use cdn_edge.Common.{◌≡◌, refl, arith, [], ◌∷◌, some, Text, ◌*◌, ◌^◌, ◌-◌}
use cdn_edge.Common.Int.{negsuc}
use cdn_edge.Common.Strings.{
  same, equal_fold, lower, until, behind, split, trim_space, trim_left, trim_right, is_space, atoi,
  signed, number, digits,
}
use cdn_edge.Common.Http.{Fields}
use cdn_edge.Handler.Directives.{directive_key, max_age, cache_control, part_value}
use cdn_edge.Handler.Directives.Lifetime.{part_value-overflow}

-- `public, No-Store`
abbrev forbidden : Fields
forbidden =
    (
      cache_control,
      (112 ∷ 117 ∷ 98 ∷ 108 ∷ 105 ∷ 99 ∷ 44 ∷ 32 ∷ 78 ∷ 111 ∷ 45 ∷ 83 ∷ 116 ∷ 111 ∷ 114 ∷ 101 ∷ [])
          ∷ [],
    )
    ∷ []

-- `max-age=5`
abbrev five : Text
five = 109 ∷ 97 ∷ 120 ∷ 45 ∷ 97 ∷ 103 ∷ 101 ∷ 61 ∷ 53 ∷ []

abbrev kept : Fields
kept = (cache_control, five ∷ []) ∷ []

-- `max-age=9999999999`
abbrev ages : Text
ages =
    109 ∷ 97 ∷ 120 ∷ 45 ∷ 97 ∷ 103 ∷ 101 ∷ 61 ∷ 57 ∷ 57 ∷ 57 ∷ 57 ∷ 57 ∷ 57 ∷ 57 ∷ 57 ∷ 57 ∷ 57 ∷ []

abbrev ages_value : Text
ages_value = 57 ∷ 57 ∷ 57 ∷ 57 ∷ 57 ∷ 57 ∷ 57 ∷ 57 ∷ 57 ∷ 57 ∷ []

part_value-overflow_example :
    part_value ages max_age ≡ some (negsuc (2 ^ 64 - 9999999999 * 1000000000 - 1))
unfolding split same directive_key until behind trim_space trim_left trim_right is_space equal_fold
    lower atoi signed number digits
part_value-overflow_example =
    part_value-overflow ages max_age ages_value 9999999999 refl refl refl (omega arith)
      (omega arith)
