-- ===== src/WeightedDraw.antt =====
-- internal/util/lottery.go: the weighted draw. The weights are stock counts, and their sums are whole
-- numbers, exact as floats below 2^53; the random float is u / 2^53 with u < 2^53, as rand.Float64
-- documents. The product `u / 2^53 * sum` is counted in units of 2^-53 and rounded to 53 bits, to the
-- nearest and to the even one of two, as a float64 is.
pub mod Draws
use lottery.Base.{
  float_steps, rounded, ℕ, zero, suc, ◌+◌, ◌*◌, ◌^◌, ◌/◌, ◌%◌, ◌==◌, ◌&&◌, ◌||◌, ltb, List, [], ◌∷◌,
  Option, none, some, leb, if◌then◌else◌,
}

unfoldable pub sum_from : ℕ → List ℕ → ℕ
sum_from acc [] = acc
sum_from acc (p ∷ ps) = sum_from (acc + p) ps

-- The running sums.
unfoldable pub accumulate : ℕ → List ℕ → List ℕ
accumulate sum [] = []
accumulate sum (p ∷ ps) = (sum + p) ∷ accumulate (sum + p) ps

-- sort.SearchFloat64s: the first index whose entry is not below the target, or the length.
unfoldable pub search_floats : ℕ → List ℕ → ℕ
search_floats target [] = 0
search_floats target (a ∷ as') =
    if leb target (a * float_steps) then 0 else suc (search_floats target as')

-- `none` is -1. The factors have 53 bits, so that the product has not more than 53 bits too many.
unfoldable pub draw_index : ℕ → List ℕ → Option ℕ
unfolding sum_from accumulate search_floats
draw_index u [] = none
draw_index u (p ∷ ps) =
    some (search_floats (rounded 53 (u * sum_from 0 (p ∷ ps))) (accumulate 0 (p ∷ ps)))
