-- ===== src/WeightedDraw/Draws.antt =====
-- What the weighted draw of lottery.go returns.
use lottery.Base.{
  last_bit, nearest, rounded, float_steps, rounded_le, rounded-positive, ◌∙◌, ℕ, zero, suc, ◌+◌,
  ◌*◌, ◌≤◌, ◌<◌, ◌≡◌, refl, ap, List, [], ◌∷◌, some, arith, length,
}
use lottery.WeightedDraw.{sum_from, accumulate, search_floats, draw_index}

unfoldable pub sum : List ℕ → ℕ
sum [] = 0
sum (p ∷ ps) = p + sum ps

unfoldable pub sum_before : ℕ → List ℕ → ℕ
sum_before zero ps = 0
sum_before (suc i) [] = 0
sum_before (suc i) (p ∷ ps) = p + sum_before i ps

unfoldable pub weight_at : ℕ → List ℕ → ℕ
weight_at i [] = 0
weight_at zero (p ∷ ps) = p
weight_at (suc i) (p ∷ ps) = weight_at i ps

sum_from-eq-sum : (acc : ℕ) (ps : List ℕ) → sum_from acc ps ≡ acc + sum ps
unfolding sum_from sum
sum_from-eq-sum acc [] = omega arith
sum_from-eq-sum acc (p ∷ ps) = omega (arith, sum_from-eq-sum (acc + p) ps)

-- The index that the search gives, by where the target falls among the running sums.
search_lem :
    (target acc : ℕ) (ps : List ℕ)
    → target ≤ (acc + sum ps) * float_steps
    → acc * float_steps < target
    → let i = search_floats target (accumulate acc ps) in
      (i < length ps)
      × ((acc + sum_before i ps) * float_steps < target)
      × (target ≤ (acc + sum_before i ps + weight_at i ps) * float_steps)
unfolding accumulate search_floats sum sum_before weight_at
search_lem target acc [] h k = absurd (omega arith)
search_lem target acc (p ∷ ps) h k = ground (arith, search_lem target (acc + p) ps)

below_product : (u s : ℕ) → u ≤ float_steps → u * s ≤ (0 + s) * float_steps
below_product u s h = grind arith

-- The rounded product of a draw and a sum is not 0, and is at most the sum.
rounded_product :
    (u s : ℕ)
    → 0 < u
    → u < float_steps
    → 0 < s
    → (0 < rounded 53 (u * s)) × (rounded 53 (u * s) ≤ (0 + s) * float_steps)
rounded_product u s h k pos =
    let small = below_product u s (omega arith) in
    (
      rounded-positive 53 (u * s) (grind arith),
      omega (arith, rounded_le 53 (u * s) s (omega (arith, small))),
    )

-- For weights whose sum is not 0 and a draw u with 0 < u < 2^53, the index is that of the one
-- weight in whose share of the sum the draw falls: it is in range, its weight is not 0, and the
-- product of u / 2^53 and the sum, rounded as a float64, lies above the weights before it and not
-- above those up to it.
pub draw_index_share :
    (u p : ℕ) (ps : List ℕ)
    → 0 < u
    → u < float_steps
    → 0 < sum (p ∷ ps)
    → (i : ℕ) × (draw_index u (p ∷ ps) ≡ some i)
      × (i < length (p ∷ ps))
      × (0 < weight_at i (p ∷ ps))
      × (sum_before i (p ∷ ps) * float_steps < rounded 53 (u * sum (p ∷ ps)))
      × (rounded 53 (u * sum (p ∷ ps))
          ≤ (sum_before i (p ∷ ps) + weight_at i (p ∷ ps)) * float_steps)
unfolding draw_index
draw_index_share u p ps h k pos =
    let e : sum_from 0 (p ∷ ps) ≡ sum (p ∷ ps) = omega (arith, sum_from-eq-sum 0 (p ∷ ps)) in
    let target = ap (λ (t : ℕ). rounded 53 (u * t)) e in
    let (positive, bounded) = rounded_product u (sum (p ∷ ps)) h k pos in
    let (inside, above, upto) =
      search_lem (rounded 53 (u * sum_from 0 (p ∷ ps))) 0 (p ∷ ps) (omega (arith, bounded, target))
        (omega (arith, positive, target)) in
    (
      search_floats (rounded 53 (u * sum_from 0 (p ∷ ps))) (accumulate 0 (p ∷ ps)),
      refl,
      inside,
      omega (arith, above, upto),
      omega (arith, above, target),
      omega (arith, upto, target),
    )

rounded_zero : rounded 53 0 ≡ 0
unfolding rounded last_bit nearest
rounded_zero = refl

product_zero : (s : ℕ) → rounded 53 (0 * s) ≡ 0
product_zero s = ap (rounded 53) {x = 0 * s} {y = 0} (omega arith) ∙ rounded_zero

-- What the callers pass on: the counts of the gifts that are left, none of them 0.
abbrev pub AllPositive : List ℕ → Type 0
AllPositive [] = Unit {0}
AllPositive (p ∷ ps) = (0 < p) × AllPositive ps

draw_index_zero : (p : ℕ) (ps : List ℕ) → draw_index 0 (p ∷ ps) ≡ some 0
unfolding draw_index
draw_index_zero p ps = ground (arith, product_zero (sum_from 0 (p ∷ ps)))

-- For the candidates that the callers build, at least one and each with units left, every draw
-- of the random source picks a candidate: the index is in range and its weight is not 0.
pub draw_index_in_range :
    (u p : ℕ) (ps : List ℕ)
    → u < float_steps
    → AllPositive (p ∷ ps)
    → (i : ℕ) × (draw_index u (p ∷ ps) ≡ some i)
      × (i < length (p ∷ ps))
      × (0 < weight_at i (p ∷ ps))
unfolding sum weight_at
draw_index_in_range zero p ps h pos = (0, draw_index_zero p ps, omega arith, pos.0)
draw_index_in_range (suc u) p ps h pos =
    let (i, e, inside, positive, _, _) =
      draw_index_share (suc u) p ps (omega arith) h (omega arith) in
    (i, e, inside, positive)
