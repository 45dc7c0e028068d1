-- ===== src/Purchase/Percentile.antt =====
-- percentile99 of internal/service/purchase_experiment.go, over a sort of the standard library.
use lottery.Base.{
  ℕ, zero, suc, ◌+◌, ◌*◌, ◌≤◌, ◌<◌, ◌≡◌, ◌≢◌, refl, List, [], ◌∷◌, arith, leb, if◌then◌else◌,
  length, sum_rows,
}
use lottery.Purchase.Runs.{at_index, percentile_index, percentile99}

-- From the first on, no value is below the one before.
abbrev pub Ascending : ℕ → List ℕ → Type 0
Ascending lo [] = Unit {0}
Ascending lo (x ∷ xs) = (lo ≤ x) × Ascending x xs

-- What the library's sort does: its result is ascending and has every value as often as before.
pub record Sorts (sort : List ℕ → List ℕ) : Type 0 where
  pub ascending : (xs : List ℕ) → Ascending 0 (sort xs)
  pub same_values : (xs : List ℕ) (f : ℕ → ℕ) → sum_rows f (sort xs) ≡ sum_rows f xs

abbrev one : ℕ → ℕ
one x = 1

abbrev pub at_most : ℕ → ℕ → ℕ
at_most limit x = if leb x limit then 1 else 0

abbrev pub at_least : ℕ → ℕ → ℕ
at_least limit x = if leb limit x then 1 else 0

sum-one : (xs : List ℕ) → sum_rows one xs ≡ length xs
unfolding sum_rows
sum-one [] = refl
sum-one (x ∷ xs) = omega (arith, sum-one xs)

all-above :
    (low lo : ℕ) (xs : List ℕ) → Ascending lo xs → low ≤ lo → sum_rows (at_least low) xs ≡ length xs
unfolding sum_rows
all-above low lo [] h le = refl
all-above low lo (x ∷ xs) (h, hs) le = ground (arith, all-above low x xs hs)

-- The value at an index of an ascending list has that many values and itself at most as large.
below-index :
    (lo i : ℕ) (xs : List ℕ)
    → Ascending lo xs
    → i < length xs
    → (lo ≤ at_index xs i)
      × (suc i ≤ sum_rows (at_most (at_index xs i)) xs)
      × (length xs ≤ sum_rows (at_least (at_index xs i)) xs + i)
unfolding at_index sum_rows
below-index lo i [] h lt = absurd (omega arith)
below-index lo zero (x ∷ xs) (h, hs) lt = (h, ground arith, ground (arith, all-above x x xs hs))
below-index lo (suc i) (x ∷ xs) (h, hs) lt =
    let (above, many, few) = below-index x i xs hs (omega arith) in ground arith

-- The rank is the 99 % of n, rounded up.
percentile_index_bounds :
    (n : ℕ)
    → 0 < n
    → (percentile_index n < n)
      × (99 * n ≤ 100 * suc (percentile_index n))
      × (100 * percentile_index n < 99 * n)
unfolding percentile_index
percentile_index_bounds n h = ground arith

-- For any values, the 99th percentile is one of them by rank: at least 99 of 100 values are not
-- above it, and more than one of 100 are not below it.
pub percentile99-covers :
    (sort : List ℕ → List ℕ) (xs : List ℕ)
    → Sorts sort
    → xs ≢ []
    → (99 * length xs ≤ 100 * sum_rows (at_most (percentile99 sort xs)) xs)
      × (length xs < 100 * sum_rows (at_least (percentile99 sort xs)) xs)
unfolding percentile99
percentile99-covers sort [] s some_value = absurd (some_value refl)
percentile99-covers sort (x ∷ xs) s some_value =
    let ys = sort (x ∷ xs) in
    let same : length ys ≡ length (x ∷ xs) =
      omega (arith, sum-one ys, sum-one (x ∷ xs), s.same_values (x ∷ xs) one) in
    let (inside, high, low) = percentile_index_bounds (length ys) (omega arith) in
    let p = at_index ys (percentile_index (length ys)) in
    let (above, many, few) =
      below-index 0 (percentile_index (length ys)) ys (s.ascending (x ∷ xs)) inside in
    (
      omega (arith, s.same_values (x ∷ xs) (at_most p)),
      omega (arith, s.same_values (x ∷ xs) (at_least p)),
    )
