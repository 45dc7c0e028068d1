-- ===== src/Base/Rows.antt =====
-- The rows of a table as a list: what a query finds, changes, counts and deletes.
use Prim.Native.Nat.{ℕ, ◌+◌}
use mathlib.Core.Path.{◌≡◌, refl}
use mathlib.Core.Bool.{Bool, true, false, ◌&&◌, ◌||◌}
use mathlib.Core.Option.{Option, none, some}
use mathlib.Core.List.{List, [], ◌∷◌, ◌++◌}
use native.Mathlib.Omega.{arith}
use lottery.Base.Tests.{if◌then◌else◌}

module _ {ℓ} {A : Type ℓ} where
  -- The first row that passes.
  unfoldable pub find_row : (A → Bool) → List A → Option A
  find_row p [] = none
  find_row p (row ∷ rows) = if p row then some row else find_row p rows

  unfoldable pub update_rows : (A → Bool) → (A → A) → List A → List A
  update_rows p f [] = []
  update_rows p f (row ∷ rows) = (if p row then f row else row) ∷ update_rows p f rows

  unfoldable pub delete_rows : (A → Bool) → List A → List A
  delete_rows p [] = []
  delete_rows p (row ∷ rows) = let rest = delete_rows p rows in if p row then rest else row ∷ rest

  unfoldable pub select_rows : (A → Bool) → List A → List A
  select_rows p [] = []
  select_rows p (row ∷ rows) = let rest = select_rows p rows in if p row then row ∷ rest else rest

  unfoldable pub all_rows : (A → Bool) → List A → Bool
  all_rows p [] = true
  all_rows p (row ∷ rows) = p row && all_rows p rows

  unfoldable pub any_row : (A → Bool) → List A → Bool
  any_row p [] = false
  any_row p (row ∷ rows) = p row || any_row p rows

  -- A sum over the rows.
  unfoldable pub sum_rows : (A → ℕ) → List A → ℕ
  sum_rows f [] = 0
  sum_rows f (row ∷ rows) = f row + sum_rows f rows

  abbrev pub found : Option A → Bool
  found none = false
  found (some _) = true

  abbrev pub or_else : Option A → Option A → Option A
  or_else none o = o
  or_else (some a) _ = some a

  pub sum_rows-append :
      (f : A → ℕ) (xs ys : List A) → sum_rows f (xs ++ ys) ≡ sum_rows f xs + sum_rows f ys
  unfolding sum_rows
  sum_rows-append f [] ys = omega arith
  sum_rows-append f (x ∷ xs) ys = omega (arith, sum_rows-append f xs ys)

  pub sum_rows-update_rows :
      (g : A → ℕ) (p : A → Bool) (f : A → A) (xs : List A)
      → ((a : A) → g (f a) ≡ g a)
      → sum_rows g (update_rows p f xs) ≡ sum_rows g xs
  unfolding sum_rows update_rows
  sum_rows-update_rows g p f [] same = refl
  sum_rows-update_rows g p f (x ∷ xs) same =
      ground (arith, same x, sum_rows-update_rows g p f xs same)

  -- Deleting rows of no weight leaves the sum.
  pub sum_rows-delete_rows :
      (g : A → ℕ) (p : A → Bool) (xs : List A)
      → ((a : A) → p a ≡ true → g a ≡ 0)
      → sum_rows g (delete_rows p xs) ≡ sum_rows g xs
  unfolding sum_rows delete_rows
  sum_rows-delete_rows g p [] light = refl
  sum_rows-delete_rows g p (x ∷ xs) light =
      ground (arith, light x, sum_rows-delete_rows g p xs light)

  -- Deleting all rows of some weight leaves none.
  pub sum_rows-delete_rows_all :
      (g : A → ℕ) (p : A → Bool) (xs : List A)
      → ((a : A) → p a ≡ false → g a ≡ 0)
      → sum_rows g (delete_rows p xs) ≡ 0
  unfolding sum_rows delete_rows
  sum_rows-delete_rows_all g p [] heavy = refl
  sum_rows-delete_rows_all g p (x ∷ xs) heavy =
      ground (arith, heavy x, sum_rows-delete_rows_all g p xs heavy)

  pub find_row-append :
      (p : A → Bool) (xs ys : List A)
      → find_row p (xs ++ ys) ≡ or_else (find_row p xs) (find_row p ys)
  unfolding find_row
  find_row-append p [] ys = refl
  find_row-append p (x ∷ xs) ys = ground (arith, find_row-append p xs ys)

  pub find_row-holds : (p : A → Bool) (xs : List A) {a : A} → find_row p xs ≡ some a → p a ≡ true
  unfolding find_row
  find_row-holds p [] e = absurd (cc)
  find_row-holds p (x ∷ xs) {a} e = ground (arith, find_row-holds p xs {a = a})

  abbrev pub change : (A → Bool) → (A → A) → Option A → Option A
  change p f none = none
  change p f (some a) = some (if p a then f a else a)

  -- An update that does not touch what the query reads.
  pub find_row-update_rows :
      (q p : A → Bool) (f : A → A) (xs : List A)
      → ((a : A) → q (f a) ≡ q a)
      → find_row q (update_rows p f xs) ≡ change p f (find_row q xs)
  unfolding find_row update_rows
  find_row-update_rows q p f [] same = refl
  find_row-update_rows q p f (x ∷ xs) same =
      ground (arith, same x, find_row-update_rows q p f xs same)

  -- Deleting rows of which the query finds none.
  pub find_row-delete_rows :
      (q p : A → Bool) (xs : List A)
      → ((a : A) → q a ≡ true → p a ≡ false)
      → find_row q (delete_rows p xs) ≡ find_row q xs
  unfolding find_row delete_rows
  find_row-delete_rows q p [] apart = refl
  find_row-delete_rows q p (x ∷ xs) apart =
      ground (arith, apart x, find_row-delete_rows q p xs apart)

  -- The row that the query finds is not deleted.
  pub find_row-delete_rows_kept :
      (q p : A → Bool) (xs : List A) {a : A}
      → find_row q xs ≡ some a
      → p a ≡ false
      → find_row q (delete_rows p xs) ≡ some a
  unfolding find_row delete_rows
  find_row-delete_rows_kept q p [] e kept = absurd (cc)
  find_row-delete_rows_kept q p (x ∷ xs) {a} e kept =
      ground (arith, find_row-delete_rows_kept q p xs {a = a})

  pub find_row-append_none :
      (q : A → Bool) (xs : List A) (row : A)
      → find_row q xs ≡ none
      → q row ≡ false
      → find_row q (xs ++ row ∷ []) ≡ none
  unfolding find_row
  find_row-append_none q [] row h e = ground arith
  find_row-append_none q (x ∷ xs) row h e = ground (arith, find_row-append_none q xs row)
