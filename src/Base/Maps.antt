-- ===== src/Base/Maps.antt =====
-- Association lists with numbers for keys: Redis keys by number, and rows by id.
use Prim.Native.Nat.{ℕ, ◌+◌}
use mathlib.Core.Path.{◌≡◌, refl}
use mathlib.Core.Option.{Option, none, some}
use mathlib.Core.List.{List, [], ◌∷◌}
use native.Mathlib.Omega.{arith}
use lottery.Base.Tests.{◌==◌, if◌then◌else◌}

abbrev pub Map {ℓ} : Type ℓ → Type ℓ
Map V = List (ℕ × V)

module _ {ℓ} {V : Type ℓ} where
  -- What stands under a key, if anything does.
  unfoldable pub lookup : (key : ℕ) (entries : Map V) → Option V
  lookup key [] = none
  lookup key (entry ∷ entries) = if entry.0 == key then some entry.1 else lookup key entries

  -- A write: in place where the key is there, at the end where it is not.
  unfoldable pub insert : (key : ℕ) (value : V) (entries : Map V) → Map V
  insert key value [] = (key, value) ∷ []
  insert key value (entry ∷ entries) =
      if entry.0 == key then (entry.0, value) ∷ entries else entry ∷ insert key value entries

  pub lookup-insert :
      (written read : ℕ) (value : V) (entries : Map V)
      → lookup read (insert written value entries)
        ≡ (if written == read then some value else lookup read entries)
  unfolding lookup insert
  lookup-insert written read value [] = refl
  lookup-insert written read value (entry ∷ entries) =
      ground (arith, lookup-insert written read value entries)

  pub lookup-insert_self :
      (key : ℕ) (value : V) (entries : Map V) → lookup key (insert key value entries) ≡ some value
  lookup-insert_self key value entries = ground (arith, lookup-insert key key value entries)

  -- The sum of a weight over the values.
  unfoldable pub total : (V → ℕ) → Map V → ℕ
  total f [] = 0
  total f ((k, v) ∷ m) = f v + total f m

  abbrev pub weight : (V → ℕ) → Option V → ℕ
  weight f none = 0
  weight f (some v) = f v

  -- A write replaces the weight of the value it overwrites.
  pub total-insert :
      (f : V → ℕ) (k : ℕ) (v : V) (m : Map V)
      → total f (insert k v m) + weight f (lookup k m) ≡ total f m + f v
  unfolding lookup insert total
  total-insert f k v [] = ground arith
  total-insert f k v ((i, w) ∷ m) = ground (arith, total-insert f k v m)
