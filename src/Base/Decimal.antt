-- ===== src/Base/Decimal.antt =====
-- Numbers in decimal, as strconv and the verb %d print and read them.
use Prim.Native.Nat.{ℕ, zero, suc, ◌+◌, ◌-◌, ◌*◌, ◌/◌, ◌%◌, ◌<◌, ◌≤◌}
use mathlib.Core.Path.{◌≡◌, refl, ap, ◌∙◌}
use mathlib.Core.Bool.{Bool, true, false, ◌&&◌}
use mathlib.Core.Logic.{inl, inr}
use mathlib.Core.List.{[], ◌∷◌}
use native.Mathlib.Omega.{arith}
use lottery.Base.Tests.{Text, is_empty, ltb, leb, if◌then◌else◌, Bool-cases, length}

abbrev pub digit : ℕ → ℕ
digit d = 48 + d

-- The digits of n before `done`; the fuel k is enough if n < k.
unfoldable pub decimal_from : ℕ → ℕ → Text → Text
decimal_from zero n done = done
decimal_from (suc k) n done =
    let rest = decimal_from k (n / 10) (digit (n % 10) ∷ done) in
    if ltb n 10 then digit n ∷ done else rest

unfoldable pub decimal : ℕ → Text
unfolding decimal_from
decimal n = decimal_from (suc n) n []

-- The number that digits stand for.
unfoldable pub value_from : ℕ → Text → ℕ
value_from acc [] = acc
value_from acc (c ∷ cs) = value_from (acc * 10 + (c - 48)) cs

abbrev pub is_digit : ℕ → Bool
is_digit c = leb 48 c && leb c 57

unfoldable pub all_digits : Text → Bool
all_digits [] = true
all_digits (c ∷ cs) = is_digit c && all_digits cs

value_from-decimal_from :
    (k n : ℕ) (done : Text) → n < k → value_from 0 (decimal_from k n done) ≡ value_from n done
unfolding decimal_from value_from
value_from-decimal_from zero n done h = absurd (omega arith)
value_from-decimal_from (suc k) n done h = elim (Bool-cases (ltb n 10)) [
  | inl t ↦ rw t (ap (λ (m : ℕ). value_from m done) (omega arith))
  | inr t ↦ rw t (
      value_from-decimal_from k (n / 10) (digit (n % 10) ∷ done) (ground arith)
      ∙ ap (λ (m : ℕ). value_from m done) (omega arith))
]

-- What is printed reads back.
pub value_from-decimal : (n : ℕ) → value_from 0 (decimal n) ≡ n
unfolding decimal value_from
value_from-decimal n = value_from-decimal_from (suc n) n [] (omega arith)

all_digits-decimal_from :
    (k n : ℕ) (done : Text) → all_digits done ≡ true → all_digits (decimal_from k n done) ≡ true
unfolding decimal_from all_digits
all_digits-decimal_from zero n done h = h
all_digits-decimal_from (suc k) n done h = elim (Bool-cases (ltb n 10)) [
  | inl t ↦ rw t (ground arith)
  | inr t ↦ rw t (all_digits-decimal_from k (n / 10) (digit (n % 10) ∷ done) (ground arith))
]

pub all_digits-decimal : (n : ℕ) → all_digits (decimal n) ≡ true
unfolding decimal all_digits
all_digits-decimal n = all_digits-decimal_from (suc n) n [] refl

-- One more digit for each power of ten.
length-decimal_from1 :
    (k n : ℕ) (done : Text) → n < 10 → length (decimal_from k n done) ≤ 1 + length done
unfolding decimal_from
length-decimal_from1 zero n done h = omega arith
length-decimal_from1 (suc k) n done h = ground arith

length-decimal_from2 :
    (k n : ℕ) (done : Text) → n < 100 → length (decimal_from k n done) ≤ 2 + length done
unfolding decimal_from
length-decimal_from2 zero n done h = omega arith
length-decimal_from2 (suc k) n done h =
    ground (arith, length-decimal_from1 k (n / 10) (digit (n % 10) ∷ done))

length-decimal_from3 :
    (k n : ℕ) (done : Text) → n < 1000 → length (decimal_from k n done) ≤ 3 + length done
unfolding decimal_from
length-decimal_from3 zero n done h = omega arith
length-decimal_from3 (suc k) n done h =
    ground (arith, length-decimal_from2 k (n / 10) (digit (n % 10) ∷ done))

pub length-decimal : (n : ℕ) → n < 1000 → length (decimal n) ≤ 3
unfolding decimal
length-decimal n h = length-decimal_from3 (suc n) n [] h

decimal_from-nonempty :
    (k n : ℕ) (done : Text) → is_empty done ≡ false → is_empty (decimal_from k n done) ≡ false
unfolding decimal_from
decimal_from-nonempty zero n done h = h
decimal_from-nonempty (suc k) n done h =
    ground (arith, decimal_from-nonempty k (n / 10) (digit (n % 10) ∷ done))

pub decimal-nonempty : (n : ℕ) → is_empty (decimal n) ≡ false
unfolding decimal decimal_from
decimal-nonempty n = ground (arith, decimal_from-nonempty n (n / 10) (digit (n % 10) ∷ []))
