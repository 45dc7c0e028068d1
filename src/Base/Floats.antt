-- ===== src/Base/Floats.antt =====
-- Floats: a float64 that is not negative, as a number of units in which all values at hand are whole.
-- A result is rounded to 53 bits, to the nearest and to the even one of two.
use Prim.Native.Nat.{ℕ, zero, suc, ◌+◌, ◌*◌, ◌/◌, ◌%◌, ◌^◌, ◌≤◌, ◌<◌}
use mathlib.Core.Path.{◌≡◌, sym, ap, ◌∙◌}
use mathlib.Core.Logic.{inl, inr}
use mathlib.Core.Bool.{◌&&◌, ◌||◌}
use native.Mathlib.Omega.{arith}
use native.Mathlib.Nat.{pow-suc, div-add-mod', mod-lt}
use lottery.Base.Tests.{ltb, ◌==◌, if◌then◌else◌, Bool-cases}

abbrev pub float_steps : ℕ
float_steps = 2 ^ 53

-- The unit of the last of 53 bits of n: 1, doubled until n has 53 bits in it.
unfoldable pub last_bit : ℕ → ℕ → ℕ → ℕ
last_bit zero unit n = unit
last_bit (suc fuel) unit n =
    let rest = last_bit fuel (2 * unit) n in if ltb n (unit * float_steps) then unit else rest

-- The multiple of `unit` next to n = q * unit + r, the even one of two that are equally near.
unfoldable pub nearest : ℕ → ℕ → ℕ → ℕ
nearest unit q r =
    if ltb (2 * r) unit || 2 * r == unit && q % 2 == 0 then q * unit else (q + 1) * unit

-- n in 53 bits; the fuel is enough if n has no more bits beyond these.
unfoldable pub rounded : ℕ → ℕ → ℕ
rounded fuel n = let unit = last_bit fuel 1 n in nearest unit (n / unit) (n % unit)

-- n / d in 53 bits.
unfoldable pub rounded_ratio : ℕ → ℕ → ℕ → ℕ
rounded_ratio fuel n d =
    let step = d * last_bit fuel 1 (n / d) in nearest step (n / step) (n % step) / d

doubled : (unit p : ℕ) → 2 * unit * p ≡ unit * (p * 2)
doubled unit p = grind arith

-- The unit goes into 2^53 units, and into 2^53 itself.
last_bit_divides : (fuel unit n : ℕ) → (k : ℕ) × (k * last_bit fuel unit n ≡ unit * 2 ^ fuel)
unfolding last_bit
last_bit_divides zero unit n = (1, omega arith)
last_bit_divides (suc fuel) unit n = elim (Bool-cases (ltb n (unit * float_steps))) [
  | inl t ↦ (2 ^ suc fuel, rw t (grind arith))
  | inr t ↦
      let (k, e) = last_bit_divides fuel (2 * unit) n in
      (k, rw t (e ∙ doubled unit (2 ^ fuel) ∙ ap (λ (x : ℕ). unit * x) (sym (pow-suc 2 fuel))))
]

last_bit_le :
    (fuel unit n : ℕ)
    → 0 < unit
    → unit ≤ n
    → (0 < last_bit fuel unit n) × (last_bit fuel unit n ≤ n)
unfolding last_bit
last_bit_le zero unit n p h = (p, h)
last_bit_le (suc fuel) unit n p h = ground (arith, last_bit_le fuel (2 * unit) n)

mul_mono : (a b c : ℕ) → a ≤ b → a * c ≤ b * c
mul_mono a b c h = grind arith

-- Rounding to a multiple goes past no multiple.
nearest_le : (unit q r k : ℕ) → 0 < unit → q * unit + r ≤ k * unit → nearest unit q r ≤ k * unit
unfolding nearest
nearest_le unit q r k p h = elim (Bool-cases (ltb (2 * r) unit || 2 * r == unit && q % 2 == 0)) [
  | inl down ↦ rw down (omega arith)
  | inr up ↦ elim (Bool-cases (ltb q k)) [
    | inl below ↦ rw up (mul_mono (q + 1) k unit (ground arith))
    | inr above ↦
        let back : k * unit ≤ q * unit = mul_mono k q unit (ground arith) in
        let nothing : r ≡ 0 = omega arith in absurd (ground (arith, up, nothing, p))
  ]
]

nearest_positive : (unit q r : ℕ) → 0 < unit → 0 < q → 0 < nearest unit q r
unfolding nearest
nearest_positive unit q r p h =
    elim (Bool-cases (ltb (2 * r) unit || 2 * r == unit && q % 2 == 0)) [
      | inl down ↦ rw down (omega (arith, mul_mono 1 q unit h))
      | inr up ↦ rw up (omega (arith, mul_mono 1 (q + 1) unit (omega arith)))
    ]

division : (n unit : ℕ) → 0 < unit → n / unit * unit + n % unit ≡ n
division n unit p = div-add-mod' n unit

remainder_below : (n unit : ℕ) → 0 < unit → n % unit < unit
remainder_below n unit p = mod-lt n p

some_units : (unit q r : ℕ) → unit ≤ q * unit + r → r < unit → 0 < q
some_units unit zero r h k = absurd (omega arith)
some_units unit (suc q) r h k = omega arith

many_units : (s times unit : ℕ) → s * times * unit ≡ s * (times * unit)
many_units s times unit = grind arith

last_bit_positive : (fuel unit n : ℕ) → 0 < unit → 0 < last_bit fuel unit n
unfolding last_bit
last_bit_positive zero unit n p = p
last_bit_positive (suc fuel) unit n p = ground (arith, last_bit_positive fuel (2 * unit) n)

one_time : (x : ℕ) → 1 * x ≡ x
one_time x = omega arith

-- Rounding goes past no multiple of 2 ^ fuel.
pub rounded_le : (fuel n m : ℕ) → n ≤ m * 2 ^ fuel → rounded fuel n ≤ m * 2 ^ fuel
unfolding rounded
rounded_le fuel n m h =
    let unit = last_bit fuel 1 n in
    let some_unit = last_bit_positive fuel 1 n (omega arith) in
    let (times, divides) = last_bit_divides fuel 1 n in
    let multiple =
      many_units m times unit ∙ ap (λ (x : ℕ). m * x) (divides ∙ one_time (2 ^ fuel)) in
    omega (
      arith,
      multiple,
      nearest_le unit (n / unit) (n % unit) (m * times) some_unit
          (omega (arith, multiple, division n unit some_unit)),
    )

pub rounded-positive : (fuel n : ℕ) → 0 < n → 0 < rounded fuel n
unfolding rounded
rounded-positive fuel n h =
    let unit = last_bit fuel 1 n in
    let (some_unit, within) = last_bit_le fuel 1 n (omega arith) h in
    nearest_positive unit (n / unit) (n % unit) some_unit (
      some_units unit (n / unit) (n % unit) (omega (arith, division n unit some_unit, within))
        (remainder_below n unit some_unit))
