-- ===== src/Base/Tests.antt =====
-- Boolean tests on numbers and texts, and the conditional.
use Prim.Native.Nat.{ℕ, suc, ◌+◌, compare, Ordering}
use mathlib.Core.Path.{◌≡◌, refl}
use mathlib.Core.Logic.{◌⊎◌, ◌≢◌, inl, inr}
use mathlib.Core.Bool.{Bool, true, false, ◌&&◌}
use mathlib.Core.Option.{Option, none, some}
use mathlib.Core.List.{List, [], ◌∷◌, ◌++◌}
use native.Mathlib.Omega.{arith}
use native.Mathlib.Decide.{ℕ_discrete}

-- These compute to `compare`, which `ground` reads with no lemma listed.
abbrev pub ltb : ℕ → ℕ → Bool
ltb a b = elim (compare a b) [ Ordering.lt ↦ true | _ ↦ false ]

abbrev pub leb : ℕ → ℕ → Bool
leb a b = elim (compare a b) [ Ordering.gt ↦ false | _ ↦ true ]

infix 50 ◌==◌
abbrev pub ◌==◌ : ℕ → ℕ → Bool
a == b = elim (compare a b) [ Ordering.eq ↦ true | _ ↦ false ]

infix 1 if◌then◌else◌
abbrev pub if◌then◌else◌ {ℓ} : {A : Type ℓ} → Bool → A → A → A
if true then x else y = x
if false then x else y = y

-- A byte string.
abbrev pub Text : Type 0
Text = List ℕ

abbrev pub is_empty : Text → Bool
is_empty [] = true
is_empty (c ∷ cs) = false

unfoldable pub Text-discrete : Discrete Text
Text-discrete [] [] = yes refl
Text-discrete [] (y ∷ ys) = no (λ h. cc h)
Text-discrete (x ∷ xs) [] = no (λ h. cc h)
Text-discrete (x ∷ xs) (y ∷ ys) = elim (ℕ_discrete x y) [
  | yes p ↦ elim (Text-discrete xs ys) [ yes q ↦ yes (cc (p, q)) | no n ↦ no (λ h. n (cc h)) ]
  | no n ↦ no (λ h. n (cc h))
]

infix 50 ◌=text◌
abbrev pub ◌=text◌ : Text → Text → Bool
a =text b = elim (Text-discrete a b) [ yes _ ↦ true | no _ ↦ false ]

pub text_eq_refl : (a : Text) → (a =text a) ≡ true
text_eq_refl a =
    elim (Text-discrete a a) as (λ d. (elim d [ yes _ ↦ true | no _ ↦ false ]) ≡ true) [
      | yes _ ↦ refl
      | no n ↦ absurd (n refl)
    ]

pub text_eq_ne : (a b : Text) → a ≢ b → (a =text b) ≡ false
text_eq_ne a b h =
    elim (Text-discrete a b) as (λ d. (elim d [ yes _ ↦ true | no _ ↦ false ]) ≡ false) [
      | yes e ↦ absurd (h e)
      | no _ ↦ refl
    ]

-- Letters of either case as one, as the collation utf8mb4_unicode_ci of the tables has them; for the
-- letters, digits and signs of ASCII that ids are made of it makes no other two characters equal.
unfoldable pub fold_case : Text → Text
fold_case [] = []
fold_case (c ∷ cs) = (if leb b'A' c && leb c b'Z' then c + 32 else c) ∷ fold_case cs

-- `=` of a column and a text in MySQL.
abbrev pub same_key : Text → Text → Bool
same_key a b = fold_case a =text fold_case b

-- To split on a computed value and keep the equation.
pub Bool-cases : (b : Bool) → (b ≡ true) ⊎ (b ≡ false)
Bool-cases true = inl refl
Bool-cases false = inr refl

pub Option-cases {ℓ} : {A : Type ℓ} (o : Option A) → (o ≡ none) ⊎ ((a : A) × (o ≡ some a))
Option-cases none = inl refl
Option-cases (some a) = inr (a, refl)

module _ {ℓ} {A : Type ℓ} where
  abbrev pub length : List A → ℕ
  length [] = 0
  length (x ∷ xs) = suc (length xs)

  pub length-append : (xs ys : List A) → length (xs ++ ys) ≡ length xs + length ys
  length-append [] ys = omega arith
  length-append (x ∷ xs) ys = omega (arith, length-append xs ys)
