-- ===== src/Redis/Format/RoundTrip.antt =====
-- The text of an admission key reads back, for parseAdmission and for the scripts.
use lottery.Base.{
  ℕ, ◌≡◌, ◌≢◌, refl, ap, ◌∙◌, inl, inr, Bool, true, false, ◌&&◌, not, Text, List, [], ◌∷◌, ◌++◌,
  Option, some, arith, ◌==◌, if◌then◌else◌, decimal, value_from, all_digits, value_from-decimal,
  all_digits-decimal, decimal-nonempty, Text-discrete, ◌⊎◌,
}
use native.Mathlib.Decide.{ℕ_discrete}
use mathlib.Core.List.{append-nil}
use lottery.Order.{
  OrderStatus, stock_acquired, pending_payment, paid, cancelled, other_status, OrderIdentity,
  no_identity, is_empty, is_valid, has_separator,
}
use lottery.Redis.Format.{
  LotteryAdmission, status_text, status_of, bar, print_admission, split, read_number, parse_parts,
  first_part, parse_admission, Fields, lua_parts, lua_fields,
}

no_bar : Text → Bool
no_bar [] = true
no_bar (c ∷ cs) = not (c == bar) && no_bar cs

split-append : (xs rest : Text) → no_bar xs ≡ true → split (xs ++ bar ∷ rest) ≡ xs ∷ split rest
unfolding split no_bar
split-append [] rest h = refl
split-append (c ∷ xs) rest h = ground (arith, split-append xs rest)

split-whole : (xs : Text) → no_bar xs ≡ true → split xs ≡ xs ∷ []
unfolding split no_bar
split-whole [] h = refl
split-whole (c ∷ xs) h = ground (arith, split-whole xs)

no_bar-digits : (xs : Text) → all_digits xs ≡ true → no_bar xs ≡ true
unfolding no_bar all_digits
no_bar-digits [] h = refl
no_bar-digits (c ∷ xs) h = ground (arith, no_bar-digits xs)

no_bar-separator : (xs : Text) → has_separator xs ≡ false → no_bar xs ≡ true
unfolding no_bar has_separator
no_bar-separator [] h = refl
no_bar-separator (c ∷ xs) h = ground (arith, no_bar-separator xs)

no_bar-status : (s : OrderStatus) → no_bar (status_text s) ≡ true
unfolding no_bar
no_bar-status stock_acquired = refl
no_bar-status pending_payment = refl
no_bar-status paid = refl
no_bar-status cancelled = refl
no_bar-status other_status = refl

status_of-status_text : (s : OrderStatus) → status_of (status_text s) ≡ s
unfolding Text-discrete ℕ_discrete
status_of-status_text stock_acquired = refl
status_of-status_text pending_payment = refl
status_of-status_text paid = refl
status_of-status_text cancelled = refl
status_of-status_text other_status = refl

read_number-nonempty :
    (t : Text) → is_empty t ≡ false → all_digits t ≡ true → read_number t ≡ some (value_from 0 t)
unfolding read_number
read_number-nonempty [] h d = absurd (cc)
read_number-nonempty (c ∷ t) h d = rw d

read_number-decimal : (n : ℕ) → read_number (decimal n) ≡ some n
read_number-decimal n =
    read_number-nonempty (decimal n) (decimal-nonempty n) (all_digits-decimal n)
    ∙ ap some (value_from-decimal n)

no_bar-decimal : (n : ℕ) → no_bar (decimal n) ≡ true
no_bar-decimal n = no_bar-digits (decimal n) (all_digits-decimal n)

-- The parts of a legacy value, and of one with its identity.
split-legacy :
    (n : ℕ) (s : OrderStatus)
    → split (decimal n ++ bar ∷ (status_text s ++ [])) ≡ decimal n ∷ status_text s ∷ []
split-legacy n s =
    split-append (decimal n) (status_text s ++ []) (no_bar-decimal n)
    ∙ ap (λ (t : Text). decimal n ∷ split t) (append-nil (status_text s))
    ∙ ap (λ (ws : List Text). decimal n ∷ ws) (split-whole (status_text s) (no_bar-status s))

split-identity :
    (n : ℕ) (s : OrderStatus) (o r : Text)
    → no_bar o ≡ true
    → no_bar r ≡ true
    → split (decimal n ++ bar ∷ (status_text s ++ bar ∷ (o ++ bar ∷ r)))
      ≡ decimal n ∷ status_text s ∷ o ∷ r ∷ []
split-identity n s o r ho hr =
    split-append (decimal n) (status_text s ++ bar ∷ (o ++ bar ∷ r)) (no_bar-decimal n)
    ∙ ap (λ (ws : List Text). decimal n ∷ ws)
        (split-append (status_text s) (o ++ bar ∷ r) (no_bar-status s)
          ∙ ap (λ (ws : List Text). status_text s ∷ ws)
              (split-append o r ho ∙ ap (λ (ws : List Text). o ∷ ws) (split-whole r hr)))

-- The identity of an admission is whole and valid, or there is none.
abbrev pub HasIdentity : OrderIdentity → Type 0
HasIdentity id = (is_valid id ≡ true) ⊎ (id ≡ no_identity)

valid-parts :
    (id : OrderIdentity)
    → is_valid id ≡ true
    → (is_empty id.order_id ≡ false)
      × (is_empty id.run_id ≡ false)
      × (no_bar id.order_id ≡ true)
      × (no_bar id.run_id ≡ true)
unfolding is_valid
valid-parts id h = (
  ground arith,
  ground arith,
  no_bar-separator id.order_id (ground arith),
  no_bar-separator id.run_id (ground arith),
)

status_text-nonempty : (s : OrderStatus) → s ≢ other_status → is_empty (status_text s) ≡ false
status_text-nonempty stock_acquired known = refl
status_text-nonempty pending_payment known = refl
status_text-nonempty paid known = refl
status_text-nonempty cancelled known = refl
status_text-nonempty other_status known = absurd (known refl)

parse_parts-identity :
    (n : ℕ) (g : Text) (s : OrderStatus) (id : OrderIdentity)
    → s ≢ other_status
    → is_valid id ≡ true
    → parse_parts (some n) (g ∷ status_text s ∷ id.order_id ∷ id.run_id ∷ [])
      ≡ some (record { gift_id = n; state = s; identity = id })
unfolding parse_parts
parse_parts-identity n g s id known valid = ground (arith, status_of-status_text s)

parse_parts-legacy :
    (n : ℕ) (g : Text) (s : OrderStatus) (id : OrderIdentity)
    → s ≢ other_status
    → id ≡ no_identity
    → parse_parts (some n) (g ∷ status_text s ∷ [])
      ≡ some (record { gift_id = n; state = s; identity = id })
unfolding parse_parts
parse_parts-legacy n g s id known legacy = ground (arith, status_of-status_text s)

-- A value that splits into these parts is read so by both.
read-parts :
    (n : ℕ) (raw : Text) (ws : List Text) {a : LotteryAdmission} {f : Fields}
    → split raw ≡ decimal n ∷ ws
    → parse_parts (some n) (decimal n ∷ ws) ≡ some a
    → lua_parts raw (decimal n ∷ ws) ≡ f
    → (parse_admission raw ≡ some a) × (lua_fields raw ≡ f)
unfolding parse_admission lua_fields
read-parts n raw ws e parsed read = (
  ap (λ (parts : List Text). parse_parts (read_number (first_part parts)) parts) e
      ∙ ap (λ (m : Option ℕ). parse_parts m (decimal n ∷ ws)) (read_number-decimal n)
      ∙ parsed,
  ap (lua_parts raw) e ∙ read,
)

-- What the scripts write for an admission in one of the four states, with a valid identity or
-- none, parseAdmission reads back as that admission, and the scripts read back as its four parts.
pub parse_admission-print :
    (a : LotteryAdmission)
    → a.state ≢ other_status
    → HasIdentity a.identity
    → (parse_admission (print_admission a) ≡ some a)
      × (lua_fields (print_admission a) ≡ record {
        gift_id = decimal a.gift_id;
        state = status_text a.state;
        order_id = a.identity.order_id;
        run_id = a.identity.run_id;
      })
unfolding print_admission
parse_admission-print a known (inl valid) =
    let (some_order, some_run, order_bar, run_bar) = valid-parts a.identity valid in
    let s = status_text-nonempty a.state known in
    let g = decimal-nonempty a.gift_id in
    let raw = print_admission a in
    read-parts a.gift_id raw (status_text a.state ∷ a.identity.order_id ∷ a.identity.run_id ∷ [])
      (ap
          (λ (b : Bool). split (
            decimal a.gift_id
            ++ bar
              ∷ (status_text a.state
                  ++ (if b then [] else bar ∷ (a.identity.order_id ++ bar ∷ a.identity.run_id)))))
          some_order
        ∙ split-identity a.gift_id a.state a.identity.order_id a.identity.run_id order_bar run_bar)
      (parse_parts-identity a.gift_id (decimal a.gift_id) a.state a.identity known valid)
      (unfold lua_parts in ground arith)
parse_admission-print a known (inr legacy) =
    let s = status_text-nonempty a.state known in
    let g = decimal-nonempty a.gift_id in
    let raw = print_admission a in
    read-parts a.gift_id raw (status_text a.state ∷ [])
      (ap
          (λ (id : OrderIdentity). split (
            decimal a.gift_id
            ++ bar
              ∷ (status_text a.state
                  ++ (if is_empty id.order_id
                      then []
                      else bar ∷ (id.order_id ++ bar ∷ id.run_id)))))
          legacy
        ∙ split-legacy a.gift_id a.state)
      (parse_parts-legacy a.gift_id (decimal a.gift_id) a.state a.identity known legacy)
      (unfold lua_parts in ground arith)
