-- ===== src/Redis/Format.antt =====
-- internal/database/admission.go: the text of an admission key, as the scripts write it and as
-- parseAdmission and the scripts read it.
pub mod RoundTrip
use lottery.Base.{
  ℕ, Bool, true, false, ◌&&◌, ◌||◌, not, Text, List, [], ◌∷◌, ◌++◌, Option, none, some, ◌==◌,
  ◌=text◌, if◌then◌else◌, decimal, value_from, all_digits,
}
use lottery.Order.{
  OrderStatus, stock_acquired, pending_payment, paid, cancelled, other_status, OrderIdentity,
  no_identity, is_empty, is_valid,
}

-- LotteryAdmission
pub record LotteryAdmission : Type 0 where
  pub gift_id : ℕ
  pub state : OrderStatus
  pub identity : OrderIdentity

abbrev stock_acquired_text : Text
stock_acquired_text =
    b's' ∷ b't' ∷ b'o' ∷ b'c' ∷ b'k' ∷ b'_' ∷ b'a' ∷ b'c' ∷ b'q' ∷ b'u' ∷ b'i' ∷ b'r' ∷ b'e' ∷ b'd'
    ∷ []

abbrev pending_payment_text : Text
pending_payment_text =
    b'p' ∷ b'e' ∷ b'n' ∷ b'd' ∷ b'i' ∷ b'n' ∷ b'g' ∷ b'_' ∷ b'p' ∷ b'a' ∷ b'y' ∷ b'm' ∷ b'e' ∷ b'n'
    ∷ b't' ∷ []

abbrev paid_text : Text
paid_text = b'p' ∷ b'a' ∷ b'i' ∷ b'd' ∷ []

abbrev cancelled_text : Text
cancelled_text = b'c' ∷ b'a' ∷ b'n' ∷ b'c' ∷ b'e' ∷ b'l' ∷ b'l' ∷ b'e' ∷ b'd' ∷ []

abbrev pub status_text : OrderStatus → Text
status_text stock_acquired = stock_acquired_text
status_text pending_payment = pending_payment_text
status_text paid = paid_text
status_text cancelled = cancelled_text
status_text other_status = []

abbrev pub status_of : Text → OrderStatus
status_of t =
    if t =text stock_acquired_text
    then stock_acquired
    else if t =text pending_payment_text
    then pending_payment
    else if t =text paid_text
    then paid
    else if t =text cancelled_text
    then cancelled
    else other_status

abbrev pub bar : ℕ
bar = b'|'

-- The value that the scripts write.
unfoldable pub print_admission : LotteryAdmission → Text
print_admission a =
    decimal a.gift_id
    ++ bar
      ∷ (status_text a.state
          ++ (if is_empty a.identity.order_id
              then []
              else bar ∷ (a.identity.order_id ++ bar ∷ a.identity.run_id)))

abbrev pub cons_head : ℕ → List Text → List Text
cons_head c [] = (c ∷ []) ∷ []
cons_head c (w ∷ ws) = (c ∷ w) ∷ ws

-- strings.Split(raw, "|")
unfoldable pub split : Text → List Text
split [] = [] ∷ []
split (c ∷ cs) = if c == bar then [] ∷ split cs else cons_head c (split cs)

-- strconv.Atoi of a number without a sign, which is what strconv.Itoa prints of a gift id.
unfoldable pub read_number : Text → Option ℕ
unfolding all_digits value_from
read_number [] = none
read_number (c ∷ cs) = if all_digits (c ∷ cs) then some (value_from 0 (c ∷ cs)) else none

unfoldable pub parse_parts : Option ℕ → List Text → Option LotteryAdmission
unfolding is_valid
parse_parts none _ = none
parse_parts (some n) (_ ∷ []) =
    some (record { gift_id = n; state = pending_payment; identity = no_identity })
parse_parts (some n) (_ ∷ s ∷ []) = elim (status_of s) [
  | other_status ↦ none
  | state ↦ some (record { gift_id = n; state = state; identity = no_identity })
]
parse_parts (some n) (_ ∷ s ∷ order_id ∷ run_id ∷ []) = elim (status_of s) [
  | other_status ↦ none
  | state ↦
      let identity : OrderIdentity = record { order_id = order_id; run_id = run_id } in
      if is_valid identity
      then some (record { gift_id = n; state = state; identity = identity })
      else none
]
parse_parts (some n) _ = none

abbrev pub first_part : List Text → Text
first_part [] = []
first_part (w ∷ ws) = w

-- parseAdmission; `none` is an error.
unfoldable pub parse_admission : Text → Option LotteryAdmission
unfolding split read_number parse_parts
parse_admission raw = parse_parts (read_number (first_part (split raw))) (split raw)

-- What the scripts take for the four parts.
pub record Fields : Type 0 where
  pub gift_id : Text
  pub state : Text
  pub order_id : Text
  pub run_id : Text

unfoldable pub lua_parts : Text → List Text → Fields
lua_parts raw (g ∷ s ∷ []) =
    if is_empty g || is_empty s
    then record { gift_id = raw; state = pending_payment_text; order_id = []; run_id = [] }
    else record { gift_id = g; state = s; order_id = []; run_id = [] }
lua_parts raw (g ∷ s ∷ o ∷ r ∷ []) =
    if is_empty g || is_empty s || is_empty o || is_empty r
    then record { gift_id = raw; state = pending_payment_text; order_id = []; run_id = [] }
    else record { gift_id = g; state = s; order_id = o; run_id = r }
lua_parts raw _ = record { gift_id = raw; state = pending_payment_text; order_id = []; run_id = [] }

-- The two string.match of the scripts and what they do without a match.
unfoldable pub lua_fields : Text → Fields
unfolding split lua_parts
lua_fields raw = lua_parts raw (split raw)
