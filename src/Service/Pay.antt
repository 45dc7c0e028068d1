-- ===== src/Service/Pay.antt =====
-- internal/service/order.go, Pay.
use lottery.Base.{ℕ, Bool, true, false, not, Option, none, some, ◌==◌, ltb, if◌then◌else◌}
use lottery.Order.{
  OrderStatus, stock_acquired, pending_payment, paid, cancelled, other_status, OrderIdentity,
  InventoryMode, redis_mode, mysql_mode, Order, payment_timeout,
}
use lottery.Redis.{Admission, matches}
use lottery.Program.{
  Prog, ret, ◌>>=◌, ◌>>◌, note, sense, clock, Result, ok, err, not_found, order_completed,
  system_error,
}
use lottery.Store.Admissions.{get_lottery_admission, claim_lottery_admission}
use lottery.Store.Orders.{find_order_identity, transition_pending_order_to_paid}
use lottery.Service.Cancel.{cancel}
use lottery.Service.{
  Code, order_not_owned, order_processing, order_cancelled, order_state_conflict, admission_failed,
  order_create_failed, order_already_paid, Outcome, done, refused, or_code,
}

unfoldable pub code_for_state : OrderStatus → Code
code_for_state cancelled = order_cancelled
code_for_state other_status = order_state_conflict
code_for_state _ = order_processing

-- appErrorForAdmission
unfoldable pub code_for_admission : Option Admission → ℕ → Code
unfolding code_for_state
code_for_admission none gift_id = order_not_owned
code_for_admission (some a) gift_id =
    if not (a.gift_id == gift_id) then order_not_owned else code_for_state a.state

unfoldable pub pay_before_ledger_created : ℕ → ℕ → OrderIdentity → Prog (Outcome (Unit {0}))
unfolding code_for_admission
pay_before_ledger_created uid gift_id id = do
  admission ← get_lottery_admission uid
  or_code admission_failed admission λ a.
      ret (refused (if matches a gift_id id then code_for_admission a gift_id else order_not_owned))

unfoldable pub note_completed : ℕ → Bool → Prog (Outcome (Unit {0}))
note_completed gift_id false = ret (done tt)
note_completed gift_id true = do note (order_completed gift_id); ret (done tt)

unfoldable pub paid_as : ℕ → OrderStatus → Bool → Prog (Outcome (Unit {0}))
unfolding note_completed
paid_as gift_id paid transitioned = note_completed gift_id transitioned
paid_as gift_id _ transitioned = ret (refused order_state_conflict)

unfoldable pub paid_result : ℕ → Result (Order × Bool) → Prog (Outcome (Unit {0}))
unfolding paid_as
paid_result gift_id (err e) = do note system_error; ret (refused order_create_failed)
paid_result gift_id (ok (o, transitioned)) = paid_as gift_id o.status transitioned

unfoldable pub settle_payment : ℕ → Order → Prog (Outcome (Unit {0}))
unfolding paid_result
settle_payment gift_id o = do
  moved ← transition_pending_order_to_paid o.id
  paid_result gift_id moved

unfoldable pub claimed_as : ℕ → ℕ → Order → Result Bool → Prog (Outcome (Unit {0}))
unfolding settle_payment code_for_admission
claimed_as uid gift_id o (err e) = do note system_error; ret (refused admission_failed)
claimed_as uid gift_id o (ok true) = settle_payment gift_id o
claimed_as uid gift_id o (ok false) = do
  admission ← get_lottery_admission uid
  or_code admission_failed admission (λ a. ret (refused (code_for_admission a gift_id)))

unfoldable pub pay_mode : InventoryMode → ℕ → ℕ → OrderIdentity → Order → Prog (Outcome (Unit {0}))
unfolding claimed_as settle_payment
pay_mode mysql_mode uid gift_id id o = settle_payment gift_id o
pay_mode redis_mode uid gift_id id o = do
  claimed ← claim_lottery_admission uid gift_id id
  claimed_as uid gift_id o claimed

unfoldable pub after_timeout : Outcome Bool → Outcome (Unit {0})
after_timeout (done released) = refused order_cancelled
after_timeout (refused order_already_paid) = done tt
after_timeout (refused code) = refused code

unfoldable pub pay_by : ℕ → ℕ → OrderIdentity → Order → ℕ → ℕ → Prog (Outcome (Unit {0}))
unfolding pay_mode after_timeout
pay_by uid gift_id id o deadline now =
    if ltb now deadline then pay_mode o.inventory_mode uid gift_id id o else (do
      cancelled_order ← cancel uid gift_id payment_timeout (some deadline) id
      ret (after_timeout cancelled_order))

-- An order with no deadline never runs out, and its clock is not read.
unfoldable pub pay_pending_order :
    Option ℕ → ℕ → ℕ → OrderIdentity → Order → Prog (Outcome (Unit {0}))
unfolding pay_by pay_mode
pay_pending_order none uid gift_id id o = pay_mode o.inventory_mode uid gift_id id o
pay_pending_order (some deadline) uid gift_id id o = do
  now ← sense clock
  pay_by uid gift_id id o deadline now

unfoldable pub pay_in : OrderStatus → ℕ → ℕ → OrderIdentity → Order → Prog (Outcome (Unit {0}))
unfolding pay_pending_order
pay_in paid uid gift_id id o = ret (done tt)
pay_in cancelled uid gift_id id o = ret (refused order_cancelled)
pay_in stock_acquired uid gift_id id o = ret (refused order_processing)
pay_in pending_payment uid gift_id id o = pay_pending_order o.expires_at uid gift_id id o
pay_in other_status uid gift_id id o = ret (refused order_state_conflict)

unfoldable pub pay_found : ℕ → ℕ → OrderIdentity → Result Order → Prog (Outcome (Unit {0}))
unfolding pay_in pay_before_ledger_created
pay_found uid gift_id id (ok o) =
    if not (o.gift_id == gift_id)
    then ret (refused order_not_owned)
    else pay_in o.status uid gift_id id o
pay_found uid gift_id id (err not_found) = pay_before_ledger_created uid gift_id id
pay_found uid gift_id id (err e) = ret (refused order_create_failed)

unfoldable pub pay : ℕ → ℕ → OrderIdentity → Prog (Outcome (Unit {0}))
unfolding pay_found
pay uid gift_id id = do found ← find_order_identity uid id; pay_found uid gift_id id found
