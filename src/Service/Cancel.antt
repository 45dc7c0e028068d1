-- ===== src/Service/Cancel.antt =====
-- internal/service/order.go, cancel and GiveUp.
use lottery.Base.{ℕ, Bool, true, false, not, Option, none, some, ◌==◌, if◌then◌else◌}
use lottery.Order.{
  OrderStatus, paid, cancelled, OrderIdentity, InventoryMode, redis_mode, mysql_mode, Order,
  CancelReason, user_giveup,
}
use lottery.Redis.{Admission, matches}
use lottery.Program.{
  Prog, ret, ◌>>=◌, ◌>>◌, note, sense, clock, Result, ok, err, not_found, inventory_rollback,
  system_error, give_up as gave_up,
}
use lottery.Store.Admissions.{get_lottery_admission, release_lottery_admission}
use lottery.Store.Orders.{
  find_order_identity, record_released_redis_cancellation, cancel_mysql_order_and_restore_stock,
}
use lottery.Service.{
  order_not_owned, giveup_rollback_failed, order_already_paid, order_state_conflict, Outcome, done,
  refused, or_code,
}

unfoldable pub cancelled_mysql : Order × Bool → Outcome Bool
cancelled_mysql (o, transitioned) = elim o.status [
  | paid ↦ refused order_already_paid
  | cancelled ↦ done transitioned
  | _ ↦ refused order_state_conflict
]

-- What is left of a Redis order whose admission is gone.
unfoldable pub unmatched_in : OrderStatus → Bool → Outcome Bool
unmatched_in cancelled true = done false
unmatched_in paid released = refused order_already_paid
unmatched_in _ released = refused order_state_conflict

unfoldable pub unmatched : Option Order → Outcome Bool
unfolding unmatched_in
unmatched none = refused order_not_owned
unmatched (some o) = unmatched_in o.status o.stock_released

unfoldable pub note_rollback : ℕ → CancelReason → Bool → Prog (Outcome Bool)
note_rollback gift_id why false = ret (done false)
note_rollback gift_id why true = do note (inventory_rollback gift_id why); ret (done true)

unfoldable pub record_in :
    OrderStatus → ℕ → ℕ → CancelReason → Option ℕ → OrderIdentity → Bool → Prog (Outcome Bool)
unfolding note_rollback
record_in paid uid gift_id why expires_at id released = ret (refused order_already_paid)
record_in cancelled uid gift_id why expires_at id released = do
  recorded ← record_released_redis_cancellation uid gift_id expires_at why id
  or_code giveup_rollback_failed recorded (λ _. note_rollback gift_id why released)
record_in _ uid gift_id why expires_at id released = ret (refused order_state_conflict)

unfoldable pub after_release :
    Option Admission
    → Option Order
    → ℕ
    → ℕ
    → CancelReason
    → Option ℕ
    → OrderIdentity
    → Bool
    → Prog (Outcome Bool)
unfolding unmatched record_in
after_release none o uid gift_id why expires_at id released = ret (unmatched o)
after_release (some a) o uid gift_id why expires_at id released =
    if matches (some a) gift_id id
    then record_in a.state uid gift_id why expires_at id released
    else ret (unmatched o)

unfoldable pub released_or_failed :
    Option Order
    → ℕ
    → ℕ
    → CancelReason
    → Option ℕ
    → OrderIdentity
    → Result Bool
    → Prog (Outcome Bool)
unfolding after_release
released_or_failed o uid gift_id why expires_at id (err e) = do
  note system_error
  ret (refused giveup_rollback_failed)
released_or_failed o uid gift_id why expires_at id (ok released) = do
  admission ← get_lottery_admission uid
  or_code giveup_rollback_failed admission
      (λ a. after_release a o uid gift_id why expires_at id released)

-- Redis decides between payment and cancellation, and only then is the order written.
unfoldable pub cancel_redis :
    Option Order → ℕ → ℕ → CancelReason → Option ℕ → OrderIdentity → Prog (Outcome Bool)
unfolding released_or_failed
cancel_redis o uid gift_id why expires_at id = do
  released ← release_lottery_admission uid gift_id id
  released_or_failed o uid gift_id why expires_at id released

unfoldable pub cancel_mode :
    InventoryMode → Order → ℕ → ℕ → CancelReason → Option ℕ → OrderIdentity → Prog (Outcome Bool)
unfolding cancelled_mysql cancel_redis
cancel_mode mysql_mode o uid gift_id why expires_at id = do
  row ← cancel_mysql_order_and_restore_stock o.id why
  or_code giveup_rollback_failed row (λ row. ret (cancelled_mysql row))
cancel_mode redis_mode o uid gift_id why expires_at id =
    cancel_redis (some o) uid gift_id why expires_at id

unfoldable pub cancel_found :
    Result Order → ℕ → ℕ → CancelReason → Option ℕ → OrderIdentity → Prog (Outcome Bool)
unfolding cancel_mode cancel_redis
cancel_found (ok o) uid gift_id why expires_at id =
    if not (o.gift_id == gift_id)
    then ret (refused order_not_owned)
    else cancel_mode o.inventory_mode o uid gift_id why expires_at id
cancel_found (err not_found) uid gift_id why expires_at id =
    cancel_redis none uid gift_id why expires_at id
cancel_found (err e) uid gift_id why expires_at id = ret (refused giveup_rollback_failed)

unfoldable pub cancel : ℕ → ℕ → CancelReason → Option ℕ → OrderIdentity → Prog (Outcome Bool)
unfolding cancel_found
cancel uid gift_id why expires_at id = do
  found ← find_order_identity uid id
  cancel_found found uid gift_id why expires_at id

unfoldable pub given_up : ℕ → Outcome Bool → Prog (Outcome (Unit {0}))
given_up gift_id (refused code) = ret (refused code)
given_up gift_id (done false) = ret (done tt)
given_up gift_id (done true) = do note (gave_up gift_id); ret (done tt)

unfoldable pub give_up : ℕ → ℕ → OrderIdentity → Prog (Outcome (Unit {0}))
unfolding cancel given_up
give_up uid gift_id id = do
  now ← sense clock
  released ← cancel uid gift_id user_giveup (some now) id
  given_up gift_id released
