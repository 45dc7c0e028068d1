-- ===== src/Service/Create.antt =====
-- internal/service/order.go, CreateRedisPendingOrder: the consumer of create-order messages.
use lottery.Base.{
  ℕ, Bool, true, false, ◌||◌, not, Text, Option, none, some, ◌==◌, ◌=text◌, if◌then◌else◌,
}
use lottery.Order.{
  OrderStatus, pending_payment, paid, cancelled, is_empty, redis_mode, Order,
  cancelled_before_order_created, cancelled_during_order_creation,
}
use lottery.Redis.{Admission, matches}
use lottery.Ledger.{is_mysql}
use lottery.Program.{
  Prog, ret, ◌>>=◌, ◌>>◌, note, pass, Result, ok, err, conflict, ignored_order_message,
  create_order_consumed,
}
use lottery.Store.Admissions.{
  current_seckill_run, get_lottery_admission, mark_lottery_admission_pending_payment,
}
use lottery.Store.Orders.{
  create_pending_order, transition_pending_order_to_paid, record_released_redis_cancellation,
}
use lottery.Service.{pay_delay_seconds, deadline_or}

unfoldable pub ignored : Prog (Result (Unit {0}))
ignored = do note ignored_order_message; ret (ok tt)

-- After a mark that did not advance: what a concurrent cancellation left.
unfoldable pub settle_in : OrderStatus → Order → Option ℕ → Prog (Result (Unit {0}))
settle_in pending_payment c expires_at = ret (ok tt)
settle_in cancelled c expires_at = do
  recorded ←
      record_released_redis_cancellation c.user_id c.gift_id expires_at
        cancelled_during_order_creation c.identity
  pass recorded (λ _. ret (ok tt))
settle_in _ c expires_at = ret (err conflict)

unfoldable pub settle : Option Admission → Order → Option ℕ → Prog (Result (Unit {0}))
unfolding settle_in
settle none c expires_at = ret (err conflict)
settle (some a) c expires_at =
    if matches (some a) c.gift_id c.identity
    then settle_in a.state c expires_at
    else ret (err conflict)

unfoldable pub advance : Order → Option ℕ → Bool → Prog (Result (Unit {0}))
unfolding settle
advance c expires_at true = do note create_order_consumed; ret (ok tt)
advance c expires_at false = do
  again ← get_lottery_admission c.user_id
  pass again (λ a. settle a c expires_at)

abbrev pub is_paid : OrderStatus → Bool
is_paid paid = true
is_paid _ = false

abbrev pub is_final : OrderStatus → Bool
is_final paid = true
is_final cancelled = true
is_final _ = false

unfoldable pub project : Order → Option ℕ → OrderStatus → Order → Prog (Result (Unit {0}))
unfolding advance
project c expires_at paid o = do
  moved ← transition_pending_order_to_paid o.id
  pass moved (λ (updated, _). ret (if is_paid updated.status then ok tt else err conflict))
project c expires_at _ o = do
  advanced ← mark_lottery_admission_pending_payment c.user_id c.gift_id c.identity
  pass advanced (advance c expires_at)

unfoldable pub created_as : Order → Option ℕ → OrderStatus → Order → Prog (Result (Unit {0}))
unfolding project
created_as c expires_at state o =
    if not (o.gift_id == c.gift_id) || is_mysql o.inventory_mode
    then ret (err conflict)
    else (if is_final o.status then ret (ok tt) else project c expires_at state o)

unfoldable pub create_in : OrderStatus → Order → Option ℕ → Prog (Result (Unit {0}))
unfolding created_as
create_in cancelled c expires_at = do
  recorded ←
      record_released_redis_cancellation c.user_id c.gift_id expires_at
        cancelled_before_order_created c.identity
  pass recorded (λ _. ret (ok tt))
create_in state c expires_at = do
  row ← create_pending_order c.user_id c.gift_id redis_mode expires_at c.identity
  pass row (λ (o, _). created_as c expires_at state o)

unfoldable pub create_current : Order → Admission → Prog (Result (Unit {0}))
unfolding create_in
create_current c a = do
  expires_at ← deadline_or c.expires_at pay_delay_seconds
  create_in a.state c expires_at

unfoldable pub create_if_run : Order → Admission → Text → Prog (Result (Unit {0}))
unfolding create_current ignored
create_if_run c a run = if not (run =text c.run_id) then ignored else create_current c a

unfoldable pub create_owned : Order → Admission → Prog (Result (Unit {0}))
unfolding create_if_run
create_owned c a =
    if is_empty c.order_id
    then create_current c a
    else (do run ← current_seckill_run; pass run (create_if_run c a))

unfoldable pub create_for : Order → Option Admission → Prog (Result (Unit {0}))
unfolding create_owned ignored
create_for c none = ignored
create_for c (some a) = if matches (some a) c.gift_id c.identity then create_owned c a else ignored

unfoldable pub create_redis_pending_order : Order → Prog (Result (Unit {0}))
unfolding create_for
create_redis_pending_order c = do
  admission ← get_lottery_admission c.user_id
  pass admission (create_for c)
