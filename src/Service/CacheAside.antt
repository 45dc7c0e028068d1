-- ===== src/Service/CacheAside.antt =====
-- internal/service/lottery_cacheaside.go: Draw of the MySQL path, behind the circuit breaker.
use lottery.Base.{
  ℕ, zero, suc, ◌+◌, ◌*◌, ◌/◌, Bool, true, false, [], ◌∷◌, Option, none, some, Map, ◌==◌,
  if◌then◌else◌,
}
use lottery.Order.{
  pending_payment, other_status, no_identity, mysql_mode, Order, gift_lookup_failed,
  timeout_message_send_failed, default_activity_id, CancelReason,
}
use lottery.Ledger.{Gift}
use lottery.WeightedDraw.{draw_index}
use lottery.Program.{
  Prog, ret, ◌>>=◌, ◌>>◌, ask, sense, note, Result, ok, err, count_orders, clock, dice,
  breaker_allow, breaker_report, system_error, cache_aside_request, cache_aside_rejected,
  cache_aside_sold_out, cache_hit, cache_miss, cache_aside_db_read, cache_aside_db_write,
  cache_aside_completed, Measure,
}
use lottery.Store.Orders.{cancel_mysql_order_and_restore_stock}
use lottery.Store.Stock.{
  CacheAsideStat, cache_hit_read, db_read, db_write, get_all_gift_stock_cache_aside, get_gift,
  Taken, taken, already_taken, stock_sold_out, acquire_mysql_stock_and_create_pending_order,
}
use lottery.Service.Draw.{candidates, weights, chosen, send_cancel_order}
use lottery.Service.{
  Code, gift_db_read_failed, duplicate_participation, admission_failed, redis_inventory_read_failed,
  lottery_algo_failed, gift_lookup_failed as lookup_failed, mq_send_failed,
  inventory_retry_exhausted, cache_aside_overload, Outcome, done, refused, pay_delay_seconds,
  nanoseconds, LotteryResult,
}

unfoldable pub pool_usage_percent : ℕ → ℕ → ℕ
pool_usage_percent in_use capacity = if capacity == 0 then 0 else in_use * 100 / capacity

unfoldable pub report_db : Measure → Prog (Unit {0})
unfolding pool_usage_percent
report_db m = sense (breaker_report (m.wait_ms + m.db_ms) (pool_usage_percent m.in_use m.capacity))

-- A read from the cache is no pressure on the database.
unfoldable pub report_pressure : CacheAsideStat → Prog (Unit {0})
unfolding report_db
report_pressure stat = elim stat.operation [
  | cache_hit_read ↦ note cache_hit
  | db_read ↦ do note cache_miss; note cache_aside_db_read; report_db stat.measured
  | db_write ↦ do note cache_aside_db_write; report_db stat.measured
]

unfoldable pub undo_with : Order → CancelReason → Code → Prog (Outcome LotteryResult)
undo_with o why code = do
  cancelled ← cancel_mysql_order_and_restore_stock o.id why
  note system_error
  ret (refused code)

unfoldable pub announced : ℕ → ℕ → Gift → Order → Result (Unit {0}) → Prog (Outcome LotteryResult)
unfolding undo_with
announced uid gift_id gift o (err e) = undo_with o timeout_message_send_failed mq_send_failed
announced uid gift_id gift o (ok _) = do
  note (cache_aside_completed gift_id)
  ret (
      done (record {
        identity = no_identity;
        uid = uid;
        gift_id = gift_id;
        gift_name = gift.name;
        price = gift.price;
        delay = pay_delay_seconds;
        status = pending_payment;
        inventory_mode = some mysql_mode;
      }))

unfoldable pub announce : ℕ → ℕ → Order → Result Gift → Prog (Outcome LotteryResult)
unfolding undo_with announced
announce uid gift_id o (err e) = undo_with o gift_lookup_failed lookup_failed
announce uid gift_id o (ok gift) = do
  answer ← send_cancel_order o pay_delay_seconds
  announced uid gift_id gift o answer

unfoldable pub taken_as :
    ℕ → ℕ → Prog (Outcome LotteryResult) → Result Taken → Prog (Outcome LotteryResult)
unfolding announce
taken_as uid gift_id next (err e) = do note system_error; ret (refused admission_failed)
taken_as uid gift_id next (ok (already_taken o)) = ret (refused duplicate_participation)
taken_as uid gift_id next (ok stock_sold_out) = next
taken_as uid gift_id next (ok (taken o)) = do gift ← get_gift gift_id; announce uid gift_id o gift

unfoldable pub buy : ℕ → Prog (Outcome LotteryResult) → Option ℕ → Prog (Outcome LotteryResult)
unfolding taken_as
buy uid next none = do note system_error; ret (refused lottery_algo_failed)
buy uid next (some gift_id) = do
  now ← sense clock
  (stat, row) ←
      acquire_mysql_stock_and_create_pending_order uid gift_id
        (some (now + nanoseconds pay_delay_seconds))
  report_pressure stat
  taken_as uid gift_id next row

unfoldable pub sold_out_result : ℕ → LotteryResult
sold_out_result uid = record {
  identity = no_identity;
  uid = uid;
  gift_id = 0;
  gift_name = [];
  price = 0;
  delay = 0;
  status = other_status;
  inventory_mode = none;
}

unfoldable pub pick : ℕ → Prog (Outcome LotteryResult) → Map ℕ → Prog (Outcome LotteryResult)
unfolding buy sold_out_result
pick uid next [] = do note cache_aside_sold_out; ret (done (sold_out_result uid))
pick uid next (g ∷ pool) = do
  u ← sense dice
  buy uid next (chosen (draw_index u (weights (g ∷ pool))) (g ∷ pool))

unfoldable pub round :
    ℕ → Prog (Outcome LotteryResult) → Result (Map ℕ) → Prog (Outcome LotteryResult)
unfolding pick
round uid next (err e) = do note system_error; ret (refused redis_inventory_read_failed)
round uid next (ok gifts) = pick uid next (candidates gifts)

-- The rounds left of the ten.
unfoldable pub rounds : ℕ → ℕ → Prog (Outcome LotteryResult)
unfolding round
rounds zero uid = do note cache_aside_sold_out; ret (refused inventory_retry_exhausted)
rounds (suc tries) uid = do
  (stat, gifts) ← get_all_gift_stock_cache_aside
  report_pressure stat
  round uid (rounds tries uid) gifts

unfoldable pub draw_unless_ordered : ℕ → Result Bool → Prog (Outcome LotteryResult)
unfolding rounds
draw_unless_ordered uid (err e) = do note system_error; ret (refused gift_db_read_failed)
draw_unless_ordered uid (ok true) = ret (refused duplicate_participation)
draw_unless_ordered uid (ok false) = rounds 10 uid

unfoldable pub draw_if : ℕ → Bool → Prog (Outcome LotteryResult)
unfolding draw_unless_ordered
draw_if uid false = do note cache_aside_rejected; ret (refused cache_aside_overload)
draw_if uid true = do
  ordered ← ask (count_orders default_activity_id uid)
  draw_unless_ordered uid ordered

unfoldable pub draw : ℕ → Prog (Outcome LotteryResult)
unfolding draw_if
draw uid = do note cache_aside_request; allowed ← sense breaker_allow; draw_if uid allowed
