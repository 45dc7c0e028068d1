-- ===== src/Service/Timeout.antt =====
-- internal/service/order.go, TimeoutCancel: the consumer of delayed cancel-order messages; and
-- internal/mq/order_consumer.go, handleOrderMessage, which sends each message to its consumer.
use lottery.Base.{
  ℕ, ◌+◌, Bool, false, ◌&&◌, ◌||◌, not, Text, Option, none, some, ◌==◌, ◌=text◌, ltb, if◌then◌else◌,
}
use lottery.Order.{is_empty, Order, payment_timeout}
use lottery.Redis.{Admission, matches}
use lottery.Ledger.{is_mysql}
use lottery.Program.{
  Prog, ret, ◌>>=◌, ◌>>◌, note, sense, clock, on, pass, Result, ok, err, not_found, failed,
  conflict, ignored_order_message, Message, Topic, create_order, cancel_order,
}
use lottery.Store.Admissions.{current_seckill_run, get_lottery_admission}
use lottery.Store.Orders.{find_order_identity}
use lottery.Service.Create.{create_redis_pending_order}
use lottery.Service.Cancel.{cancel}
use lottery.Service.{
  Code, order_already_paid, order_cancelled, order_not_owned, Outcome, done, refused, nanoseconds,
}

unfoldable pub stale : Prog (Result Bool)
stale = do note ignored_order_message; ret (ok false)

unfoldable pub settled_code : Code → Result Bool
settled_code order_already_paid = ok false
settled_code order_cancelled = ok false
settled_code order_not_owned = ok false
settled_code _ = err failed

unfoldable pub timed_out : Outcome Bool → Result Bool
unfolding settled_code
timed_out (done released) = ok released
timed_out (refused code) = settled_code code

-- A message that comes early goes back to the broker.
unfoldable pub cancel_at : Order → ℕ → ℕ → Prog (Result Bool)
unfolding timed_out
cancel_at c now deadline = if ltb now deadline then ret (err conflict) else (do
  released ← cancel c.user_id c.gift_id payment_timeout (some deadline) c.identity
  ret (timed_out released))

unfoldable pub cancel_by : Order → Option ℕ → Prog (Result Bool)
unfolding cancel_at
cancel_by c (some deadline) = do now ← sense clock; cancel_at c now deadline
cancel_by c none = do deadline ← sense clock; now ← sense clock; cancel_at c now deadline

unfoldable pub timeout_if_run : Order → Text → Prog (Result Bool)
unfolding cancel_by stale
timeout_if_run c run = if not (run =text c.run_id) then stale else cancel_by c c.expires_at

unfoldable pub timeout_run : Order → Prog (Result Bool)
unfolding timeout_if_run
timeout_run c =
    if is_empty c.order_id
    then cancel_by c c.expires_at
    else (do run ← current_seckill_run; pass run (timeout_if_run c))

unfoldable pub timeout_owned : Order → Bool → Option Admission → Prog (Result Bool)
unfolding timeout_run stale
timeout_owned c legacy admission =
    if not legacy && not (matches admission c.gift_id c.identity) then stale else timeout_run c

unfoldable pub timeout_with : Order → Bool → Prog (Result Bool)
unfolding timeout_owned
timeout_with c legacy = do
  admission ← get_lottery_admission c.user_id
  on admission (λ e. if legacy then timeout_owned c legacy none else ret (err e))
      (timeout_owned c legacy)

-- Two deadlines less than a second apart; the column keeps whole seconds.
unfoldable pub near : Option ℕ → Option ℕ → Bool
near (some a) (some b) = ltb a (b + nanoseconds 1) && ltb b (a + nanoseconds 1)
near _ _ = false

unfoldable pub is_legacy_of : Order → Order → Bool
unfolding near
is_legacy_of c o =
    is_mysql o.inventory_mode
    && o.gift_id == c.gift_id
    && near o.expires_at c.expires_at
    && (c.id == 0 || c.id == o.id)

unfoldable pub timeout_legacy : Order → Result Order → Prog (Result Bool)
unfolding timeout_with is_legacy_of
timeout_legacy c (ok o) = timeout_with c (is_legacy_of c o)
timeout_legacy c (err not_found) = timeout_with c false
timeout_legacy c (err e) = ret (err e)

unfoldable pub timeout_cancel : Order → Prog (Result Bool)
unfolding timeout_legacy timeout_with
timeout_cancel c =
    if is_empty c.order_id && is_empty c.run_id
    then (do found ← find_order_identity c.user_id c.identity; timeout_legacy c found)
    else timeout_with c false

-- The flag is whether the message gave back a unit. A message that ends in an error is not
-- acknowledged, and comes again.
unfoldable pub handle_topic : Topic → Order → Prog (Result Bool)
handle_topic create_order c = do
  created ← create_redis_pending_order c
  pass created (λ _. ret (ok false))
handle_topic cancel_order c = timeout_cancel c

unfoldable pub handle_order_message : Message → Prog (Result Bool)
unfolding handle_topic
handle_order_message m = handle_topic m.topic m.order
