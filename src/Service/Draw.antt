-- ===== src/Service/Draw.antt =====
-- internal/service/lottery.go: Draw, the entry of the Redis path, and rollbackAdmission; with
-- SendCancelOrder and SendCreateOrder of internal/mq/producer.go.
use lottery.Base.{
  ℕ, zero, suc, ◌+◌, Bool, true, false, Text, List, [], ◌∷◌, map, Option, none, some, Map, ltb,
  length, if◌then◌else◌,
}
use lottery.Order.{
  stock_acquired, other_status, OrderIdentity, no_identity, redis_mode, Order, CancelReason,
  gift_lookup_failed, timeout_message_send_failed, async_order_message_send_failed,
  default_activity_id,
}
use lottery.Redis.{Acquire, acquired, duplicate, sold_out, stale_run}
use lottery.Ledger.{Gift, pending_order}
use lottery.WeightedDraw.{draw_index}
use lottery.Program.{
  Prog, ret, ◌>>=◌, ◌>>◌, ask, sense, note, Result, ok, err, count_orders, send, create_order,
  cancel_order, clock, dice, limiter_allow, system_error, rate_limited as note_rate_limited,
  stock_failed, mq_enqueued, create_order_enqueued, mysql_pressure, redis_pre_deduct, queue_success,
  inventory_rollback,
}
use lottery.Store.Admissions.{
  new_identity_id, current_seckill_run, try_acquire_lottery_admission, release_lottery_admission,
}
use lottery.Store.Orders.{record_released_redis_cancellation}
use lottery.Store.Stock.{get_all_gift_inventory, get_gift}
use lottery.Service.{
  Code, gift_db_read_failed, rate_limited, duplicate_participation, admission_failed,
  redis_inventory_read_failed, lottery_algo_failed, gift_lookup_failed as lookup_failed,
  mq_send_failed, inventory_retry_exhausted, Outcome, done, refused, pay_delay_seconds,
  admission_grace_seconds, nanoseconds, LotteryResult,
}

-- The gifts with units left, with their counts.
unfoldable pub candidates : Map ℕ → Map ℕ
candidates [] = []
candidates ((id, count) ∷ gifts) =
    if ltb 0 count then (id, count) ∷ candidates gifts else candidates gifts

abbrev pub weights : Map ℕ → List ℕ
weights = map λ (id, count). count

unfoldable pub get_elem? : Map ℕ → ℕ → Option ℕ
get_elem? [] i = none
get_elem? ((id, count) ∷ gifts) zero = some id
get_elem? ((id, count) ∷ gifts) (suc i) = get_elem? gifts i

unfoldable pub remove_at : ℕ → Map ℕ → Map ℕ
remove_at i [] = []
remove_at zero (g ∷ gifts) = gifts
remove_at (suc i) (g ∷ gifts) = g ∷ remove_at i gifts

unfoldable pub sent : Result (Unit {0}) → Prog (Result (Unit {0}))
sent (err e) = ret (err e)
sent (ok _) = do note mq_enqueued; ret (ok tt)

unfoldable pub send_cancel_order : Order → ℕ → Prog (Result (Unit {0}))
unfolding sent
send_cancel_order o delay = do answer ← ask (send cancel_order o delay); sent answer

unfoldable pub sent_create : Result (Unit {0}) → Prog (Result (Unit {0}))
sent_create (err e) = ret (err e)
sent_create (ok _) = do note create_order_enqueued; ret (ok tt)

unfoldable pub send_create_order : Order → Prog (Result (Unit {0}))
unfolding sent_create
send_create_order o = do answer ← ask (send create_order o 0); sent_create answer

unfoldable pub note_failure : {A : Type 0} → Result A → Prog (Unit {0})
note_failure (ok _) = ret tt
note_failure (err _) = note system_error

unfoldable pub rolled_back : ℕ → ℕ → CancelReason → OrderIdentity → Result Bool → Prog (Unit {0})
unfolding note_failure
rolled_back uid gift_id why id (err _) = ret tt
rolled_back uid gift_id why id (ok false) = ret tt
rolled_back uid gift_id why id (ok true) = do
  note (inventory_rollback gift_id why)
  now ← sense clock
  recorded ←
      record_released_redis_cancellation uid gift_id (some (now + nanoseconds pay_delay_seconds))
        why id
  note_failure recorded

unfoldable pub rollback_admission : ℕ → ℕ → CancelReason → OrderIdentity → Prog (Unit {0})
unfolding rolled_back
rollback_admission uid gift_id why id = do
  released ← release_lottery_admission uid gift_id id
  rolled_back uid gift_id why id released

unfoldable pub roll_back_with :
    ℕ → ℕ → CancelReason → Code → OrderIdentity → Prog (Outcome LotteryResult)
roll_back_with uid gift_id why code id = do
  rollback_admission uid gift_id why id
  note system_error
  ret (refused code)

-- The command that both messages carry.
unfoldable pub command_of : ℕ → ℕ → OrderIdentity → ℕ → Order
unfolding pending_order
command_of uid gift_id id expires_at =
    record (pending_order default_activity_id uid gift_id redis_mode (some expires_at) id) {
      status = stock_acquired;
    }

unfoldable pub queued :
    ℕ → ℕ → OrderIdentity → Gift → Result (Unit {0}) → Prog (Outcome LotteryResult)
unfolding roll_back_with
queued uid gift_id id gift (err e) =
    roll_back_with uid gift_id async_order_message_send_failed mq_send_failed id
queued uid gift_id id gift (ok _) = do
  note (queue_success gift_id)
  ret (
      done (record {
        identity = id;
        uid = uid;
        gift_id = gift_id;
        gift_name = gift.name;
        price = gift.price;
        delay = pay_delay_seconds;
        status = stock_acquired;
        inventory_mode = some redis_mode;
      }))

unfoldable pub scheduled :
    ℕ → ℕ → OrderIdentity → Gift → Order → Result (Unit {0}) → Prog (Outcome LotteryResult)
unfolding roll_back_with queued
scheduled uid gift_id id gift c (err e) =
    roll_back_with uid gift_id timeout_message_send_failed mq_send_failed id
scheduled uid gift_id id gift c (ok _) = do
  answer ← send_create_order c
  queued uid gift_id id gift answer

-- First the message that will cancel, then the one that creates the order.
unfoldable pub publish : ℕ → ℕ → OrderIdentity → Result Gift → Prog (Outcome LotteryResult)
unfolding roll_back_with scheduled command_of
publish uid gift_id id (err e) = roll_back_with uid gift_id gift_lookup_failed lookup_failed id
publish uid gift_id id (ok gift) = do
  now ← sense clock
  answer ←
      send_cancel_order (command_of uid gift_id id (now + nanoseconds pay_delay_seconds))
        pay_delay_seconds
  scheduled uid gift_id id gift (command_of uid gift_id id (now + nanoseconds pay_delay_seconds))
      answer

unfoldable pub admitted : ℕ → ℕ → OrderIdentity → Prog (Outcome LotteryResult)
unfolding publish
admitted uid gift_id id = do
  note (redis_pre_deduct gift_id)
  gift ← get_gift gift_id
  note mysql_pressure
  publish uid gift_id id gift

-- The switch on the answer of the script; `again` goes on with the other candidates.
unfoldable pub admission_as :
    ℕ
    → ℕ
    → OrderIdentity
    → Prog (Outcome LotteryResult)
    → Result Acquire
    → Prog (Outcome LotteryResult)
unfolding admitted
admission_as uid gift_id id again (ok acquired) = admitted uid gift_id id
admission_as uid gift_id id again (ok duplicate) = do
  note stock_failed
  ret (refused duplicate_participation)
admission_as uid gift_id id again (ok sold_out) = again
admission_as uid gift_id id again (ok stale_run) = do
  note system_error
  ret (refused admission_failed)
admission_as uid gift_id id again (err e) = do note system_error; ret (refused admission_failed)

unfoldable pub admission_ttl_seconds : ℕ
admission_ttl_seconds = pay_delay_seconds + admission_grace_seconds

unfoldable pub try_gift :
    ℕ → OrderIdentity → Option ℕ → Prog (Outcome LotteryResult) → Prog (Outcome LotteryResult)
unfolding admission_as admission_ttl_seconds
try_gift uid id none again = do note system_error; ret (refused lottery_algo_failed)
try_gift uid id (some gift_id) again = do
  answer ← try_acquire_lottery_admission uid gift_id admission_ttl_seconds id
  admission_as uid gift_id id again answer

-- The index of the draw, -1 and an index past the end included.
abbrev pub chosen : Option ℕ → Map ℕ → Option ℕ
chosen none pool = none
chosen (some i) pool = get_elem? pool i

abbrev pub without : Option ℕ → Map ℕ → Map ℕ
without none pool = pool
without (some i) pool = remove_at i pool

-- The inner loop: one candidate less in each round, so that the fuel is the pool's length.
-- `next` is the next round of the outer loop.
unfoldable pub try_pool :
    ℕ → ℕ → OrderIdentity → Map ℕ → Prog (Outcome LotteryResult) → Prog (Outcome LotteryResult)
unfolding try_gift
try_pool zero uid id pool next = next
try_pool (suc fuel) uid id [] next = next
try_pool (suc fuel) uid id (g ∷ pool) next = do
  u ← sense dice
  let index = draw_index u (weights (g ∷ pool))
  try_gift uid id (chosen index (g ∷ pool)) (try_pool fuel uid id (without index (g ∷ pool)) next)

unfoldable pub nothing_left : ℕ → LotteryResult
nothing_left uid = record {
  identity = no_identity;
  uid = uid;
  gift_id = 0;
  gift_name = [];
  price = 0;
  delay = 0;
  status = other_status;
  inventory_mode = none;
}

unfoldable pub draw_from :
    ℕ → OrderIdentity → Prog (Outcome LotteryResult) → Map ℕ → Prog (Outcome LotteryResult)
unfolding try_pool nothing_left
draw_from uid id next [] = do note stock_failed; ret (done (nothing_left uid))
draw_from uid id next (g ∷ pool) = try_pool (length (g ∷ pool)) uid id (g ∷ pool) next

unfoldable pub draw_round :
    ℕ → OrderIdentity → Prog (Outcome LotteryResult) → Result (Map ℕ) → Prog (Outcome LotteryResult)
unfolding draw_from
draw_round uid id next (err e) = do note system_error; ret (refused redis_inventory_read_failed)
draw_round uid id next (ok gifts) = draw_from uid id next (candidates gifts)

-- The outer loop, with the rounds left.
unfoldable pub draw_rounds : ℕ → ℕ → OrderIdentity → Prog (Outcome LotteryResult)
unfolding draw_round
draw_rounds zero uid id = do note stock_failed; ret (refused inventory_retry_exhausted)
draw_rounds (suc tries) uid id = do
  gifts ← get_all_gift_inventory
  draw_round uid id (draw_rounds tries uid id) gifts

unfoldable pub draw_unless_ordered : ℕ → OrderIdentity → Result Bool → Prog (Outcome LotteryResult)
unfolding draw_rounds
draw_unless_ordered uid id (err e) = do note system_error; ret (refused gift_db_read_failed)
draw_unless_ordered uid id (ok true) = do note stock_failed; ret (refused duplicate_participation)
draw_unless_ordered uid id (ok false) = draw_rounds 10 uid id

unfoldable pub draw_as : ℕ → Text → Result Text → Prog (Outcome LotteryResult)
unfolding draw_unless_ordered
draw_as uid run (err e) = do note system_error; ret (refused admission_failed)
draw_as uid run (ok order_id) = do
  ordered ← ask (count_orders default_activity_id uid)
  note mysql_pressure
  draw_unless_ordered uid (record { order_id = order_id; run_id = run }) ordered

unfoldable pub draw_in_run : ℕ → Result Text → Prog (Outcome LotteryResult)
unfolding draw_as
draw_in_run uid (err e) = do note system_error; ret (refused admission_failed)
draw_in_run uid (ok run) = do order_id ← new_identity_id; draw_as uid run order_id

unfoldable pub draw_if : ℕ → Bool → Prog (Outcome LotteryResult)
unfolding draw_in_run
draw_if uid false = do note note_rate_limited; ret (refused rate_limited)
draw_if uid true = do run ← current_seckill_run; draw_in_run uid run

unfoldable pub draw : ℕ → Prog (Outcome LotteryResult)
unfolding draw_if
draw uid = do allowed ← sense limiter_allow; draw_if uid allowed
