-- ===== src/Program.antt =====
-- The handlers' common ground: what the process shares, the calls that leave it, and programs as
-- sequences of such calls. Each call to Redis, MySQL or RocketMQ is atomic on the other side, and
-- between two calls of one handler any other handler may run; see Program/Schedule.antt.
pub mod Schedule
pub mod Safety
use lottery.Base.{
  ℕ, zero, suc, ◌+◌, Bool, true, false, Text, List, [], ◌∷◌, ◌++◌, map, Option, none, some, Map,
  lookup, if◌then◌else◌,
}
use lottery.Order.{OrderIdentity, CancelReason, Order}
use lottery.Redis.{
  Admission, Redis, Acquire, acquire_script, mark_pending_payment_script, claim_admission_script,
  release_admission_script,
}
use lottery.Ledger.{
  Gift, Ledger, Admitted, has_order, find_order, find_order_identity, find_order_by_id,
  insert_order, pay_pending, cancel_released, mark_released, cancel_mysql_order, acquire_and_create,
}
use lottery.Limiter.{Limiter}
use lottery.Limiter
use lottery.Breaker.{CircuitBreaker}
use lottery.Breaker

pub data Topic : Type 0 where
  create_order cancel_order : Topic

-- `delay` is in seconds, 0 for a message that is due at once.
pub record Message : Type 0 where
  pub topic : Topic
  pub order : Order
  pub delay : ℕ

-- The calls of package metrics that the handlers make.
pub data Metric : Type 0 where
  system_error rate_limited stock_failed ignored_order_message create_order_consumed : Metric
  mq_enqueued create_order_enqueued : Metric
  cache_aside_request cache_aside_rejected cache_aside_sold_out cache_hit cache_miss : Metric
  cache_aside_db_read cache_aside_db_write mysql_pressure : Metric
  order_completed give_up redis_pre_deduct queue_success cache_aside_completed : ℕ → Metric
  inventory_rollback : ℕ → CancelReason → Metric

-- The stores, the messages sent, and what the process keeps in memory.
pub record World : Type 0 where
  pub redis : Redis
  pub ledger : Ledger
  pub queue : List Message
  pub limiter : Limiter
  pub breaker : CircuitBreaker
  pub metrics : List Metric

-- A call that leaves the process.
pub data Remote : Type 0 where
  get_run get_gift_ids get_all_stock del_all_stock select_stock : Remote
  set_run_if_absent : Text → Remote
  acquire : ℕ → ℕ → ℕ → OrderIdentity → Remote
  read_admission : ℕ → Remote
  mark claim release : ℕ → ℕ → OrderIdentity → Remote
  get_stock : List ℕ → Remote
  set_all_stock : Map ℕ → Remote
  count_orders select_order : ℕ → ℕ → Remote
  select_identity : ℕ → ℕ → OrderIdentity → Remote
  select_by_id select_gift update_released : ℕ → Remote
  insert_row : Order → Remote
  update_paid : ℕ → ℕ → Remote
  update_cancelled : ℕ → ℕ → ℕ → OrderIdentity → ℕ → CancelReason → Remote
  cancel_mysql : ℕ → ℕ → CancelReason → Remote
  acquire_mysql : ℕ → ℕ → ℕ → Option ℕ → Remote
  send : Topic → Order → ℕ → Remote

abbrev pub Reply : Remote → Type 0
Reply get_run = Option Text
Reply get_gift_ids = List ℕ
Reply get_all_stock = Option (Map ℕ)
Reply del_all_stock = Unit {0}
Reply select_stock = Map ℕ
Reply (set_run_if_absent _) = Unit {0}
Reply (acquire _ _ _ _) = Acquire
Reply (read_admission _) = Option Admission
Reply (mark _ _ _) = ℕ
Reply (claim _ _ _) = ℕ
Reply (release _ _ _) = ℕ
Reply (get_stock _) = List (Option ℕ)
Reply (set_all_stock _) = Unit {0}
Reply (count_orders _ _) = Bool
Reply (select_order _ _) = Option Order
Reply (select_identity _ _ _) = Option Order
Reply (select_by_id _) = Option Order
Reply (select_gift _) = Option Gift
Reply (update_released _) = Unit {0}
Reply (insert_row _) = Option Order
Reply (update_paid _ _) = ℕ
Reply (update_cancelled _ _ _ _ _ _) = ℕ
Reply (cancel_mysql _ _ _) = Option Bool
Reply (acquire_mysql _ _ _ _) = Admitted
Reply (send _ _ _) = Unit {0}

on_redis : {A : Type 0} → World → Redis × A → World × A
on_redis w (r, a) = (record w { redis = r }, a)

unfoldable pub on_ledger : {A : Type 0} → World → Ledger × A → World × A
on_ledger w (l, a) = (record w { ledger = l }, a)

-- A transaction that fails leaves the tables as they were.
unfoldable pub committed : World → Option (Ledger × Bool) → World × Option Bool
committed w none = (w, none)
committed w (some (l, b)) = (record w { ledger = l }, some b)

fill : Text → Option Text → Option Text
fill new none = some new
fill new (some old) = some old

unfoldable pub perform : (c : Remote) → World → World × Reply c
unfolding on_redis on_ledger committed fill
perform get_run w = (w, w.redis.run)
perform get_gift_ids w = (w, w.redis.gift_ids)
perform get_all_stock w = (w, w.redis.all_stock)
perform del_all_stock w = (record w { redis = record w.redis { all_stock = none } }, tt)
perform select_stock w = (w, map (λ (i, g). (i, g.cache_stock)) w.ledger.inventory)
perform (set_run_if_absent run) w =
    (record w { redis = record w.redis { run = fill run w.redis.run } }, tt)
perform (acquire uid gift_id ttl id) w = on_redis w (acquire_script uid gift_id ttl id w.redis)
perform (read_admission uid) w = (w, lookup uid w.redis.admissions)
perform (mark uid gift_id id) w = on_redis w (mark_pending_payment_script uid gift_id id w.redis)
perform (claim uid gift_id id) w = on_redis w (claim_admission_script uid gift_id id w.redis)
perform (release uid gift_id id) w = on_redis w (release_admission_script uid gift_id id w.redis)
perform (get_stock ids) w = (w, map (λ i. lookup i w.redis.stock) ids)
perform (set_all_stock stocks) w =
    (record w { redis = record w.redis { all_stock = some stocks } }, tt)
perform (count_orders activity uid) w = (w, has_order activity uid w.ledger)
perform (select_order activity uid) w = (w, find_order activity uid w.ledger)
perform (select_identity activity uid id) w = (w, find_order_identity activity uid id w.ledger)
perform (select_by_id id) w = (w, find_order_by_id id w.ledger)
perform (select_gift id) w = (w, lookup id w.ledger.inventory)
perform (update_released id) w = (record w { ledger = mark_released id w.ledger }, tt)
perform (insert_row o) w = on_ledger w (insert_order o w.ledger)
perform (update_paid id now) w = on_ledger w (pay_pending id now w.ledger)
perform (update_cancelled activity uid gift_id id now reason) w =
    on_ledger w (cancel_released activity uid gift_id id now reason w.ledger)
perform (cancel_mysql id now reason) w = committed w (cancel_mysql_order id now reason w.ledger)
perform (acquire_mysql activity uid gift_id expires_at) w =
    on_ledger w (acquire_and_create activity uid gift_id expires_at w.ledger)
perform (send topic o delay) w =
    (record w { queue = w.queue ++ record { topic = topic; order = o; delay = delay } ∷ [] }, tt)

-- What stays in the process: its clock and random sources, limiter, breaker and metrics, and the
-- measurements around a MySQL call (waiting and working time in ms, gate in use, its capacity).
pub data Local : Type 0 where
  clock entropy dice measure limiter_allow breaker_allow : Local
  breaker_report : ℕ → ℕ → Local
  emit : Metric → Local

pub record Measure : Type 0 where
  pub wait_ms : ℕ
  pub db_ms : ℕ
  pub in_use : ℕ
  pub capacity : ℕ

abbrev pub Answer : Local → Type 0
Answer clock = ℕ
Answer entropy = Option ℕ
Answer dice = ℕ
Answer measure = Measure
Answer limiter_allow = Bool
Answer breaker_allow = Bool
Answer (breaker_report _ _) = Unit {0}
Answer (emit _) = Unit {0}

-- What the surroundings give at one step: the fate of a call, the time, and random numbers
-- (`none`: the operating system has no randomness to give).
pub data Fault : Type 0 where
  -- The call is answered; it is lost before it takes effect; or its answer is lost.
  fine lost unanswered : Fault

pub record Turn : Type 0 where
  pub thread : ℕ
  pub fault : Fault
  pub now : ℕ
  pub random : Option ℕ
  pub roll : ℕ
  pub measured : Measure

unfoldable pub perform_local : (c : Local) → Turn → World → World × Answer c
perform_local clock t w = (w, t.now)
perform_local entropy t w = (w, t.random)
perform_local dice t w = (w, t.roll)
perform_local measure t w = (w, t.measured)
perform_local limiter_allow t w =
    (record w { limiter = (Limiter.allow t.now w.limiter).0 }, (Limiter.allow t.now w.limiter).1)
perform_local breaker_allow t w =
    (record w { breaker = (Breaker.allow t.now w.breaker).0 }, (Breaker.allow t.now w.breaker).1)
perform_local (breaker_report latency_ms usage) t w =
    (record w { breaker = Breaker.report t.now latency_ms usage w.breaker }, tt)
perform_local (emit m) t w = (record w { metrics = w.metrics ++ m ∷ [] }, tt)

pub data Error : Type 0 where
  failed not_found conflict exhausted no_handler : Error

pub data Result (A : Type 0) : Type 0 where
  ok : A → Result A
  err : Error → Result A

unfoldable pub exec : Fault → (c : Remote) → World → World × Result (Reply c)
exec fine c w = ((perform c w).0, ok (perform c w).1)
exec lost c w = (w, err failed)
exec unanswered c w = ((perform c w).0, err failed)

-- A program: it returns, or makes a call and goes on with the answer.
pub data Prog (A : Type 0) : Type 0 where
  ret : A → Prog A
  call : (c : Remote) → (Result (Reply c) → Prog A) → Prog A
  here : (c : Local) → (Answer c → Prog A) → Prog A

infixl 5 ◌>>=◌ ◌>>◌
unfoldable pub ◌>>=◌ : {A B : Type 0} → Prog A → (A → Prog B) → Prog B
ret a >>= f = f a
call c k >>= f = call c (λ r. k r >>= f)
here c k >>= f = here c (λ r. k r >>= f)

abbrev pub ◌>>◌ : {B : Type 0} → Prog (Unit {0}) → Prog B → Prog B
m >> k = m >>= λ _. k

abbrev pub ask : (c : Remote) → Prog (Result (Reply c))
ask c = call c ret

abbrev pub sense : (c : Local) → Prog (Answer c)
sense c = here c ret

abbrev pub note : Metric → Prog (Unit {0})
note m = here (emit m) ret

-- What to do with an error, and with a value.
abbrev pub on : {A B : Type 0} → Result A → (Error → Prog B) → (A → Prog B) → Prog B
on (ok a) h k = k a
on (err e) h k = h e

-- `if err != nil { return err }`
abbrev pub pass : {A B : Type 0} → Result A → (A → Prog (Result B)) → Prog (Result B)
pass (ok a) k = k a
pass (err e) k = ret (err e)
