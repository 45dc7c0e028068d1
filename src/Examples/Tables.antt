-- ===== src/Examples/Tables.antt =====
-- A shop in the middle of the day, and requests to it.
use lottery.Base.{ℕ, ◌≡◌, refl, ◌≢◌, subst, arith, List, [], ◌∷◌, map, none, some, lookup, false}
use lottery.Order.{
  paid, pending_payment, redis_mode, mysql_mode, Order, no_identity, no_reason, user_giveup,
}
use lottery.Redis.{Admission}
use lottery.Redis.Units.{units}
use lottery.Redis.Settled.{Settled}
use lottery.Ledger.{Ledger, first, has_id, cancel_mysql_order, acquire_and_create}
use lottery.Program.{World, Turn, fine, lost, unanswered}
use lottery.Program.Schedule.{run}
use lottery.Consistency.{Sound, Backed, Before}
use lottery.Consistency.Transactions.{
  Cancels, Adds, cancel_mysql_order-Cancels, acquire_and_create-Adds,
}
use lottery.Consistency.Schedules.{
  Job, draws, buys, pays, gives_up, asks, program, run-Sound, run-paid,
}
use lottery.Examples.Admissions.{run_one, ticket}
use lottery.Examples.Guards.{at_work}

-- User 5 has paid for a unit of gift 7.
abbrev sale : Admission
sale = record { gift_id = 7; state = paid; identity = ticket; ttl_ms = some 4200000 }

abbrev pub sold_order : Order
sold_order = record {
  id = 1;
  identity = ticket;
  activity_id = 1;
  gift_id = 7;
  user_id = 5;
  count = 1;
  status = paid;
  inventory_mode = redis_mode;
  stock_released = false;
  expires_at = some 600;
  paid_at = some 20;
  cancelled_at = none;
  cancel_reason = no_reason;
}

-- Nine units of gift 7 are left for the Redis path, ten for the MySQL path.
abbrev pub midday : World
midday = record {
  redis = record {
    stock = (7, 9) ∷ [];
    admissions = (5, sale) ∷ [];
    run = some run_one;
    gift_ids = 7 ∷ [];
    all_stock = none;
  };
  ledger = record {
    orders = sold_order ∷ [];
    next_id = 2;
    inventory = (7, record { name = b'm' ∷ []; price = 42; count = 10; cache_stock = 10 }) ∷ [];
  };
  queue = [];
  limiter = record { rate = 0; burst = 0; tokens = 0; last_refill = none };
  breaker = at_work;
  metrics = [];
}

abbrev stock : ℕ → ℕ
stock gift_id = units gift_id midday.redis

only_order : (i : ℕ) (o : Order) → first (has_id i) (sold_order ∷ []) ≡ some o → sold_order ≡ o
unfolding first
only_order i o e = ground arith

only_admission :
    (uid : ℕ) (a : Admission) → lookup uid midday.redis.admissions ≡ some a → (uid ≡ 5) × (sale ≡ a)
unfolding lookup
only_admission uid a e = ground arith

sale-Backed : Backed sold_order midday.redis
unfolding lookup
sale-Backed = record {
  admission = sale;
  found = refl;
  gift = refl;
  same = refl;
  pays = λ e. refl;
  cancels = λ e. absurd (cc);
}

midday-Sound : Sound stock midday.redis midday.ledger
midday-Sound = record {
  ids = (omega arith, omega arith);
  backed =
      λ i o e mode. subst (λ (x : Order). Backed x midday.redis) (only_order i o e) sale-Backed;
  numbered = λ uid a e.
      subst (λ (x : Admission). x.identity.order_id ≢ []) (only_admission uid a e).1 (λ x. cc);
  kept = λ g. refl;
}

-- User 5 pays again, user 6 draws on the Redis path and user 8 on the MySQL path.
abbrev pub jobs : List Job
jobs = pays 5 7 ticket ∷ draws 6 ∷ buys 8 ∷ gives_up 5 7 ticket ∷ asks 5 7 ticket ∷ []

abbrev turn : ℕ → Turn
turn thread = record {
  thread = thread;
  fault = fine;
  now = 100;
  random = some 77;
  roll = 5;
  measured = record { wait_ms = 1; db_ms = 2; in_use = 3; capacity = 10 };
}

abbrev pub turns : List Turn
turns =
    turn 1
    ∷ turn 0
    ∷ turn 3
    ∷ turn 3
    ∷ turn 1
    ∷ record (turn 1) { fault = lost }
    ∷ record (turn 2) { fault = unanswered }
    ∷ []

run-Sound_example :
    let v = (run turns (map program jobs) midday).0 in
    Sound stock v.redis v.ledger × Before midday v
run-Sound_example = run-Sound stock jobs turns midday midday-Sound

found_sale : first (has_id 1) midday.ledger.orders ≡ some sold_order
unfolding first
found_sale = refl

run-paid_example :
    let v = (run turns (map program jobs) midday).0 in
    ((o' : Order) × (first (has_id 1) v.ledger.orders ≡ some o') × (o'.status ≡ paid))
    × Settled 5 7 ticket paid v.redis
run-paid_example = run-paid stock jobs turns midday 1 sold_order midday-Sound found_sale refl refl

abbrev pub unpaid : Ledger
unpaid = record midday.ledger {
  orders =
      record sold_order {
        status = pending_payment;
        inventory_mode = mysql_mode;
        identity = no_identity;
      }
      ∷ [];
}

cancel_mysql_order-Cancels_example :
    Cancels 1 90 user_giveup unpaid (cancel_mysql_order 1 90 user_giveup unpaid)
cancel_mysql_order-Cancels_example = cancel_mysql_order-Cancels 1 90 user_giveup unpaid

acquire_and_create-Adds_example :
    Adds 1 6 7 (some 700) unpaid (acquire_and_create 1 6 7 (some 700) unpaid)
acquire_and_create-Adds_example = acquire_and_create-Adds 1 6 7 (some 700) unpaid
