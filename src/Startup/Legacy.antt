-- ===== src/Startup/Legacy.antt =====
-- internal/database/temp_order.go, and what inventory.go and order.go keep for old callers: single
-- keys and rows, without the scripts. Calls are answered; a value that is no number is left out.
use lottery.Base.{
  ℕ, ◌+◌, ◌-◌, Bool, true, false, Option, none, some, lookup, insert, ◌==◌, if◌then◌else◌, found,
  delete_rows,
}
use lottery.Order.{pending_payment, paid, no_identity, redis_mode, no_reason, Order}
use lottery.Redis.{Redis, stock_of}
use lottery.Ledger.{Ledger, insert_order}

-- `Set(key, gift_id, 0)`: the oldest form of an admission, which reads as pending_payment.
unfoldable pub create_temp_order : ℕ → ℕ → Redis → Redis
unfolding insert
create_temp_order uid gift_id r = record r {
  admissions =
      insert uid
        (record {
          gift_id = gift_id;
          state = pending_payment;
          identity = no_identity;
          ttl_ms = none;
        })
        r.admissions;
}

unfoldable pub delete_temp_order : ℕ → Redis → Redis × ℕ
unfolding delete_rows lookup
delete_temp_order uid r = (
  record r { admissions = delete_rows (λ e. e.0 == uid) r.admissions },
  if found (lookup uid r.admissions) then 1 else 0,
)

-- DECR, and INCR again if it went below 0; `false` is the error.
unfoldable pub reduce_inventory : ℕ → Redis → Redis × Bool
unfolding insert
reduce_inventory gift_id r =
    if stock_of gift_id r == 0
    then (record r { stock = insert gift_id 0 r.stock }, false)
    else (record r { stock = insert gift_id (stock_of gift_id r - 1) r.stock }, true)

unfoldable pub increase_inventory : ℕ → Redis → Redis
unfolding insert
increase_inventory gift_id r = record r { stock = insert gift_id (stock_of gift_id r + 1) r.stock }

-- CreateOrder: a paid row at once; `none` is the duplicate key.
unfoldable pub create_order_paid : ℕ → ℕ → ℕ → ℕ → Ledger → Ledger × Option Order
unfolding insert_order
create_order_paid activity_id uid gift_id now l =
    insert_order
      (record {
        id = 0;
        identity = no_identity;
        activity_id = activity_id;
        gift_id = gift_id;
        user_id = uid;
        count = 1;
        status = paid;
        inventory_mode = redis_mode;
        stock_released = false;
        expires_at = some now;
        paid_at = some now;
        cancelled_at = none;
        cancel_reason = no_reason;
      })
      l

unfoldable pub clear_orders : Ledger → Ledger
clear_orders l = record l { orders = delete_rows (λ o. if o.id == 0 then false else true) l.orders }
