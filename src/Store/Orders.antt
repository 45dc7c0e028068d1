-- ===== src/Store/Orders.antt =====
-- internal/database/order.go and order_identity.go: the orders' functions, as programs over the
-- statements of Ledger.antt.
use lottery.Base.{
  ℕ, zero, suc, Bool, true, false, ◌||◌, not, Option, none, some, ◌==◌, if◌then◌else◌,
}
use lottery.Order.{
  OrderStatus, paid, cancelled, OrderIdentity, InventoryMode, redis_mode, CancelReason, Order,
  default_activity_id,
}
use lottery.Ledger.{pending_order, is_mysql}
use lottery.Program.{
  Prog, ret, ◌>>=◌, ◌>>◌, ask, sense, pass, Result, ok, err, failed, not_found, conflict, exhausted,
  del_all_stock, select_identity, select_by_id, insert_row, update_paid, update_cancelled,
  update_released, cancel_mysql, clock,
}

unfoldable pub present : Option Order → Result Order
present none = err not_found
present (some o) = ok o

unfoldable pub find_order_identity : ℕ → OrderIdentity → Prog (Result Order)
unfolding present
find_order_identity uid id = do
  found ← ask (select_identity default_activity_id uid id)
  pass found (λ o. ret (present o))

unfoldable pub find_order_by_id : ℕ → Prog (Result Order)
unfolding present
find_order_by_id id = do found ← ask (select_by_id id); pass found (λ o. ret (present o))

unfoldable pub existing_order : Result Order → Result (Order × Bool)
existing_order (ok o) = ok (o, true)
existing_order (err e) = err e

unfoldable pub created_order : ℕ → OrderIdentity → Option Order → Prog (Result (Order × Bool))
unfolding find_order_identity existing_order
created_order uid id (some o) = ret (ok (o, false))
created_order uid id none = do found ← find_order_identity uid id; ret (existing_order found)

-- The flag is `duplicated`.
unfoldable pub create_pending_order :
    ℕ → ℕ → InventoryMode → Option ℕ → OrderIdentity → Prog (Result (Order × Bool))
unfolding created_order pending_order
create_pending_order uid gift_id mode expires_at id = do
  row ← ask (insert_row (pending_order default_activity_id uid gift_id mode expires_at id))
  pass row (created_order uid id)

-- The flag is whether this call made the transition.
unfoldable pub transition_pending_order_to_paid : ℕ → Prog (Result (Order × Bool))
unfolding find_order_by_id
transition_pending_order_to_paid id = do
  now ← sense clock
  n ← ask (update_paid id now)
  pass n λ n. do found ← find_order_by_id id; pass found (λ o. ret (ok (o, n == 1)))

unfoldable pub cancelled_order : ℕ → ℕ → OrderIdentity → Option ℕ → ℕ → CancelReason → Order
unfolding pending_order
cancelled_order uid gift_id id expires_at now why =
    record (pending_order default_activity_id uid gift_id redis_mode expires_at id) {
      status = cancelled;
      stock_released = true;
      cancelled_at = some now;
      cancel_reason = why;
    }

-- What an order that is there already makes of the cancellation.
unfoldable pub reconcile_in : OrderStatus → Order → Prog (Result (Order × Bool))
reconcile_in paid o = ret (err conflict)
reconcile_in cancelled o = if o.stock_released then ret (ok (o, false)) else do
  marked ← ask (update_released o.id)
  pass marked (λ _. ret (ok (record o { stock_released = true }, false)))
reconcile_in _ o = ret (ok (o, false))

unfoldable pub reconcile : ℕ → Order → Prog (Result (Order × Bool))
unfolding reconcile_in
reconcile gift_id o =
    if not (o.gift_id == gift_id) || is_mysql o.inventory_mode
    then ret (err conflict)
    else reconcile_in o.status o

-- A duplicate key on the way: the other writer's row, and then the whole once more.
unfoldable pub retry_with :
    ℕ → Result Order → Prog (Result (Order × Bool)) → Prog (Result (Order × Bool))
retry_with gift_id (err e) again = ret (err conflict)
retry_with gift_id (ok o) again = if not (o.gift_id == gift_id) then ret (err conflict) else again

unfoldable pub inserted_or_retry :
    ℕ
    → ℕ
    → OrderIdentity
    → Prog (Result (Order × Bool))
    → Option Order
    → Prog (Result (Order × Bool))
unfolding retry_with find_order_identity
inserted_or_retry uid gift_id id again (some o) = ret (ok (o, true))
inserted_or_retry uid gift_id id again none = do
  found ← find_order_identity uid id
  retry_with gift_id found again

unfoldable pub record_missing :
    ℕ
    → ℕ
    → OrderIdentity
    → Option ℕ
    → ℕ
    → CancelReason
    → Prog (Result (Order × Bool))
    → Result Order
    → Prog (Result (Order × Bool))
unfolding reconcile inserted_or_retry cancelled_order
record_missing uid gift_id id expires_at now why again (ok o) = reconcile gift_id o
record_missing uid gift_id id expires_at now why again (err not_found) = do
  row ← ask (insert_row (cancelled_order uid gift_id id expires_at now why))
  pass row (inserted_or_retry uid gift_id id again)
record_missing uid gift_id id expires_at now why again (err e) = ret (err e)

unfoldable pub record_updated :
    ℕ
    → ℕ
    → OrderIdentity
    → Option ℕ
    → ℕ
    → CancelReason
    → Prog (Result (Order × Bool))
    → ℕ
    → Prog (Result (Order × Bool))
unfolding record_missing find_order_identity
record_updated uid gift_id id expires_at now why again n =
    if n == 1
    then (do found ← find_order_identity uid id; pass found (λ o. ret (ok (o, true))))
    else (do
      found ← find_order_identity uid id
      record_missing uid gift_id id expires_at now why again found)

-- The source calls itself once more after a duplicate key; the fuel counts such calls.
unfoldable pub record_released_from :
    ℕ → ℕ → ℕ → Option ℕ → CancelReason → OrderIdentity → Prog (Result (Order × Bool))
unfolding record_updated
record_released_from zero uid gift_id expires_at why id = ret (err exhausted)
record_released_from (suc fuel) uid gift_id expires_at why id = do
  now ← sense clock
  n ← ask (update_cancelled default_activity_id uid gift_id id now why)
  pass n λ n.
      record_updated uid gift_id id expires_at now why
        (record_released_from fuel uid gift_id expires_at why id) n

abbrev pub recording_calls : ℕ
recording_calls = 3

unfoldable pub record_released_redis_cancellation :
    ℕ → ℕ → Option ℕ → CancelReason → OrderIdentity → Prog (Result (Order × Bool))
unfolding record_released_from
record_released_redis_cancellation uid gift_id expires_at why id =
    record_released_from recording_calls uid gift_id expires_at why id

-- A failed DEL of the cache is only logged.
unfoldable pub drop_cache_if : Bool → Prog (Unit {0})
drop_cache_if false = ret tt
drop_cache_if true = do dropped ← ask del_all_stock; ret tt

unfoldable pub cancelled_in : ℕ → Option Bool → Prog (Result (Order × Bool))
unfolding find_order_by_id drop_cache_if
cancelled_in id none = ret (err failed)
cancelled_in id (some transitioned) = do
  found ← find_order_by_id id
  pass found λ o. do drop_cache_if transitioned; ret (ok (o, transitioned))

unfoldable pub cancel_mysql_order_and_restore_stock :
    ℕ → CancelReason → Prog (Result (Order × Bool))
unfolding cancelled_in
cancel_mysql_order_and_restore_stock id why = do
  now ← sense clock
  done ← ask (cancel_mysql id now why)
  pass done (cancelled_in id)
