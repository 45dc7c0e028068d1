-- ===== src/Ledger.antt =====
-- internal/database/order.go, order_identity.go and inventory_cacheaside.go: the tables `orders`
-- and `inventory`. Each function is one statement or one transaction, which MySQL runs atomically;
-- the times that it writes are arguments.
pub mod Rows
pub mod Stock
pub mod Conserved
use lottery.Base.{
  ℕ, suc, ◌+◌, ◌-◌, Bool, true, false, ◌&&◌, ◌||◌, not, Text, List, [], ◌∷◌, ◌++◌, map, Option,
  none, some, Map, lookup, insert, ◌==◌, ◌=text◌, if◌then◌else◌, total,
}
use lottery.Order.{
  OrderStatus, stock_acquired, pending_payment, paid, cancelled, other_status, OrderIdentity,
  is_empty, same_identity, no_identity, InventoryMode, redis_mode, mysql_mode, CancelReason,
  no_reason, Order,
}

-- A row of `inventory`: the material's columns that the services read, the baseline `count` and
-- the live `cache_stock` of the cache-aside path.
pub record Gift : Type 0 where
  pub name : Text
  pub price : ℕ
  pub count : ℕ
  pub cache_stock : ℕ

-- `orders` holds the rows in the order of their ids, `inventory` is keyed by the gift's id.
pub record Ledger : Type 0 where
  pub orders : List Order
  pub next_id : ℕ
  pub inventory : Map Gift

unfoldable pub first : (Order → Bool) → List Order → Option Order
first p [] = none
first p (o ∷ os) = if p o then some o else first p os

unfoldable pub update_where : (Order → Bool) → (Order → Order) → List Order → List Order
update_where p f [] = []
update_where p f (o ∷ os) = (if p o then f o else o) ∷ update_where p f os

-- RowsAffected of such an update.
unfoldable pub affected : (Order → Bool) → List Order → ℕ
affected p [] = 0
affected p (o ∷ os) = (if p o then 1 else 0) + affected p os

abbrev pub is_pending : OrderStatus → Bool
is_pending pending_payment = true
is_pending _ = false

-- status IN (stock_acquired, pending_payment)
abbrev pub is_live : OrderStatus → Bool
is_live stock_acquired = true
is_live pending_payment = true
is_live _ = false

abbrev pub is_cancelled : OrderStatus → Bool
is_cancelled cancelled = true
is_cancelled _ = false

abbrev pub is_mysql : InventoryMode → Bool
is_mysql mysql_mode = true
is_mysql redis_mode = false

abbrev pub of_user : ℕ → ℕ → Order → Bool
of_user activity_id user_id o = o.activity_id == activity_id && o.user_id == user_id

abbrev pub has_id : ℕ → Order → Bool
has_id id o = o.id == id

unfoldable pub find_order : ℕ → ℕ → Ledger → Option Order
unfolding first
find_order activity_id user_id l = first (of_user activity_id user_id) l.orders

unfoldable pub has_order : ℕ → ℕ → Ledger → Bool
unfolding affected
has_order activity_id user_id l = not (affected (of_user activity_id user_id) l.orders == 0)

unfoldable pub find_order_by_id : ℕ → Ledger → Option Order
unfolding first
find_order_by_id id l = first (has_id id) l.orders

-- A legacy order: one with no business number.
unfoldable pub legacy_only : Option Order → Option Order
legacy_only none = none
legacy_only (some o) = if is_empty o.order_id then some o else none

unfoldable pub find_order_identity : ℕ → ℕ → OrderIdentity → Ledger → Option Order
unfolding legacy_only find_order first
find_order_identity activity_id user_id id l =
    if is_empty id.order_id && is_empty id.run_id
    then legacy_only (find_order activity_id user_id l)
    else first (λ o. same_identity o.identity id && of_user activity_id user_id o) l.orders

-- uk_activity_user and uk_order_id; an empty order number is stored as NULL, which is never equal.
unfoldable pub clashes : Order → Order → Bool
clashes new o =
    of_user new.activity_id new.user_id o
    || (not (is_empty new.order_id) && new.order_id =text o.order_id)

-- INSERT; `none` is the duplicate-key error 1062.
unfoldable pub insert_order : Order → Ledger → Ledger × Option Order
unfolding clashes affected
insert_order new l =
    if affected (clashes new) l.orders == 0
    then (let row = record new { id = l.next_id } in
        (record l { orders = l.orders ++ row ∷ []; next_id = suc l.next_id }, some row))
    else (l, none)

abbrev pub pay_row : ℕ → Order → Order
pay_row now o = record o { status = paid; paid_at = some now }

-- The UPDATE of TransitionPendingOrderToPaid.
unfoldable pub pay_pending : ℕ → ℕ → Ledger → Ledger × ℕ
unfolding update_where affected
pay_pending id now l =
    let p = λ (o : Order). has_id id o && is_pending o.status in
    (record l { orders = update_where p (pay_row now) l.orders }, affected p l.orders)

abbrev pub cancel_row : ℕ → CancelReason → Order → Order
cancel_row now reason o = record o {
  status = cancelled;
  stock_released = true;
  cancelled_at = some now;
  cancel_reason = reason;
}

-- orderIdentityScope
abbrev pub in_scope : OrderIdentity → Order → Bool
in_scope id o =
    if is_empty id.order_id && is_empty id.run_id
    then is_empty o.order_id && is_empty o.run_id
    else same_identity o.identity id

-- The UPDATE of RecordReleasedRedisCancellation.
unfoldable pub cancel_released : ℕ → ℕ → ℕ → OrderIdentity → ℕ → CancelReason → Ledger → Ledger × ℕ
unfolding update_where affected
cancel_released activity_id user_id gift_id id now reason l =
    let p = λ (o : Order).
      in_scope id o && of_user activity_id user_id o && o.gift_id == gift_id && is_live o.status in
    (record l { orders = update_where p (cancel_row now reason) l.orders }, affected p l.orders)

-- Its second UPDATE, of the mark alone.
unfoldable pub mark_released : ℕ → Ledger → Ledger
unfolding update_where
mark_released id l = record l {
  orders =
      update_where (λ o. has_id id o && is_cancelled o.status)
        (λ o. record o { stock_released = true }) l.orders;
}

unfoldable pub restock : Option Gift → ℕ → ℕ → Ledger → Option Ledger
restock none gift_id count l = none
restock (some g) gift_id count l = some (record l {
  inventory = insert gift_id (record g { cache_stock = g.cache_stock + count }) l.inventory;
})

-- The body of the transaction once the row is its own: the row, and then the stock, which must be
-- there, or the transaction fails as a whole.
unfoldable pub cancel_found : Option Order → ℕ → CancelReason → Ledger → Option (Ledger × Bool)
unfolding restock update_where
cancel_found none _ _ l = some (l, false)
cancel_found (some o) now reason l =
    elim (restock (lookup o.gift_id l.inventory) o.gift_id o.count l) [
      | none ↦ none
      | some l' ↦ some (
        record l' { orders = update_where (has_id o.id) (cancel_row now reason) l'.orders },
        true,
      )
    ]

-- The transaction of CancelMySQLOrderAndRestoreStock; `none` is its rollback.
unfoldable pub cancel_mysql_order : ℕ → ℕ → CancelReason → Ledger → Option (Ledger × Bool)
unfolding cancel_found first
cancel_mysql_order id now reason l =
    cancel_found
      (first (λ o. has_id id o && is_mysql o.inventory_mode && is_pending o.status) l.orders) now
      reason l

-- UPDATE inventory SET cache_stock = cache_stock - 1 WHERE id = ? AND cache_stock > 0
unfoldable pub deduct_found : Option Gift → ℕ → Ledger → Ledger × Bool
deduct_found none gift_id l = (l, false)
deduct_found (some g) gift_id l = if g.cache_stock == 0 then (l, false) else (
  record l {
    inventory = insert gift_id (record g { cache_stock = g.cache_stock - 1 }) l.inventory;
  },
  true,
)

unfoldable pub deduct_stock : ℕ → Ledger → Ledger × Bool
unfolding deduct_found
deduct_stock gift_id l = deduct_found (lookup gift_id l.inventory) gift_id l

unfoldable pub pending_order : ℕ → ℕ → ℕ → InventoryMode → Option ℕ → OrderIdentity → Order
pending_order activity_id user_id gift_id mode expires_at id = record {
  id = 0;
  identity = id;
  activity_id = activity_id;
  gift_id = gift_id;
  user_id = user_id;
  count = 1;
  status = pending_payment;
  inventory_mode = mode;
  stock_released = false;
  expires_at = expires_at;
  paid_at = none;
  cancelled_at = none;
  cancel_reason = no_reason;
}

pub data Admitted : Type 0 where
  created existing : Order → Admitted
  no_stock clash : Admitted

unfoldable pub created_or_clash : Ledger → Ledger × Option Order → Ledger × Admitted
created_or_clash before (l, some o) = (l, created o)
created_or_clash before (l, none) = (before, clash)

-- The transaction from the UPDATE of the stock on; a duplicate key rolls it back.
unfoldable pub take_and_create : Ledger → Ledger × Bool → Order → Ledger × Admitted
unfolding created_or_clash insert_order
take_and_create before (l, false) new = (before, no_stock)
take_and_create before (l, true) new = created_or_clash before (insert_order new l)

unfoldable pub admit_found : Option Order → ℕ → Order → Ledger → Ledger × Admitted
unfolding take_and_create deduct_stock
admit_found (some o) gift_id new l = (l, existing o)
admit_found none gift_id new l = take_and_create l (deduct_stock gift_id l) new

-- The transaction of AcquireMySQLStockAndCreatePendingOrder.
unfoldable pub acquire_and_create : ℕ → ℕ → ℕ → Option ℕ → Ledger → Ledger × Admitted
unfolding admit_found find_order pending_order
acquire_and_create activity_id user_id gift_id expires_at l =
    admit_found (find_order activity_id user_id l) gift_id
      (pending_order activity_id user_id gift_id mysql_mode expires_at no_identity) l
