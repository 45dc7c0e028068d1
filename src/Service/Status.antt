-- ===== src/Service/Status.antt =====
-- internal/service/order.go, Status: one view of an order over both stores.
use lottery.Base.{ℕ, Bool, true, ◌&&◌, not, Option, none, some, ◌==◌, if◌then◌else◌}
use lottery.Order.{OrderStatus, OrderIdentity, InventoryMode, redis_mode, Order}
use lottery.Redis.{Admission, matches}
use lottery.Ledger.{is_mysql}
use lottery.Program.{Prog, ret, ◌>>=◌, on, Result, ok, err, not_found}
use lottery.Store.Admissions.{get_lottery_admission}
use lottery.Store.Orders.{find_order_identity}
use lottery.Service.Create.{is_final}
use lottery.Service.{order_not_owned, order_create_failed, admission_failed, Outcome, done, refused}

-- `order_id` is the row's id, 0 while there is none.
pub record OrderStateView : Type 0 where
  pub identity : OrderIdentity
  pub order_id : ℕ
  pub uid : ℕ
  pub gift_id : ℕ
  pub status : OrderStatus
  pub inventory_mode : InventoryMode
  pub expires_at : Option ℕ

unfoldable pub order_view : ℕ → ℕ → Order → OrderStateView
order_view uid gift_id o = record {
  identity = o.identity;
  order_id = o.id;
  uid = uid;
  gift_id = gift_id;
  status = o.status;
  inventory_mode = o.inventory_mode;
  expires_at = o.expires_at;
}

unfoldable pub row_of : Option Order → ℕ × Option ℕ
row_of none = (0, none)
row_of (some o) = (o.id, o.expires_at)

unfoldable pub admission_view : ℕ → ℕ → Admission → Option Order → OrderStateView
unfolding row_of
admission_view uid gift_id a o = record {
  identity = a.identity;
  order_id = (row_of o).0;
  uid = uid;
  gift_id = gift_id;
  status = a.state;
  inventory_mode = redis_mode;
  expires_at = (row_of o).1;
}

unfoldable pub view_of_order : ℕ → ℕ → Option Order → Outcome OrderStateView
unfolding order_view
view_of_order uid gift_id none = refused order_not_owned
view_of_order uid gift_id (some o) = done (order_view uid gift_id o)

abbrev pub in_redis : Option Order → Bool
in_redis none = true
in_redis (some o) = not (is_mysql o.inventory_mode)

unfoldable pub view_with :
    ℕ → ℕ → OrderIdentity → Option Order → Option Admission → Outcome OrderStateView
unfolding view_of_order admission_view
view_with uid gift_id id o none = view_of_order uid gift_id o
view_with uid gift_id id o (some a) =
    if matches (some a) gift_id id && in_redis o
    then done (admission_view uid gift_id a o)
    else view_of_order uid gift_id o

unfoldable pub view_live : ℕ → ℕ → OrderIdentity → Option Order → Prog (Outcome OrderStateView)
unfolding view_with
view_live uid gift_id id o = do
  admission ← get_lottery_admission uid
  on admission
      (λ e. ret (if in_redis o then refused admission_failed else view_of_order uid gift_id o))
      (λ a. ret (view_with uid gift_id id o a))

unfoldable pub view_found : ℕ → ℕ → OrderIdentity → Result Order → Prog (Outcome OrderStateView)
unfolding view_live order_view
view_found uid gift_id id (ok o) =
    if not (o.gift_id == gift_id)
    then ret (refused order_not_owned)
    else (if is_final o.status
        then ret (done (order_view uid gift_id o))
        else view_live uid gift_id id (some o))
view_found uid gift_id id (err not_found) = view_live uid gift_id id none
view_found uid gift_id id (err e) = ret (refused order_create_failed)

unfoldable pub status : ℕ → ℕ → OrderIdentity → Prog (Outcome OrderStateView)
unfolding view_found
status uid gift_id id = do found ← find_order_identity uid id; view_found uid gift_id id found
