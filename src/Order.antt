-- ===== src/Order.antt =====
-- internal/database/order.go and order_identity.go: the order, its states and its identity.
unfoldable pub use lottery.Base.{is_empty}
use lottery.Base.{
  ℕ, Bool, true, false, ◌&&◌, ◌||◌, not, Text, [], ◌∷◌, Option, ◌==◌, ◌=text◌, length,
}

-- The four states, and any other text that a column or a Redis value may hold.
pub data OrderStatus : Type 0 where
  stock_acquired pending_payment paid cancelled other_status : OrderStatus

pub OrderStatus-discrete : Discrete OrderStatus
OrderStatus-discrete = hlevel

pub data InventoryMode : Type 0 where
  redis_mode mysql_mode : InventoryMode

unfoldable pub can_transition : OrderStatus → OrderStatus → Bool
can_transition stock_acquired pending_payment = true
can_transition stock_acquired cancelled = true
can_transition pending_payment paid = true
can_transition pending_payment cancelled = true
can_transition _ _ = false

pub record OrderIdentity : Type 0 where
  pub order_id : Text
  pub run_id : Text

abbrev pub no_identity : OrderIdentity
no_identity = record { order_id = []; run_id = [] }

abbrev pub same_identity : OrderIdentity → OrderIdentity → Bool
same_identity a b = a.order_id =text b.order_id && a.run_id =text b.run_id

-- Whether a text has one of the four separators `|`, blank, tab, newline.
unfoldable pub has_separator : Text → Bool
has_separator [] = false
has_separator (c ∷ cs) = (c == b'|' || c == 32 || c == 9 || c == 10) || has_separator cs

unfoldable pub is_valid : OrderIdentity → Bool
unfolding has_separator
is_valid id =
    length id.order_id == 32
    && length id.run_id == 32
    && not (has_separator id.order_id || has_separator id.run_id)

-- The texts that the services give as a reason; `no_reason` is the empty column.
pub data CancelReason : Type 0 where
  no_reason user_giveup payment_timeout gift_lookup_failed : CancelReason
  timeout_message_send_failed async_order_message_send_failed : CancelReason
  cancelled_before_order_created cancelled_during_order_creation : CancelReason

-- A row of the table `orders`. `none` is the zero time or a null column; the two columns that
-- the database fills with the time of the write are left out.
pub record Order : Type 0 where
  pub id : ℕ
  pub identity : OrderIdentity
  pub open identity use *
  pub activity_id : ℕ
  pub gift_id : ℕ
  pub user_id : ℕ
  pub count : ℕ
  pub status : OrderStatus
  pub inventory_mode : InventoryMode
  pub stock_released : Bool
  pub expires_at : Option ℕ
  pub paid_at : Option ℕ
  pub cancelled_at : Option ℕ
  pub cancel_reason : CancelReason

abbrev pub default_activity_id : ℕ
default_activity_id = 1
