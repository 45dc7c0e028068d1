-- ===== src/Purchase.antt =====
-- internal/database/purchase_experiment.go: the tables `purchase_lab_orders` and
-- `purchase_lab_outbox`, the column `stock` of `materials`, and CommitMaterialPurchase. Times are
-- numbers of nanoseconds and arguments of what writes them; the strings are compared byte by byte.
pub mod Outbox
pub mod Traces
pub mod Stock
pub mod Flow
pub mod Retries
pub mod Repeats
pub mod Requests
pub mod Publisher
pub mod Publishing
pub mod Consumer
pub mod Consuming
pub mod Batch
pub mod Sales
pub mod Shares
pub mod Runs
pub mod Failures
pub mod Shown
pub mod Percentile
use lottery.Base.{
  ℕ, suc, ◌-◌, Bool, true, false, ◌&&◌, ◌||◌, Text, List, [], ◌∷◌, ◌++◌, Option, none, some, Map,
  lookup, insert, ◌==◌, leb, ◌=text◌, same_key, if◌then◌else◌, find_row, update_rows, found,
}
use lottery.Order.{is_empty}

pub data OutboxStatus : Type 0 where
  pending publishing retry published completed cancelled : OutboxStatus

-- A row of `purchase_lab_orders`; its status is always `committed`. The latency is in microseconds.
pub record PurchaseLabOrder : Type 0 where
  pub id : ℕ
  pub batch_id : Text
  pub request_id : Text
  pub material_id : ℕ
  pub quantity : ℕ
  pub strategy : Text
  pub latency : ℕ
  pub created_at : ℕ

pub record PurchaseLabOutbox : Type 0 where
  pub id : ℕ
  pub batch_id : Text
  pub event_id : Text
  pub request_id : Text
  pub material_id : ℕ
  pub status : OutboxStatus
  pub retry_count : ℕ
  pub last_error : Text
  pub next_retry_at : Option ℕ
  pub created_at : ℕ
  pub published_at : Option ℕ
  pub invalidated_at : Option ℕ

-- The rows of both tables in the order of their ids, and the stock by the material's id.
pub record PurchaseLab : Type 0 where
  pub materials : Map ℕ
  pub orders : List PurchaseLabOrder
  pub next_order_id : ℕ
  pub outbox : List PurchaseLabOutbox
  pub next_outbox_id : ℕ

-- The arguments of CommitMaterialPurchase.
pub record Purchase : Type 0 where
  pub batch_id : Text
  pub request_id : Text
  pub event_id : Text
  pub material_id : ℕ
  pub quantity : ℕ
  pub strategy : Text
  pub with_outbox : Bool

pub record PurchaseCommitResult : Type 0 where
  pub order : Option PurchaseLabOrder
  pub outbox : Option PurchaseLabOutbox
  pub duplicate : Bool
  pub sold_out : Bool

pub data PurchaseError : Type 0 where
  invalid_input missing_event_id request_conflict request_duplicate : PurchaseError
  material_not_found row_not_found duplicate_event : PurchaseError

pub data Result (A : Type 0) : Type 0 where
  ok : A → Result A
  err : PurchaseError → Result A

infixl 5 ◌>>=◌
abbrev pub ◌>>=◌ : {A B : Type 0} → Result A → (A → Result B) → Result B
ok a >>= f = f a
err e >>= f = err e

abbrev pub of_request : Text → PurchaseLabOrder → Bool
of_request request_id o = same_key o.request_id request_id

abbrev pub event_of_request : Text → PurchaseLabOutbox → Bool
event_of_request request_id e = same_key e.request_id request_id

abbrev pub of_event : Text → PurchaseLabOutbox → Bool
of_event event_id e = same_key e.event_id event_id

unfoldable pub is_invalid_purchase : Purchase → Bool
is_invalid_purchase p =
    is_empty p.batch_id
    || is_empty p.request_id
    || p.material_id == 0
    || p.quantity == 0
    || is_empty p.strategy

-- Whether an order is that of the same purchase.
unfoldable pub same_purchase : PurchaseLabOrder → Purchase → Bool
same_purchase o p =
    o.batch_id =text p.batch_id
    && o.material_id == p.material_id
    && o.quantity == p.quantity
    && o.strategy =text p.strategy

unfoldable pub duplicate_of :
    Bool → PurchaseLabOrder → Option PurchaseLabOutbox → Result PurchaseCommitResult
duplicate_of false o _ =
    ok (record { order = some o; outbox = none; duplicate = true; sold_out = false })
duplicate_of true o none = err row_not_found
duplicate_of true o (some e) =
    ok (record { order = some o; outbox = some e; duplicate = true; sold_out = false })

-- The answer to a request that has an order, with the event that `view` shows.
unfoldable pub answer_existing :
    Purchase → PurchaseLab → PurchaseLabOrder → Result PurchaseCommitResult
unfolding same_purchase duplicate_of find_row
answer_existing p view o =
    if same_purchase o p
    then duplicate_of p.with_outbox o (find_row (event_of_request p.request_id) view.outbox)
    else err request_conflict

abbrev pub new_order : Purchase → ℕ → ℕ → PurchaseLabOrder
new_order p now id = record {
  id = id;
  batch_id = p.batch_id;
  request_id = p.request_id;
  material_id = p.material_id;
  quantity = p.quantity;
  strategy = p.strategy;
  latency = 0;
  created_at = now;
}

abbrev pub new_event : Purchase → ℕ → ℕ → PurchaseLabOutbox
new_event p now id = record {
  id = id;
  batch_id = p.batch_id;
  event_id = p.event_id;
  request_id = p.request_id;
  material_id = p.material_id;
  status = pending;
  retry_count = 0;
  last_error = [];
  next_retry_at = none;
  created_at = now;
  published_at = none;
  invalidated_at = none;
}

-- What a part of a transaction answers, with the tables as the transaction has changed them so far,
-- also where it fails.
abbrev pub Working : Type 0 → Type 0
Working A = PurchaseLab × Result A

-- INSERT of the order, under uk_purchase_lab_request.
unfoldable pub create_order : Purchase → ℕ → PurchaseLab → Working PurchaseLabOrder
unfolding find_row
create_order p now db =
    if found (find_row (of_request p.request_id) db.orders) then (db, err request_duplicate) else (
      record db {
        orders = db.orders ++ new_order p now db.next_order_id ∷ [];
        next_order_id = suc db.next_order_id;
      },
      ok (new_order p now db.next_order_id),
    )

-- INSERT of the event, under uk_purchase_outbox_event and uk_purchase_outbox_request.
unfoldable pub create_outbox : Purchase → ℕ → PurchaseLab → Working PurchaseLabOutbox
unfolding find_row
create_outbox p now db =
    if found (find_row (of_event p.event_id) db.outbox)
      || found (find_row (event_of_request p.request_id) db.outbox)
    then (db, err duplicate_event)
    else (
      record db {
        outbox = db.outbox ++ new_event p now db.next_outbox_id ∷ [];
        next_outbox_id = suc db.next_outbox_id;
      },
      ok (new_event p now db.next_outbox_id),
    )

unfoldable pub event_added :
    PurchaseLabOrder → Working PurchaseLabOutbox → Working PurchaseCommitResult
event_added o (db, ok e) =
    (db, ok (record { order = some o; outbox = some e; duplicate = false; sold_out = false }))
event_added o (db, err e) = (db, err e)

unfoldable pub add_event :
    Bool → PurchaseLabOrder → Purchase → ℕ → PurchaseLab → Working PurchaseCommitResult
unfolding create_outbox event_added
add_event false o p now db =
    (db, ok (record { order = some o; outbox = none; duplicate = false; sold_out = false }))
add_event true o p now db = event_added o (create_outbox p now db)

unfoldable pub order_added : Purchase → ℕ → Working PurchaseLabOrder → Working PurchaseCommitResult
unfolding add_event
order_added p now (db, ok o) = add_event p.with_outbox o p now db
order_added p now (db, err e) = (db, err e)

-- UPDATE materials SET stock = stock - ? WHERE id = ? AND stock >= ?, and what follows it.
unfoldable pub purchase_stock : Option ℕ → Purchase → ℕ → PurchaseLab → Working PurchaseCommitResult
unfolding create_order order_added
purchase_stock none p now db = (db, err material_not_found)
purchase_stock (some stock) p now db =
    if leb p.quantity stock
    then order_added p now (
        create_order p now
          (record db { materials = insert p.material_id (stock - p.quantity) db.materials }))
    else (db, ok (record { order = none; outbox = none; duplicate = false; sold_out = true }))

-- The body of the transaction, whose first query reads `snapshot`.
unfoldable pub purchase_body :
    Option PurchaseLabOrder
    → PurchaseLab
    → Purchase
    → ℕ
    → PurchaseLab
    → Working PurchaseCommitResult
unfolding answer_existing purchase_stock
purchase_body (some o) snapshot p now db = (db, answer_existing p snapshot o)
purchase_body none snapshot p now db = purchase_stock (lookup p.material_id db.materials) p now db

unfoldable pub reread :
    Option PurchaseLabOrder → Purchase → PurchaseLab → Result PurchaseCommitResult
unfolding answer_existing
reread none p db = err row_not_found
reread (some o) p db = answer_existing p db o

-- The end of the transaction: COMMIT, or ROLLBACK to the tables `db` of its start after an error; and
-- behind a duplicate request stands the order of the transaction that came first. Both are answered
-- here; `commit_under` has the COMMIT that is lost or unanswered.
unfoldable pub conclude :
    Working PurchaseCommitResult
    → Purchase
    → PurchaseLab
    → PurchaseLab × Result PurchaseCommitResult
unfolding reread find_row
conclude (work, ok r) p db = (work, ok r)
conclude (work, err request_duplicate) p db =
    (db, reread (find_row (of_request p.request_id) db.orders) p db)
conclude (work, err e) p db = (db, err e)

-- CommitMaterialPurchase. Its first query reads the snapshot of the transaction, which other
-- transactions may have overtaken when the UPDATE of the stock has its lock on the row.
unfoldable pub commit_material_purchase :
    PurchaseLab → Purchase → ℕ → PurchaseLab → PurchaseLab × Result PurchaseCommitResult
unfolding is_invalid_purchase conclude purchase_body find_row
commit_material_purchase snapshot p now db =
    if is_invalid_purchase p
    then (db, err invalid_input)
    else if p.with_outbox && is_empty p.event_id
    then (db, err missing_event_id)
    else conclude
        (purchase_body (find_row (of_request p.request_id) snapshot.orders) snapshot p now db) p db
