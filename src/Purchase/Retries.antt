-- ===== src/Purchase/Retries.antt =====
-- CommitMaterialPurchase of internal/database/purchase_experiment.go for a request that comes again.
use lottery.Base.{
  ℕ, ◌≡◌, Bool, true, false, ◌&&◌, Text, List, [], ◌∷◌, ◌++◌, none, some, arith, if◌then◌else◌,
  find_row, found, find_row-append, text_eq_refl, fold_case,
}
use lottery.Order.{is_empty}
use lottery.Purchase.{
  PurchaseLabOrder, PurchaseLabOutbox, PurchaseLab, Purchase, PurchaseCommitResult, ok, of_request,
  event_of_request, is_invalid_purchase, duplicate_of, answer_existing, new_order, new_event,
  create_order, create_outbox, add_event, purchase_stock, purchase_body, reread, conclude,
  commit_material_purchase,
}

-- Whether the table has an order for the request.
abbrev pub has_order : Text → PurchaseLab → Bool
has_order request_id db = found (find_row (of_request request_id) db.orders)

-- For a request that has its order, CommitMaterialPurchase changes nothing at all, whatever the
-- snapshot of its transaction shows, the arguments are and the answer is: no unit is taken again
-- and there is no second order and no second event.
pub commit-unchanged :
    (snapshot : PurchaseLab) (p : Purchase) (now : ℕ) (db : PurchaseLab)
    → has_order p.request_id db ≡ true
    → (commit_material_purchase snapshot p now db).0 ≡ db
unfolding commit_material_purchase conclude purchase_body answer_existing duplicate_of
    purchase_stock create_order
commit-unchanged snapshot p now db h = ground arith

find_order-append :
    (p : Purchase) (now id : ℕ) (os : List PurchaseLabOrder)
    → found (find_row (of_request p.request_id) os) ≡ false
    → find_row (of_request p.request_id) (os ++ new_order p now id ∷ []) ≡ some (new_order p now id)
unfolding find_row
find_order-append p now id os h = ground (
  arith,
  find_row-append (of_request p.request_id) os (new_order p now id ∷ []),
  text_eq_refl (fold_case p.request_id),
)

find_event-append :
    (p : Purchase) (now id : ℕ) (es : List PurchaseLabOutbox)
    → found (find_row (event_of_request p.request_id) es) ≡ false
    → find_row (event_of_request p.request_id) (es ++ new_event p now id ∷ [])
      ≡ some (new_event p now id)
unfolding find_row
find_event-append p now id es h = ground (
  arith,
  find_row-append (event_of_request p.request_id) es (new_event p now id ∷ []),
  text_eq_refl (fold_case p.request_id),
)

-- What a commit of a new order leaves: the order and its event under the request.
pub fresh-commit :
    (snapshot : PurchaseLab) (p : Purchase) (now : ℕ) (db : PurchaseLab) {db' : PurchaseLab}
    {r : PurchaseCommitResult}
    → commit_material_purchase snapshot p now db ≡ (db', ok r)
    → r.duplicate ≡ false
    → r.sold_out ≡ false
    → (r.order ≡ some (new_order p now db.next_order_id))
      × (find_row (of_request p.request_id) db'.orders ≡ r.order)
      × (r.outbox ≡ (if p.with_outbox then some (new_event p now db.next_outbox_id) else none))
      × (p.with_outbox ≡ true → find_row (event_of_request p.request_id) db'.outbox ≡ r.outbox)
      × (is_invalid_purchase p ≡ false)
      × ((p.with_outbox && is_empty p.event_id) ≡ false)
unfolding commit_material_purchase conclude purchase_body answer_existing duplicate_of
    purchase_stock create_order add_event create_outbox reread
fresh-commit snapshot p now db {db'} {r} h d s = ground (
  arith,
  find_order-append p now db.next_order_id db.orders,
  find_event-append p now db.next_outbox_id db.outbox,
)
