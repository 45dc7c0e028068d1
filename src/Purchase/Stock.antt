-- ===== src/Purchase/Stock.antt =====
-- The stock of a material and the units sold of it, under the operations of
-- internal/database/purchase_experiment.go.
use lottery.Base.{
  ℕ, suc, ap, not, ◌∙◌, ◌+◌, ◌-◌, ◌≤◌, ◌≡◌, refl, Bool, true, false, Text, List, [], ◌∷◌, Option,
  none, some, arith, lookup, insert, lookup-insert, ◌==◌, if◌then◌else◌, sum_rows, sum_rows-append,
  sum_rows-update_rows, sum_rows-delete_rows, sum_rows-delete_rows_all, find_row, ◌++◌,
}
use lottery.Purchase.{
  event_added, order_added, PurchaseLabOrder, PurchaseLab, Purchase, Working, PurchaseCommitResult,
  new_order, of_request, ok, err, commit_material_purchase, create_order, create_outbox, conclude,
  purchase_body, purchase_stock, add_event,
}
use lottery.Purchase.Outbox.{
  star_marrow_material_id, reset_purchase_experiment_material, order_of_material,
  remove_legacy_materials, update_purchase_order_latency, claim_next_purchase_outbox,
  recover_purchase_outbox, mark_purchase_outbox_published, mark_purchase_outbox_publish_failed,
  mark_purchase_outbox_invalidated, record_purchase_outbox_consumer_failure,
}
use lottery.Purchase.Traces.{
  Operation, commits, measures, resets, removes_legacy, recovers, claims, publishes,
  fails_to_publish, invalidates, fails_to_consume, step, steps,
}

abbrev pub units : ℕ → PurchaseLabOrder → ℕ
units material_id o = if o.material_id == material_id then o.quantity else 0

-- The units of the material in the orders of the table.
unfoldable pub sold : ℕ → PurchaseLab → ℕ
sold material_id db = sum_rows (units material_id) db.orders

unfoldable pub left : ℕ → PurchaseLab → ℕ
left material_id db = elim (lookup material_id db.materials) [ none ↦ 0 | some stock ↦ stock ]

unfoldable pub accounted : ℕ → PurchaseLab → ℕ
unfolding sold left
accounted material_id db = left material_id db + sold material_id db

-- The units in stock and those sold are as before, if the transaction commits.
abbrev Accounts : ℕ → PurchaseLab → Working PurchaseCommitResult → Type 0
Accounts m before (db, ok r) = accounted m db ≡ accounted m before
Accounts m before (db, err e) = Unit {0}

add_event-Accounts :
    (b : Bool) (o : PurchaseLabOrder) (p : Purchase) (now m : ℕ) (before db : PurchaseLab)
    → accounted m db ≡ accounted m before
    → Accounts m before (add_event b o p now db)
unfolding add_event create_outbox event_added accounted sold left
add_event-Accounts false o p now m before db h = h
add_event-Accounts true o p now m before db h = ground arith

-- The tables with the units taken and the order behind them.
abbrev ordered : ℕ → Purchase → ℕ → PurchaseLab → PurchaseLab
ordered stock p now db = record db {
  materials = insert p.material_id (stock - p.quantity) db.materials;
  orders = db.orders ++ new_order p now db.next_order_id ∷ [];
  next_order_id = suc db.next_order_id;
}

ordered-accounted :
    (stock : ℕ) (p : Purchase) (now m : ℕ) (db : PurchaseLab)
    → lookup p.material_id db.materials ≡ some stock
    → p.quantity ≤ stock
    → accounted m (ordered stock p now db) ≡ accounted m db
unfolding accounted left sold sum_rows
ordered-accounted stock p now m db h enough = ground (
  arith,
  lookup-insert p.material_id m (stock - p.quantity) db.materials,
  sum_rows-append (units m) db.orders (new_order p now db.next_order_id ∷ []),
  ap (λ (i : ℕ). lookup i db.materials) {x = p.material_id} {y = m},
)

purchase_stock-Accounts :
    (stock : Option ℕ) (p : Purchase) (now m : ℕ) (db : PurchaseLab)
    → lookup p.material_id db.materials ≡ stock
    → Accounts m db (purchase_stock stock p now db)
unfolding purchase_stock create_order order_added
purchase_stock-Accounts none p now m db h = tt
purchase_stock-Accounts (some stock) p now m db h = ground (
  arith,
  ordered-accounted stock p now m db h,
  add_event-Accounts p.with_outbox (new_order p now db.next_order_id) p now m db
      (ordered stock p now db),
)

purchase_body-Accounts :
    (o : Option PurchaseLabOrder) (snapshot : PurchaseLab) (p : Purchase) (now m : ℕ)
    (db : PurchaseLab)
    → Accounts m db (purchase_body o snapshot p now db)
unfolding purchase_body
purchase_body-Accounts none snapshot p now m db =
    purchase_stock-Accounts (lookup p.material_id db.materials) p now m db refl
purchase_body-Accounts (some o) snapshot p now m db = ground (arith)

conclude-accounted :
    (r : Working PurchaseCommitResult) (p : Purchase) (m : ℕ) (db : PurchaseLab)
    → Accounts m db r
    → accounted m (conclude r p db).0 ≡ accounted m db
unfolding conclude
conclude-accounted (db', ok r) p m db h = h
conclude-accounted (db', err e) p m db h = ground arith

pub commit-accounted :
    (snapshot : PurchaseLab) (p : Purchase) (now m : ℕ) (db : PurchaseLab)
    → accounted m (commit_material_purchase snapshot p now db).0 ≡ accounted m db
unfolding commit_material_purchase
commit-accounted snapshot p now m db = ground (
  arith,
  conclude-accounted
      (purchase_body (find_row (of_request p.request_id) snapshot.orders) snapshot p now db) p m db
      (purchase_body-Accounts (find_row (of_request p.request_id) snapshot.orders) snapshot p now m
        db),
)

reset-accounted :
    (m : ℕ) (db : PurchaseLab)
    → accounted star_marrow_material_id db ≡ 100
    → accounted star_marrow_material_id (reset_purchase_experiment_material m db).0 ≡ 100
unfolding reset_purchase_experiment_material accounted left sold
reset-accounted m db h = ground (
  arith,
  lookup-insert m star_marrow_material_id 100 db.materials,
  sum_rows-delete_rows_all (units star_marrow_material_id)
      (order_of_material star_marrow_material_id) db.orders (λ o e. ground arith),
)

legacy-accounted :
    (db : PurchaseLab)
    → accounted star_marrow_material_id (remove_legacy_materials db)
      ≡ accounted star_marrow_material_id db
unfolding remove_legacy_materials accounted left sold
legacy-accounted db = ground (
  arith,
  sum_rows-delete_rows (units star_marrow_material_id)
      (λ o. not (o.material_id == star_marrow_material_id)) db.orders (λ o e. ground arith),
)

measured-accounted :
    (request_id : Text) (latency m : ℕ) (db : PurchaseLab)
    → accounted m (update_purchase_order_latency request_id latency db) ≡ accounted m db
unfolding update_purchase_order_latency accounted left sold
measured-accounted request_id latency m db = omega (
  arith,
  sum_rows-update_rows (units m) (of_request request_id) (λ o. record o { latency = latency })
      db.orders (λ o. refl),
)

claimed-accounted :
    (now m : ℕ) (db : PurchaseLab)
    → accounted m (claim_next_purchase_outbox now db).0 ≡ accounted m db
unfolding claim_next_purchase_outbox accounted left sold
claimed-accounted now m db = ground arith

step-accounted :
    (op : Operation) (db : PurchaseLab)
    → accounted star_marrow_material_id db ≡ 100
    → accounted star_marrow_material_id (step op db) ≡ 100
unfolding step
step-accounted (commits snapshot p now) db h =
    commit-accounted snapshot p now star_marrow_material_id db ∙ h
step-accounted (resets m) db h = reset-accounted m db h
step-accounted removes_legacy db h = legacy-accounted db ∙ h
step-accounted (measures request_id latency) db h =
    measured-accounted request_id latency star_marrow_material_id db ∙ h
step-accounted (claims now) db h = claimed-accounted now star_marrow_material_id db ∙ h
step-accounted (recovers now cause) db h = unfold accounted left sold recover_purchase_outbox in h
step-accounted (publishes event_id now) db h =
    unfold accounted left sold mark_purchase_outbox_published in h
step-accounted (fails_to_publish event_id retry_at cause) db h =
    unfold accounted left sold mark_purchase_outbox_publish_failed in h
step-accounted (invalidates event_id now) db h =
    unfold accounted left sold mark_purchase_outbox_invalidated in h
step-accounted (fails_to_consume event_id cause) db h =
    unfold accounted left sold record_purchase_outbox_consumer_failure in h

-- Once the star marrow's units in stock and in orders are a hundred together, as a reset leaves
-- them, they stay so under all operations in any order, with further resets and with purchases
-- that read any outdated snapshot: none is sold twice, lost or sold beyond the stock.
pub steps-accounted :
    (ops : List Operation) (db : PurchaseLab)
    → left star_marrow_material_id db + sold star_marrow_material_id db ≡ 100
    → left star_marrow_material_id (steps ops db) + sold star_marrow_material_id (steps ops db)
      ≡ 100
unfolding steps accounted
steps-accounted [] db h = h
steps-accounted (op ∷ ops) db h = steps-accounted ops (step op db) (step-accounted op db h)
