-- ===== src/Purchase/Outbox.antt =====
-- internal/database/purchase_experiment.go: the statements on the outbox, the reset of a material
-- and what the start removes.
use lottery.Base.{
  ℕ, suc, Bool, true, false, ◌&&◌, not, Text, List, [], ◌∷◌, Option, none, some, lookup, insert,
  ◌==◌, leb, same_key, if◌then◌else◌, find_row, update_rows, delete_rows, select_rows,
}
use lottery.Purchase.{
  OutboxStatus, pending, publishing, retry, published, completed, cancelled, PurchaseLabOrder,
  PurchaseLabOutbox, PurchaseLab, Result, ok, err, material_not_found, of_request, of_event,
}

abbrev pub star_marrow_material_id : ℕ
star_marrow_material_id = 4

abbrev pub default_material_ids : List ℕ
default_material_ids = star_marrow_material_id ∷ []

abbrev pub star_marrow_experiment_initial_stock : ℕ
star_marrow_experiment_initial_stock = 100

unfoldable pub initial_stock_in : List ℕ → ℕ → Option ℕ
initial_stock_in [] material_id = none
initial_stock_in (id ∷ ids) material_id =
    if id == material_id
    then some star_marrow_experiment_initial_stock
    else initial_stock_in ids material_id

unfoldable pub initial_material_stock : ℕ → Option ℕ
unfolding initial_stock_in
initial_material_stock material_id = initial_stock_in default_material_ids material_id

abbrev pub is_final : OutboxStatus → Bool
is_final completed = true
is_final cancelled = true
is_final _ = false

abbrev pub is_claimable : OutboxStatus → Bool
is_claimable pending = true
is_claimable retry = true
is_claimable _ = false

abbrev pub is_publishing : OutboxStatus → Bool
is_publishing publishing = true
is_publishing _ = false

abbrev pub is_unconfirmed : OutboxStatus → Bool
is_unconfirmed publishing = true
is_unconfirmed published = true
is_unconfirmed _ = false

-- The UPDATE of ResetPurchaseExperimentMaterial.
abbrev pub cancel_event : Text → PurchaseLabOutbox → PurchaseLabOutbox
cancel_event cause e = record e { status = cancelled; last_error = cause }

abbrev pub open_of_material : ℕ → PurchaseLabOutbox → Bool
open_of_material material_id e = e.material_id == material_id && not (is_final e.status)

abbrev pub order_of_material : ℕ → PurchaseLabOrder → Bool
order_of_material material_id o = o.material_id == material_id

-- "experiment reset"
abbrev pub experiment_reset : Text
experiment_reset =
    b'e' ∷ b'x' ∷ b'p' ∷ b'e' ∷ b'r' ∷ b'i' ∷ b'm' ∷ b'e' ∷ b'n' ∷ b't' ∷ 32 ∷ b'r' ∷ b'e' ∷ b's'
    ∷ b'e' ∷ b't' ∷ []

unfoldable pub reset_rows : ℕ → ℕ → PurchaseLab → PurchaseLab
unfolding update_rows delete_rows
reset_rows material_id stock db = record db {
  materials = insert material_id stock db.materials;
  outbox = update_rows (open_of_material material_id) (cancel_event experiment_reset) db.outbox;
  orders = delete_rows (order_of_material material_id) db.orders;
}

-- The locked row of the material, if there is one.
unfoldable pub reset_found : Option ℕ → ℕ → ℕ → PurchaseLab → PurchaseLab × Result ℕ
unfolding reset_rows
reset_found none material_id stock db = (db, err material_not_found)
reset_found (some _) material_id stock db = (reset_rows material_id stock db, ok stock)

unfoldable pub reset_to : Option ℕ → ℕ → PurchaseLab → PurchaseLab × Result ℕ
unfolding reset_found
reset_to none material_id db = (db, err material_not_found)
reset_to (some stock) material_id db =
    reset_found (lookup material_id db.materials) material_id stock db

unfoldable pub reset_purchase_experiment_material : ℕ → PurchaseLab → PurchaseLab × Result ℕ
unfolding reset_to initial_material_stock
reset_purchase_experiment_material material_id db =
    reset_to (initial_material_stock material_id) material_id db

-- The transaction of EnsurePurchaseExperimentSchema.
unfoldable pub remove_legacy_materials : PurchaseLab → PurchaseLab
unfolding delete_rows
remove_legacy_materials db = record db {
  outbox = delete_rows (λ e. not (e.material_id == star_marrow_material_id)) db.outbox;
  orders = delete_rows (λ o. not (o.material_id == star_marrow_material_id)) db.orders;
}

unfoldable pub stock_result : Option ℕ → Result ℕ
stock_result none = err material_not_found
stock_result (some stock) = ok stock

unfoldable pub material_stock : ℕ → PurchaseLab → Result ℕ
unfolding stock_result
material_stock material_id db = stock_result (lookup material_id db.materials)

unfoldable pub update_purchase_order_latency : Text → ℕ → PurchaseLab → PurchaseLab
unfolding update_rows
update_purchase_order_latency request_id latency db = record db {
  orders = update_rows (of_request request_id) (λ o. record o { latency = latency }) db.orders;
}

abbrev pub with_outbox_rows :
    (PurchaseLabOutbox → Bool) → (PurchaseLabOutbox → PurchaseLabOutbox) → PurchaseLab → PurchaseLab
with_outbox_rows p f db = record db { outbox = update_rows p f db.outbox }

abbrev pub unconfirmed : PurchaseLabOutbox → Bool
unconfirmed e = is_unconfirmed e.status

abbrev pub recovered : ℕ → Text → PurchaseLabOutbox → PurchaseLabOutbox
recovered now cause e = record e {
  status = retry;
  last_error = cause;
  next_retry_at = some now;
  retry_count = suc e.retry_count;
}

-- The cause is the text that the statement writes.
unfoldable pub recover_purchase_outbox : ℕ → Text → PurchaseLab → PurchaseLab
unfolding update_rows
recover_purchase_outbox now cause db = with_outbox_rows unconfirmed (recovered now cause) db

abbrev pub is_due_at : ℕ → Option ℕ → Bool
is_due_at now none = true
is_due_at now (some at) = leb at now

abbrev pub is_due : ℕ → PurchaseLabOutbox → Bool
is_due now e = is_claimable e.status && is_due_at now e.next_retry_at

abbrev pub claimable_as : ℕ → PurchaseLabOutbox → Bool
claimable_as id e = e.id == id && is_claimable e.status

abbrev pub claim_event : PurchaseLabOutbox → PurchaseLabOutbox
claim_event e = record e { status = publishing; last_error = [] }

unfoldable pub claim_found :
    Option PurchaseLabOutbox → PurchaseLab → PurchaseLab × Option PurchaseLabOutbox
unfolding update_rows
claim_found none db = (db, none)
claim_found (some e) db =
    (with_outbox_rows (claimable_as e.id) claim_event db, some (record e { status = publishing }))

-- The transaction of ClaimNextPurchaseOutbox, with the lock on its row from the query on.
unfoldable pub claim_next_purchase_outbox : ℕ → PurchaseLab → PurchaseLab × Option PurchaseLabOutbox
unfolding claim_found find_row
claim_next_purchase_outbox now db = claim_found (find_row (is_due now) db.outbox) db

abbrev pub publishing_event : Text → PurchaseLabOutbox → Bool
publishing_event event_id e = of_event event_id e && is_publishing e.status

-- The event has not been completed or cancelled.
abbrev pub open_event : Text → PurchaseLabOutbox → Bool
open_event event_id e = of_event event_id e && not (is_final e.status)

abbrev pub coalesce : Option ℕ → ℕ → Option ℕ
coalesce none now = some now
coalesce (some at) now = some at

abbrev pub published_event : ℕ → PurchaseLabOutbox → PurchaseLabOutbox
published_event now e = record e {
  status = published;
  published_at = some now;
  next_retry_at = none;
  last_error = [];
}

abbrev pub unpublished_event : ℕ → Text → PurchaseLabOutbox → PurchaseLabOutbox
unpublished_event retry_at cause e = record e {
  status = retry;
  retry_count = suc e.retry_count;
  next_retry_at = some retry_at;
  last_error = cause;
}

abbrev pub invalidated_event : ℕ → PurchaseLabOutbox → PurchaseLabOutbox
invalidated_event now e = record e {
  status = completed;
  published_at = coalesce e.published_at now;
  invalidated_at = some now;
  last_error = [];
}

abbrev pub unconsumed_event : Text → PurchaseLabOutbox → PurchaseLabOutbox
unconsumed_event cause e = record e { retry_count = suc e.retry_count; last_error = cause }

unfoldable pub mark_purchase_outbox_published : Text → ℕ → PurchaseLab → PurchaseLab
unfolding update_rows
mark_purchase_outbox_published event_id now db =
    with_outbox_rows (publishing_event event_id) (published_event now) db

unfoldable pub mark_purchase_outbox_publish_failed : Text → ℕ → Text → PurchaseLab → PurchaseLab
unfolding update_rows
mark_purchase_outbox_publish_failed event_id retry_at cause db =
    with_outbox_rows (publishing_event event_id) (unpublished_event retry_at cause) db

unfoldable pub mark_purchase_outbox_invalidated : Text → ℕ → PurchaseLab → PurchaseLab
unfolding update_rows
mark_purchase_outbox_invalidated event_id now db =
    with_outbox_rows (open_event event_id) (invalidated_event now) db

unfoldable pub record_purchase_outbox_consumer_failure : Text → Text → PurchaseLab → PurchaseLab
unfolding update_rows
record_purchase_outbox_consumer_failure event_id cause db =
    with_outbox_rows (open_event event_id) (unconsumed_event cause) db

unfoldable pub purchase_outbox_by_event : Text → PurchaseLab → Option PurchaseLabOutbox
unfolding find_row
purchase_outbox_by_event event_id db = find_row (of_event event_id) db.outbox

unfoldable pub purchase_batch_records :
    Text → PurchaseLab → List PurchaseLabOrder × List PurchaseLabOutbox
unfolding select_rows
purchase_batch_records batch_id db = (
  select_rows (λ o. same_key o.batch_id batch_id) db.orders,
  select_rows (λ e. same_key e.batch_id batch_id) db.outbox,
)
