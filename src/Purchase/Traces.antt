-- ===== src/Purchase/Traces.antt =====
-- The operations of internal/database/purchase_experiment.go as steps on the tables. Each is one
-- statement or one transaction; handlers, the publisher, the consumer and other instances of the
-- process make them in any order.
use lottery.Base.{ℕ, Text, List, [], ◌∷◌}
use lottery.Purchase.{PurchaseLab, Purchase, commit_material_purchase}
use lottery.Purchase.Outbox.{
  reset_purchase_experiment_material, remove_legacy_materials, update_purchase_order_latency,
  recover_purchase_outbox, claim_next_purchase_outbox, mark_purchase_outbox_published,
  mark_purchase_outbox_publish_failed, mark_purchase_outbox_invalidated,
  record_purchase_outbox_consumer_failure,
}

-- A commit comes with the snapshot that its transaction reads, whatever that is.
pub data Operation : Type 0 where
  commits : PurchaseLab → Purchase → ℕ → Operation
  measures : Text → ℕ → Operation
  resets : ℕ → Operation
  removes_legacy : Operation
  recovers : ℕ → Text → Operation
  claims : ℕ → Operation
  publishes : Text → ℕ → Operation
  fails_to_publish : Text → ℕ → Text → Operation
  invalidates : Text → ℕ → Operation
  fails_to_consume : Text → Text → Operation

unfoldable pub step : Operation → PurchaseLab → PurchaseLab
step (commits snapshot p now) db = (commit_material_purchase snapshot p now db).0
step (measures request_id latency) db = update_purchase_order_latency request_id latency db
step (resets material_id) db = (reset_purchase_experiment_material material_id db).0
step removes_legacy db = remove_legacy_materials db
step (recovers now cause) db = recover_purchase_outbox now cause db
step (claims now) db = (claim_next_purchase_outbox now db).0
step (publishes event_id now) db = mark_purchase_outbox_published event_id now db
step (fails_to_publish event_id retry_at cause) db =
    mark_purchase_outbox_publish_failed event_id retry_at cause db
step (invalidates event_id now) db = mark_purchase_outbox_invalidated event_id now db
step (fails_to_consume event_id cause) db =
    record_purchase_outbox_consumer_failure event_id cause db

unfoldable pub steps : List Operation → PurchaseLab → PurchaseLab
unfolding step
steps [] db = db
steps (op ∷ ops) db = steps ops (step op db)
