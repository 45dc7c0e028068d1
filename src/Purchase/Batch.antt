-- ===== src/Purchase/Batch.antt =====
-- internal/service/purchase_experiment.go: executePurchase and the loop of RunExperiment over its
-- results. The purchases of a batch run at the same time; each is given its place in the order of
-- their transactions, the snapshot that its transaction reads and the fates of its other calls.
use lottery.Base.{
  ℕ, suc, Bool, true, false, ◌&&◌, not, Text, List, [], ◌∷◌, Option, none, some, if◌then◌else◌,
}
use lottery.Program.{Fault, fine, lost, unanswered}
use lottery.Purchase.{
  PurchaseLab, Purchase, Result, ok, err, PurchaseCommitResult, commit_material_purchase,
}
use lottery.Purchase.Outbox.{update_purchase_order_latency}
use lottery.Purchase.Requests.{
  PurchaseStrategy, sync_invalidate, outbox_mq_invalidate, other_strategy,
  PurchaseExperimentRequest, purchase_child_request_id, purchase_event_id,
}
use lottery.Purchase.Publisher.{attempt}
use lottery.Purchase.Consumer.{Shop, delete_with_retry}

-- "sync-invalidate" and "outbox-mq-invalidate"
abbrev sync_name : Text
sync_name =
    b's' ∷ b'y' ∷ b'n' ∷ b'c' ∷ b'-' ∷ b'i' ∷ b'n' ∷ b'v' ∷ b'a' ∷ b'l' ∷ b'i' ∷ b'd' ∷ b'a' ∷ b't'
    ∷ b'e' ∷ []

abbrev outbox_name : Text
outbox_name =
    b'o' ∷ b'u' ∷ b't' ∷ b'b' ∷ b'o' ∷ b'x' ∷ b'-' ∷ b'm' ∷ b'q' ∷ b'-' ∷ b'i' ∷ b'n' ∷ b'v' ∷ b'a'
    ∷ b'l' ∷ b'i' ∷ b'd' ∷ b'a' ∷ b't' ∷ b'e' ∷ []

abbrev pub strategy_name : PurchaseStrategy → Text
strategy_name sync_invalidate = sync_name
strategy_name outbox_mq_invalidate = outbox_name
strategy_name other_strategy = []

abbrev pub is_sync : PurchaseStrategy → Bool
is_sync sync_invalidate = true
is_sync _ = false

abbrev pub is_outbox : PurchaseStrategy → Bool
is_outbox outbox_mq_invalidate = true
is_outbox _ = false

-- The purchase with this index in the batch.
abbrev pub batch_purchase : PurchaseExperimentRequest → ℕ → ℕ → Purchase
batch_purchase r material_id index =
    let child = purchase_child_request_id r.request_id index r.purchase_count in
    record {
      batch_id = r.request_id;
      request_id = child;
      event_id = purchase_event_id child;
      material_id = material_id;
      quantity = 1;
      strategy = strategy_name r.strategy;
      with_outbox = is_outbox r.strategy;
    }

-- The answer to the commit: its result, or no answer.
pub data Committing : Type 0 where
  answered : Result PurchaseCommitResult → Committing
  call_failed : Committing

unfoldable pub commit_under :
    Fault → PurchaseLab → Purchase → ℕ → PurchaseLab → PurchaseLab × Committing
unfolding commit_material_purchase
commit_under fine snapshot p now db =
    let (db', r) = commit_material_purchase snapshot p now db in (db', answered r)
commit_under lost snapshot p now db = (db, call_failed)
commit_under unanswered snapshot p now db =
    ((commit_material_purchase snapshot p now db).0, call_failed)

-- What the surroundings give to one purchase.
pub record Execution : Type 0 where
  pub index : ℕ
  pub snapshot : PurchaseLab
  pub now : ℕ
  pub commit_fault : Fault
  pub deletions : List (Fault × Bool)
  pub latency : ℕ
  pub latency_fault : Fault

-- purchaseExecutionResult, without the times; `invalidated` tells of the deletion, if there was one.
pub record ExecutionResult : Type 0 where
  pub commit : Committing
  pub invalidated : Option Bool

abbrev pub attempts : ℕ
attempts = 3

-- The deletion of the copy before the answer of a purchase that is not sold out.
unfoldable pub invalidate_before_answer :
    PurchaseStrategy → Execution → ℕ → PurchaseCommitResult → Shop → Shop × Option Bool
unfolding delete_with_retry
invalidate_before_answer strategy x material_id c s =
    if not c.sold_out && is_sync strategy
    then (let (s', deleted) = delete_with_retry attempts x.deletions material_id s in
        (s', some deleted))
    else (s, none)

unfoldable pub persist_latency : Execution → Text → PurchaseCommitResult → Shop → Shop
unfolding attempt
persist_latency x request_id c s =
    if not c.sold_out && not c.duplicate
    then record s {
      lab = (attempt x.latency_fault (update_purchase_order_latency request_id x.latency) s.lab).0;
    }
    else s

unfoldable pub execute_committed :
    PurchaseStrategy → Execution → Purchase → Committing → Shop → Shop × ExecutionResult
unfolding invalidate_before_answer persist_latency
execute_committed strategy x p (answered (ok c)) s =
    let (s', invalidated) = invalidate_before_answer strategy x p.material_id c s in
    (
      persist_latency x p.request_id c s',
      record { commit = answered (ok c); invalidated = invalidated },
    )
execute_committed strategy x p (answered (err e)) s =
    (s, record { commit = answered (err e); invalidated = none })
execute_committed strategy x p call_failed s =
    (s, record { commit = call_failed; invalidated = none })

-- executePurchase
unfoldable pub execute_purchase :
    PurchaseExperimentRequest → ℕ → Execution → Shop → Shop × ExecutionResult
unfolding commit_under execute_committed
execute_purchase r material_id x s =
    let p = batch_purchase r material_id x.index in
    let (db, c) = commit_under x.commit_fault x.snapshot p x.now s.lab in
    execute_committed r.strategy x p c (record s { lab = db })

-- The counters of PurchaseExperimentRun.
pub record Tally : Type 0 where
  pub purchase_processed : ℕ
  pub purchase_succeeded : ℕ
  pub duplicate_requests : ℕ
  pub sold_out_requests : ℕ
  pub successful_invalidations : ℕ
  pub has_execution_error : Bool

abbrev pub no_purchases : Tally
no_purchases = record {
  purchase_processed = 0;
  purchase_succeeded = 0;
  duplicate_requests = 0;
  sold_out_requests = 0;
  successful_invalidations = 0;
  has_execution_error = false;
}

unfoldable pub tally_invalidation : Option Bool → Tally → Tally
tally_invalidation none t = t
tally_invalidation (some true) t = record t {
  successful_invalidations = suc t.successful_invalidations;
}
tally_invalidation (some false) t = record t { has_execution_error = true }

unfoldable pub tally_commit : Committing → Option Bool → Tally → Tally
unfolding tally_invalidation
tally_commit (answered (ok c)) invalidated t =
    if c.sold_out
    then record t { sold_out_requests = suc t.sold_out_requests }
    else tally_invalidation invalidated (
        if c.duplicate
        then record t { duplicate_requests = suc t.duplicate_requests }
        else record t { purchase_succeeded = suc t.purchase_succeeded })
tally_commit (answered (err e)) invalidated t = record t { has_execution_error = true }
tally_commit call_failed invalidated t = record t { has_execution_error = true }

-- The body of the loop over the results.
unfoldable pub tally_result : ExecutionResult → Tally → Tally
unfolding tally_commit
tally_result x t =
    tally_commit x.commit x.invalidated (record t { purchase_processed = suc t.purchase_processed })

unfoldable pub run_purchases :
    PurchaseExperimentRequest → ℕ → List Execution → Shop × Tally → Shop × Tally
unfolding execute_purchase tally_result
run_purchases r material_id [] (s, t) = (s, t)
run_purchases r material_id (x ∷ xs) (s, t) =
    let (s', result) = execute_purchase r material_id x s in
    run_purchases r material_id xs (s', tally_result result t)
