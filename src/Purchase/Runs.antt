-- ===== src/Purchase/Runs.antt =====
-- internal/service/purchase_experiment.go: the state of a run that the API shows. Traces, samples
-- and times are left out, but for the latencies of the orders, in microseconds.

use lottery.Base.{
  ℕ, zero, suc, ◌+◌, ◌-◌, ◌*◌, ◌/◌, Bool, true, false, not, Text, List, [], ◌∷◌, Option, none, some,
  map, leb, ◌==◌, ◌=text◌, if◌then◌else◌, length, sum_rows,
}
use lottery.Purchase.{
  retry, published, completed, PurchaseLabOrder, PurchaseLabOutbox, PurchaseLab, ok, err,
}
use lottery.Purchase.Outbox.{purchase_batch_records, material_stock}
use lottery.Purchase.Requests.{
  PurchaseStrategy, sync_invalidate, outbox_mq_invalidate, other_strategy, matches_request_id,
}
use lottery.Purchase.Batch.{is_outbox, strategy_name}

pub data RunStatus : Type 0 where
  running waiting_outbox waiting_consumer run_completed run_failed : RunStatus

pub data OutboxView : Type 0 where
  outbox_not_used outbox_pending outbox_published outbox_retry outbox_completed : OutboxView

pub data MqStatus : Type 0 where
  mq_not_used waiting_publisher mq_waiting_consumer publisher_retrying consumed : MqStatus

pub record PurchaseExperimentRun : Type 0 where
  pub request_id : Text
  pub material_id : ℕ
  pub strategy : PurchaseStrategy
  pub status : RunStatus
  pub final_mysql_stock : ℕ
  pub purchase_requested : ℕ
  pub purchase_processed : ℕ
  pub purchase_succeeded : ℕ
  pub purchase_p99 : ℕ
  pub outbox_status : OutboxView
  pub mq_status : MqStatus
  pub critical_path_completed : Bool
  pub retry_count : ℕ
  pub outbox : List PurchaseLabOutbox

abbrev pub is_completed : PurchaseLabOutbox → Bool
is_completed e = elim e.status [ completed ↦ true | _ ↦ false ]

abbrev pub is_published : PurchaseLabOutbox → Bool
is_published e = elim e.status [ published ↦ true | _ ↦ false ]

abbrev pub is_retry : PurchaseLabOutbox → Bool
is_retry e = elim e.status [ retry ↦ true | _ ↦ false ]

-- The variables of the loop of refreshRunOutboxState.
pub record Flags : Type 0 where
  pub all_completed : Bool
  pub any_published : Bool
  pub any_retry : Bool
  pub retries : ℕ

-- Its body.
unfoldable pub see_event : PurchaseLabOutbox → Flags → Flags
see_event e f = record {
  all_completed = if is_completed e then f.all_completed else false;
  any_published = if is_published e then true else f.any_published;
  any_retry = if is_retry e then true else f.any_retry;
  retries = f.retries + e.retry_count;
}

unfoldable pub see_events : List PurchaseLabOutbox → Flags → Flags
unfolding see_event
see_events [] f = f
see_events (e ∷ es) f = see_events es (see_event e f)

-- The switch after the loop.
unfoldable pub show_flags : Flags → PurchaseExperimentRun → PurchaseExperimentRun
show_flags f run =
    if f.all_completed
    then record run {
      status = run_completed;
      outbox_status = outbox_completed;
      mq_status = consumed;
      retry_count = f.retries;
    }
    else if f.any_published
    then record run {
      status = waiting_consumer;
      outbox_status = outbox_published;
      mq_status = mq_waiting_consumer;
      retry_count = f.retries;
    }
    else if f.any_retry
    then record run {
      status = waiting_outbox;
      outbox_status = outbox_retry;
      mq_status = publisher_retrying;
      retry_count = f.retries;
    }
    else record run {
      status = waiting_outbox;
      outbox_status = outbox_pending;
      mq_status = waiting_publisher;
      retry_count = f.retries;
    }

abbrev pub no_events_seen : Flags
no_events_seen = record {
  all_completed = true;
  any_published = false;
  any_retry = false;
  retries = 0;
}

abbrev keep_failed : RunStatus → RunStatus
keep_failed run_failed = run_failed
keep_failed _ = run_completed

unfoldable pub refresh_outbox_strategy :
    List PurchaseLabOutbox → PurchaseExperimentRun → PurchaseExperimentRun
unfolding show_flags see_events
refresh_outbox_strategy [] run = record run {
  outbox_status = outbox_pending;
  mq_status = waiting_publisher;
  status = waiting_outbox;
}
refresh_outbox_strategy (e ∷ es) run = show_flags (see_events (e ∷ es) no_events_seen) run

-- refreshRunOutboxState
unfoldable pub refresh_run_outbox_state :
    List PurchaseLabOutbox → PurchaseExperimentRun → PurchaseExperimentRun
unfolding refresh_outbox_strategy
refresh_run_outbox_state events run =
    if is_outbox run.strategy
    then refresh_outbox_strategy events (record run { outbox = events })
    else record run {
      outbox = [];
      status = keep_failed run.status;
      outbox_status = outbox_not_used;
      mq_status = mq_not_used;
    }

-- get at an index, 0 beyond the end
unfoldable pub at_index : List ℕ → ℕ → ℕ
at_index [] i = 0
at_index (x ∷ xs) zero = x
at_index (x ∷ xs) (suc i) = at_index xs i

-- int(float64(n)*0.99 + 0.999999), without rounding
abbrev pub scaled_rank : ℕ → ℕ
scaled_rank n = (n * 990_000 + 999_999) / 1_000_000

-- The index of percentile99 in n sorted values, n above 0.
unfoldable pub percentile_index : ℕ → ℕ
percentile_index n = let index = scaled_rank n - 1 in if leb n index then n - 1 else index

-- percentile99, over the sort of the standard library.
unfoldable pub percentile99 : (List ℕ → List ℕ) → List ℕ → ℕ
unfolding at_index percentile_index
percentile99 sort [] = 0
percentile99 sort (v ∷ vs) = at_index (sort (v ∷ vs)) (percentile_index (length (sort (v ∷ vs))))

-- RunExperiment after its loop: what becomes of a run, given whether an error came up.
unfoldable pub conclude_run : Bool → PurchaseExperimentRun → PurchaseExperimentRun
conclude_run failed run =
    if failed
    then record run { status = run_failed; critical_path_completed = true }
    else if is_outbox run.strategy
    then record run { status = waiting_outbox; critical_path_completed = true }
    else record run { status = run_completed; critical_path_completed = true }

-- The runs of the service by their request id.
abbrev pub Runs : Type 0
Runs = List (Text × PurchaseExperimentRun)

unfoldable pub stored_run : Text → Runs → Option PurchaseExperimentRun
stored_run request_id [] = none
stored_run request_id ((key, run) ∷ runs) =
    if key =text request_id then some run else stored_run request_id runs

unfoldable pub store_run : PurchaseExperimentRun → Runs → Runs
store_run run [] = (run.request_id, run) ∷ []
store_run run ((key, old) ∷ runs) =
    if key =text run.request_id then (key, run) ∷ runs else (key, old) ∷ store_run run runs

abbrev strategy_of : Text → PurchaseStrategy
strategy_of name =
    if name =text strategy_name sync_invalidate
    then sync_invalidate
    else if name =text strategy_name outbox_mq_invalidate
    then outbox_mq_invalidate
    else other_strategy

abbrev unknown_run : Text → PurchaseExperimentRun
unknown_run request_id = record {
  request_id = request_id;
  material_id = 0;
  strategy = other_strategy;
  status = running;
  final_mysql_stock = 0;
  purchase_requested = 0;
  purchase_processed = 0;
  purchase_succeeded = 0;
  purchase_p99 = 0;
  outbox_status = outbox_not_used;
  mq_status = mq_not_used;
  critical_path_completed = false;
  retry_count = 0;
  outbox = [];
}

-- The run of a process that has forgotten it, from its orders.
unfoldable pub rebuilt_run : Text → List PurchaseLabOrder → PurchaseExperimentRun
rebuilt_run request_id [] = unknown_run request_id
rebuilt_run request_id (o ∷ os) = record (unknown_run request_id) {
  material_id = o.material_id;
  strategy = strategy_of o.strategy;
  purchase_requested = length (o ∷ os);
  purchase_processed = length (o ∷ os);
  purchase_succeeded = length (o ∷ os);
  critical_path_completed = true;
}

abbrev with_stock : PurchaseLab → PurchaseExperimentRun → PurchaseExperimentRun
with_stock db run = if run.material_id == 0 then run else elim (material_stock run.material_id db) [
  | ok stock ↦ record run { final_mysql_stock = stock }
  | err e ↦ run
]

abbrev with_latencies :
    (List ℕ → List ℕ) → List PurchaseLabOrder → PurchaseExperimentRun → PurchaseExperimentRun
with_latencies sort orders run =
    if sum_rows (λ (o : PurchaseLabOrder). o.latency) orders == 0 then run else record run {
      purchase_p99 = percentile99 sort (map (λ (o : PurchaseLabOrder). o.latency) orders);
    }

-- The run that GetRun shows and stores.
unfoldable pub refreshed_run :
    (List ℕ → List ℕ)
    → List PurchaseLabOrder
    → List PurchaseLabOutbox
    → PurchaseLab
    → PurchaseExperimentRun
    → PurchaseExperimentRun
unfolding refresh_run_outbox_state percentile99
refreshed_run sort orders events db run =
    let shown = with_latencies sort orders (with_stock db run) in
    if shown.critical_path_completed then refresh_run_outbox_state events shown else shown

pub data RunAnswer : Type 0 where
  bad_request_id run_not_found : RunAnswer
  shows : PurchaseExperimentRun → RunAnswer

unfoldable pub found_run :
    Text
    → Option PurchaseExperimentRun
    → List PurchaseLabOrder
    → List PurchaseLabOutbox
    → Option PurchaseExperimentRun
unfolding rebuilt_run
found_run request_id (some run) orders events = some run
found_run request_id none [] [] = none
found_run request_id none orders events = some (rebuilt_run request_id orders)

unfoldable pub show_run :
    (List ℕ → List ℕ)
    → List PurchaseLabOrder
    → List PurchaseLabOutbox
    → PurchaseLab
    → Option PurchaseExperimentRun
    → Runs
    → Runs × RunAnswer
unfolding refreshed_run store_run
show_run sort orders events db none runs = (runs, run_not_found)
show_run sort orders events db (some run) runs =
    let shown = refreshed_run sort orders events db run in (store_run shown runs, shows shown)

-- GetRun, with the tables read at once and all reads answered.
unfoldable pub get_run : (List ℕ → List ℕ) → Text → PurchaseLab → Runs → Runs × RunAnswer
unfolding show_run found_run stored_run matches_request_id purchase_batch_records
get_run sort request_id db runs =
    if not (matches_request_id request_id)
    then (runs, bad_request_id)
    else let (orders, events) = purchase_batch_records request_id db in
      show_run sort orders events db
        (found_run request_id (stored_run request_id runs) orders events) runs
