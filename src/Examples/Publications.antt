-- ===== src/Examples/Publications.antt =====
-- Messages, batches and runs of the purchase experiment.
use lottery.Base.{
  ℕ, ◌+◌, ◌*◌, ◌≤◌, ◌<◌, ◌≡◌, refl, ◌≢◌, ◌⊎◌, inr, arith, true, false, List, [], ◌∷◌, none, some,
  lookup, find_row, sum_rows, leb, if◌then◌else◌, Text-discrete, fold_case,
}
use mathlib.Core.Logic.{◌↔◌}
use native.Mathlib.Decide.{ℕ_discrete}
use lottery.Program.{fine, lost}
use lottery.Purchase.{published, completed, PurchaseLabOutbox}
use lottery.Purchase.Outbox.{purchase_outbox_by_event}
use lottery.Purchase.Requests.{
  outbox_mq_invalidate, validate_purchase_experiment_request, matches_request_id,
}
use lottery.Purchase.Publisher.{
  PurchaseCacheInvalidation, Bench, Round, still_running, nothing_due, publish_available_outbox,
  Publisher, WorkerEvent, woken, ticked,
}
use lottery.Purchase.Publishing.{due_count, publish_available_outbox-ends}
use lottery.Purchase.Consumer.{Shop, Delivery, acknowledged, consume_cache_invalidation}
use lottery.Purchase.Consuming.{Settled, Completed, consume-acknowledged, consume-settles}
use lottery.Purchase.Batch.{Execution, no_purchases, run_purchases}
use lottery.Purchase.Shares.{Sells, run_purchases-Sells}
use lottery.Purchase.Runs.{
  running, run_completed, waiting_consumer, waiting_outbox, outbox_not_used, mq_not_used,
  PurchaseExperimentRun, refresh_run_outbox_state, percentile99,
}
use lottery.Purchase.Shown.{All, Some, refresh_run_outbox_state_iff}
use lottery.Purchase.Percentile.{Ascending, at_most, at_least, percentile99-covers}
use lottery.Examples.Purchases.{opened, announced, event_one, wave}

abbrev bench : Bench
bench = record { lab = opened; sent = [] }

-- A round whose message does not reach the broker, and one that finds nothing.
abbrev failing_round : Round
failing_round = record {
  stopping = false;
  claimed_at = 10;
  sent_at = 12;
  claim_fault = fine;
  send_fault = lost;
  mark_fault = fine;
  cause = [];
}

abbrev rounds : List Round
rounds = failing_round ∷ failing_round ∷ []

one_due : due_count 100 opened < 2
unfolding due_count sum_rows
one_due = omega arith

publish_available_outbox-ends_example :
    ((publish_available_outbox rounds bench).1 ≢ still_running)
    × ((publish_available_outbox rounds bench).1 ≡ nothing_due
        → due_count 10 (publish_available_outbox rounds bench).0.lab ≡ 0)
publish_available_outbox-ends_example =
    publish_available_outbox-ends rounds 10 100 bench (omega arith) one_due

abbrev busy : Publisher
busy = record {
  batch_active = true;
  scan_count = 4;
  last_scan_at = none;
  next_scan_at = none;
  wake = false;
}

abbrev wakings : List WorkerEvent
wakings = woken 3 ∷ ticked 1003 rounds ∷ ticked 2003 rounds ∷ []

abbrev stand : Shop
stand = record { lab = opened; cache = (4, 100) ∷ [] }

abbrev message : PurchaseCacheInvalidation
message = record { event_id = event_one; material_id = 4 }

abbrev good_delivery : Delivery
good_delivery = record {
  read_fault = fine;
  delete_fault = fine;
  record_fault = fine;
  mark_fault = fine;
  now = 30;
  cause = [];
}

event_there : purchase_outbox_by_event event_one opened ≡ some announced
unfolding purchase_outbox_by_event find_row Text-discrete ℕ_discrete fold_case
event_there = refl

delivered : (consume_cache_invalidation good_delivery message stand).1 ≡ acknowledged
unfolding consume_cache_invalidation purchase_outbox_by_event find_row Text-discrete ℕ_discrete
    fold_case
delivered = refl

consume-acknowledged_example :
    let s' = (consume_cache_invalidation good_delivery message stand).0 in
    (Settled event_one opened × (s' ≡ stand))
    ⊎ (Completed event_one s'.lab × (lookup 4 s'.cache ≡ none))
consume-acknowledged_example = consume-acknowledged good_delivery message stand delivered

abbrev closed_stand : Shop
closed_stand = record stand {
  lab = record opened { outbox = record announced { status = completed } ∷ [] };
}

closed_event : Settled event_one closed_stand.lab
unfolding purchase_outbox_by_event find_row Text-discrete ℕ_discrete fold_case
closed_event = inr (record announced { status = completed }, refl, refl)

consume-settles_example :
    let s' = (consume_cache_invalidation good_delivery message stand).0 in
    ((consume_cache_invalidation good_delivery message stand).1 ≡ acknowledged)
    × Settled event_one s'.lab
    × (false ≡ false → lookup 4 s'.cache ≡ none)
consume-settles_example =
    consume-settles good_delivery message stand announced event_there refl refl refl refl

abbrev execution : ℕ → Execution
execution i = record {
  index = i;
  snapshot = record opened { orders = [] };
  now = 40;
  commit_fault = fine;
  deletions = [];
  latency = 900;
  latency_fault = lost;
}

-- Three buyers of the last two units.
abbrev last_units : Shop
last_units = record {
  lab = record opened { materials = (4, 2) ∷ []; orders = []; outbox = [] };
  cache = [];
}

abbrev buyers : List Execution
buyers = execution 2 ∷ execution 0 ∷ execution 1 ∷ []

run_purchases-Sells_example :
    Sells wave 4 2 3 no_purchases (run_purchases wave 4 buyers (last_units, no_purchases))
run_purchases-Sells_example =
    run_purchases-Sells wave 4 buyers 2 last_units no_purchases
      (unfold validate_purchase_experiment_request matches_request_id in refl) (omega arith)
      (unfold find_row in
        (
          omega arith,
          (refl, refl, (refl, refl, refl)),
          (omega arith, (omega arith, tt)),
          (
            omega arith,
            (refl, refl, (refl, refl, refl)),
            (omega arith, tt),
            (omega arith, (refl, refl, (refl, refl, refl)), tt, tt),
          ),
        ))
      (unfold lookup in refl)

abbrev shown_run : PurchaseExperimentRun
shown_run = record {
  request_id = event_one;
  material_id = 4;
  strategy = outbox_mq_invalidate;
  status = running;
  final_mysql_stock = 99;
  purchase_requested = 1;
  purchase_processed = 1;
  purchase_succeeded = 1;
  purchase_p99 = 0;
  outbox_status = outbox_not_used;
  mq_status = mq_not_used;
  critical_path_completed = true;
  retry_count = 0;
  outbox = [];
}

abbrev two_events : List PurchaseLabOutbox
two_events = record announced { status = completed } ∷ record announced { status = published } ∷ []

refresh_run_outbox_state_iff_example :
    let shown = refresh_run_outbox_state two_events shown_run in
    (shown.status ≡ run_completed ↔ All completed two_events)
    × (shown.status ≡ waiting_consumer ↔ (¬ All completed two_events) × Some published two_events)
    × (shown.retry_count ≡ sum_rows (λ (e : PurchaseLabOutbox). e.retry_count) two_events)
    × ((refresh_run_outbox_state [] shown_run).status ≡ waiting_outbox)
refresh_run_outbox_state_iff_example =
    refresh_run_outbox_state_iff two_events shown_run refl (λ e. cc e)

-- An insertion sort stands for the library's.
put : ℕ → List ℕ → List ℕ
put x [] = x ∷ []
put x (y ∷ ys) = let rest = put x ys in if leb x y then x ∷ y ∷ ys else y ∷ rest

sort : List ℕ → List ℕ
sort [] = []
sort (x ∷ xs) = put x (sort xs)

put-Ascending : (lo x : ℕ) (ys : List ℕ) → lo ≤ x → Ascending lo ys → Ascending lo (put x ys)
unfolding put
put-Ascending lo x [] h s = (h, tt)
put-Ascending lo x (y ∷ ys) h (below, s) = ground (arith, put-Ascending y x ys)

sum-put : (f : ℕ → ℕ) (x : ℕ) (ys : List ℕ) → sum_rows f (put x ys) ≡ f x + sum_rows f ys
unfolding put sum_rows
sum-put f x [] = refl
sum-put f x (y ∷ ys) = ground (arith, sum-put f x ys)

sort-Ascending : (xs : List ℕ) → Ascending 0 (sort xs)
unfolding sort
sort-Ascending [] = tt
sort-Ascending (x ∷ xs) = put-Ascending 0 x (sort xs) (omega arith) (sort-Ascending xs)

sort-same_values : (xs : List ℕ) (f : ℕ → ℕ) → sum_rows f (sort xs) ≡ sum_rows f xs
unfolding sort sum_rows
sort-same_values [] f = refl
sort-same_values (x ∷ xs) f = omega (arith, sum-put f x (sort xs), sort-same_values xs f)

abbrev latencies : List ℕ
latencies = 30 ∷ 10 ∷ 20 ∷ []

percentile99-covers_example :
    (99 * 3 ≤ 100 * sum_rows (at_most (percentile99 sort latencies)) latencies)
    × (3 < 100 * sum_rows (at_least (percentile99 sort latencies)) latencies)
percentile99-covers_example =
    percentile99-covers sort latencies
      (record { ascending = sort-Ascending; same_values = sort-same_values }) (λ e. cc e)
