-- ===== src/Examples/Purchases.antt =====
-- A small shop of the purchase experiment, and what happens in it.
use lottery.Base.{
  ◌+◌, ◌≤◌, ◌≡◌, refl, arith, true, false, Text, List, [], ◌∷◌, none, some, lookup, insert,
  find_row, sum_rows, length, Text-discrete, fold_case,
}
use native.Mathlib.Decide.{ℕ_discrete}
use lottery.Purchase.{
  pending, PurchaseLabOrder, PurchaseLabOutbox, PurchaseLab, Purchase, PurchaseCommitResult, ok,
  of_event, commit_material_purchase, new_order, new_event,
}
use lottery.Purchase.Outbox.{star_marrow_material_id}
use lottery.Purchase.Traces.{
  Operation, commits, resets, claims, recovers, publishes, invalidates, measures, steps,
}
use lottery.Purchase.Stock.{left, sold, steps-accounted}
use lottery.Purchase.Flow.{Evolves, steps-Evolves}
use lottery.Purchase.Retries.{commit-unchanged}
use lottery.Purchase.Repeats.{Repeats, commit-Repeats}
use lottery.Purchase.Requests.{
  outbox_mq_invalidate, PurchaseExperimentRequest, purchase_child_request_id,
  validate_purchase_experiment_request, matches_request_id, purchase_event_id, ids-fit,
}

abbrev batch : Text
batch = b'b' ∷ b'a' ∷ b't' ∷ b'c' ∷ b'h' ∷ b'0' ∷ b'0' ∷ b'1' ∷ []

abbrev pub event_one : Text
event_one = b'e' ∷ b'1' ∷ []

abbrev sync : Text
sync = b's' ∷ []

-- One unit of the star marrow is sold, ninety-nine are left.
abbrev bought : PurchaseLabOrder
bought = record {
  id = 1;
  batch_id = batch;
  request_id = batch;
  material_id = 4;
  quantity = 1;
  strategy = sync;
  latency = 0;
  created_at = 5;
}

abbrev pub announced : PurchaseLabOutbox
announced = record {
  id = 1;
  batch_id = batch;
  event_id = event_one;
  request_id = batch;
  material_id = 4;
  status = pending;
  retry_count = 0;
  last_error = [];
  next_retry_at = none;
  created_at = 5;
  published_at = none;
  invalidated_at = none;
}

abbrev pub opened : PurchaseLab
opened = record {
  materials = (4, 99) ∷ [];
  orders = bought ∷ [];
  next_order_id = 2;
  outbox = announced ∷ [];
  next_outbox_id = 2;
}

abbrev empty_lab : PurchaseLab
empty_lab = record opened { materials = (4, 100) ∷ []; orders = []; outbox = [] }

abbrev wish : Purchase
wish = record {
  batch_id = batch;
  request_id = batch;
  event_id = event_one;
  material_id = 4;
  quantity = 1;
  strategy = sync;
  with_outbox = true;
}

abbrev day : List Operation
day =
    commits empty_lab wish 7
    ∷ claims 8
    ∷ publishes event_one 9
    ∷ recovers 10 []
    ∷ invalidates event_one 11
    ∷ resets 4
    ∷ []

opened_accounted : left star_marrow_material_id opened + sold star_marrow_material_id opened ≡ 100
unfolding left sold lookup sum_rows
opened_accounted = refl

steps-accounted_example :
    left star_marrow_material_id (steps day opened)
      + sold star_marrow_material_id (steps day opened)
    ≡ 100
steps-accounted_example = steps-accounted day opened opened_accounted

found_event : find_row (of_event event_one) opened.outbox ≡ some announced
unfolding find_row Text-discrete ℕ_discrete fold_case
found_event = refl

steps-Evolves_example :
    (e' : PurchaseLabOutbox) × (find_row (of_event event_one) (steps day opened).outbox ≡ some e')
    × Evolves announced e'
steps-Evolves_example = steps-Evolves day event_one opened {e = announced} found_event refl

commit-unchanged_example : (commit_material_purchase empty_lab wish 7 opened).0 ≡ opened
unfolding fold_case
commit-unchanged_example =
    commit-unchanged empty_lab wish 7 opened (unfold find_row Text-discrete ℕ_discrete in refl)

abbrev first_answer : PurchaseCommitResult
first_answer = record {
  order = some (new_order wish 5 2);
  outbox = some (new_event wish 5 2);
  duplicate = false;
  sold_out = false;
}

abbrev after_first : PurchaseLab
after_first = record {
  materials = (4, 99) ∷ [];
  orders = new_order wish 5 2 ∷ [];
  next_order_id = 3;
  outbox = new_event wish 5 2 ∷ [];
  next_outbox_id = 3;
}

first_commit : commit_material_purchase empty_lab wish 5 empty_lab ≡ (after_first, ok first_answer)
unfolding commit_material_purchase find_row lookup insert Text-discrete ℕ_discrete
first_commit = refl

abbrev between : List Operation
between = claims 8 ∷ publishes event_one 9 ∷ measures batch 1200 ∷ invalidates event_one 11 ∷ []

commit-Repeats_example :
    Repeats first_answer
      (steps between after_first)
      (commit_material_purchase (steps between after_first) wish 20 (steps between after_first))
commit-Repeats_example =
    commit-Repeats empty_lab wish 5 20 between empty_lab after_first first_answer first_commit refl
      refl (refl, (refl, (refl, (refl, tt))))

-- The same request with another quantity.
abbrev other_wish : Purchase
other_wish = record wish { quantity = 2 }

abbrev much : Purchase
much = record wish { request_id = event_one; quantity = 120 }

abbrev refused : PurchaseCommitResult
refused = record { order = none; outbox = none; duplicate = false; sold_out = true }

sold_out_answer : (commit_material_purchase opened much 7 opened).1 ≡ ok refused
unfolding commit_material_purchase find_row lookup Text-discrete ℕ_discrete fold_case
sold_out_answer = refl

abbrev pub wave : PurchaseExperimentRequest
wave = record {
  request_id = batch;
  strategy = outbox_mq_invalidate;
  purchase_count = 3;
  query_count = 0;
}

ids-fit_example :
    let child = purchase_child_request_id batch 2 3 in
    (length batch ≤ 96) × (length child ≤ 128) × (length (purchase_event_id child) ≤ 160)
ids-fit_example =
    ids-fit wave 2 (unfold validate_purchase_experiment_request matches_request_id in refl)
      (omega arith)
