-- ===== src/Purchase/Sales.antt =====
-- One purchase of a batch of internal/service/purchase_experiment.go whose ids are unused.
use lottery.Base.{
  ℕ, zero, suc, ◌-◌, ◌≡◌, ◌≢◌, refl, ap, ◌∙◌, inl, inr, Bool, true, false, Text, List, [], ◌∷◌,
  none, some, arith, Bool-cases, lookup, lookup-insert, ◌==◌, if◌then◌else◌, find_row, change,
  find_row-append_none, find_row-update_rows, text_eq_ne, fold_case,
}
use lottery.Order.{is_empty}
use lottery.Program.{Fault, fine, lost, unanswered}
use lottery.Purchase.{
  PurchaseLab, Purchase, PurchaseCommitResult, ok, err, of_request, of_event, event_of_request,
  is_invalid_purchase, new_order, new_event, create_order, create_outbox, add_event, purchase_stock,
  purchase_body, answer_existing, duplicate_of, conclude, commit_material_purchase,
}
use lottery.Purchase.Outbox.{update_purchase_order_latency}
use lottery.Purchase.Requests.{
  PurchaseStrategy, PurchaseExperimentRequest, no_fault, validate_purchase_experiment_request,
  SameKey, matches_request_id, purchase_child_request_id, purchase_event_id,
}
use lottery.Purchase.Publisher.{attempt}
use lottery.Purchase.Consumer.{Shop, delete_under, delete_with_retry}
use lottery.Purchase.Batch.{
  batch_purchase, Committing, answered, call_failed, Execution, invalidate_before_answer,
  persist_latency, execute_committed,
}

-- Nothing in the tables bears the ids.
abbrev pub Absent : Text → Text → PurchaseLab → Type 0
Absent request_id event_id db =
    (find_row (of_request request_id) db.orders ≡ none)
    × (find_row (of_event event_id) db.outbox ≡ none)
    × (find_row (event_of_request request_id) db.outbox ≡ none)

pub commit-Absent :
    (request_id event_id : Text) (snapshot : PurchaseLab) (p : Purchase) (now : ℕ)
    (db : PurchaseLab)
    → ¬ (SameKey p.request_id request_id)
    → ¬ (SameKey p.event_id event_id)
    → Absent request_id event_id db
    → Absent request_id event_id (commit_material_purchase snapshot p now db).0
unfolding commit_material_purchase conclude purchase_body answer_existing duplicate_of
    purchase_stock create_order add_event create_outbox
commit-Absent request_id event_id snapshot p now db other other_event
      (no_order, no_event, none_of) =
    let e = text_eq_ne (fold_case p.request_id) (fold_case request_id) other in
    let e' = text_eq_ne (fold_case p.event_id) (fold_case event_id) other_event in
    (
      ground (
        arith,
        find_row-append_none (of_request request_id) db.orders (new_order p now db.next_order_id)
            no_order e,
      ),
      ground (
        arith,
        find_row-append_none (of_event event_id) db.outbox (new_event p now db.next_outbox_id)
            no_event e',
      ),
      ground (
        arith,
        find_row-append_none (event_of_request request_id) db.outbox
            (new_event p now db.next_outbox_id) none_of e,
      ),
    )

-- What a purchase of one unit does if nothing bears its ids.
pub commit-fresh :
    (snapshot : PurchaseLab) (p : Purchase) (now stock : ℕ) (db : PurchaseLab)
    → is_invalid_purchase p ≡ false
    → is_empty p.event_id ≡ false
    → p.quantity ≡ 1
    → find_row (of_request p.request_id) snapshot.orders ≡ none
    → Absent p.request_id p.event_id db
    → lookup p.material_id db.materials ≡ some stock
    → (c : PurchaseCommitResult) × ((commit_material_purchase snapshot p now db).1 ≡ ok c)
      × (c.duplicate ≡ false)
      × (c.sold_out ≡ (stock == 0))
      × (lookup p.material_id (commit_material_purchase snapshot p now db).0.materials
          ≡ some (stock - 1))
unfolding commit_material_purchase conclude purchase_body purchase_stock create_order add_event
    create_outbox
commit-fresh snapshot p now stock db v w one s (no_order, no_event, none_of) h =
    elim (Bool-cases (stock == 0)) [
      | inl t ↦ (
        record { order = none; outbox = none; duplicate = false; sold_out = true },
        ground arith,
        refl,
        ground arith,
        ground arith,
      )
      | inr t ↦ (
        record {
          order = some (new_order p now db.next_order_id);
          outbox = if p.with_outbox then some (new_event p now db.next_outbox_id) else none;
          duplicate = false;
          sold_out = false;
        },
        ground arith,
        refl,
        ground arith,
        ground (arith, lookup-insert p.material_id p.material_id (stock - p.quantity) db.materials),
      )
    ]

delete_with_retry-lab :
    (left : ℕ) (tries : List (Fault × Bool)) (m : ℕ) (s : Shop)
    → (delete_with_retry left tries m s).0.lab ≡ s.lab
unfolding delete_with_retry
delete_with_retry-lab zero tries m s = refl
delete_with_retry-lab (suc left) [] m s = refl
delete_with_retry-lab (suc left) ((fine, gives_up) ∷ tries) m s = unfold delete_under in refl
delete_with_retry-lab (suc left) ((fault, gives_up) ∷ tries) m s =
    unfold delete_under in
    ground (arith, delete_with_retry-lab left tries m (delete_under fault m s).0)

latency-Absent :
    (request_id event_id other : Text) (latency : ℕ) (db : PurchaseLab)
    → Absent request_id event_id db
    → Absent request_id event_id (update_purchase_order_latency other latency db)
unfolding update_purchase_order_latency
latency-Absent request_id event_id other latency db (no_order, no_event, none_of) = (
  find_row-update_rows (of_request request_id) (of_request other)
        (λ o. record o { latency = latency }) db.orders (λ o. refl)
      ∙ ap (change (of_request other) (λ o. record o { latency = latency })) no_order,
  no_event,
  none_of,
)

child-nonempty :
    (batch_id : Text) (index total : ℕ)
    → matches_request_id batch_id ≡ true
    → (is_empty batch_id ≡ false)
      × (is_empty (purchase_child_request_id batch_id index total) ≡ false)
unfolding matches_request_id purchase_child_request_id
child-nonempty [] index total h = absurd (cc)
child-nonempty (c ∷ cs) index total h = (refl, ground arith)

-- A purchase of a valid request is valid.
pub batch_purchase-valid :
    (r : PurchaseExperimentRequest) (m index : ℕ)
    → validate_purchase_experiment_request r ≡ no_fault
    → m ≢ 0
    → (is_invalid_purchase (batch_purchase r m index) ≡ false)
      × (is_empty (batch_purchase r m index).event_id ≡ false)
unfolding validate_purchase_experiment_request is_invalid_purchase purchase_event_id
batch_purchase-valid r m index valid here =
    (ground (arith, child-nonempty r.request_id index r.purchase_count), refl)

attempt-latency-materials :
    (fault : Fault) (request_id : Text) (latency : ℕ) (db : PurchaseLab)
    → (attempt fault (update_purchase_order_latency request_id latency) db).0.materials
      ≡ db.materials
unfolding attempt update_purchase_order_latency
attempt-latency-materials fine request_id latency db = refl
attempt-latency-materials lost request_id latency db = refl
attempt-latency-materials unanswered request_id latency db = refl

attempt-latency-Absent :
    (fault : Fault) (request_id event_id other : Text) (latency : ℕ) (db : PurchaseLab)
    → Absent request_id event_id db
    → Absent request_id event_id (attempt fault (update_purchase_order_latency other latency) db).0
unfolding attempt
attempt-latency-Absent fine request_id event_id other latency db h =
    latency-Absent request_id event_id other latency db h
attempt-latency-Absent lost request_id event_id other latency db h = h
attempt-latency-Absent unanswered request_id event_id other latency db h =
    latency-Absent request_id event_id other latency db h

-- After the commit only the cached copy and the latency column are written.
pub committed-materials :
    (strategy : PurchaseStrategy) (x : Execution) (p : Purchase) (a : Committing) (s : Shop)
    → (execute_committed strategy x p a s).0.lab.materials ≡ s.lab.materials
unfolding execute_committed invalidate_before_answer persist_latency
committed-materials strategy x p (answered (ok c)) s = ground (
  arith,
  delete_with_retry-lab 3 x.deletions p.material_id s,
  attempt-latency-materials x.latency_fault p.request_id x.latency s.lab,
)
committed-materials strategy x p (answered (err e)) s = refl
committed-materials strategy x p call_failed s = refl

pub committed-Absent :
    (request_id event_id : Text) (strategy : PurchaseStrategy) (x : Execution) (p : Purchase)
    (a : Committing) (s : Shop)
    → Absent request_id event_id s.lab
    → Absent request_id event_id (execute_committed strategy x p a s).0.lab
unfolding execute_committed invalidate_before_answer persist_latency
committed-Absent request_id event_id strategy x p (answered (ok c)) s h =
    let kept =
      attempt-latency-Absent x.latency_fault request_id event_id p.request_id x.latency s.lab h in
    let same = delete_with_retry-lab 3 x.deletions p.material_id s in
    (ground (arith, kept.0), ground (arith, kept.1), ground (arith, kept.2))
committed-Absent request_id event_id strategy x p (answered (err e)) s h = h
committed-Absent request_id event_id strategy x p call_failed s h = h

pub committed-commit :
    (strategy : PurchaseStrategy) (x : Execution) (p : Purchase) (a : Committing) (s : Shop)
    → (execute_committed strategy x p a s).1.commit ≡ a
unfolding execute_committed
committed-commit strategy x p (answered (ok c)) s = refl
committed-commit strategy x p (answered (err e)) s = refl
committed-commit strategy x p call_failed s = refl
