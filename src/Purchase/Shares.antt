-- ===== src/Purchase/Shares.antt =====
-- How a batch of purchases of internal/service/purchase_experiment.go shares out the stock.
use lottery.Base.{
  ℕ, ◌+◌, ◌-◌, ◌<◌, ◌≡◌, ◌≢◌, refl, ap, ◌∙◌, inl, inr, false, Text, List, [], ◌∷◌, none, some,
  arith, Bool-cases, lookup, ◌==◌, find_row, length,
}
use lottery.Program.{fine}
use lottery.Purchase.{PurchaseLab, PurchaseCommitResult, ok, of_request, commit_material_purchase}
use lottery.Purchase.Requests.{
  SameKey, PurchaseExperimentRequest, no_fault, validate_purchase_experiment_request,
  purchase_child_request_id, purchase_event_id, purchase_child_request_id-injective,
  purchase_event_id-injective,
}
use lottery.Purchase.Consumer.{Shop}
use lottery.Purchase.Sales.{
  Absent, commit-Absent, commit-fresh, batch_purchase-valid, committed-materials, committed-Absent,
  committed-commit,
}
use lottery.Purchase.Batch.{
  batch_purchase, answered, commit_under, Execution, ExecutionResult, execute_committed,
  execute_purchase, Tally, tally_invalidation, tally_commit, tally_result, run_purchases,
}

module _ (r : PurchaseExperimentRequest) (m : ℕ) where
  abbrev pub child : Execution → Text
  child x = purchase_child_request_id r.request_id x.index r.purchase_count

  -- The snapshot and the tables know nothing of the purchase, and its commit is answered.
  abbrev pub Unused : Execution → PurchaseLab → Type 0
  Unused x db =
      (x.commit_fault ≡ fine)
      × (find_row (of_request (child x)) x.snapshot.orders ≡ none)
      × Absent (child x) (purchase_event_id (child x)) db

  -- One purchase: a success while there is stock, and sold out after.
  abbrev pub Sells : ℕ → ℕ → Tally → Shop × Tally → Type 0
  Sells stock n t after =
      (lookup m after.0.lab.materials ≡ some (stock - n))
      × (after.1.purchase_processed ≡ t.purchase_processed + n)
      × (after.1.purchase_succeeded + (stock - n) ≡ t.purchase_succeeded + stock)
      × (after.1.sold_out_requests + after.1.purchase_succeeded
          ≡ t.sold_out_requests + t.purchase_succeeded + n)
      × (after.1.duplicate_requests ≡ t.duplicate_requests)

  tally-Sells :
      (result : ExecutionResult) (c : PurchaseCommitResult) (stock : ℕ) (s : Shop) (t : Tally)
      → result.commit ≡ answered (ok c)
      → c.duplicate ≡ false
      → c.sold_out ≡ (stock == 0)
      → lookup m s.lab.materials ≡ some (stock - 1)
      → Sells stock 1 t (s, tally_result result t)
  unfolding tally_result tally_commit tally_invalidation
  tally-Sells result c stock s t answer d so h =
      (h, ground arith, ground arith, ground arith, ground arith)

  -- The commit of a purchase under its fault.
  abbrev after_commit : Execution → Shop → Shop
  after_commit x s = record s {
    lab = (commit_material_purchase x.snapshot (batch_purchase r m x.index) x.now s.lab).0;
  }

  execute-fine :
      (x : Execution) (s : Shop)
      → x.commit_fault ≡ fine
      → execute_purchase r m x s
        ≡ execute_committed r.strategy x
            (batch_purchase r m x.index)
            (answered
              (commit_material_purchase x.snapshot (batch_purchase r m x.index) x.now s.lab).1)
            (after_commit x s)
  unfolding execute_purchase commit_under
  execute-fine x s h = ground arith

  execute-Sells :
      (x : Execution) (stock : ℕ) (s : Shop) (t : Tally)
      → validate_purchase_experiment_request r ≡ no_fault
      → m ≢ 0
      → Unused x s.lab
      → lookup m s.lab.materials ≡ some stock
      → Sells stock 1 t ((execute_purchase r m x s).0, tally_result (execute_purchase r m x s).1 t)
  execute-Sells x stock s t valid here (answers, unseen, absent) h =
      let p = batch_purchase r m x.index in
      let (v, w) = batch_purchase-valid r m x.index valid here in
      let (c, answer, d, so, left) =
        commit-fresh x.snapshot p x.now stock s.lab v w refl unseen absent h in
      let result = execute_committed r.strategy x p (answered (ok c)) (after_commit x s) in
      rw (execute-fine x s answers, answer)
        (tally-Sells result.1 c stock result.0 t
          (committed-commit r.strategy x p (answered (ok c)) (after_commit x s)) d so
          (ap (lookup m) (committed-materials r.strategy x p (answered (ok c)) (after_commit x s))
            ∙ left))

  child-ne :
      (x y : Execution)
      → x.index < r.purchase_count
      → y.index < r.purchase_count
      → x.index ≢ y.index
      → ¬ (SameKey (child x) (child y))
  child-ne x y hx hy apart same = elim (Bool-cases (r.purchase_count == 1)) [
    | inl one ↦ apart (ground arith)
    | inr several ↦ apart (
        purchase_child_request_id-injective r.request_id x.index y.index r.purchase_count
          (ground arith) same)
  ]

  -- A purchase leaves the ids of another unused.
  execute-Unused :
      (x y : Execution) (s : Shop)
      → x.commit_fault ≡ fine
      → ¬ (SameKey (child x) (child y))
      → Unused y s.lab
      → Unused y (execute_purchase r m x s).0.lab
  execute-Unused x y s answers apart (fate, unseen, absent) =
      let p = batch_purchase r m x.index in
      rw (execute-fine x s answers) (
        fate,
        unseen,
        committed-Absent (child y) (purchase_event_id (child y)) r.strategy x p
            (answered (commit_material_purchase x.snapshot p x.now s.lab).1) (after_commit x s)
            (commit-Absent (child y) (purchase_event_id (child y)) x.snapshot p x.now s.lab apart
              (λ e. apart (purchase_event_id-injective (child x) (child y) e)) absent),
      )

  -- Each execution of its own purchase of the batch, with ids that are unused.
  abbrev pub Apart : Execution → List Execution → Type 0
  Apart x [] = Unit {0}
  Apart x (y ∷ ys) = (x.index ≢ y.index) × Apart x ys

  abbrev pub Ready : List Execution → PurchaseLab → Type 0
  Ready [] db = Unit {0}
  Ready (x ∷ xs) db = (x.index < r.purchase_count) × Unused x db × Apart x xs × Ready xs db

  execute-Ready :
      (x : Execution) (ys : List Execution) (s : Shop)
      → x.commit_fault ≡ fine
      → x.index < r.purchase_count
      → Apart x ys
      → Ready ys s.lab
      → Ready ys (execute_purchase r m x s).0.lab
  execute-Ready x [] s answers hx apart ready = tt
  execute-Ready x (y ∷ ys) s answers hx (other, others) (hy, unused, apart, ready) = (
    hy,
    execute-Unused x y s answers (child-ne x y hx hy other) unused,
    apart,
    execute-Ready x ys s answers hx others ready,
  )

  -- A batch of a valid request, whose ids nothing in the tables bears and of which the first queries
  -- of its transactions find nothing, in whatever order its transactions come, with every commit
  -- answered and any fates of the deletions and latency updates: with n purchases and a stock of k, as
  -- many succeed as the stock allows, the smaller of n and k, the others are sold out, none counts as
  -- a duplicate, and k - n units are left, none if n is more.
  pub run_purchases-Sells :
      (xs : List Execution) (stock : ℕ) (s : Shop) (t : Tally)
      → validate_purchase_experiment_request r ≡ no_fault
      → m ≢ 0
      → Ready xs s.lab
      → lookup m s.lab.materials ≡ some stock
      → Sells stock (length xs) t (run_purchases r m xs (s, t))
  unfolding run_purchases
  run_purchases-Sells [] stock s t valid here ready h =
      (h ∙ ap some (omega arith), omega arith, omega arith, omega arith, refl)
  run_purchases-Sells (x ∷ xs) stock s t valid here (hx, unused, apart, ready) h =
      let one = execute-Sells x stock s t valid here unused h in
      let rest =
        run_purchases-Sells xs (stock - 1) (execute_purchase r m x s).0
          (tally_result (execute_purchase r m x s).1 t) valid here
          (execute-Ready x xs s unused.0 hx apart ready) one.0 in
      (rest.0 ∙ ap some (omega arith), omega arith, omega arith, omega arith, rest.4 ∙ one.4)
