-- ===== src/Purchase/Publishing.antt =====
-- The loop of publishAvailableOutbox of internal/service/purchase_experiment.go ends, and what it
-- leaves; the worker while a batch runs.
use lottery.Base.{
  ℕ, suc, ◌+◌, ◌*◌, ◌≤◌, ◌<◌, ◌≡◌, ◌≢◌, refl, ap, ◌∙◌, inl, inr, Bool, true, false, List, [], ◌∷◌,
  Option, none, some, arith, Bool-cases, Option-cases, if◌then◌else◌, find_row, update_rows,
  sum_rows, length,
}
use lottery.Program.{Fault, fine, lost, unanswered}
use lottery.Purchase.{PurchaseLabOutbox, PurchaseLab}
use lottery.Purchase.Outbox.{
  is_due, claim_event, claimable_as, claim_found, publishing_event, published_event,
  unpublished_event, claim_next_purchase_outbox, mark_purchase_outbox_published,
  mark_purchase_outbox_publish_failed,
}
use lottery.Purchase.Requests.{
  purchase_outbox_retry_delay, millisecond, purchase_outbox_retry_delay_bounds,
}
use lottery.Purchase.Publisher.{
  PurchaseCacheInvalidation, Bench, Round, nothing_due, still_running, attempt, deliver, mark_sent,
  publish_event, claim_under, round_claimed, round, publish_available_outbox, Publisher,
  WorkerEvent, woken, ticked, scan, woken_publisher, worker_step, run_worker, record_publisher_scan,
}

abbrev due_by : ℕ → PurchaseLabOutbox → ℕ
due_by limit e = if is_due limit e then 1 else 0

-- How many events are due at a time.
unfoldable pub due_count : ℕ → PurchaseLab → ℕ
due_count limit db = sum_rows (due_by limit) db.outbox

-- An update that makes no row due.
sum-update-le :
    (limit : ℕ) (p : PurchaseLabOutbox → Bool) (f : PurchaseLabOutbox → PurchaseLabOutbox)
    (es : List PurchaseLabOutbox)
    → ((e : PurchaseLabOutbox) → p e ≡ true → due_by limit (f e) ≤ due_by limit e)
    → sum_rows (due_by limit) (update_rows p f es) ≤ sum_rows (due_by limit) es
unfolding sum_rows update_rows
sum-update-le limit p f [] less = omega arith
sum-update-le limit p f (e ∷ es) less = ground (arith, less e, sum-update-le limit p f es less)

claim-lt :
    (now limit id : ℕ) (es : List PurchaseLabOutbox) {e : PurchaseLabOutbox}
    → now ≤ limit
    → find_row (is_due now) es ≡ some e
    → e.id ≡ id
    → sum_rows (due_by limit) (update_rows (claimable_as id) claim_event es)
      < sum_rows (due_by limit) es
unfolding find_row sum_rows update_rows
claim-lt now limit id [] early h i = absurd (cc)
claim-lt now limit id (x ∷ es) {e} early h i = elim (Bool-cases (is_due now x)) [
  | inl t ↦
      ground (arith, sum-update-le limit (claimable_as id) claim_event es (λ y t. ground arith))
  | inr t ↦ ground (arith, claim-lt now limit id es {e = e} early)
]

-- A claim that finds an event leaves fewer.
claim-due_count :
    (now limit : ℕ) (db : PurchaseLab) {e : PurchaseLabOutbox}
    → now ≤ limit
    → (claim_next_purchase_outbox now db).1 ≡ some e
    → due_count limit (claim_next_purchase_outbox now db).0 < due_count limit db
unfolding claim_next_purchase_outbox due_count
claim-due_count now limit db {e} early h = elim (Option-cases (find_row (is_due now) db.outbox)) [
  | inl t ↦ absurd (ground arith)
  | inr (x, t) ↦ rw t (unfold claim_found in claim-lt now limit x.id db.outbox early t refl)
]

-- Marking an event makes none due before its delay is over.
mark_sent-due_count :
    (r : Round) (e : PurchaseLabOutbox) (seen : Bool) (limit : ℕ) (db : PurchaseLab)
    → limit < r.sent_at + 250 * millisecond
    → due_count limit (mark_sent r e seen db) ≤ due_count limit db
unfolding mark_sent mark_purchase_outbox_published mark_purchase_outbox_publish_failed due_count
mark_sent-due_count r e true limit db soon =
    sum-update-le limit (publishing_event e.event_id) (published_event r.sent_at) db.outbox
      (λ x t. ground arith)
mark_sent-due_count r e false limit db soon =
    let delay = purchase_outbox_retry_delay_bounds (e.retry_count + 1) in
    sum-update-le limit (publishing_event e.event_id)
      (unpublished_event (r.sent_at + purchase_outbox_retry_delay (e.retry_count + 1)) r.cause)
      db.outbox (λ x t. ground arith)

attempt-due_count :
    (fault : Fault) (f : PurchaseLab → PurchaseLab) (limit n : ℕ) (db : PurchaseLab)
    → due_count limit (f db) ≤ n
    → due_count limit db ≤ n
    → due_count limit (attempt fault f db).0 ≤ n
unfolding attempt
attempt-due_count fine f limit n db changed same = changed
attempt-due_count lost f limit n db changed same = same
attempt-due_count unanswered f limit n db changed same = changed

publish_event-due_count :
    (r : Round) (e : PurchaseLabOutbox) (limit n : ℕ) (b : Bench)
    → limit < r.sent_at + 250 * millisecond
    → due_count limit b.lab ≤ n
    → due_count limit (publish_event r e b).0.lab ≤ n
unfolding publish_event
publish_event-due_count r e limit n b soon h =
    let m : PurchaseCacheInvalidation = record {
      event_id = e.event_id;
      material_id = e.material_id;
    } in
    let seen = (deliver r.send_fault m b.sent).1 in
    attempt-due_count r.mark_fault (mark_sent r e seen) limit n b.lab
      (omega (arith, mark_sent-due_count r e seen limit b.lab soon)) h

-- The times of a round: its claim by the limit, and any delay beyond it.
abbrev pub Within : ℕ → Round → Type 0
Within limit r = (r.claimed_at ≤ limit) × (limit < r.sent_at + 250 * millisecond)

claimed-due_count :
    (r : Round) (answer : Option (Option PurchaseLabOutbox)) (limit n : ℕ) (b : Bench)
    → limit < r.sent_at + 250 * millisecond
    → due_count limit b.lab ≤ n
    → due_count limit (round_claimed r answer b).0.lab ≤ n
unfolding round_claimed
claimed-due_count r none limit n b soon h = h
claimed-due_count r (some none) limit n b soon h = h
claimed-due_count r (some (some e)) limit n b soon h =
    ground (arith, publish_event-due_count r e limit n b soon h)

goes_on-claimed :
    (r : Round) (answer : Option (Option PurchaseLabOutbox)) (b : Bench)
    → (round_claimed r answer b).1 ≡ none
    → (e : PurchaseLabOutbox) × (answer ≡ some (some e))
unfolding round_claimed
goes_on-claimed r none b h = absurd (cc)
goes_on-claimed r (some none) b h = absurd (cc)
goes_on-claimed r (some (some e)) b h = (e, refl)

claim_under-due_count :
    (fault : Fault) (now limit : ℕ) (db : PurchaseLab) (e : PurchaseLabOutbox)
    → now ≤ limit
    → (claim_under fault now db).1 ≡ some (some e)
    → due_count limit (claim_under fault now db).0 < due_count limit db
unfolding claim_under
claim_under-due_count fine now limit db e early h = claim-due_count now limit db {e = e} early (cc)
claim_under-due_count lost now limit db e early h = absurd (cc)
claim_under-due_count unanswered now limit db e early h = absurd (cc)

-- A round that goes on has left fewer events due.
round-due_count :
    (r : Round) (limit : ℕ) (b : Bench)
    → Within limit r
    → (round r b).1 ≡ none
    → suc (due_count limit (round r b).0.lab) ≤ due_count limit b.lab
unfolding round
round-due_count r limit b (early, soon) goes_on = elim (Bool-cases r.stopping) [
  | inl t ↦ absurd (ground arith)
  | inr t ↦
      let c = claim_under r.claim_fault r.claimed_at b.lab in
      let on : (round_claimed r c.1 (record b { lab = c.0 })).1 ≡ none = ground arith in
      let (e, claimed) = goes_on-claimed r c.1 (record b { lab = c.0 }) on in
      let fewer = claim_under-due_count r.claim_fault r.claimed_at limit b.lab e early claimed in
      rw t (
        omega (
          arith,
          fewer,
          claimed-due_count r c.1 limit (due_count limit c.0) (record b { lab = c.0 }) soon
              (omega arith),
        ))
]

-- Nothing found at a time is nothing due at any earlier one.
none-due_count :
    (start now : ℕ) (es : List PurchaseLabOutbox)
    → start ≤ now
    → find_row (is_due now) es ≡ none
    → sum_rows (due_by start) es ≡ 0
unfolding find_row sum_rows
none-due_count start now [] early h = refl
none-due_count start now (e ∷ es) early h = ground (arith, none-due_count start now es early)

round-nothing_due :
    (r : Round) (start : ℕ) (b : Bench)
    → start ≤ r.claimed_at
    → (round r b).1 ≡ some nothing_due
    → due_count start (round r b).0.lab ≡ 0
unfolding round claim_under round_claimed claim_next_purchase_outbox claim_found due_count
round-nothing_due r start b early h =
    elim (Option-cases (find_row (is_due r.claimed_at) b.lab.outbox)) [
      | inl t ↦ ground (arith, none-due_count start r.claimed_at b.lab.outbox early t)
      | inr (e, t) ↦ absurd (ground arith)
    ]

round-ne-still_running : (r : Round) (b : Bench) → (round r b).1 ≢ some still_running
unfolding round claim_under round_claimed claim_next_purchase_outbox claim_found publish_event
round-ne-still_running r b h = ground arith

abbrev pub AllWithin : ℕ → ℕ → List Round → Type 0
AllWithin start limit [] = Unit {0}
AllWithin start limit (r ∷ rs) = (start ≤ r.claimed_at) × Within limit r × AllWithin start limit rs

-- The loop ends before its rounds are over if they are more than the events due at `limit`, all
-- claims come by then and the delay of each failed publication reaches beyond it. When it ends
-- because nothing is left, no event that was due at the start is due any more.
pub publish_available_outbox-ends :
    (rs : List Round) (start limit : ℕ) (b : Bench)
    → AllWithin start limit rs
    → due_count limit b.lab < length rs
    → ((publish_available_outbox rs b).1 ≢ still_running)
      × ((publish_available_outbox rs b).1 ≡ nothing_due
          → due_count start (publish_available_outbox rs b).0.lab ≡ 0)
unfolding publish_available_outbox
publish_available_outbox-ends [] start limit b within many = absurd (omega arith)
publish_available_outbox-ends (r ∷ rs) start limit b (early, w, ws) many =
    elim (Option-cases (round r b).1) [
      | inl t ↦
          rw (t, publish_available_outbox)
            (publish_available_outbox-ends rs start limit (round r b).0 ws
              (omega (arith, round-due_count r limit b w t)))
      | inr (ending, t) ↦
          rw (t, publish_available_outbox)
            (
              λ e. round-ne-still_running r b (t ∙ ap some e),
              λ e. round-nothing_due r start b early (t ∙ ap some e),
            )
    ]

abbrev pub is_tick : WorkerEvent → ℕ
is_tick (woken _) = 0
is_tick (ticked _ _) = 1

woken-worker_step :
    (now : ℕ) (p : Publisher) (b : Bench)
    → worker_step (woken now) (p, b) ≡ (woken_publisher now p, b)
unfolding worker_step
woken-worker_step now p b = refl

tick-batch_active :
    (now : ℕ) (rs : List Round) (p : Publisher) (b : Bench)
    → p.batch_active ≡ true
    → worker_step (ticked now rs) (p, b) ≡ (record_publisher_scan now p, b)
unfolding worker_step scan
tick-batch_active now rs p b h = ground arith

-- While a batch of purchases runs, the worker publishes nothing and touches no row, however it is
-- woken; it only counts its scans, one for each tick.
pub run_worker-batch_active :
    (events : List WorkerEvent) (p : Publisher) (b : Bench)
    → p.batch_active ≡ true
    → let s = run_worker events (p, b) in
      (s.1 ≡ b)
      × (s.0.batch_active ≡ true)
      × (s.0.scan_count ≡ p.scan_count + sum_rows is_tick events)
unfolding run_worker sum_rows
run_worker-batch_active [] p b h = (refl, h, omega arith)
run_worker-batch_active (woken now ∷ events) p b h =
    let (same, active, counted) = run_worker-batch_active events (woken_publisher now p) b h in
    rw (woken-worker_step now p b, run_worker) (same, active, omega arith)
run_worker-batch_active (ticked now rs ∷ events) p b h =
    let (same, active, counted) =
      run_worker-batch_active events (record_publisher_scan now p) b h in
    rw (tick-batch_active now rs p b h, run_worker) (same, active, omega arith)
