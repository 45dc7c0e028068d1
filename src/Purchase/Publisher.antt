-- ===== src/Purchase/Publisher.antt =====
-- internal/service/purchase_experiment.go: the publisher of the outbox, its worker and what the
-- worker's clock shows.
use lottery.Base.{
  ℕ, suc, ◌+◌, ◌*◌, Bool, true, false, Text, List, [], ◌∷◌, ◌++◌, Option, none, some, if◌then◌else◌,
}
use lottery.Program.{Fault, fine, lost, unanswered}
use lottery.Purchase.{PurchaseLabOutbox, PurchaseLab}
use lottery.Purchase.Outbox.{
  claim_next_purchase_outbox, mark_purchase_outbox_published, mark_purchase_outbox_publish_failed,
}
use lottery.Purchase.Requests.{purchase_outbox_retry_delay, millisecond}

pub record PurchaseCacheInvalidation : Type 0 where
  pub event_id : Text
  pub material_id : ℕ

-- The tables and the messages sent.
pub record Bench : Type 0 where
  pub lab : PurchaseLab
  pub sent : List PurchaseCacheInvalidation

-- What the surroundings give to one round of publishAvailableOutbox: whether the process is
-- stopping, the clock at the claim and after the message, and the fate of the three calls.
pub record Round : Type 0 where
  pub stopping : Bool
  pub claimed_at : ℕ
  pub sent_at : ℕ
  pub claim_fault : Fault
  pub send_fault : Fault
  pub mark_fault : Fault
  pub cause : Text

pub data Ending : Type 0 where
  -- Nothing is left to publish; the process stops; a statement failed; the rounds given are over.
  nothing_due stopped store_failed still_running : Ending

-- A write under a fault, and whether the caller sees it succeed.
unfoldable pub attempt : Fault → (PurchaseLab → PurchaseLab) → PurchaseLab → PurchaseLab × Bool
attempt fine f db = (f db, true)
attempt lost f db = (db, false)
attempt unanswered f db = (f db, false)

unfoldable pub deliver :
    Fault
    → PurchaseCacheInvalidation
    → List PurchaseCacheInvalidation
    → List PurchaseCacheInvalidation × Bool
deliver fine m sent = (sent ++ m ∷ [], true)
deliver lost m sent = (sent, false)
deliver unanswered m sent = (sent ++ m ∷ [], false)

-- The statement after the message: published, or to be tried again after the delay.
unfoldable pub mark_sent : Round → PurchaseLabOutbox → Bool → PurchaseLab → PurchaseLab
mark_sent r e true db = mark_purchase_outbox_published e.event_id r.sent_at db
mark_sent r e false db =
    mark_purchase_outbox_publish_failed e.event_id
      (r.sent_at + purchase_outbox_retry_delay (e.retry_count + 1)) r.cause db

unfoldable pub publish_event : Round → PurchaseLabOutbox → Bench → Bench × Bool
unfolding attempt deliver mark_sent
publish_event r e b =
    let (sent, seen) =
      deliver r.send_fault (record { event_id = e.event_id; material_id = e.material_id }) b.sent in
    let (lab, marked) = attempt r.mark_fault (mark_sent r e seen) b.lab in
    (record { lab = lab; sent = sent }, marked)

-- The claim under its fault: `none` is an error.
unfoldable pub claim_under :
    Fault → ℕ → PurchaseLab → PurchaseLab × Option (Option PurchaseLabOutbox)
claim_under fine now db =
    ((claim_next_purchase_outbox now db).0, some (claim_next_purchase_outbox now db).1)
claim_under lost now db = (db, none)
claim_under unanswered now db = ((claim_next_purchase_outbox now db).0, none)

-- One round after its claim; `none` goes on.
unfoldable pub round_claimed :
    Round → Option (Option PurchaseLabOutbox) → Bench → Bench × Option Ending
unfolding publish_event
round_claimed r none b = (b, some store_failed)
round_claimed r (some none) b = (b, some nothing_due)
round_claimed r (some (some e)) b =
    let (b', marked) = publish_event r e b in if marked then (b', none) else (b', some store_failed)

unfoldable pub round : Round → Bench → Bench × Option Ending
unfolding claim_under round_claimed
round r b =
    if r.stopping
    then (b, some stopped)
    else let (lab, answer) = claim_under r.claim_fault r.claimed_at b.lab in
      round_claimed r answer (record b { lab = lab })

-- The loop of publishAvailableOutbox, over the rounds that the surroundings give.
unfoldable pub publish_available_outbox : List Round → Bench → Bench × Ending
publish_available_outbox [] b = (b, still_running)
publish_available_outbox (r ∷ rs) b = elim (round r b).1 [
  | some ending ↦ ((round r b).0, ending)
  | none ↦ publish_available_outbox rs (round r b).0
]

abbrev pub purchase_outbox_scan_interval : ℕ
purchase_outbox_scan_interval = 1000 * millisecond

-- The publisher's fields of PurchaseLabService; `none` is the zero time. `wake` is the channel
-- workerWake, which holds one token at most.
pub record Publisher : Type 0 where
  pub batch_active : Bool
  pub scan_count : ℕ
  pub last_scan_at : Option ℕ
  pub next_scan_at : Option ℕ
  pub wake : Bool

abbrev pub set_publisher_next_scan : ℕ → Publisher → Publisher
set_publisher_next_scan next p = record p { next_scan_at = some next }

unfoldable pub set_publisher_batch_active : Bool → Publisher → Publisher
set_publisher_batch_active active p = record p { batch_active = active }

unfoldable pub wake_publisher : ℕ → Publisher → Publisher
wake_publisher now p = record (set_publisher_next_scan (now + purchase_outbox_scan_interval) p) {
  wake = true;
}

abbrev pub record_publisher_scan : ℕ → Publisher → Publisher
record_publisher_scan now p = record p {
  scan_count = suc p.scan_count;
  last_scan_at = some now;
  next_scan_at = some (now + purchase_outbox_scan_interval);
}

-- What RunOutboxWorker is woken by: a wake-up, taken at the time given, or a tick with the rounds
-- that follow it if it publishes.
pub data WorkerEvent : Type 0 where
  woken : ℕ → WorkerEvent
  ticked : ℕ → List Round → WorkerEvent

unfoldable pub scan : List Round → Publisher → Bench → Bench
unfolding publish_available_outbox
scan rs p b = if p.batch_active then b else (publish_available_outbox rs b).0

abbrev pub woken_publisher : ℕ → Publisher → Publisher
woken_publisher now p = record (set_publisher_next_scan (now + purchase_outbox_scan_interval) p) {
  wake = false;
}

-- One turn of the loop of RunOutboxWorker.
unfoldable pub worker_step : WorkerEvent → Publisher × Bench → Publisher × Bench
unfolding scan
worker_step (woken now) (p, b) = (woken_publisher now p, b)
worker_step (ticked now rs) (p, b) =
    (record_publisher_scan now p, scan rs (record_publisher_scan now p) b)

-- The loop of RunOutboxWorker, after its start.
unfoldable pub run_worker : List WorkerEvent → Publisher × Bench → Publisher × Bench
run_worker [] s = s
run_worker (event ∷ events) s = run_worker events (worker_step event s)
