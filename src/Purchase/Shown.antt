-- ===== src/Purchase/Shown.antt =====
-- What refreshRunOutboxState of internal/service/purchase_experiment.go shows of the events of a run.
use lottery.Base.{
  ◌+◌, ◌≡◌, ◌≢◌, refl, ◌⊎◌, inl, inr, true, List, [], ◌∷◌, arith, Bool-cases, sum_rows, all_rows,
  any_row, ◌&&◌, ◌||◌,
}
use mathlib.Core.Logic.{◌↔◌}
use lottery.Purchase.{OutboxStatus, published, completed, PurchaseLabOutbox}
use lottery.Purchase.Requests.{outbox_mq_invalidate}
use lottery.Purchase.Runs.{
  waiting_outbox, waiting_consumer, run_completed, PurchaseExperimentRun, is_completed,
  is_published, is_retry, Flags, see_event, see_events, show_flags, no_events_seen,
  refresh_outbox_strategy, refresh_run_outbox_state,
}

-- Every event has the status, and some event has.
abbrev pub All : OutboxStatus → List PurchaseLabOutbox → Type 0
All status [] = Unit {0}
All status (e ∷ es) = (e.status ≡ status) × All status es

abbrev pub Some : OutboxStatus → List PurchaseLabOutbox → Type 0
Some status [] = ⊥
Some status (e ∷ es) = (e.status ≡ status) ⊎ Some status es

see_events-flags :
    (es : List PurchaseLabOutbox) (f : Flags)
    → ((see_events es f).all_completed ≡ (f.all_completed && all_rows is_completed es))
      × ((see_events es f).any_published ≡ (f.any_published || any_row is_published es))
      × ((see_events es f).any_retry ≡ (f.any_retry || any_row is_retry es))
      × ((see_events es f).retries
          ≡ f.retries + sum_rows (λ (e : PurchaseLabOutbox). e.retry_count) es)
unfolding see_events see_event all_rows any_row sum_rows
see_events-flags [] f = (ground arith, ground arith, ground arith, omega arith)
see_events-flags (e ∷ es) f =
    let (all, one, again, retries) = see_events-flags es (see_event e f) in
    (ground arith, ground arith, ground arith, omega arith)

all_rows-All : (es : List PurchaseLabOutbox) → All completed es → all_rows is_completed es ≡ true
unfolding all_rows
all_rows-All [] h = refl
all_rows-All (e ∷ es) (h, hs) = ground (arith, all_rows-All es hs)

All-all_rows : (es : List PurchaseLabOutbox) → all_rows is_completed es ≡ true → All completed es
unfolding all_rows
All-all_rows [] h = tt
All-all_rows (e ∷ es) h = (ground arith, All-all_rows es (ground arith))

any_row-Some : (es : List PurchaseLabOutbox) → Some published es → any_row is_published es ≡ true
unfolding any_row
any_row-Some [] h = absurd h
any_row-Some (e ∷ es) (inl h) = ground arith
any_row-Some (e ∷ es) (inr h) = ground (arith, any_row-Some es h)

Some-any_row : (es : List PurchaseLabOutbox) → any_row is_published es ≡ true → Some published es
unfolding any_row
Some-any_row [] h = absurd (cc)
Some-any_row (e ∷ es) h = elim (Bool-cases (is_published e)) [
  | inl t ↦ inl (ground arith)
  | inr t ↦ inr (Some-any_row es (ground arith))
]

-- A run of the outbox strategy with events is shown as completed exactly when every event is
-- completed, and as waiting for the consumer exactly when not all are but some event is published;
-- its retries are those of all its events together. A run without events is shown as waiting for
-- the outbox, never as completed.
pub refresh_run_outbox_state_iff :
    (events : List PurchaseLabOutbox) (run : PurchaseExperimentRun)
    → run.strategy ≡ outbox_mq_invalidate
    → events ≢ []
    → let shown = refresh_run_outbox_state events run in
      (shown.status ≡ run_completed ↔ All completed events)
      × (shown.status ≡ waiting_consumer ↔ (¬ All completed events) × Some published events)
      × (shown.retry_count ≡ sum_rows (λ (e : PurchaseLabOutbox). e.retry_count) events)
      × ((refresh_run_outbox_state [] run).status ≡ waiting_outbox)
unfolding refresh_run_outbox_state refresh_outbox_strategy show_flags
refresh_run_outbox_state_iff [] run s some_event = absurd (some_event refl)
refresh_run_outbox_state_iff (e ∷ es) run s some_event =
    let (all, one, again, retries) = see_events-flags (e ∷ es) no_events_seen in
    let toall = λ (h : all_rows is_completed (e ∷ es) ≡ true). All-all_rows (e ∷ es) h in
    (
      (λ h. All-all_rows (e ∷ es) (ground arith), λ h. ground (arith, all_rows-All (e ∷ es) h)),
      (
        λ h. (
          λ every. ground (arith, all_rows-All (e ∷ es) every),
          Some-any_row (e ∷ es) (ground arith),
        ),
        λ (not_all, any). elim (Bool-cases (all_rows is_completed (e ∷ es))) [
          | inl t ↦ absurd (not_all (All-all_rows (e ∷ es) t))
          | inr t ↦ ground (arith, any_row-Some (e ∷ es) any)
        ],
      ),
      ground arith,
      ground arith,
    )
