-- ===== src/Purchase/Repeats.antt =====
-- CommitMaterialPurchase of internal/database/purchase_experiment.go for a request that comes
-- again after other operations.
use lottery.Base.{
  ℕ, ap, ◌≡◌, refl, ◌∙◌, inl, inr, Bool, true, false, ◌&&◌, Text, List, [], ◌∷◌, Option, none, some,
  arith, Bool-cases, same_key, if◌then◌else◌, find_row, find_row-append, change,
  find_row-update_rows, update_rows, text_eq_refl,
}
use lottery.Order.{is_empty}
use lottery.Purchase.{
  PurchaseLabOrder, PurchaseLabOutbox, PurchaseLab, Purchase, Result, PurchaseCommitResult, ok,
  of_request, event_of_request, is_invalid_purchase, same_purchase, duplicate_of, answer_existing,
  new_order, new_event, create_order, create_outbox, add_event, purchase_stock, purchase_body,
  conclude, commit_material_purchase,
}
use lottery.Purchase.Outbox.{
  recovered, claim_event, claimable_as, unconfirmed, publishing_event, published_event,
  unpublished_event, open_event, invalidated_event, unconsumed_event, is_due, claim_found,
  update_purchase_order_latency, recover_purchase_outbox, claim_next_purchase_outbox,
  mark_purchase_outbox_published, mark_purchase_outbox_publish_failed,
  mark_purchase_outbox_invalidated, record_purchase_outbox_consumer_failure,
}
use lottery.Purchase.Traces.{
  Operation, commits, measures, resets, removes_legacy, recovers, claims, publishes,
  fails_to_publish, invalidates, fails_to_consume, step, steps,
}
use lottery.Purchase.Retries.{fresh-commit}

-- The order of the purchase, under the id that it got.
abbrev Remembers : Purchase → ℕ → PurchaseLab → Type 0
Remembers p id db =
    (o : PurchaseLabOrder) × (find_row (of_request p.request_id) db.orders ≡ some o)
    × (o.id ≡ id)
    × (same_purchase o p ≡ true)

-- Its event, if it asked for one.
abbrev Announces : Purchase → PurchaseLab → Type 0
Announces p db =
    (e : PurchaseLabOutbox) × (find_row (event_of_request p.request_id) db.outbox ≡ some e)
    × (e.event_id ≡ p.event_id)

abbrev keeps_orders : Operation → Bool
keeps_orders (resets _) = false
keeps_orders removes_legacy = false
keeps_orders _ = true

abbrev pub AllKeepOrders : List Operation → Type 0
AllKeepOrders [] = Unit {0}
AllKeepOrders (op ∷ ops) = (keeps_orders op ≡ true) × AllKeepOrders ops

commit-keeps_order :
    (request_id : Text) (snapshot : PurchaseLab) (q : Purchase) (now : ℕ) (db : PurchaseLab)
    {o : PurchaseLabOrder}
    → find_row (of_request request_id) db.orders ≡ some o
    → find_row (of_request request_id) (commit_material_purchase snapshot q now db).0.orders
      ≡ some o
unfolding commit_material_purchase conclude purchase_body answer_existing duplicate_of
    purchase_stock create_order add_event create_outbox
commit-keeps_order request_id snapshot q now db h = ground (
  arith,
  find_row-append (of_request request_id) db.orders (new_order q now db.next_order_id ∷ []),
)

commit-keeps_event :
    (request_id : Text) (snapshot : PurchaseLab) (q : Purchase) (now : ℕ) (db : PurchaseLab)
    {e : PurchaseLabOutbox}
    → find_row (event_of_request request_id) db.outbox ≡ some e
    → find_row (event_of_request request_id) (commit_material_purchase snapshot q now db).0.outbox
      ≡ some e
unfolding commit_material_purchase conclude purchase_body answer_existing duplicate_of
    purchase_stock create_order add_event create_outbox
commit-keeps_event request_id snapshot q now db h = ground (
  arith,
  find_row-append (event_of_request request_id) db.outbox (new_event q now db.next_outbox_id ∷ []),
)

step-Remembers :
    (op : Operation) (p : Purchase) (id : ℕ) (db : PurchaseLab)
    → keeps_orders op ≡ true
    → Remembers p id db
    → Remembers p id (step op db)
unfolding step
step-Remembers (commits snapshot q now) p id db k (o, h, i, s) =
    (o, commit-keeps_order p.request_id snapshot q now db h, i, s)
step-Remembers (measures request_id latency) p id db k (o, h, i, s) =
    unfold update_purchase_order_latency in
    (
      if of_request request_id o then record o { latency = latency } else o,
      find_row-update_rows (of_request p.request_id) (of_request request_id)
            (λ x. record x { latency = latency }) db.orders (λ x. refl)
          ∙ ap (change (of_request request_id) (λ x. record x { latency = latency })) h,
      ground arith,
      unfold same_purchase in ground arith,
    )
step-Remembers (resets _) p id db k r = absurd (cc)
step-Remembers removes_legacy p id db k r = absurd (cc)
step-Remembers (claims now) p id db k (o, h, i, s) =
    (o, unfold claim_next_purchase_outbox in ground arith, i, s)
step-Remembers (recovers now cause) p id db k r = unfold recover_purchase_outbox in r
step-Remembers (publishes event now) p id db k r = unfold mark_purchase_outbox_published in r
step-Remembers (fails_to_publish event at cause) p id db k r =
    unfold mark_purchase_outbox_publish_failed in r
step-Remembers (invalidates event now) p id db k r = unfold mark_purchase_outbox_invalidated in r
step-Remembers (fails_to_consume event cause) p id db k r =
    unfold record_purchase_outbox_consumer_failure in r

-- An update that leaves the ids alone.
updated-Announces :
    (q : PurchaseLabOutbox → Bool) (f : PurchaseLabOutbox → PurchaseLabOutbox) (p : Purchase)
    (db : PurchaseLab)
    → ((x : PurchaseLabOutbox) → (f x).request_id ≡ x.request_id)
    → ((x : PurchaseLabOutbox) → (f x).event_id ≡ x.event_id)
    → Announces p db
    → Announces p (record db { outbox = update_rows q f db.outbox })
updated-Announces q f p db request event (e, h, i) = (
  if q e then f e else e,
  find_row-update_rows (event_of_request p.request_id) q f db.outbox
        (λ x. ap (λ (t : Text). same_key t p.request_id) (request x))
      ∙ ap (change q f) h,
  ground (arith, event e),
)

step-Announces :
    (op : Operation) (p : Purchase) (db : PurchaseLab)
    → keeps_orders op ≡ true
    → Announces p db
    → Announces p (step op db)
unfolding step
step-Announces (commits snapshot q now) p db k (e, h, i) =
    (e, commit-keeps_event p.request_id snapshot q now db h, i)
step-Announces (measures request_id latency) p db k r = unfold update_purchase_order_latency in r
step-Announces (resets _) p db k r = absurd (cc)
step-Announces removes_legacy p db k r = absurd (cc)
step-Announces (claims now) p db k r =
    unfold claim_next_purchase_outbox claim_found in
    elim (find_row (is_due now) db.outbox) as (λ o. Announces p (claim_found o db).0) [
      | none ↦ r
      | some x ↦ updated-Announces (claimable_as x.id) claim_event p db (λ y. refl) (λ y. refl) r
    ]
step-Announces (recovers now cause) p db k r =
    unfold recover_purchase_outbox in
    updated-Announces unconfirmed (recovered now cause) p db (λ x. refl) (λ x. refl) r
step-Announces (publishes event now) p db k r =
    unfold mark_purchase_outbox_published in
    updated-Announces (publishing_event event) (published_event now) p db (λ x. refl) (λ x. refl) r
step-Announces (fails_to_publish event at cause) p db k r =
    unfold mark_purchase_outbox_publish_failed in
    updated-Announces (publishing_event event) (unpublished_event at cause) p db (λ x. refl)
      (λ x. refl) r
step-Announces (invalidates event now) p db k r =
    unfold mark_purchase_outbox_invalidated in
    updated-Announces (open_event event) (invalidated_event now) p db (λ x. refl) (λ x. refl) r
step-Announces (fails_to_consume event cause) p db k r =
    unfold record_purchase_outbox_consumer_failure in
    updated-Announces (open_event event) (unconsumed_event cause) p db (λ x. refl) (λ x. refl) r

steps-Remembers :
    (ops : List Operation) (p : Purchase) (id : ℕ) (db : PurchaseLab)
    → AllKeepOrders ops
    → Remembers p id db
    → Remembers p id (steps ops db)
unfolding steps
steps-Remembers [] p id db k r = r
steps-Remembers (op ∷ ops) p id db (k, ks) r =
    steps-Remembers ops p id (step op db) ks (step-Remembers op p id db k r)

steps-Announces :
    (ops : List Operation) (p : Purchase) (db : PurchaseLab)
    → AllKeepOrders ops
    → Announces p db
    → Announces p (steps ops db)
unfolding steps
steps-Announces [] p db k r = r
steps-Announces (op ∷ ops) p db (k, ks) r =
    steps-Announces ops p (step op db) ks (step-Announces op p db k r)

remembered :
    (p : Purchase) (now id : ℕ) (db : PurchaseLab)
    → find_row (of_request p.request_id) db.orders ≡ some (new_order p now id)
    → Remembers p id db
remembered p now id db h = (
  new_order p now id,
  h,
  refl,
  unfold same_purchase in ground (arith, text_eq_refl p.batch_id, text_eq_refl p.strategy),
)

abbrev pub id_of : Option PurchaseLabOrder → Option ℕ
id_of none = none
id_of (some o) = some o.id

abbrev pub event_id_of : Option PurchaseLabOutbox → Option Text
event_id_of none = none
event_id_of (some e) = some e.event_id

-- What the client of a repeated request is told: the order of the first time, and its event.
abbrev pub Repeats :
    PurchaseCommitResult → PurchaseLab → PurchaseLab × Result PurchaseCommitResult → Type 0
Repeats first db answer =
    (r : PurchaseCommitResult) × (answer ≡ (db, ok r))
    × (r.duplicate ≡ true)
    × (r.sold_out ≡ false)
    × (id_of r.order ≡ id_of first.order)
    × (event_id_of r.outbox ≡ event_id_of first.outbox)

answer-Repeats :
    (p : Purchase) (later id : ℕ) (first : PurchaseCommitResult) (db : PurchaseLab)
    → is_invalid_purchase p ≡ false
    → (p.with_outbox && is_empty p.event_id) ≡ false
    → id_of first.order ≡ some id
    → event_id_of first.outbox ≡ (if p.with_outbox then some p.event_id else none)
    → Remembers p id db
    → (p.with_outbox ≡ true → Announces p db)
    → Repeats first db (commit_material_purchase db p later db)
unfolding commit_material_purchase conclude purchase_body answer_existing duplicate_of
answer-Repeats p later id first db v w i j (o, h, same_id, same) announced =
    elim (Bool-cases p.with_outbox) [
      | inl t ↦
          let (e, found_event, same_event) = announced t in
          (
            record { order = some o; outbox = some e; duplicate = true; sold_out = false },
            ground arith,
            refl,
            refl,
            ground arith,
            ground arith,
          )
      | inr t ↦ (
        record { order = some o; outbox = none; duplicate = true; sold_out = false },
        ground arith,
        refl,
        refl,
        ground arith,
        ground arith,
      )
    ]

-- A purchase that made a new order can be repeated at any later time, after whatever other
-- operations short of a reset or a removal of materials: the answer is the same order and, if it
-- has one, the same event, marked as a duplicate and never as sold out, and the tables stay as
-- they are.
pub commit-Repeats :
    (before : PurchaseLab) (p : Purchase) (now later : ℕ) (ops : List Operation)
    (db db' : PurchaseLab) (r : PurchaseCommitResult)
    → commit_material_purchase before p now db ≡ (db', ok r)
    → r.duplicate ≡ false
    → r.sold_out ≡ false
    → AllKeepOrders ops
    → Repeats r (steps ops db') (commit_material_purchase (steps ops db') p later (steps ops db'))
commit-Repeats before p now later ops db db' r h d s k =
    let (order, found_order, event, found_event, valid, named) =
      fresh-commit before p now db {db' = db'} {r = r} h d s in
    answer-Repeats p later db.next_order_id r (steps ops db') valid named (ap id_of order)
      (ground arith)
      (steps-Remembers ops p db.next_order_id db' k
        (remembered p now db.next_order_id db' (found_order ∙ order)))
      (λ w.
        steps-Announces ops p db' k
          (new_event p now db.next_outbox_id, ground (arith, found_event w), refl))
