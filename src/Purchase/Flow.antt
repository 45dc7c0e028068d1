-- ===== src/Purchase/Flow.antt =====
-- The life of an event of the outbox of internal/database/purchase_experiment.go.
use lottery.Base.{
  ℕ, suc, ◌≤◌, ◌≡◌, refl, ap, ◌∙◌, inl, inr, Bool-cases, Bool, true, false, ◌&&◌, not, Text, List,
  [], ◌∷◌, ◌++◌, Option, none, some, arith, ◌==◌, same_key, if◌then◌else◌, find_row, update_rows,
  or_else, change, ◌⊎◌, ◌-◌, ◌||◌, leb, lookup, insert, found, find_row-append,
  find_row-update_rows, find_row-delete_rows_kept,
}
use lottery.Purchase.{
  event_added, order_added, pending, PurchaseLabOrder, PurchaseLabOutbox, PurchaseLab, Purchase,
  Working, Result, PurchaseCommitResult, ok, err, of_request, of_event, request_duplicate,
  answer_existing, is_invalid_purchase, event_of_request, new_order, create_order, create_outbox,
  add_event, purchase_stock, purchase_body, conclude, new_event, commit_material_purchase,
}
use lottery.Purchase.Outbox.{
  star_marrow_material_id, is_final, open_of_material, reset_to, reset_found,
  initial_material_stock, claim_found, reset_rows, cancel_event, experiment_reset, recovered,
  claim_event, claimable_as, unconfirmed, publishing_event, published_event, unpublished_event,
  open_event, invalidated_event, unconsumed_event, is_due, reset_purchase_experiment_material,
  remove_legacy_materials, update_purchase_order_latency, recover_purchase_outbox,
  claim_next_purchase_outbox, mark_purchase_outbox_published, mark_purchase_outbox_publish_failed,
  mark_purchase_outbox_invalidated, record_purchase_outbox_consumer_failure,
}
use lottery.Order.{is_empty}
use lottery.Purchase.Traces.{
  Operation, commits, measures, resets, removes_legacy, recovers, claims, publishes,
  fails_to_publish, invalidates, fails_to_consume, step, steps,
}

-- What one event becomes: it keeps its identity, its retries are never taken back, it is not
-- pending again, and from the final states on it is not touched at all.
pub record Evolves (e e' : PurchaseLabOutbox) : Type 0 where
  pub same_id : e'.id ≡ e.id
  pub same_event : e'.event_id ≡ e.event_id
  pub same_request : e'.request_id ≡ e.request_id
  pub same_material : e'.material_id ≡ e.material_id
  pub more_retries : e.retry_count ≤ e'.retry_count
  pub not_pending_again : e'.status ≡ pending → e.status ≡ pending
  pub stays_final : is_final e.status ≡ true → e' ≡ e

Evolves-refl : (e : PurchaseLabOutbox) → Evolves e e
Evolves-refl e = ground arith

Evolves-trans : {a b c : PurchaseLabOutbox} → Evolves a b → Evolves b c → Evolves a c
Evolves-trans f g = record {
  same_id = g.same_id ∙ f.same_id;
  same_event = g.same_event ∙ f.same_event;
  same_request = g.same_request ∙ f.same_request;
  same_material = g.same_material ∙ f.same_material;
  more_retries = omega (arith, f.more_retries, g.more_retries);
  not_pending_again = λ h. f.not_pending_again (g.not_pending_again h);
  stays_final = λ h.
      let same = f.stays_final h in
      g.stays_final (ap (λ (x : PurchaseLabOutbox). is_final x.status) same ∙ h) ∙ same;
}

-- The event is there still, and has evolved.
abbrev pub Lives : PurchaseLabOutbox → Text → PurchaseLab → Type 0
Lives e event_id db =
    (e' : PurchaseLabOutbox) × (find_row (of_event event_id) db.outbox ≡ some e') × Evolves e e'

-- An update that lets each row it touches evolve.
updated-Lives :
    (p : PurchaseLabOutbox → Bool) (f : PurchaseLabOutbox → PurchaseLabOutbox) (event_id : Text)
    (db : PurchaseLab) {e : PurchaseLabOutbox}
    → ((x : PurchaseLabOutbox) → (f x).event_id ≡ x.event_id)
    → (p e ≡ true → Evolves e (f e))
    → find_row (of_event event_id) db.outbox ≡ some e
    → Lives e event_id (record db { outbox = update_rows p f db.outbox })
updated-Lives p f event_id db {e} same evolves h = (
  if p e then f e else e,
  find_row-update_rows (of_event event_id) p f db.outbox
        (λ x. ap (λ (t : Text). same_key t event_id) (same x))
      ∙ ap (change p f) h,
  elim (Bool-cases (p e)) [ inl t ↦ rw t (evolves t) | inr t ↦ rw t (Evolves-refl e) ],
)

same-Lives :
    (e : PurchaseLabOutbox) (event_id : Text) (db : PurchaseLab)
    → find_row (of_event event_id) db.outbox ≡ some e
    → Lives e event_id db
same-Lives e event_id db h = (e, h, Evolves-refl e)

-- The outbox as it was, or with one more row at its end.
abbrev Extends : PurchaseLab → PurchaseLab → Type 0
Extends before db =
    (db.outbox ≡ before.outbox)
    ⊎ ((row : PurchaseLabOutbox) × (db.outbox ≡ before.outbox ++ row ∷ []))

abbrev ExtendsIfOk : PurchaseLab → Working PurchaseCommitResult → Type 0
ExtendsIfOk before (db, ok r) = Extends before db
ExtendsIfOk before (db, err e) = Unit {0}

add_event-Extends :
    (b : Bool) (o : PurchaseLabOrder) (p : Purchase) (now : ℕ) (before db : PurchaseLab)
    → db.outbox ≡ before.outbox
    → ExtendsIfOk before (add_event b o p now db)
unfolding add_event create_outbox event_added
add_event-Extends false o p now before db same = inl same
add_event-Extends true o p now before db same =
    elim (Bool-cases (
      found (find_row (of_event p.event_id) db.outbox)
      || found (find_row (event_of_request p.request_id) db.outbox))) [
        | inl t ↦ rw t tt
        | inr t ↦ rw t (
            inr (
              new_event p now db.next_outbox_id,
              ap (λ (es : List PurchaseLabOutbox). es ++ new_event p now db.next_outbox_id ∷ [])
                  same,
            ))
      ]

purchase_stock-Extends :
    (stock : Option ℕ) (p : Purchase) (now : ℕ) (db : PurchaseLab)
    → ExtendsIfOk db (purchase_stock stock p now db)
unfolding purchase_stock create_order order_added
purchase_stock-Extends none p now db = tt
purchase_stock-Extends (some stock) p now db = elim (Bool-cases (leb p.quantity stock)) [
  | inl t ↦ rw t (elim (Bool-cases (found (find_row (of_request p.request_id) db.orders))) [
    | inl u ↦ rw u tt
    | inr u ↦ rw u (
        add_event-Extends p.with_outbox (new_order p now db.next_order_id) p now db
          (record db {
            materials = insert p.material_id (stock - p.quantity) db.materials;
            orders = db.orders ++ new_order p now db.next_order_id ∷ [];
            next_order_id = suc db.next_order_id;
          })
          refl)
  ])
  | inr t ↦ rw t (inl refl)
]

answered-Extends : (r : Result PurchaseCommitResult) (db : PurchaseLab) → ExtendsIfOk db (db, r)
answered-Extends (ok c) db = inl refl
answered-Extends (err e) db = tt

purchase_body-Extends :
    (o : Option PurchaseLabOrder) (snapshot : PurchaseLab) (p : Purchase) (now : ℕ)
    (db : PurchaseLab)
    → ExtendsIfOk db (purchase_body o snapshot p now db)
unfolding purchase_body
purchase_body-Extends (some o) snapshot p now db =
    answered-Extends (answer_existing p snapshot o) db
purchase_body-Extends none snapshot p now db =
    purchase_stock-Extends (lookup p.material_id db.materials) p now db

conclude-Extends :
    (r : Working PurchaseCommitResult) (p : Purchase) (db : PurchaseLab)
    → ExtendsIfOk db r
    → Extends db (conclude r p db).0
unfolding conclude
conclude-Extends (db', ok r) p db h = h
conclude-Extends (db', err request_duplicate) p db h = inl refl
conclude-Extends (db', err e) p db h = inl refl

commit-Extends :
    (snapshot : PurchaseLab) (p : Purchase) (now : ℕ) (db : PurchaseLab)
    → Extends db (commit_material_purchase snapshot p now db).0
unfolding commit_material_purchase
commit-Extends snapshot p now db =
    let body =
      purchase_body (find_row (of_request p.request_id) snapshot.orders) snapshot p now db in
    let h : Extends db (conclude body p db).0 = conclude-Extends body p db (
      purchase_body-Extends (find_row (of_request p.request_id) snapshot.orders) snapshot p now
        db) in
    elim (Bool-cases (is_invalid_purchase p)) [
      | inl t ↦ rw t (inl refl)
      | inr t ↦ rw t (elim (Bool-cases (p.with_outbox && is_empty p.event_id)) [
        | inl u ↦ rw u (inl refl)
        | inr u ↦ rw u h
      ])
    ]

Extends-Lives :
    (event_id : Text) (before db : PurchaseLab) {e : PurchaseLabOutbox}
    → Extends before db
    → find_row (of_event event_id) before.outbox ≡ some e
    → Lives e event_id db
Extends-Lives event_id before db {e} (inl same) h =
    (e, ap (find_row (of_event event_id)) same ∙ h, Evolves-refl e)
Extends-Lives event_id before db {e} (inr (row, more)) h = (
  e,
  ap (find_row (of_event event_id)) more
      ∙ find_row-append (of_event event_id) before.outbox (row ∷ [])
      ∙ ap (λ (o : Option PurchaseLabOutbox). or_else o (find_row (of_event event_id) (row ∷ [])))
          h,
  Evolves-refl e,
)

reset-Lives :
    (m : ℕ) (event_id : Text) (db : PurchaseLab) {e : PurchaseLabOutbox}
    → find_row (of_event event_id) db.outbox ≡ some e
    → Lives e event_id (reset_purchase_experiment_material m db).0
unfolding reset_purchase_experiment_material reset_to reset_found reset_rows
reset-Lives m event_id db {e} h =
    elim (initial_material_stock m) as (λ s. Lives e event_id (reset_to s m db).0) [
      | none ↦ same-Lives e event_id db h
      | some stock ↦
          elim (lookup m db.materials) as (λ o. Lives e event_id (reset_found o m stock db).0) [
            | none ↦ same-Lives e event_id db h
            | some old ↦
                updated-Lives (open_of_material m) (cancel_event experiment_reset) event_id db
                  (λ x. refl) (λ t. ground arith) h
          ]
    ]

claim-Lives :
    (now : ℕ) (event_id : Text) (db : PurchaseLab) {e : PurchaseLabOutbox}
    → find_row (of_event event_id) db.outbox ≡ some e
    → Lives e event_id (claim_next_purchase_outbox now db).0
unfolding claim_next_purchase_outbox claim_found
claim-Lives now event_id db {e} h =
    elim (find_row (is_due now) db.outbox) as (λ o. Lives e event_id (claim_found o db).0) [
      | none ↦ same-Lives e event_id db h
      | some x ↦
          updated-Lives (claimable_as x.id) claim_event event_id db (λ y. refl) (λ t. ground arith)
            h
    ]

step-Lives :
    (op : Operation) (event_id : Text) (db : PurchaseLab) {e : PurchaseLabOutbox}
    → find_row (of_event event_id) db.outbox ≡ some e
    → e.material_id ≡ star_marrow_material_id
    → Lives e event_id (step op db)
unfolding step
step-Lives (commits snapshot p now) event_id db h m =
    Extends-Lives event_id db (commit_material_purchase snapshot p now db).0
      (commit-Extends snapshot p now db) h
step-Lives (resets i) event_id db h m = reset-Lives i event_id db h
step-Lives removes_legacy event_id db {e} h m =
    unfold remove_legacy_materials in
    (
      e,
      find_row-delete_rows_kept (of_event event_id)
          (λ x. not (x.material_id == star_marrow_material_id)) db.outbox h (ground arith),
      Evolves-refl e,
    )
step-Lives (measures request_id latency) event_id db {e} h m =
    unfold update_purchase_order_latency in (e, h, Evolves-refl e)
step-Lives (claims now) event_id db h m = claim-Lives now event_id db h
step-Lives (recovers now cause) event_id db h m =
    unfold recover_purchase_outbox in
    updated-Lives unconfirmed (recovered now cause) event_id db (λ x. refl) (λ t. ground arith) h
step-Lives (publishes event now) event_id db h m =
    unfold mark_purchase_outbox_published in
    updated-Lives (publishing_event event) (published_event now) event_id db (λ x. refl)
      (λ t. ground arith) h
step-Lives (fails_to_publish event retry_at cause) event_id db h m =
    unfold mark_purchase_outbox_publish_failed in
    updated-Lives (publishing_event event) (unpublished_event retry_at cause) event_id db
      (λ x. refl) (λ t. ground arith) h
step-Lives (invalidates event now) event_id db h m =
    unfold mark_purchase_outbox_invalidated in
    updated-Lives (open_event event) (invalidated_event now) event_id db (λ x. refl)
      (λ t. ground arith) h
step-Lives (fails_to_consume event cause) event_id db h m =
    unfold record_purchase_outbox_consumer_failure in
    updated-Lives (open_event event) (unconsumed_event cause) event_id db (λ x. refl)
      (λ t. ground arith) h

-- An event of the star marrow is never lost, whatever operations follow in whatever order: it
-- keeps its ids and its request, its retries are never taken back, it never comes back to pending,
-- and once completed or cancelled it is not changed any more, however often a message comes again.
pub steps-Evolves :
    (ops : List Operation) (event_id : Text) (db : PurchaseLab) {e : PurchaseLabOutbox}
    → find_row (of_event event_id) db.outbox ≡ some e
    → e.material_id ≡ star_marrow_material_id
    → (e' : PurchaseLabOutbox) × (find_row (of_event event_id) (steps ops db).outbox ≡ some e')
      × Evolves e e'
unfolding steps
steps-Evolves [] event_id db {e} h m = (e, h, Evolves-refl e)
steps-Evolves (op ∷ ops) event_id db {e} h m =
    let (e', h', v) = step-Lives op event_id db h m in
    let (e'', h'', v') =
      steps-Evolves ops event_id (step op db) {e = e'} h' (v.same_material ∙ m) in
    (e'', h'', Evolves-trans v v')
