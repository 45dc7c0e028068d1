-- ===== src/Purchase/Consuming.antt =====
-- What the consumer of the invalidation messages does with a message that comes any number of
-- times.
use lottery.Base.{
  ℕ, ◌≡◌, refl, ap, ◌∙◌, ◌⊎◌, inl, inr, true, false, Text, [], ◌∷◌, none, some, arith, Bool-cases,
  Option-cases, Map, lookup, delete_rows, change, find_row-update_rows, find_row-holds,
}
use lottery.Program.{fine}
use lottery.Purchase.{PurchaseLabOutbox, PurchaseLab, completed, of_event}
use lottery.Purchase.Outbox.{
  is_final, open_event, invalidated_event, purchase_outbox_by_event,
  mark_purchase_outbox_invalidated,
}
use lottery.Purchase.Publisher.{PurchaseCacheInvalidation, attempt}
use lottery.Purchase.Consumer.{
  Shop, Delivery, acknowledged, delete_material_detail_cache, delete_under, mark_consumed,
  copy_deleted, consume_found, consume_cache_invalidation,
}

lookup-delete : (m : ℕ) (cache : Map ℕ) → lookup m (delete_material_detail_cache m cache) ≡ none
unfolding delete_material_detail_cache delete_rows lookup
lookup-delete m [] = refl
lookup-delete m (e ∷ es) = ground (arith, lookup-delete m es)

-- The event of the message is completed.
abbrev pub Completed : Text → PurchaseLab → Type 0
Completed event_id db =
    (e : PurchaseLabOutbox) × (purchase_outbox_by_event event_id db ≡ some e)
    × (e.status ≡ completed)

-- There is nothing to do for the message: its event is not there, or final already.
abbrev pub Settled : Text → PurchaseLab → Type 0
Settled event_id db =
    (purchase_outbox_by_event event_id db ≡ none)
    ⊎ ((e : PurchaseLabOutbox) × (purchase_outbox_by_event event_id db ≡ some e)
        × (is_final e.status ≡ true))

invalidated-Completed :
    (event_id : Text) (now : ℕ) (db : PurchaseLab) {e : PurchaseLabOutbox}
    → purchase_outbox_by_event event_id db ≡ some e
    → is_final e.status ≡ false
    → Completed event_id (mark_purchase_outbox_invalidated event_id now db)
unfolding purchase_outbox_by_event mark_purchase_outbox_invalidated
invalidated-Completed event_id now db {e} h live = (
  invalidated_event now e,
  find_row-update_rows (of_event event_id) (open_event event_id) (invalidated_event now) db.outbox
        (λ x. refl)
      ∙ ap (change (open_event event_id) (invalidated_event now)) h
      ∙ ground (arith, find_row-holds (of_event event_id) db.outbox {a = e} h),
  refl,
)

-- A message is acknowledged in two cases only: there was nothing to do for it, and nothing is
-- changed; or its event is now completed and no cached copy of its material is left.
pub consume-acknowledged :
    (d : Delivery) (m : PurchaseCacheInvalidation) (s : Shop)
    → (consume_cache_invalidation d m s).1 ≡ acknowledged
    → let s' = (consume_cache_invalidation d m s).0 in
      (Settled m.event_id s.lab × (s' ≡ s))
      ⊎ (Completed m.event_id s'.lab × (lookup m.material_id s'.cache ≡ none))
unfolding consume_cache_invalidation consume_found delete_under copy_deleted mark_consumed attempt
consume-acknowledged d m s h = elim (Option-cases (purchase_outbox_by_event m.event_id s.lab)) [
  | inl t ↦ inl (inl t, ground arith)
  | inr (e, t) ↦ elim (Bool-cases (is_final e.status)) [
    | inl u ↦ inl (inr (e, t, u), ground arith)
    | inr u ↦
        let done = invalidated-Completed m.event_id d.now s.lab {e = e} t u in
        inr (
          (done.0, ground (arith, done.1), done.2),
          ground (arith, lookup-delete m.material_id s.cache),
        )
  ]
]

-- A message that comes again after it is settled is acknowledged if the event can be read, and in
-- any case nothing is changed.
pub consume-Settled :
    (d : Delivery) (m : PurchaseCacheInvalidation) (s : Shop)
    → Settled m.event_id s.lab
    → ((consume_cache_invalidation d m s).0 ≡ s)
      × (d.read_fault ≡ fine → (consume_cache_invalidation d m s).1 ≡ acknowledged)
unfolding consume_cache_invalidation consume_found
consume-Settled d m s (inl t) = ground arith
consume-Settled d m s (inr (e, t, u)) = ground arith

-- With all calls answered, one delivery of a message that names the material of its event settles
-- it, and leaves no cached copy if the event was not final before.
pub consume-settles :
    (d : Delivery) (m : PurchaseCacheInvalidation) (s : Shop) (e : PurchaseLabOutbox)
    → purchase_outbox_by_event m.event_id s.lab ≡ some e
    → e.material_id ≡ m.material_id
    → d.read_fault ≡ fine
    → d.delete_fault ≡ fine
    → d.mark_fault ≡ fine
    → let s' = (consume_cache_invalidation d m s).0 in
      ((consume_cache_invalidation d m s).1 ≡ acknowledged)
      × Settled m.event_id s'.lab
      × (is_final e.status ≡ false → lookup m.material_id s'.cache ≡ none)
unfolding consume_cache_invalidation consume_found delete_under copy_deleted mark_consumed attempt
consume-settles d m s e h same r del mark = elim (Bool-cases (is_final e.status)) [
  | inl u ↦ (ground arith, inr (e, ground arith, u), λ no_copy. absurd (cc))
  | inr u ↦
      let done = invalidated-Completed m.event_id d.now s.lab {e = e} h u in
      (
        ground arith,
        inr (done.0, ground (arith, done.1), ground (arith, done.2)),
        λ t. ground (arith, lookup-delete m.material_id s.cache),
      )
]
