-- ===== src/Purchase/Consumer.antt =====
-- internal/service/purchase_experiment.go: the consumer of the invalidation messages, and a
-- purchase of the experiment with its deletion of the cached copy.
use lottery.Base.{
  ℕ, zero, suc, Bool, true, false, ◌||◌, not, Text, List, [], ◌∷◌, Option, none, some, Map, ◌==◌,
  if◌then◌else◌, delete_rows,
}
use lottery.Program.{Fault, fine, lost, unanswered}
use lottery.Purchase.{PurchaseLabOutbox, PurchaseLab}
use lottery.Purchase.Outbox.{
  is_final, purchase_outbox_by_event, mark_purchase_outbox_invalidated,
  record_purchase_outbox_consumer_failure,
}
use lottery.Purchase.Publisher.{PurchaseCacheInvalidation, attempt}

-- The tables and the cached copies of the materials, by the material's id: the stock in the copy.
pub record Shop : Type 0 where
  pub lab : PurchaseLab
  pub cache : Map ℕ

-- DEL of the copy.
unfoldable pub delete_material_detail_cache : ℕ → Map ℕ → Map ℕ
unfolding delete_rows
delete_material_detail_cache material_id cache = delete_rows (λ e. e.0 == material_id) cache

unfoldable pub delete_under : Fault → ℕ → Shop → Shop × Bool
unfolding delete_material_detail_cache
delete_under fine m s = (record s { cache = delete_material_detail_cache m s.cache }, true)
delete_under lost m s = (s, false)
delete_under unanswered m s = (record s { cache = delete_material_detail_cache m s.cache }, false)

-- The fates of the calls of one delivery, its time and the text of a failure.
pub record Delivery : Type 0 where
  pub read_fault : Fault
  pub delete_fault : Fault
  pub record_fault : Fault
  pub mark_fault : Fault
  pub now : ℕ
  pub cause : Text

pub data Consumed : Type 0 where
  -- nil, for which the message is acknowledged, or an error, for which it comes again
  acknowledged : Consumed
  read_failed material_mismatch delete_failed mark_failed : Consumed

abbrev is_fine : Fault → Bool
is_fine fine = true
is_fine _ = false

abbrev write_under : Fault → (PurchaseLab → PurchaseLab) → Shop → Shop
write_under fault f s = record s { lab = (attempt fault f s.lab).0 }

unfoldable pub mark_consumed : Delivery → Text → Shop → Shop × Consumed
unfolding attempt
mark_consumed d event_id s = (
  write_under d.mark_fault (mark_purchase_outbox_invalidated event_id d.now) s,
  if is_fine d.mark_fault then acknowledged else mark_failed,
)

unfoldable pub copy_deleted : Delivery → Text → Bool → Shop → Shop × Consumed
unfolding attempt mark_consumed
copy_deleted d event_id true s = mark_consumed d event_id s
copy_deleted d event_id false s = (
  write_under d.record_fault (record_purchase_outbox_consumer_failure event_id d.cause) s,
  delete_failed,
)

unfoldable pub consume_found :
    Delivery → PurchaseCacheInvalidation → Option PurchaseLabOutbox → Shop → Shop × Consumed
unfolding copy_deleted delete_under
consume_found d m none s = (s, acknowledged)
consume_found d m (some e) s =
    if is_final e.status
    then (s, acknowledged)
    else if not (e.material_id == m.material_id)
    then (s, material_mismatch)
    else let (s', deleted) = delete_under d.delete_fault m.material_id s in
      copy_deleted d m.event_id deleted s'

unfoldable pub consume_cache_invalidation :
    Delivery → PurchaseCacheInvalidation → Shop → Shop × Consumed
unfolding consume_found
consume_cache_invalidation d m s =
    if is_fine d.read_fault
    then consume_found d m (purchase_outbox_by_event m.event_id s.lab) s
    else (s, read_failed)

-- deleteMaterialCacheWithRetry: the tries that the surroundings give, the last without a wait, and
-- after each of the others whether the caller gives up during the wait.
unfoldable pub delete_with_retry : ℕ → List (Fault × Bool) → ℕ → Shop → Shop × Bool
unfolding delete_under
delete_with_retry zero tries m s = (s, false)
delete_with_retry (suc left) [] m s = (s, false)
delete_with_retry (suc left) ((fault, gives_up) ∷ tries) m s =
    let rest = delete_with_retry left tries m (delete_under fault m s).0 in
    if (delete_under fault m s).1
    then ((delete_under fault m s).0, true)
    else if left == 0 || gives_up
    then ((delete_under fault m s).0, false)
    else rest
