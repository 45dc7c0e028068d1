-- ===== src/Purchase/Failures.antt =====
-- The failing and the empty outcomes of CommitMaterialPurchase.
use lottery.Base.{ℕ, ◌<◌, ◌≡◌, inl, inr, true, some, arith, lookup, Option-cases}
use lottery.Purchase.{
  PurchaseLab, Purchase, PurchaseCommitResult, ok, answer_existing, duplicate_of, create_order,
  create_outbox, add_event, purchase_stock, purchase_body, reread, conclude,
  commit_material_purchase,
}

-- A purchase is told that the material is sold out only if fewer units are in stock than it wants,
-- and then nothing is changed.
pub commit-sold_out :
    (snapshot : PurchaseLab) (p : Purchase) (now : ℕ) (db : PurchaseLab) (c : PurchaseCommitResult)
    → (commit_material_purchase snapshot p now db).1 ≡ ok c
    → c.sold_out ≡ true
    → ((commit_material_purchase snapshot p now db).0 ≡ db)
      × ((stock : ℕ) × (lookup p.material_id db.materials ≡ some stock) × (stock < p.quantity))
unfolding commit_material_purchase conclude purchase_body purchase_stock create_order add_event
    create_outbox answer_existing duplicate_of reread
commit-sold_out snapshot p now db c h s = elim (Option-cases (lookup p.material_id db.materials)) [
  | inl t ↦ absurd (ground arith)
  | inr (stock, t) ↦ (ground arith, (stock, t, ground arith))
]
