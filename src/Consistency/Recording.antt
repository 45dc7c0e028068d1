-- ===== src/Consistency/Recording.antt =====
-- The functions of internal/database that write order rows keep the stores consistent, under what
-- their callers know of the admission.
use lottery.Base.{
  ℕ, ◌≡◌, refl, ap, subst, ◌∙◌, inl, inr, Bool, true, false, ◌==◌, arith, Option, none, some,
  if◌then◌else◌,
}
use lottery.Order.{
  cancelled, OrderIdentity, InventoryMode, Order, CancelReason, default_activity_id,
}
use lottery.Redis.{Admission, Redis, matches}
use lottery.Redis.Settled.{Settled}
use lottery.Ledger.{Ledger, pending_order, first, has_id}
use lottery.Ledger.Rows.{first-append}
use lottery.Program.{World, ret, ◌>>=◌, pass, Result, ok, err, perform, insert_row}
use lottery.Store.Orders.{
  existing_order, created_order, create_pending_order, cancelled_order, drop_cache_if, cancelled_in,
  cancel_mysql_order_and_restore_stock,
}
use lottery.Consistency.{LaterOrder-refl, Backed, Sound}
use lottery.Consistency.Rows.{appended}
use lottery.Consistency.Calls.{del_all_stock-Good}
use lottery.Consistency.Statements.{insert-Good, insert_cases}
use lottery.Consistency.Transactions.{cancel_mysql-Good}
use lottery.Consistency.Facts.{Seen, Seen-Before, Known, matches-eq}
use lottery.Consistency.Steps.{Told, Keeps, Ends, ret-Keeps, call-Keeps, here-Keeps, bind-Keeps}
use lottery.Consistency.Functions.{find_order_identity-Keeps, find_order_by_id-Keeps}

-- A pending order of the user's live admission.
pending-Backed :
    (activity uid gift_id : ℕ) (mode : InventoryMode) (expires_at : Option ℕ) (id : OrderIdentity)
    (a : Admission) (w : World)
    → matches (some a) gift_id id ≡ true
    → Seen uid a w
    → Backed (pending_order activity uid gift_id mode expires_at id) w.redis
unfolding pending_order
pending-Backed activity uid gift_id mode expires_at id a w h s =
    let (gift, same) = matches-eq a gift_id id h in
    record {
      admission = s.now;
      found = s.found;
      gift = s.later.gift ∙ gift;
      same = s.later.identity ∙ same;
      pays = λ e. absurd (cc);
      cancels = λ e. absurd (cc);
    }

pub cancelled-Backed :
    (uid gift_id : ℕ) (id : OrderIdentity) (expires_at : Option ℕ) (now : ℕ) (why : CancelReason)
    (r : Redis)
    → Settled uid gift_id id cancelled r
    → Backed (cancelled_order uid gift_id id expires_at now why) r
unfolding cancelled_order pending_order
cancelled-Backed uid gift_id id expires_at now why r s = record {
  admission = s.admission;
  found = s.found;
  gift = s.gift;
  same = s.same;
  pays = λ e. absurd (cc);
  cancels = λ e. s.reached;
}

if_same : (n : ℕ) (x y : Option Order) → (if n == n then x else y) ≡ x
if_same n x y = ground arith

-- A row that the INSERT made is in the table.
inserted-Known :
    (stock : ℕ → ℕ) (uid : ℕ) (id : OrderIdentity) (o row : Order) (w : World)
    → Sound stock w.redis w.ledger
    → o.user_id ≡ uid
    → o.identity ≡ id
    → (perform (insert_row o) w).1 ≡ some row
    → Known uid id row (perform (insert_row o) w).0
unfolding perform appended
inserted-Known stock uid id o row w s user same e = elim (insert_cases o w.ledger) [
  | inl (_, none_made) ↦ absurd (cc)
  | inr (table, made) ↦
      let is_row : record o { id = w.ledger.next_id } ≡ row = cc in
      subst (λ x. Known uid id x (perform (insert_row o) w).0) is_row
        (record {
          user = user;
          same = λ _. same;
          row = record o { id = w.ledger.next_id };
          found =
              ap (λ (l : Ledger). first (has_id w.ledger.next_id) l.orders) table
              ∙ first-append 0 w.ledger.next_id w.ledger.next_id w.ledger.orders
                  (record o { id = w.ledger.next_id }) s.ids refl
              ∙ if_same w.ledger.next_id _ _;
          later = LaterOrder-refl _;
        })
]

-- What the creation of an order tells.
abbrev pub Created : ℕ → OrderIdentity → Order × Bool → World → Type 0
Created uid id (o, duplicated) w = Known uid id o w

module _ (stock : ℕ → ℕ) where
  existing-Known :
      (uid : ℕ) (id : OrderIdentity) (found : Result Order) (w : World)
      → Told (Known uid id) found w
      → Told (Created uid id) (existing_order found) w
  unfolding existing_order
  existing-Known uid id (ok o) w k = k
  existing-Known uid id (err e) w k = tt

  created_order-Keeps :
      (uid : ℕ) (id : OrderIdentity) (x : Option Order) (w : World)
      → ((o : Order) → x ≡ some o → Known uid id o w)
      → Keeps stock (Told (Created uid id)) (created_order uid id x) w
  unfolding created_order ◌>>=◌
  created_order-Keeps uid id (some o) w k = ret-Keeps stock (k o refl)
  created_order-Keeps uid id none w k =
      bind-Keeps stock (find_order_identity-Keeps stock uid id w)
        (λ found v le r. ret-Keeps stock (existing-Known uid id found v r))

  pub create_pending_order-Keeps :
      (uid gift_id : ℕ) (mode : InventoryMode) (expires_at : Option ℕ) (id : OrderIdentity)
      (a : Admission) (w : World)
      → matches (some a) gift_id id ≡ true
      → Seen uid a w
      → Keeps stock (Told (Created uid id)) (create_pending_order uid gift_id mode expires_at id) w
  unfolding create_pending_order ◌>>=◌
  create_pending_order-Keeps uid gift_id mode expires_at id a w h seen =
      call-Keeps stock
        (λ v s le. insert-Good stock v s _ (λ m.
          pending-Backed default_activity_id uid gift_id mode expires_at id a v h
            (Seen-Before uid a w v le seen)))
        (λ v s le le'. created_order-Keeps uid id _ _ (λ o e.
          inserted-Known stock uid id
            (pending_order default_activity_id uid gift_id mode expires_at id) o v s
            (unfold pending_order in refl) (unfold pending_order in refl) e))
        (λ v le. ret-Keeps stock tt)

  drop_cache_if-Keeps : (b : Bool) (w : World) → Keeps stock Ends (drop_cache_if b) w
  unfolding drop_cache_if ◌>>=◌
  drop_cache_if-Keeps false w = ret-Keeps stock tt
  drop_cache_if-Keeps true w =
      call-Keeps stock (λ v s le. del_all_stock-Good stock v s) (λ v s le le'. ret-Keeps stock tt)
        (λ v le. ret-Keeps stock tt)

  found_cancelled-Keeps :
      (done : Bool) (found : Result Order) (w : World)
      → Keeps stock Ends
          (pass {B = Order × Bool} found
            λ (o : Order). (drop_cache_if done >>= λ _. ret (ok (o, done))))
          w
  unfolding ◌>>=◌
  found_cancelled-Keeps done (ok o) w =
      bind-Keeps stock (drop_cache_if-Keeps done w) (λ a v le r. ret-Keeps stock tt)
  found_cancelled-Keeps done (err e) w = ret-Keeps stock tt

  cancelled_in-Keeps :
      (id : ℕ) (x : Option Bool) (w : World) → Keeps stock Ends (cancelled_in id x) w
  unfolding cancelled_in ◌>>=◌
  cancelled_in-Keeps id none w = ret-Keeps stock tt
  cancelled_in-Keeps id (some done) w =
      bind-Keeps stock (find_order_by_id-Keeps stock id w)
        (λ found v le r. found_cancelled-Keeps done found v)

  pub cancel_mysql_order-Keeps :
      (id : ℕ) (why : CancelReason) (w : World)
      → Keeps stock Ends (cancel_mysql_order_and_restore_stock id why) w
  unfolding cancel_mysql_order_and_restore_stock ◌>>=◌
  cancel_mysql_order-Keeps id why w = here-Keeps stock λ now v le.
      call-Keeps stock (λ u s le'. cancel_mysql-Good stock u s id now why)
        (λ u s le' le''. cancelled_in-Keeps id _ _) (λ u le'. ret-Keeps stock tt)
