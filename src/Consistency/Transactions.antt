-- ===== src/Consistency/Transactions.antt =====
-- The two transactions of the MySQL path, and the stores' consistency.
use lottery.Base.{
  ℕ, ◌+◌, ◌-◌, ◌<◌, ◌≢◌, ◌==◌, if◌then◌else◌, insert, lookup-insert, Bool-cases, Option-cases, ◌≡◌,
  refl, sym, ap, subst, ◌∙◌, inl, inr, Bool, true, false, ◌&&◌, arith, Option, none, some, Map,
  lookup,
}
use lottery.Order.{
  OrderStatus, pending_payment, cancelled, redis_mode, mysql_mode, Order, CancelReason, no_identity,
  no_reason,
}
use lottery.Redis.{Redis}
use lottery.Redis.Progress.{may_become, Grows-refl}
use lottery.Ledger.{
  Ledger, Gift, first, has_id, is_mysql, is_pending, cancel_row, cancel_found, cancel_mysql_order,
  restock, insert_order, created_or_clash, deduct_found, deduct_stock, take_and_create, admit_found,
  acquire_and_create, find_order, pending_order, Admitted, created, existing, no_stock, clash,
  affected, clashes,
}
use lottery.Ledger.Rows.{first-by_id}
use lottery.Program.{World, perform, committed, on_ledger, cancel_mysql, acquire_mysql}
use lottery.Consistency.Rows.{
  Moves, updated, updated-Extends, updated-Sound, appended, appended-Extends, appended-Sound,
}
use lottery.Consistency.Calls.{Good}
use lottery.Consistency.{Extends, Extends-refl, Sound, Before-refl}

abbrev pub with_inventory : Map Gift → Ledger → Ledger
with_inventory m l = record l { inventory = m }

with_inventory-Sound :
    (stock : ℕ → ℕ) (m : Map Gift) (r : Redis) (l : Ledger)
    → Sound stock r l
    → Sound stock r (with_inventory m l)
with_inventory-Sound stock m r l s = record {
  ids = s.ids;
  backed = s.backed;
  numbered = s.numbered;
  kept = s.kept;
}

-- The row that the cancelling transaction looks for.
abbrev pub is_cancellable : ℕ → Order → Bool
is_cancellable id o = has_id id o && is_mysql o.inventory_mode && is_pending o.status

-- The stock after `count` units of a gift have come back.
abbrev pub Restocked : Map Gift → ℕ → Gift → ℕ → Map Gift → Type 0
Restocked old gift_id g count new =
    (i : ℕ)
    → lookup i new ≡ (
        if gift_id == i
        then some (record g { cache_stock = g.cache_stock + count })
        else lookup i old)

-- The transaction rolls back for want of the gift, finds no row to cancel, or changes that one row
-- and gives its units back.
pub data Cancels (id now : ℕ) (why : CancelReason) (l : Ledger)
    : Option (Ledger × Bool) → Type 0 where
  rolled_back :
      (o : Order)
      → first (is_cancellable id) l.orders ≡ some o
      → lookup o.gift_id l.inventory ≡ none
      → Cancels id now why l none
  too_late : first (is_cancellable id) l.orders ≡ none → Cancels id now why l (some (l, false))
  changed :
      (o : Order) (g : Gift) (m : Map Gift) (r : Option (Ledger × Bool))
      → first (is_cancellable id) l.orders ≡ some o
      → lookup o.gift_id l.inventory ≡ some g
      → Restocked l.inventory o.gift_id g o.count m
      → r ≡ some (updated (has_id o.id) (cancel_row now why) (with_inventory m l), true)
      → Cancels id now why l r

cancel_row_cases :
    (id now : ℕ) (why : CancelReason) (l : Ledger) (o : Order) (g : Option Gift)
    → first (is_cancellable id) l.orders ≡ some o
    → lookup o.gift_id l.inventory ≡ g
    → Cancels id now why l (cancel_found (some o) now why l)
unfolding cancel_found restock updated
cancel_row_cases id now why l o none e h = rw (h, cancel_found) (rolled_back o e h)
cancel_row_cases id now why l o (some g) e h =
    rw (h, cancel_found)
      (changed o g _ _ e h
        (λ i.
          lookup-insert o.gift_id i (record g { cache_stock = g.cache_stock + o.count })
            l.inventory)
        refl)

cancel_found_cases :
    (id now : ℕ) (why : CancelReason) (l : Ledger) (x : Option Order)
    → first (is_cancellable id) l.orders ≡ x
    → Cancels id now why l (cancel_found x now why l)
unfolding cancel_found
cancel_found_cases id now why l none e = too_late e
cancel_found_cases id now why l (some o) e =
    cancel_row_cases id now why l o (lookup o.gift_id l.inventory) e refl

-- The cancelling transaction of the MySQL path finds no pending order of that path with the id, and
-- leaves the tables; or finds it and not its gift, and rolls back; or cancels that one row and gives
-- exactly its units back to the stock of its gift, and of no other.
pub cancel_mysql_order-Cancels :
    (id now : ℕ) (why : CancelReason) (l : Ledger)
    → Cancels id now why l (cancel_mysql_order id now why l)
unfolding cancel_mysql_order
cancel_mysql_order-Cancels id now why l =
    cancel_found_cases id now why l (first (is_cancellable id) l.orders) refl

mysql_selected :
    (id : ℕ) (o : Order)
    → is_cancellable id o ≡ true
    → (o.inventory_mode ≡ mysql_mode) × (o.status ≡ pending_payment)
mysql_selected id o h = ground arith

same_id : (i : ℕ) (o : Order) → has_id i o ≡ true → o.id ≡ i
same_id i o h = ground arith

pending_to_cancelled : (s : OrderStatus) → s ≡ pending_payment → may_become s cancelled ≡ true
unfolding may_become
pending_to_cancelled s h = ground arith

module _ (stock : ℕ → ℕ) (v : World) (s : Sound stock v.redis v.ledger) where
  -- The row that its id finds is the one that the transaction found.
  only_row :
      (id : ℕ) (o o' : Order)
      → first (is_cancellable id) v.ledger.orders ≡ some o
      → first (has_id o'.id) v.ledger.orders ≡ some o'
      → has_id o.id o' ≡ true
      → o ≡ o'
  only_row id o o' e found h =
      let (here, _, _) =
        first-by_id 0 v.ledger.next_id (is_cancellable id) v.ledger.orders s.ids e in
      let there =
        subst (λ k. first (has_id k) v.ledger.orders ≡ some o') (same_id o.id o' h) found in
      cc

  selected_row :
      (id : ℕ) (o : Order)
      → first (is_cancellable id) v.ledger.orders ≡ some o
      → (o.inventory_mode ≡ mysql_mode) × (o.status ≡ pending_payment)
  selected_row id o e =
      let (_, holds, _) =
        first-by_id 0 v.ledger.next_id (is_cancellable id) v.ledger.orders s.ids e in
      mysql_selected id o holds

  cancel-Moves :
      (id now : ℕ) (why : CancelReason) (o : Order) (m : Map Gift)
      → first (is_cancellable id) v.ledger.orders ≡ some o
      → Moves (has_id o.id) (cancel_row now why) v.redis (with_inventory m v.ledger)
  cancel-Moves id now why o m e = record {
    id = λ o'. refl;
    later = λ o' found h. record {
      id = refl;
      identity = refl;
      gift = refl;
      user = refl;
      mode = refl;
      state = pending_to_cancelled o'.status (
          ap (λ (x : Order). x.status) (sym (only_row id o o' e found h))
          ∙ (selected_row id o e).1);
    };
    stays_backed = λ o' found h mode b.
        let is_mysql_row =
          ap (λ (x : Order). x.inventory_mode) (sym (only_row id o o' e found h))
          ∙ (selected_row id o e).0 in
        absurd (redis_is_no_mysql (sym mode ∙ is_mysql_row));
  }
    where
      redis_is_no_mysql : redis_mode ≡ mysql_mode → ⊥
      redis_is_no_mysql x = cc

  committed-Good :
      (id now : ℕ) (why : CancelReason) (x : Option (Ledger × Bool))
      → Cancels id now why v.ledger x
      → Good stock v (committed v x).0
  unfolding committed
  committed-Good id now why none c = (s, Before-refl v)
  committed-Good id now why (some (l, done)) (too_late _) = (s, Before-refl v)
  committed-Good id now why (some (l, done)) (changed o g m r e stocked more shape) =
      let m' = cancel-Moves id now why o m e in
      let l' = with_inventory m v.ledger in
      let same : l ≡ updated (has_id o.id) (cancel_row now why) l' = cc in
      rw same (
        updated-Sound stock _ _ v.redis l' m' (with_inventory-Sound stock m v.redis v.ledger s),
        (Grows-refl v.redis, updated-Extends _ _ v.redis l' m'),
      )

  pub cancel_mysql-Good :
      (id now : ℕ) (why : CancelReason) → Good stock v (perform (cancel_mysql id now why) v).0
  unfolding perform
  cancel_mysql-Good id now why =
      committed-Good id now why (cancel_mysql_order id now why v.ledger)
        (cancel_mysql_order-Cancels id now why v.ledger)

-- The row that it adds, with its id.
abbrev pub pending_row : ℕ → ℕ → ℕ → Option ℕ → ℕ → Order
pending_row activity uid gift_id expires_at id = record {
  id = id;
  identity = no_identity;
  activity_id = activity;
  gift_id = gift_id;
  user_id = uid;
  count = 1;
  status = pending_payment;
  inventory_mode = mysql_mode;
  stock_released = false;
  expires_at = expires_at;
  paid_at = none;
  cancelled_at = none;
  cancel_reason = no_reason;
}

-- The stock after one unit of a gift has gone.
abbrev pub OneLess : Map Gift → ℕ → Gift → Map Gift → Type 0
OneLess old gift_id g new =
    (i : ℕ)
    → lookup i new
      ≡ (if gift_id == i then some (record g { cache_stock = g.cache_stock - 1 }) else lookup i old)

-- The acquiring transaction shows the user's order, finds no stock, fails on the unique key, or
-- takes one unit and adds a pending row for it.
pub data Adds (activity uid gift_id : ℕ) (expires_at : Option ℕ) (l : Ledger)
    : Ledger × Admitted → Type 0 where
  ordered :
      (o : Order)
      → find_order activity uid l ≡ some o
      → Adds activity uid gift_id expires_at l (l, existing o)
  empty :
      find_order activity uid l ≡ none
      → ((g : Gift) → lookup gift_id l.inventory ≡ some g → g.cache_stock ≡ 0)
      → Adds activity uid gift_id expires_at l (l, no_stock)
  clashed :
      find_order activity uid l ≡ none
      → affected (clashes (pending_row activity uid gift_id expires_at 0)) l.orders ≢ 0
      → Adds activity uid gift_id expires_at l (l, clash)
  added :
      (g : Gift) (m : Map Gift)
      → find_order activity uid l ≡ none
      → lookup gift_id l.inventory ≡ some g
      → 0 < g.cache_stock
      → OneLess l.inventory gift_id g m
      → Adds activity uid gift_id expires_at l (
        appended (pending_row activity uid gift_id expires_at l.next_id) (with_inventory m l),
        created (pending_row activity uid gift_id expires_at l.next_id),
      )

create_cases :
    (activity uid gift_id : ℕ) (expires_at : Option ℕ) (l : Ledger) (g : Gift)
    → find_order activity uid l ≡ none
    → lookup gift_id l.inventory ≡ some g
    → (g.cache_stock == 0) ≡ false
    → Adds activity uid gift_id expires_at l (
        created_or_clash l (
          insert_order (pending_row activity uid gift_id expires_at 0) (
            with_inventory
              (insert gift_id (record g { cache_stock = g.cache_stock - 1 }) l.inventory)
              l)))
unfolding created_or_clash insert_order appended
create_cases activity uid gift_id expires_at l g free stocked left =
    elim (Bool-cases
      (affected (clashes (pending_row activity uid gift_id expires_at 0)) l.orders == 0)) [
        | inl t ↦ rw t (
            added g (insert gift_id (record g { cache_stock = g.cache_stock - 1 }) l.inventory) free
              stocked (ground (arith, left))
              (λ i.
                lookup-insert gift_id i (record g { cache_stock = g.cache_stock - 1 }) l.inventory))
        | inr t ↦ rw t (clashed free (ground (arith, t)))
      ]

-- The acquiring transaction of the MySQL path answers with the order that the user already has, or
-- that the gift has no unit left, or fails on the unique key, and then leaves both tables; or it
-- takes exactly one unit of the gift, which had one, and appends the pending row of that user and
-- gift for one unit, with the next id, which it answers with.
pub acquire_and_create-Adds :
    (activity uid gift_id : ℕ) (expires_at : Option ℕ) (l : Ledger)
    → Adds activity uid gift_id expires_at l (acquire_and_create activity uid gift_id expires_at l)
unfolding acquire_and_create admit_found take_and_create deduct_stock deduct_found pending_order
acquire_and_create-Adds activity uid gift_id expires_at l =
    elim (Option-cases (find_order activity uid l)) [
      | inr (o, e) ↦ rw e (ordered o e)
      | inl e ↦ elim (Option-cases (lookup gift_id l.inventory)) [
        | inl missing ↦ rw (e, deduct_stock, missing) (empty e (λ g h. absurd (cc (missing, h))))
        | inr (g, stocked) ↦ elim (Bool-cases (g.cache_stock == 0)) [
          | inl t ↦
              rw (e, deduct_stock, stocked, t) (empty e (λ g' h. ground (arith, t, stocked, h)))
          | inr t ↦
              rw (e, deduct_stock, stocked, t)
                (create_cases activity uid gift_id expires_at l g e stocked t)
        ]
      ]
    ]

module _ (stock : ℕ → ℕ) (v : World) (s : Sound stock v.redis v.ledger) where
  Adds-Good :
      (activity uid gift_id : ℕ) (expires_at : Option ℕ) (x : Ledger × Admitted)
      → Adds activity uid gift_id expires_at v.ledger x
      → Sound stock v.redis x.0 × Extends v.ledger x.0
  Adds-Good activity uid gift_id expires_at x (ordered o e) = (s, Extends-refl v.ledger)
  Adds-Good activity uid gift_id expires_at x (empty e none_left) = (s, Extends-refl v.ledger)
  Adds-Good activity uid gift_id expires_at x (clashed e other) = (s, Extends-refl v.ledger)
  Adds-Good activity uid gift_id expires_at x (added g m e stocked left less) =
      let s' = with_inventory-Sound stock m v.redis v.ledger s in
      let l' = with_inventory m v.ledger in
      let row = pending_row activity uid gift_id expires_at v.ledger.next_id in
      (
        appended-Sound stock row v.redis l' refl (λ x. absurd (redis_is_no_mysql x)) s',
        appended-Extends stock row v.redis l' refl s',
      )
    where
      redis_is_no_mysql : mysql_mode ≡ redis_mode → ⊥
      redis_is_no_mysql x = cc

  pub acquire_mysql-Good :
      (activity uid gift_id : ℕ) (expires_at : Option ℕ)
      → Good stock v (perform (acquire_mysql activity uid gift_id expires_at) v).0
  unfolding perform on_ledger
  acquire_mysql-Good activity uid gift_id expires_at =
      let (s', e) =
        Adds-Good activity uid gift_id expires_at
          (acquire_and_create activity uid gift_id expires_at v.ledger)
          (acquire_and_create-Adds activity uid gift_id expires_at v.ledger) in
      (s', (Grows-refl v.redis, e))
