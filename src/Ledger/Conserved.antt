-- ===== src/Ledger/Conserved.antt =====
-- Any sequence of operations keeps the units of the MySQL path, in `cache_stock` and in the rows of `orders`, under the statements and
-- transactions of internal/database/order.go and inventory_cacheaside.go.
use lottery.Base.{
  ℕ, ◌+◌, ◌-◌, ◌≡◌, refl, ap, ◌∙◌, inl, inr, Bool, true, false, ◌&&◌, List, [], ◌∷◌, Option, none,
  some, arith, Bool-cases, Option-cases, text_eq_ne, lookup, insert, lookup-insert, ◌==◌, ◌=text◌,
}
use lottery.Order.{
  OrderIdentity, no_identity, is_empty, redis_mode, mysql_mode, CancelReason, Order,
}
use lottery.Ledger.{
  Gift, Ledger, first, update_where, affected, has_id, of_user, is_pending, is_live, is_cancelled,
  is_mysql, in_scope, pay_row, cancel_row, pay_pending, cancel_released, mark_released, clashes,
  insert_order, restock, cancel_found, cancel_mysql_order, deduct_found, deduct_stock,
  pending_order, created_or_clash, take_and_create, admit_found, find_order, acquire_and_create,
}
use lottery.Ledger.Rows.{Ids-append, Ids-update_where, first-by_id}
use lottery.Ledger.Stock.{
  held, held_in, mysql_units, held_in-append, held_in-same, held_in-one, Anonymous, WellFormed,
  Anonymous-append, Anonymous-update,
}

-- The statements and transactions on the two tables, and a new row of the Redis path.
pub data Operation : Type 0 where
  acquires : ℕ → ℕ → ℕ → Option ℕ → Operation
  cancels : ℕ → ℕ → CancelReason → Operation
  pays : ℕ → ℕ → Operation
  releases : ℕ → ℕ → ℕ → OrderIdentity → ℕ → CancelReason → Operation
  marks : ℕ → Operation
  inserts : Order → Operation

unfoldable pub or_rollback : Option (Ledger × Bool) → Ledger → Ledger
or_rollback none l = l
or_rollback (some (l', done)) l = l'

unfoldable pub apply : Operation → Ledger → Ledger
unfolding or_rollback
apply (acquires activity_id uid gift_id expires_at) l =
    (acquire_and_create activity_id uid gift_id expires_at l).0
apply (cancels id now why) l = or_rollback (cancel_mysql_order id now why l) l
apply (pays id now) l = (pay_pending id now l).0
apply (releases activity_id uid gift_id id now why) l =
    (cancel_released activity_id uid gift_id id now why l).0
apply (marks id) l = mark_released id l
apply (inserts o) l = (insert_order o l).0

unfoldable pub apply_all : List Operation → Ledger → Ledger
unfolding apply
apply_all [] l = l
apply_all (op ∷ ops) l = apply_all ops (apply op l)

-- A release names an order by its business number, and a row that is inserted is of the Redis path.
abbrev pub OfRedis : Operation → Type 0
OfRedis (releases activity_id uid gift_id id now why) = is_empty id.order_id ≡ false
OfRedis (inserts o) = o.inventory_mode ≡ redis_mode
OfRedis _ = Unit {0}

abbrev pub AllOfRedis : List Operation → Type 0
AllOfRedis [] = Unit {0}
AllOfRedis (op ∷ ops) = OfRedis op × AllOfRedis ops

-- What an operation keeps.
abbrev Kept : ℕ → Ledger → Ledger → Type 0
Kept g l l' = WellFormed l' × (mysql_units g l' ≡ mysql_units g l)

-- An update of rows that leaves ids, identities, modes and what is held.
updated-Kept :
    (g : ℕ) (p : Order → Bool) (f : Order → Order) (l : Ledger)
    → ((o : Order) → (f o).id ≡ o.id)
    → ((o : Order) → ((f o).identity ≡ o.identity) × ((f o).inventory_mode ≡ o.inventory_mode))
    → held_in g (update_where p f l.orders) ≡ held_in g l.orders
    → WellFormed l
    → Kept g l (record l { orders = update_where p f l.orders })
unfolding mysql_units
updated-Kept g p f l id same held v = (
  record {
    ids = Ids-update_where 0 l.next_id p f l.orders id v.ids;
    anonymous = Anonymous-update p f l.orders same v.anonymous;
  },
  omega (arith, held),
)

pays-Kept : (g id now : ℕ) (l : Ledger) → WellFormed l → Kept g l (pay_pending id now l).0
unfolding pay_pending
pays-Kept g id now l v =
    updated-Kept g (λ (o : Order). has_id id o && is_pending o.status) (pay_row now) l (λ o. refl)
      (λ o. (refl, refl))
      (held_in-same g (λ (o : Order). has_id id o && is_pending o.status) (pay_row now) l.orders
        (λ o t. ground arith))
      v

marks-Kept : (g id : ℕ) (l : Ledger) → WellFormed l → Kept g l (mark_released id l)
unfolding mark_released
marks-Kept g id l v =
    updated-Kept g (λ (o : Order). has_id id o && is_cancelled o.status)
      (λ o. record o { stock_released = true }) l (λ o. refl) (λ o. (refl, refl))
      (held_in-same g (λ (o : Order). has_id id o && is_cancelled o.status)
        (λ o. record o { stock_released = true }) l.orders (λ o t. refl))
      v

inserts-Kept :
    (g : ℕ) (o : Order) (l : Ledger)
    → o.inventory_mode ≡ redis_mode
    → WellFormed l
    → Kept g l (insert_order o l).0
unfolding insert_order mysql_units
inserts-Kept g o l mode v = elim (Bool-cases (affected (clashes o) l.orders == 0)) [
  | inl t ↦
      let row = record o { id = l.next_id } in
      rw t (
        record {
          ids = Ids-append 0 l.next_id l.orders (record o { id = l.next_id }) v.ids refl;
          anonymous =
              Anonymous-append l.orders (record o { id = l.next_id }) v.anonymous
                (λ is. absurd (ground arith));
        },
        ground (arith, held_in-append g l.orders (record o { id = l.next_id })),
      )
  | inr t ↦ rw t (v, refl)
]

unnumbered :
    (o : Order) (id : OrderIdentity)
    → is_empty id.order_id ≡ false
    → o.identity ≡ no_identity
    → in_scope id o ≡ false
unnumbered o id numbered e =
    let differs : (o.order_id =text id.order_id) ≡ false =
      text_eq_ne o.order_id id.order_id (λ same. cc (e, same, numbered)) in
    rw (numbered, differs) refl

-- The rows that a release by a business number changes are not of the MySQL path.
released-same :
    (g : ℕ) (activity_id uid gift_id : ℕ) (id : OrderIdentity) (now : ℕ) (why : CancelReason)
    (os : List Order)
    → is_empty id.order_id ≡ false
    → Anonymous os
    → held_in g (
        update_where
          (λ (o : Order).
            in_scope id o && of_user activity_id uid o && o.gift_id == gift_id && is_live o.status)
          (cancel_row now why)
          os)
      ≡ held_in g os
unfolding held_in update_where
released-same g activity_id uid gift_id id now why [] numbered a = refl
released-same g activity_id uid gift_id id now why (o ∷ os) numbered (h, hs) =
    elim (Bool-cases (is_mysql o.inventory_mode)) [
      | inl t ↦ rw (unnumbered o id numbered (h t)) (
          ap (λ n. held g o + n)
            (released-same g activity_id uid gift_id id now why os numbered hs))
      | inr t ↦ ground (arith, released-same g activity_id uid gift_id id now why os numbered hs)
    ]

releases-Kept :
    (g activity_id uid gift_id : ℕ) (id : OrderIdentity) (now : ℕ) (why : CancelReason) (l : Ledger)
    → is_empty id.order_id ≡ false
    → WellFormed l
    → Kept g l (cancel_released activity_id uid gift_id id now why l).0
unfolding cancel_released
releases-Kept g activity_id uid gift_id id now why l numbered v =
    updated-Kept g
      (λ (o : Order).
        in_scope id o && of_user activity_id uid o && o.gift_id == gift_id && is_live o.status)
      (cancel_row now why) l (λ o. refl) (λ o. (refl, refl))
      (released-same g activity_id uid gift_id id now why l.orders numbered v.anonymous) v

-- What a cancellation of a row that holds its units moves.
cancelled-Kept :
    (g now : ℕ) (why : CancelReason) (l : Ledger) (o : Order) (gift : Gift)
    → first (has_id o.id) l.orders ≡ some o
    → is_mysql o.inventory_mode ≡ true
    → is_pending o.status ≡ true
    → lookup o.gift_id l.inventory ≡ some gift
    → WellFormed l
    → Kept g l (record l {
      orders = update_where (has_id o.id) (cancel_row now why) l.orders;
      inventory =
          insert o.gift_id (record gift { cache_stock = gift.cache_stock + o.count }) l.inventory;
    })
unfolding mysql_units
cancelled-Kept g now why l o gift found mode pending stocked v = (
  record {
    ids =
        Ids-update_where 0 l.next_id (has_id o.id) (cancel_row now why) l.orders (λ o. refl) v.ids;
    anonymous =
        Anonymous-update (has_id o.id) (cancel_row now why) l.orders (λ o. (refl, refl))
          v.anonymous;
  },
  ground (
    arith,
    held_in-one g o.id 0 l.next_id (cancel_row now why) l.orders {o = o} v.ids,
    lookup-insert o.gift_id g (record gift { cache_stock = gift.cache_stock + o.count })
        l.inventory,
  ),
)

cancels-Kept :
    (g id now : ℕ) (why : CancelReason) (l : Ledger)
    → WellFormed l
    → Kept g l (or_rollback (cancel_mysql_order id now why l) l)
unfolding cancel_mysql_order cancel_found restock or_rollback
cancels-Kept g id now why l v =
    elim (Option-cases
      (first (λ o. has_id id o && is_mysql o.inventory_mode && is_pending o.status) l.orders)) [
        | inl e ↦ rw e (v, refl)
        | inr (o, e) ↦
            let (found, holds, _) =
              first-by_id 0 l.next_id
                (λ o. has_id id o && is_mysql o.inventory_mode && is_pending o.status) l.orders
                {o = o} v.ids e in
            elim (Option-cases (lookup o.gift_id l.inventory)) [
              | inl missing ↦ rw (e, cancel_found, restock, missing) (v, refl)
              | inr (gift, stocked) ↦
                  rw (e, cancel_found, restock, stocked)
                    (cancelled-Kept g now why l o gift found (ground arith) (ground arith) stocked
                      v)
            ]
      ]

-- A unit is taken, and a row that holds it is inserted.
taken-Kept :
    (g : ℕ) (gift : Gift) (new : Order) (l : Ledger)
    → lookup new.gift_id l.inventory ≡ some gift
    → (gift.cache_stock == 0) ≡ false
    → held new.gift_id new ≡ 1
    → new.identity ≡ no_identity
    → WellFormed l
    → Kept g l
        (created_or_clash l (
          insert_order new (record l {
            inventory =
                insert new.gift_id (record gift { cache_stock = gift.cache_stock - 1 }) l.inventory;
          }))).0
unfolding insert_order created_or_clash mysql_units
taken-Kept g gift new l stocked left one nobody v =
    elim (Bool-cases (affected (clashes new) l.orders == 0)) [
      | inl t ↦ rw t (
        record {
          ids = Ids-append 0 l.next_id l.orders (record new { id = l.next_id }) v.ids refl;
          anonymous =
              Anonymous-append l.orders (record new { id = l.next_id }) v.anonymous (λ _. nobody);
        },
        ground (
          arith,
          held_in-append g l.orders (record new { id = l.next_id }),
          lookup-insert new.gift_id g (record gift { cache_stock = gift.cache_stock - 1 })
              l.inventory,
        ),
      )
      | inr t ↦ rw t (v, refl)
    ]

acquires-Kept :
    (g activity_id uid gift_id : ℕ) (expires_at : Option ℕ) (l : Ledger)
    → WellFormed l
    → Kept g l (acquire_and_create activity_id uid gift_id expires_at l).0
unfolding acquire_and_create admit_found take_and_create deduct_stock deduct_found pending_order
acquires-Kept g activity_id uid gift_id expires_at l v =
    elim (Option-cases (find_order activity_id uid l)) [
      | inr (o, e) ↦ rw e (v, refl)
      | inl e ↦ elim (Option-cases (lookup gift_id l.inventory)) [
        | inl missing ↦ rw (e, deduct_stock, missing) (v, refl)
        | inr (gift, stocked) ↦ elim (Bool-cases (gift.cache_stock == 0)) [
          | inl t ↦ rw (e, deduct_stock, stocked, t) (v, refl)
          | inr t ↦
              rw (e, deduct_stock, stocked, t)
                (taken-Kept g gift
                  (pending_order activity_id uid gift_id mysql_mode expires_at no_identity) l
                  stocked t (ground arith) refl v)
        ]
      ]
    ]

apply-Kept :
    (g : ℕ) (op : Operation) (l : Ledger) → OfRedis op → WellFormed l → Kept g l (apply op l)
unfolding apply
apply-Kept g (acquires activity_id uid gift_id expires_at) l ok v =
    acquires-Kept g activity_id uid gift_id expires_at l v
apply-Kept g (cancels id now why) l ok v = cancels-Kept g id now why l v
apply-Kept g (pays id now) l ok v = pays-Kept g id now l v
apply-Kept g (releases activity_id uid gift_id id now why) l ok v =
    releases-Kept g activity_id uid gift_id id now why l ok v
apply-Kept g (marks id) l ok v = marks-Kept g id l v
apply-Kept g (inserts o) l ok v = inserts-Kept g o l ok v

-- Any sequence of payments, cancellations, acquisitions and releases in MySQL, whatever their
-- results, keeps the units of each gift on the MySQL path, where the table starts with rising ids
-- and no row of the MySQL path has a business number, releases carry a business number and the rows
-- that are inserted directly are of the Redis path.
pub apply_all-Kept :
    (g : ℕ) (ops : List Operation) (l : Ledger)
    → AllOfRedis ops
    → WellFormed l
    → WellFormed (apply_all ops l) × (mysql_units g (apply_all ops l) ≡ mysql_units g l)
unfolding apply_all
apply_all-Kept g [] l ok v = (v, refl)
apply_all-Kept g (op ∷ ops) l (ok, oks) v =
    let (v', one) = apply-Kept g op l ok v in
    let (v'', rest) = apply_all-Kept g ops (apply op l) oks v' in (v'', rest ∙ one)
