-- ===== src/Ledger/Stock.antt =====
-- The units of the MySQL path, in `cache_stock` and in the rows of `orders`, under the statements and
-- transactions of internal/database/order.go and inventory_cacheaside.go.
use lottery.Base.{
  ℕ, suc, ◌+◌, ◌<◌, ◌≡◌, refl, inl, inr, Bool, true, ◌&&◌, not, List, [], ◌∷◌, ◌++◌, Option, none,
  some, arith, Bool-cases, lookup, ◌==◌, if◌then◌else◌,
}
use lottery.Order.{no_identity, Order}
use lottery.Ledger.{Gift, Ledger, first, update_where, has_id, is_cancelled, is_mysql}
use lottery.Ledger.Rows.{Ids}

-- The units of a gift that an order of the MySQL path holds.
abbrev pub held : ℕ → Order → ℕ
held gift_id o =
    if o.gift_id == gift_id && is_mysql o.inventory_mode && not (is_cancelled o.status)
    then o.count
    else 0

unfoldable pub held_in : ℕ → List Order → ℕ
held_in gift_id [] = 0
held_in gift_id (o ∷ os) = held gift_id o + held_in gift_id os

abbrev pub cache_stock_of : Option Gift → ℕ
cache_stock_of none = 0
cache_stock_of (some g) = g.cache_stock

-- All units of a gift on the MySQL path: those left and those in orders.
unfoldable pub mysql_units : ℕ → Ledger → ℕ
mysql_units gift_id l = cache_stock_of (lookup gift_id l.inventory) + held_in gift_id l.orders

pub held_in-append :
    (g : ℕ) (os : List Order) (row : Order) → held_in g (os ++ row ∷ []) ≡ held_in g os + held g row
unfolding held_in
held_in-append g [] row = omega arith
held_in-append g (o ∷ os) row = omega (arith, held_in-append g os row)

-- An update that changes what no row holds.
pub held_in-same :
    (g : ℕ) (p : Order → Bool) (f : Order → Order) (os : List Order)
    → ((o : Order) → p o ≡ true → held g (f o) ≡ held g o)
    → held_in g (update_where p f os) ≡ held_in g os
unfolding held_in update_where
held_in-same g p f [] same = refl
held_in-same g p f (o ∷ os) same = ground (arith, same o, held_in-same g p f os same)

held_in-above :
    (g i lo hi : ℕ) (f : Order → Order) (os : List Order)
    → Ids lo hi os
    → i < lo
    → held_in g (update_where (has_id i) f os) ≡ held_in g os
unfolding held_in update_where
held_in-above g i lo hi f [] ids below = refl
held_in-above g i lo hi f (o ∷ os) (le, ids) below =
    ground (arith, held_in-above g i (suc o.id) hi f os ids)

-- The update of the one row with an id.
pub held_in-one :
    (g i lo hi : ℕ) (f : Order → Order) (os : List Order) {o : Order}
    → Ids lo hi os
    → first (has_id i) os ≡ some o
    → held_in g (update_where (has_id i) f os) + held g o ≡ held_in g os + held g (f o)
unfolding held_in update_where first
held_in-one g i lo hi f [] ids h = absurd (cc)
held_in-one g i lo hi f (x ∷ os) {o} (le, ids) h = elim (Bool-cases (has_id i x)) [
  | inl t ↦ ground (arith, held_in-above g i (suc x.id) hi f os ids)
  | inr t ↦ ground (arith, held_in-one g i (suc x.id) hi f os {o = o} ids)
]

-- A row of the MySQL path has no business number.
abbrev pub Anonymous : List Order → Type 0
Anonymous [] = Unit {0}
Anonymous (o ∷ os) = ((is_mysql o.inventory_mode ≡ true) → o.identity ≡ no_identity) × Anonymous os

pub record WellFormed (l : Ledger) : Type 0 where
  pub ids : Ids 0 l.next_id l.orders
  pub anonymous : Anonymous l.orders

pub Anonymous-append :
    (os : List Order) (row : Order)
    → Anonymous os
    → ((is_mysql row.inventory_mode ≡ true) → row.identity ≡ no_identity)
    → Anonymous (os ++ row ∷ [])
Anonymous-append [] row h r = (r, tt)
Anonymous-append (o ∷ os) row (h, hs) r = (h, Anonymous-append os row hs r)

pub Anonymous-update :
    (p : Order → Bool) (f : Order → Order) (os : List Order)
    → ((o : Order) → ((f o).identity ≡ o.identity) × ((f o).inventory_mode ≡ o.inventory_mode))
    → Anonymous os
    → Anonymous (update_where p f os)
unfolding update_where
Anonymous-update p f [] same h = tt
Anonymous-update p f (o ∷ os) same (h, hs) = elim (Bool-cases (p o)) [
  | inl t ↦ rw (t, (same o).0, (same o).1) (h, Anonymous-update p f os same hs)
  | inr t ↦ rw t (h, Anonymous-update p f os same hs)
]
