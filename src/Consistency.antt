-- ===== src/Consistency.antt =====
-- The stores of the order services (internal/service/order.go and lottery.go) taken together: what
-- holds of Redis and MySQL at every moment while handlers of one run are under way. Left out are
-- the expiry of keys (an admission outlives its deadline by an hour) and the reset, which waits for
-- all handlers to end.
pub mod Rows
pub mod Calls
pub mod Statements
pub mod Transactions
pub mod Facts
pub mod Steps
pub mod Functions
pub mod Recording
pub mod Cancelling
pub mod Stock
pub mod Handlers
pub mod Schedules
use lottery.Base.{ℕ, ◌≡◌, refl, ◌∙◌, ◌≢◌, [], Option, some, none, lookup, true}
use lottery.Order.{OrderStatus, paid, cancelled, OrderIdentity, InventoryMode, redis_mode, Order}
use lottery.Redis.{Admission, Redis}
use lottery.Redis.Units.{units}
use lottery.Redis.Progress.{
  may_become, may_become_refl, may_become_trans, Grows, Grows-refl, Grows-trans, Later, Numbered,
}
use lottery.Ledger.{Ledger, first, has_id}
use lottery.Ledger.Rows.{Ids}
use lottery.Program.{World}
use lottery.Program.Safety.{Rely}

-- One order is a later state of another.
pub record LaterOrder (o o' : Order) : Type 0 where
  pub id : o'.id ≡ o.id
  pub identity : o'.identity ≡ o.identity
  pub gift : o'.gift_id ≡ o.gift_id
  pub user : o'.user_id ≡ o.user_id
  pub mode : o'.inventory_mode ≡ o.inventory_mode
  pub state : may_become o.status o'.status ≡ true

pub LaterOrder-refl : (o : Order) → LaterOrder o o
LaterOrder-refl o = record {
  id = refl;
  identity = refl;
  gift = refl;
  user = refl;
  mode = refl;
  state = may_become_refl o.status;
}

pub LaterOrder-trans : (o p q : Order) → LaterOrder o p → LaterOrder p q → LaterOrder o q
LaterOrder-trans o p q a b = record {
  id = b.id ∙ a.id;
  identity = b.identity ∙ a.identity;
  gift = b.gift ∙ a.gift;
  user = b.user ∙ a.user;
  mode = b.mode ∙ a.mode;
  state = may_become_trans o.status p.status q.status a.state b.state;
}

-- Every order of one table is there, perhaps later, in another.
abbrev pub Extends : Ledger → Ledger → Type 0
Extends l l' =
    (i : ℕ) (o : Order)
    → first (has_id i) l.orders ≡ some o
    → (o' : Order) × (first (has_id i) l'.orders ≡ some o') × LaterOrder o o'

pub Extends-refl : (l : Ledger) → Extends l l
Extends-refl l i o e = (o, e, LaterOrder-refl o)

pub Extends-trans : (l m n : Ledger) → Extends l m → Extends m n → Extends l n
Extends-trans l m n f g i o e =
    let (p, e', a) = f i o e in let (q, e'', b) = g i p e' in (q, e'', LaterOrder-trans o p q a b)

-- The admission behind an order of the Redis path: the user's, for the same gift and order; a paid
-- order has a paid admission, and a cancelled order one that has given back its unit.
pub record Backed (o : Order) (r : Redis) : Type 0 where
  pub admission : Admission
  pub found : lookup o.user_id r.admissions ≡ some admission
  pub gift : admission.gift_id ≡ o.gift_id
  pub same : admission.identity ≡ o.identity
  pub pays : o.status ≡ paid → admission.state ≡ paid
  pub cancels : o.status ≡ cancelled → admission.state ≡ cancelled

-- `stock` is what the run began with: units left and units held, for each gift.
pub record Sound (stock : ℕ → ℕ) (r : Redis) (l : Ledger) : Type 0 where
  pub ids : Ids 0 l.next_id l.orders
  pub backed :
      (i : ℕ) (o : Order)
      → first (has_id i) l.orders ≡ some o
      → o.inventory_mode ≡ redis_mode
      → Backed o r
  pub numbered : Numbered r
  pub kept : (gift_id : ℕ) → units gift_id r ≡ stock gift_id

abbrev pub Before : World → World → Type 0
Before w v = Grows w.redis v.redis × Extends w.ledger v.ledger

pub Before-refl : (w : World) → Before w w
Before-refl w = (Grows-refl w.redis, Extends-refl w.ledger)

pub Before-trans : (u v w : World) → Before u v → Before v w → Before u w
Before-trans u v w a b =
    (Grows-trans u.redis v.redis w.redis a.0 b.0, Extends-trans u.ledger v.ledger w.ledger a.1 b.1)

abbrev pub consistency : (ℕ → ℕ) → Rely
consistency stock = record {
  Inv = λ w. Sound stock w.redis w.ledger;
  Le = Before;
  le_refl = Before-refl;
  le_trans = Before-trans;
}
