-- ===== src/Startup.antt =====
-- internal/database/inventory.go and reset.go, with what they call of order.go, admission.go,
-- order_identity.go and inventory_cacheaside.go: the Redis stock rebuilt from the tables, its
-- check at a start, and the reset of the experiment. The reset keeps the handlers out, and the
-- rebuild runs with the process stopped, so that the stores change by these steps only.
pub mod Recovery
pub mod Reset
pub mod Legacy
use lottery.Base.{
  ℕ, zero, suc, ◌+◌, ◌-◌, Bool, true, false, ◌&&◌, ◌||◌, not, Text, List, [], ◌∷◌, map, Option,
  none, some, Map, lookup, insert, ◌==◌, leb, ltb, if◌then◌else◌, length, found, sum_rows,
  delete_rows,
}
use lottery.Order.{
  OrderStatus, pending_payment, paid, cancelled, other_status, OrderIdentity, is_empty, is_valid,
  InventoryMode, redis_mode, mysql_mode, Order, default_activity_id,
}
use lottery.Redis.{Admission, Redis}
use lottery.Ledger.{Gift, Ledger, find_order_identity}
use lottery.Program.{Fault, fine, lost, unanswered}

pub record Stores : Type 0 where
  pub redis : Redis
  pub ledger : Ledger

abbrev occupies : OrderStatus → Bool
occupies pending_payment = true
occupies paid = true
occupies _ = false

abbrev is_redis : InventoryMode → Bool
is_redis redis_mode = true
is_redis mysql_mode = false

abbrev reserved : ℕ → ℕ → Order → ℕ
reserved activity_id gift_id o =
    if o.activity_id == activity_id
      && is_redis o.inventory_mode
      && occupies o.status
      && o.gift_id == gift_id
    then o.count
    else 0

-- CompletedOrderCounts, for one gift.
unfoldable pub completed_order_count : ℕ → ℕ → Ledger → ℕ
unfolding sum_rows
completed_order_count activity_id gift_id l = sum_rows (reserved activity_id gift_id) l.orders

-- An admission that parseAdmission accepts and that is not cancelled.
unfoldable pub is_held : Admission → Bool
unfolding is_valid
is_held a =
    (is_empty a.identity.order_id && is_empty a.identity.run_id || is_valid a.identity)
    && (elim a.state [ cancelled ↦ false | other_status ↦ false | _ ↦ true ])

unfoldable pub unpersisted_admission : ℕ → ℕ → ℕ → Option Admission → Ledger → ℕ
unfolding is_held
unpersisted_admission activity_id gift_id uid none l = 0
unpersisted_admission activity_id gift_id uid (some a) l =
    if is_held a
      && not (found (find_order_identity activity_id uid a.identity l))
      && a.gift_id == gift_id
    then 1
    else 0

-- UnpersistedAdmissionCounts, for one gift, over the users whose keys SCAN returns.
unfoldable pub unpersisted_admission_count : ℕ → ℕ → List ℕ → Stores → ℕ
unfolding unpersisted_admission lookup
unpersisted_admission_count activity_id gift_id [] s = 0
unpersisted_admission_count activity_id gift_id (uid ∷ uids) s =
    unpersisted_admission activity_id gift_id uid (lookup uid s.redis.admissions) s.ledger
    + unpersisted_admission_count activity_id gift_id uids s

-- What is left of a gift.
unfoldable pub remaining : ℕ → List ℕ → Stores → ℕ → Gift → ℕ
unfolding completed_order_count unpersisted_admission_count
remaining activity_id uids s gift_id g =
    g.count
    - (completed_order_count activity_id gift_id s.ledger
        + unpersisted_admission_count activity_id gift_id uids s)

abbrev pub ids_of : Map Gift → List ℕ
ids_of [] = []
ids_of ((gift_id, g) ∷ gifts) = gift_id ∷ ids_of gifts

unfoldable pub is_among : ℕ → List ℕ → Bool
is_among i [] = false
is_among i (j ∷ js) = j == i || is_among i js

-- The SETs of the loop of InitGiftInventory.
unfoldable pub set_remaining : ℕ → List ℕ → Stores → Map Gift → Map ℕ → Map ℕ
unfolding insert remaining
set_remaining activity_id uids s [] stock = stock
set_remaining activity_id uids s ((gift_id, g) ∷ gifts) stock =
    set_remaining activity_id uids s gifts
      (insert gift_id (remaining activity_id uids s gift_id g) stock)

abbrev pub unregistered : List ℕ → ℕ × ℕ → Bool
unregistered ids (gift_id, stock) = not (is_among gift_id ids)

-- InitGiftInventory, with all calls answered; the ids of a table are distinct, so that the set of
-- the registry is their list.
unfoldable pub init_gift_inventory : ℕ → List ℕ → Stores → Stores
unfolding set_remaining delete_rows is_among
init_gift_inventory activity_id uids s = record s {
  redis = record s.redis {
    stock =
        delete_rows (unregistered (ids_of s.ledger.inventory))
          (set_remaining activity_id uids s s.ledger.inventory s.redis.stock);
    gift_ids = ids_of s.ledger.inventory;
  };
}

pub data InventoryFault : Type 0 where
  registry_mismatched gift_unregistered stock_missing stock_out_of_range : InventoryFault

pub data Validation : Type 0 where
  valid_total : ℕ → Validation
  invalid_inventory : InventoryFault → Validation

unfoldable pub validate_stock : Option ℕ → Gift → ℕ → Validation
validate_stock none g total = invalid_inventory stock_missing
validate_stock (some count) g total =
    if ltb g.count count then invalid_inventory stock_out_of_range else valid_total (total + count)

-- The loop of ValidateGiftInventory.
unfoldable pub validate_gifts : Map Gift → Redis → ℕ → Validation
unfolding is_among lookup validate_stock
validate_gifts [] r total = valid_total total
validate_gifts ((gift_id, g) ∷ gifts) r total =
    if not (is_among gift_id r.gift_ids)
    then invalid_inventory gift_unregistered
    else elim (validate_stock (lookup gift_id r.stock) g total) [
      | invalid_inventory why ↦ invalid_inventory why
      | valid_total total' ↦ validate_gifts gifts r total'
    ]

-- ValidateGiftInventory
unfoldable pub validate_gift_inventory : Map Gift → Redis → Validation
unfolding validate_gifts
validate_gift_inventory gifts r =
    if length gifts == 0 || not (length r.gift_ids == length gifts)
    then invalid_inventory registry_mismatched
    else validate_gifts gifts r 0

-- RotateSeckillRun, ResetOrders, ResetCacheStock and clearLotteryRedisState.
unfoldable pub rotate_seckill_run : Text → Stores → Stores
rotate_seckill_run run s = record s { redis = record s.redis { run = some run } }

unfoldable pub reset_orders : Stores → Stores
reset_orders s = record s { ledger = record s.ledger { orders = []; next_id = 1 } }

-- UPDATE inventory SET cache_stock = count
unfoldable pub with_fresh_stock : Map Gift → Map Gift
with_fresh_stock [] = []
with_fresh_stock ((i, g) ∷ gifts) = (i, record g { cache_stock = g.count }) ∷ with_fresh_stock gifts

unfoldable pub reset_cache_stock : Stores → Stores
unfolding with_fresh_stock
reset_cache_stock s = record {
  redis = record s.redis { all_stock = none };
  ledger = record s.ledger { inventory = with_fresh_stock s.ledger.inventory };
}

unfoldable pub clear_lottery_redis_state : Stores → Stores
clear_lottery_redis_state s = record s {
  redis = record s.redis { stock = []; admissions = []; gift_ids = []; all_stock = none };
}

unfoldable pub under : Fault → (Stores → Stores) → Stores → Stores × Bool
under fine f s = (f s, true)
under lost f s = (s, false)
under unanswered f s = (f s, false)

-- One step after another until one fails. A step of several calls that fails is all done or not at
-- all here; nothing rests on what a failed reset leaves.
unfoldable pub in_turn : List (Fault × (Stores → Stores)) → Stores → Stores × Bool
unfolding under
in_turn [] s = (s, true)
in_turn ((fault, f) ∷ rest) s = elim (under fault f s).1 [
  | true ↦ in_turn rest (under fault f s).0
  | false ↦ ((under fault f s).0, false)
]

pub record ResetFaults : Type 0 where
  pub rotate : Fault
  pub orders : Fault
  pub cache_stock : Fault
  pub clear : Fault
  pub init : Fault

-- ResetExperimentState: after clearLotteryRedisState no admission is left for SCAN to return.
unfoldable pub reset_experiment_state : ResetFaults → Text → Stores → Stores × Bool
unfolding in_turn rotate_seckill_run reset_orders reset_cache_stock clear_lottery_redis_state
    init_gift_inventory
reset_experiment_state f run = in_turn (
    (f.rotate, rotate_seckill_run run)
    ∷ (f.orders, reset_orders)
    ∷ (f.cache_stock, reset_cache_stock)
    ∷ (f.clear, clear_lottery_redis_state)
    ∷ (f.init, init_gift_inventory default_activity_id [])
    ∷ [])
