-- ===== src/Startup/Reset.antt =====
-- The reset of the experiment leaves consistent stores with every unit in place.
use lottery.Base.{
  ℕ, ◌+◌, ◌≤◌, ◌≡◌, refl, sym, ap, subst, ◌∙◌, true, Text, List, [], ◌∷◌, map, Option, none, some,
  arith, Map, lookup, total, sum_rows,
}
use lottery.Order.{default_activity_id}
use lottery.Redis.{stock_of, or_zero}
use lottery.Redis.Units.{units, holds}
use lottery.Ledger.{Gift, first}
use lottery.Program.{World, Turn}
use lottery.Program.Schedule.{run}
use lottery.Consistency.{Sound}
use lottery.Consistency.Schedules.{Job, program, run-holds-le-stock}
use lottery.Startup.{
  Stores, ResetFaults, completed_order_count, unpersisted_admission_count, ids_of, is_among,
  with_fresh_stock, init_gift_inventory, rotate_seckill_run, reset_orders, reset_cache_stock,
  clear_lottery_redis_state, under, in_turn, reset_experiment_state,
}
use lottery.Startup.Recovery.{DistinctIds, init_gift_inventory-lookup}

abbrev fresh : Option Gift → Option Gift
fresh none = none
fresh (some g) = some (record g { cache_stock = g.count })

lookup-with_fresh_stock :
    (i : ℕ) (gifts : Map Gift) → lookup i (with_fresh_stock gifts) ≡ fresh (lookup i gifts)
unfolding lookup with_fresh_stock
lookup-with_fresh_stock i [] = refl
lookup-with_fresh_stock i ((j, g) ∷ gifts) = ground (arith, lookup-with_fresh_stock i gifts)

ids_of-with_fresh_stock : (gifts : Map Gift) → ids_of (with_fresh_stock gifts) ≡ ids_of gifts
unfolding with_fresh_stock
ids_of-with_fresh_stock [] = refl
ids_of-with_fresh_stock ((i, g) ∷ gifts) =
    ap (λ (is : List ℕ). i ∷ is) (ids_of-with_fresh_stock gifts)

with_fresh_stock-DistinctIds :
    (gifts : Map Gift) → DistinctIds gifts → DistinctIds (with_fresh_stock gifts)
unfolding with_fresh_stock
with_fresh_stock-DistinctIds [] d = tt
with_fresh_stock-DistinctIds ((i, g) ∷ gifts) (apart, d) =
    (ap (is_among i) (ids_of-with_fresh_stock gifts) ∙ apart, with_fresh_stock-DistinctIds gifts d)

-- The stores before the last step of the reset.
abbrev cleared : Text → Stores → Stores
cleared run_id s =
    clear_lottery_redis_state (reset_cache_stock (reset_orders (rotate_seckill_run run_id s)))

reset-done :
    (f : ResetFaults) (run_id : Text) (s s' : Stores)
    → reset_experiment_state f run_id s ≡ (s', true)
    → s' ≡ init_gift_inventory default_activity_id [] (cleared run_id s)
unfolding reset_experiment_state in_turn under
reset-done f run_id s s' h = ground arith

-- The configured units of a gift, 0 for a gift that the table has not.
abbrev pub count_of : Option Gift → ℕ
count_of none = 0
count_of (some g) = g.count

cleared-lookup :
    (run_id : Text) (s : Stores) (i : ℕ)
    → DistinctIds s.ledger.inventory
    → or_zero (lookup i (init_gift_inventory default_activity_id [] (cleared run_id s)).redis.stock)
      ≡ count_of (lookup i s.ledger.inventory)
unfolding clear_lottery_redis_state reset_cache_stock reset_orders rotate_seckill_run
    completed_order_count unpersisted_admission_count sum_rows
cleared-lookup run_id s i d = ground (
  arith,
  init_gift_inventory-lookup default_activity_id [] (cleared run_id s) i
      (with_fresh_stock-DistinctIds s.ledger.inventory d),
  lookup-with_fresh_stock i s.ledger.inventory,
)

cleared-orders :
    (run_id : Text) (s : Stores)
    → (init_gift_inventory default_activity_id [] (cleared run_id s)).ledger.orders ≡ []
unfolding init_gift_inventory clear_lottery_redis_state reset_cache_stock reset_orders
cleared-orders run_id s = refl

cleared-admissions :
    (run_id : Text) (s : Stores)
    → (init_gift_inventory default_activity_id [] (cleared run_id s)).redis.admissions ≡ []
unfolding init_gift_inventory clear_lottery_redis_state
cleared-admissions run_id s = refl

cleared-units :
    (run_id : Text) (s : Stores) (i : ℕ)
    → DistinctIds s.ledger.inventory
    → units i (init_gift_inventory default_activity_id [] (cleared run_id s)).redis
      ≡ count_of (lookup i s.ledger.inventory)
unfolding units total init_gift_inventory clear_lottery_redis_state
cleared-units run_id s i d = let left = cleared-lookup run_id s i d in omega (arith, left)

cleared-Sound :
    (run_id : Text) (s : Stores)
    → DistinctIds s.ledger.inventory
    → let v = init_gift_inventory default_activity_id [] (cleared run_id s) in
      Sound (λ i. count_of (lookup i s.ledger.inventory)) v.redis v.ledger
unfolding init_gift_inventory clear_lottery_redis_state reset_cache_stock reset_orders
    rotate_seckill_run first lookup
cleared-Sound run_id s d = record {
  ids = omega arith;
  backed = λ i o found mode. absurd (cc found);
  numbered = λ uid a found. absurd (cc found);
  kept = λ i. cleared-units run_id s i d;
}

-- A reset that reports success, from whatever stores, leaves consistent ones, without an order and
-- without an admission, in which the units of each gift are as many as are configured for it.
pub reset_experiment_state-Sound :
    (f : ResetFaults) (run_id : Text) (s s' : Stores)
    → DistinctIds s.ledger.inventory
    → reset_experiment_state f run_id s ≡ (s', true)
    → Sound (λ i. count_of (lookup i s.ledger.inventory)) s'.redis s'.ledger
      × (s'.ledger.orders ≡ [])
      × (s'.redis.admissions ≡ [])
reset_experiment_state-Sound f run_id s s' d h =
    let e = reset-done f run_id s s' h in
    (
      subst (λ (v : Stores). Sound (λ i. count_of (lookup i s.ledger.inventory)) v.redis v.ledger)
          (sym e) (cleared-Sound run_id s d),
      ap (λ (v : Stores). v.ledger.orders) e ∙ cleared-orders run_id s,
      ap (λ (v : Stores). v.redis.admissions) e ∙ cleared-admissions run_id s,
    )

-- After a reset that reports success nothing is ever oversold: whatever handlers run, however they
-- interleave and fail, as long as no key expires, the units of a gift left and held through the
-- Redis path are together at most as many as are configured for it.
pub reset-run-holds-le-count :
    (f : ResetFaults) (run_id : Text) (s : Stores) (w : World) (jobs : List Job) (turns : List Turn)
    (i : ℕ)
    → DistinctIds s.ledger.inventory
    → reset_experiment_state f run_id s ≡ (record { redis = w.redis; ledger = w.ledger }, true)
    → let v = (run turns (map program jobs) w).0 in
      stock_of i v.redis + total (holds i) v.redis.admissions
      ≤ count_of (lookup i s.ledger.inventory)
reset-run-holds-le-count f run_id s w jobs turns i d h =
    run-holds-le-stock (λ i. count_of (lookup i s.ledger.inventory)) jobs turns w i
      (reset_experiment_state-Sound f run_id s (record { redis = w.redis; ledger = w.ledger }) d
        h).0
