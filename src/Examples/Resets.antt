-- ===== src/Examples/Resets.antt =====
-- A start and a reset at the end of the day, and what the tables did before.
use lottery.Base.{
  Text-discrete, ◌+◌, ◌≤◌, ◌≡◌, refl, List, [], ◌∷◌, true, arith, map, some, lookup, total,
}
use native.Mathlib.Decide.{ℕ_discrete}
use lottery.Order.{user_giveup}
use lottery.Redis.{stock_of}
use lottery.Redis.Units.{holds}
use lottery.Ledger.{find_order_identity}
use lottery.Ledger.Stock.{WellFormed, mysql_units}
use lottery.Ledger.Conserved.{
  Operation, acquires, cancels, pays, releases, marks, inserts, apply_all, apply_all-Kept,
}
use lottery.Program.{World, fine}
use lottery.Program.Schedule.{run}
use lottery.Consistency.{Sound}
use lottery.Consistency.Schedules.{program}
use lottery.Startup.{Stores, ResetFaults, is_among, init_gift_inventory, reset_experiment_state}
use lottery.Startup.Recovery.{DistinctIds, restored, init_gift_inventory-lookup}
use lottery.Startup.Reset.{count_of, reset_experiment_state-Sound, reset-run-holds-le-count}
use lottery.Examples.Admissions.{run_one}
use lottery.Examples.Tables.{midday, sold_order, unpaid, jobs, turns}

abbrev evening : Stores
evening = record { redis = midday.redis; ledger = midday.ledger }

one_gift : DistinctIds evening.ledger.inventory
unfolding is_among
one_gift = (refl, tt)

init_gift_inventory-lookup_example :
    lookup 7 (init_gift_inventory 1 (5 ∷ 6 ∷ []) evening).redis.stock
    ≡ restored 1 (5 ∷ 6 ∷ []) evening 7 (lookup 7 evening.ledger.inventory)
init_gift_inventory-lookup_example = init_gift_inventory-lookup 1 (5 ∷ 6 ∷ []) evening 7 one_gift

-- One unit of the ten is sold.
nine_left : lookup 7 (init_gift_inventory 1 (5 ∷ 6 ∷ []) evening).redis.stock ≡ some 9
unfolding init_gift_inventory lookup find_order_identity Text-discrete ℕ_discrete
nine_left = refl

abbrev all_fine : ResetFaults
all_fine = record { rotate = fine; orders = fine; cache_stock = fine; clear = fine; init = fine }

abbrev morning : Stores
morning = (reset_experiment_state all_fine run_one evening).0

reset_succeeds : reset_experiment_state all_fine run_one evening ≡ (morning, true)
unfolding reset_experiment_state
reset_succeeds = refl

reset_experiment_state-Sound_example :
    Sound (λ i. count_of (lookup i evening.ledger.inventory)) morning.redis morning.ledger
    × (morning.ledger.orders ≡ [])
    × (morning.redis.admissions ≡ [])
reset_experiment_state-Sound_example =
    reset_experiment_state-Sound all_fine run_one evening morning one_gift reset_succeeds

abbrev open_shop : World
open_shop = record midday { redis = morning.redis; ledger = morning.ledger }

reset-run-holds-le-count_example :
    let v = (run turns (map program jobs) open_shop).0 in
    stock_of 7 v.redis + total (holds 7) v.redis.admissions
    ≤ count_of (lookup 7 evening.ledger.inventory)
reset-run-holds-le-count_example =
    reset-run-holds-le-count all_fine run_one evening open_shop jobs turns 7 one_gift reset_succeeds

abbrev operations : List Operation
operations =
    acquires 1 6 7 (some 700)
    ∷ cancels 1 90 user_giveup
    ∷ pays 2 95
    ∷ inserts (record sold_order {
      user_id = 9;
      identity = record { order_id = 1 ∷ []; run_id = 1 ∷ [] };
    })
    ∷ releases 1 9 7 (record { order_id = 1 ∷ []; run_id = 1 ∷ [] }) 96 user_giveup
    ∷ marks 3
    ∷ []

unpaid-WellFormed : WellFormed unpaid
unpaid-WellFormed = record { ids = (omega arith, omega arith); anonymous = ((λ _. refl), tt) }

apply_all-Kept_example :
    WellFormed (apply_all operations unpaid)
    × (mysql_units 7 (apply_all operations unpaid) ≡ mysql_units 7 unpaid)
apply_all-Kept_example =
    apply_all-Kept 7 operations unpaid (tt, (tt, (tt, (refl, (refl, (tt, tt)))))) unpaid-WellFormed
