-- ===== src/Startup/Recovery.antt =====
-- What InitGiftInventory leaves in Redis, and that ValidateGiftInventory accepts it.
use lottery.Base.{
  ℕ, ◌+◌, ◌-◌, ◌≤◌, ◌≡◌, ◌≢◌, refl, ap, ◌∙◌, true, false, List, [], ◌∷◌, Option, none, some, arith,
  Map, lookup, insert, lookup-insert, ◌==◌, if◌then◌else◌, length, found, delete_rows,
}
use lottery.Redis.{Redis}
use lottery.Ledger.{Gift}
use lottery.Startup.{
  Stores, completed_order_count, unpersisted_admission_count, remaining, ids_of, is_among,
  set_remaining, unregistered, init_gift_inventory, Validation, valid_total, invalid_inventory,
  validate_stock, validate_gifts, validate_gift_inventory,
}

-- The keys of the gifts differ.
abbrev pub DistinctIds : Map Gift → Type 0
DistinctIds [] = Unit {0}
DistinctIds ((gift_id, g) ∷ gifts) = (is_among gift_id (ids_of gifts) ≡ false) × DistinctIds gifts

pub lookup-delete :
    (i : ℕ) (ids : List ℕ) (m : Map ℕ)
    → lookup i (delete_rows (unregistered ids) m) ≡ (if is_among i ids then lookup i m else none)
unfolding lookup delete_rows
lookup-delete i ids [] = ground arith
lookup-delete i ids ((j, n) ∷ m) =
    ground (arith, lookup-delete i ids m, ap (λ (k : ℕ). is_among k ids) {x = j} {y = i})

lookup-is_among :
    (i : ℕ) (gifts : Map Gift) → is_among i (ids_of gifts) ≡ false → lookup i gifts ≡ none
unfolding lookup is_among
lookup-is_among i [] h = refl
lookup-is_among i ((j, g) ∷ gifts) h = ground (arith, lookup-is_among i gifts)

-- What the loop writes for a gift.
abbrev after_loop : ℕ → List ℕ → Stores → ℕ → Option Gift → Option ℕ → Option ℕ
after_loop activity_id uids s i none old = old
after_loop activity_id uids s i (some g) old = some (remaining activity_id uids s i g)

lookup-set_remaining :
    (activity_id : ℕ) (uids : List ℕ) (s : Stores) (i : ℕ) (gifts : Map Gift) (m : Map ℕ)
    → DistinctIds gifts
    → lookup i (set_remaining activity_id uids s gifts m)
      ≡ after_loop activity_id uids s i (lookup i gifts) (lookup i m)
unfolding set_remaining lookup
lookup-set_remaining activity_id uids s i [] m d = refl
lookup-set_remaining activity_id uids s i ((j, g) ∷ gifts) m (apart, d) = ground (
  arith,
  lookup-set_remaining activity_id uids s i gifts (insert j (remaining activity_id uids s j g) m) d,
  lookup-insert j i (remaining activity_id uids s j g) m,
  lookup-is_among j gifts apart,
  ap (λ (k : ℕ). lookup k gifts) {x = j} {y = i},
  ap (λ (k : ℕ). remaining activity_id uids s k g) {x = j} {y = i},
)

is_among-found : (i : ℕ) (gifts : Map Gift) → is_among i (ids_of gifts) ≡ found (lookup i gifts)
unfolding is_among lookup
is_among-found i [] = refl
is_among-found i ((j, g) ∷ gifts) = ground (arith, is_among-found i gifts)

-- What is left of a gift that the table has; `none` stands for a gift that it has not.
abbrev pub restored : ℕ → List ℕ → Stores → ℕ → Option Gift → Option ℕ
restored activity_id uids s i none = none
restored activity_id uids s i (some g) = some (
    g.count
    - (completed_order_count activity_id i s.ledger
        + unpersisted_admission_count activity_id i uids s))

-- InitGiftInventory leaves in Redis, for each gift of the table, its configured count less the
-- units in pending and paid orders of the Redis path and those of admissions that have no order
-- yet, or 0 if these are more; and for any other gift no stock at all, whatever Redis held before.
pub init_gift_inventory-lookup :
    (activity_id : ℕ) (uids : List ℕ) (s : Stores) (i : ℕ)
    → DistinctIds s.ledger.inventory
    → lookup i (init_gift_inventory activity_id uids s).redis.stock
      ≡ restored activity_id uids s i (lookup i s.ledger.inventory)
unfolding init_gift_inventory remaining
init_gift_inventory-lookup activity_id uids s i d = ground (
  arith,
  lookup-delete i (ids_of s.ledger.inventory)
      (set_remaining activity_id uids s s.ledger.inventory s.redis.stock),
  lookup-set_remaining activity_id uids s i s.ledger.inventory s.redis.stock d,
  is_among-found i s.ledger.inventory,
)

-- A property of every gift with its id.
abbrev Each : (ℕ → Gift → Type 0) → Map Gift → Type 0
Each P [] = Unit {0}
Each P ((i, g) ∷ gifts) = P i g × Each P gifts

Each-lookup :
    (P : ℕ → Gift → Type 0) (gifts : Map Gift)
    → DistinctIds gifts
    → ((i : ℕ) (g : Gift) → lookup i gifts ≡ some g → P i g)
    → Each P gifts
unfolding lookup
Each-lookup P [] d h = tt
Each-lookup P ((i, g) ∷ gifts) (apart, d) h = (
  h i g (ground arith),
  Each-lookup P gifts d (λ j g' e. h j g' (
      ground
        (arith, e, lookup-is_among i gifts apart, ap (λ (k : ℕ). lookup k gifts) {x = i} {y = j}))),
)

-- A gift that is registered and has its stock in range.
abbrev Served : Redis → ℕ → Gift → Type 0
Served r i g =
    (is_among i r.gift_ids ≡ true) × ((n : ℕ) × (lookup i r.stock ≡ some n) × (n ≤ g.count))

abbrev IsValidTotal : Validation → Type 0
IsValidTotal (valid_total n) = Unit {0}
IsValidTotal (invalid_inventory why) = ⊥

validate_gifts-valid :
    (gifts : Map Gift) (r : Redis) (total : ℕ)
    → Each (Served r) gifts
    → (n : ℕ) × (validate_gifts gifts r total ≡ valid_total n)
unfolding validate_gifts validate_stock
validate_gifts-valid [] r total h = (total, refl)
validate_gifts-valid ((i, g) ∷ gifts) r total ((among, (n, at, le)), h) =
    let (m, e) = validate_gifts-valid gifts r (total + n) h in (m, ground arith)

length-ids_of : (gifts : Map Gift) → length (ids_of gifts) ≡ length gifts
length-ids_of [] = refl
length-ids_of ((i, g) ∷ gifts) = omega (arith, length-ids_of gifts)

nonempty : (gifts : Map Gift) → gifts ≢ [] → (length gifts == 0) ≡ false
nonempty [] h = absurd (h refl)
nonempty (x ∷ gifts) h = ground arith

-- What InitGiftInventory leaves passes ValidateGiftInventory, for any table with gifts and
-- whatever Redis held before.
pub init_gift_inventory-valid :
    (activity_id : ℕ) (uids : List ℕ) (s : Stores)
    → DistinctIds s.ledger.inventory
    → s.ledger.inventory ≢ []
    → (total : ℕ) × (validate_gift_inventory s.ledger.inventory
          (init_gift_inventory activity_id uids s).redis
        ≡ valid_total total)
unfolding validate_gift_inventory
init_gift_inventory-valid activity_id uids s d some_gift =
    let r = (init_gift_inventory activity_id uids s).redis in
    let served = Each-lookup (Served r) s.ledger.inventory d (λ i g e. (
      unfold init_gift_inventory in ground (arith, is_among-found i s.ledger.inventory, e),
      (
        g.count
            - (completed_order_count activity_id i s.ledger
                + unpersisted_admission_count activity_id i uids s),
        init_gift_inventory-lookup activity_id uids s i d ∙ ap (restored activity_id uids s i) e,
        omega arith,
      ),
    )) in
    let (total, e) = validate_gifts-valid s.ledger.inventory r 0 served in
    (
      total,
      unfold init_gift_inventory in
          ground (arith, length-ids_of s.ledger.inventory, nonempty s.ledger.inventory some_gift),
    )
