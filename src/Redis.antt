-- ===== src/Redis.antt =====
-- internal/database/admission.go: the four Lua scripts, as functions of the keys that they touch.
-- An admission key holds the parts of its value `giftID|state|order_id|run_id`; the two legacy
-- formats have the empty identity (and `pending_payment` where no state is written).
pub mod Effects
pub mod Units
pub mod Progress
pub mod Settled
pub mod Format
use lottery.Base.{
  ℕ, zero, suc, ◌+◌, ◌-◌, ◌*◌, Bool, true, false, ◌&&◌, ◌||◌, not, Text, List, Option, none, some,
  Map, lookup, insert, ◌==◌, ◌=text◌, if◌then◌else◌,
}
use lottery.Order.{
  OrderStatus, stock_acquired, pending_payment, paid, cancelled, other_status, OrderIdentity,
  is_empty, same_identity,
}

-- `ttl_ms` is what PTTL gives for a key that expires.
pub record Admission : Type 0 where
  pub gift_id : ℕ
  pub state : OrderStatus
  pub identity : OrderIdentity
  pub ttl_ms : Option ℕ

-- `stock` is the keys gift_count_N, `admissions` the keys porder_N, `run` the key seckill:run_id,
-- `gift_ids` the registry, `all_stock` the aggregate copy of the cache-aside path.
pub record Redis : Type 0 where
  pub stock : Map ℕ
  pub admissions : Map Admission
  pub run : Option Text
  pub gift_ids : List ℕ
  pub all_stock : Option (Map ℕ)

pub data Acquire : Type 0 where
  acquired duplicate sold_out stale_run : Acquire

abbrev pub or_zero : Option ℕ → ℕ
or_zero none = 0
or_zero (some n) = n

-- The units of a gift that Redis can still give out; a missing key counts as "0".
abbrev pub stock_of : ℕ → Redis → ℕ
stock_of gift_id r = or_zero (lookup gift_id r.stock)

-- `GET seckill:run_id ~= runID` fails, also where there is no such key.
abbrev pub is_current : Option Text → Text → Bool
is_current none run_id = false
is_current (some current) run_id = current =text run_id

abbrev pub key_ttl : ℕ → Option ℕ
key_ttl zero = none
key_ttl (suc n) = some (suc n * 1000)

-- DECR of the stock and SET of the admission.
-- The value is written with both parts of the identity or with neither:
-- TryAcquireLotteryAdmission lets no identity with one of them through.
unfoldable pub take_unit : ℕ → ℕ → ℕ → OrderIdentity → Redis → Redis
take_unit uid gift_id ttl_seconds id r = record r {
  stock = insert gift_id (stock_of gift_id r - 1) r.stock;
  admissions =
      insert uid
        (record {
          gift_id = gift_id;
          state = stock_acquired;
          identity = id;
          ttl_ms = key_ttl ttl_seconds;
        })
        r.admissions;
}

-- The script from its EXISTS on.
admit : Option Admission → ℕ → ℕ → ℕ → OrderIdentity → Redis → Redis × Acquire
unfolding take_unit
admit (some held) uid gift_id ttl_seconds id r = (r, duplicate)
admit none uid gift_id ttl_seconds id r =
    if stock_of gift_id r == 0
    then (r, sold_out)
    else (take_unit uid gift_id ttl_seconds id r, acquired)

unfoldable pub acquire_script : ℕ → ℕ → ℕ → OrderIdentity → Redis → Redis × Acquire
unfolding admit
acquire_script uid gift_id ttl_seconds id r =
    if not (is_empty id.order_id) && not (is_current r.run id.run_id)
    then (r, stale_run)
    else admit (lookup uid r.admissions) uid gift_id ttl_seconds id r

-- The head that the other three scripts share: the admission, if it is that of the same gift
-- and order, and the order's run is still the current one.
owned_if : Option Admission → ℕ → OrderIdentity → Redis → Option Admission
owned_if none gift_id id r = none
owned_if (some a) gift_id id r =
    if not (a.gift_id == gift_id && same_identity a.identity id)
    then none
    else (if not (is_empty id.order_id) && not (is_current r.run id.run_id) then none else some a)

unfoldable pub owned : ℕ → ℕ → OrderIdentity → Redis → Option Admission
unfolding owned_if
owned uid gift_id id r = owned_if (lookup uid r.admissions) gift_id id r

-- SET under what PTTL gave, or without expiry where that is 0 (its last millisecond) or less.
abbrev pub kept_ttl : Option ℕ → Option ℕ
kept_ttl (some zero) = none
kept_ttl ttl = ttl

abbrev pub with_state : OrderStatus → Admission → Admission
with_state state a = record a { state = state; ttl_ms = kept_ttl a.ttl_ms }

unfoldable pub set_state : ℕ → Admission → OrderStatus → Redis → Redis
set_state uid a state r = record r { admissions = insert uid (with_state state a) r.admissions }

mark_in : OrderStatus → ℕ → Admission → Redis → Redis × ℕ
unfolding set_state
mark_in pending_payment uid a r = (r, 2)
mark_in stock_acquired uid a r = (set_state uid a pending_payment r, 1)
mark_in _ uid a r = (r, 0)

mark_if : Option Admission → ℕ → Redis → Redis × ℕ
unfolding mark_in
mark_if none uid r = (r, 0)
mark_if (some a) uid r = mark_in a.state uid a r

unfoldable pub mark_pending_payment_script : ℕ → ℕ → OrderIdentity → Redis → Redis × ℕ
unfolding mark_if owned
mark_pending_payment_script uid gift_id id r = mark_if (owned uid gift_id id r) uid r

claim_in : OrderStatus → ℕ → Admission → Redis → Redis × ℕ
unfolding set_state
claim_in paid uid a r = (r, 2)
claim_in pending_payment uid a r = (set_state uid a paid r, 1)
claim_in _ uid a r = (r, 0)

claim_if : Option Admission → ℕ → Redis → Redis × ℕ
unfolding claim_in
claim_if none uid r = (r, 0)
claim_if (some a) uid r = claim_in a.state uid a r

unfoldable pub claim_admission_script : ℕ → ℕ → OrderIdentity → Redis → Redis × ℕ
unfolding claim_if owned
claim_admission_script uid gift_id id r = claim_if (owned uid gift_id id r) uid r

-- INCR of the stock, then the state.
unfoldable pub give_back : ℕ → ℕ → Admission → Redis → Redis
unfolding set_state
give_back uid gift_id a r =
    set_state uid a cancelled (record r { stock = insert gift_id (stock_of gift_id r + 1) r.stock })

release_in : OrderStatus → ℕ → ℕ → Admission → Redis → Redis × ℕ
unfolding give_back
release_in cancelled uid gift_id a r = (r, 2)
release_in stock_acquired uid gift_id a r = (give_back uid gift_id a r, 1)
release_in pending_payment uid gift_id a r = (give_back uid gift_id a r, 1)
release_in _ uid gift_id a r = (r, 0)

release_if : Option Admission → ℕ → ℕ → Redis → Redis × ℕ
unfolding release_in
release_if none uid gift_id r = (r, 0)
release_if (some a) uid gift_id r = release_in a.state uid gift_id a r

unfoldable pub release_admission_script : ℕ → ℕ → OrderIdentity → Redis → Redis × ℕ
unfolding release_if owned
release_admission_script uid gift_id id r = release_if (owned uid gift_id id r) uid gift_id r

-- LotteryAdmission.Matches; a missing admission matches nothing.
unfoldable pub matches : Option Admission → ℕ → OrderIdentity → Bool
matches none gift_id id = false
matches (some a) gift_id id = a.gift_id == gift_id && same_identity a.identity id

pub data Script : Type 0 where
  acquires : ℕ → ℕ → ℕ → OrderIdentity → Script
  marks claims releases : ℕ → ℕ → OrderIdentity → Script

unfoldable pub run_script : Script → Redis → Redis
unfolding acquire_script mark_pending_payment_script claim_admission_script release_admission_script
run_script (acquires uid gift_id ttl_seconds id) r = (acquire_script uid gift_id ttl_seconds id r).0
run_script (marks uid gift_id id) r = (mark_pending_payment_script uid gift_id id r).0
run_script (claims uid gift_id id) r = (claim_admission_script uid gift_id id r).0
run_script (releases uid gift_id id) r = (release_admission_script uid gift_id id r).0
