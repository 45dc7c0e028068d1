-- ===== src/Service.antt =====
-- internal/service: errors.go, and what the services share.
pub mod Create
pub mod Cancel
pub mod Pay
pub mod Timeout
pub mod Status
pub mod Draw
pub mod CacheAside
use lottery.Base.{ℕ, ◌+◌, ◌*◌, Bool, Option, none, some, Text}
use lottery.Order.{OrderStatus, InventoryMode, OrderIdentity}
use lottery.Program.{Prog, ret, ◌>>=◌, sense, clock, Result, ok, err}

-- The error codes that the modelled handlers return; the message, cause and log attributes that
-- an AppError carries besides are left out.
pub data Code : Type 0 where
  gift_db_read_failed rate_limited duplicate_participation admission_failed : Code
  redis_inventory_read_failed lottery_algo_failed gift_lookup_failed mq_send_failed : Code
  inventory_retry_exhausted order_not_owned order_create_failed order_processing : Code
  order_cancelled order_already_paid order_state_conflict giveup_rollback_failed : Code
  cache_aside_overload : Code

pub data Outcome (A : Type 0) : Type 0 where
  done : A → Outcome A
  refused : Code → Outcome A

-- `if err != nil { return NewAppError(code, ...) }`
abbrev pub or_code : {A B : Type 0} → Code → Result A → (A → Prog (Outcome B)) → Prog (Outcome B)
or_code code (ok a) k = k a
or_code code (err e) k = ret (refused code)

-- PayDelaySeconds and AdmissionGraceSeconds.
abbrev pub pay_delay_seconds : ℕ
pay_delay_seconds = 600

abbrev pub admission_grace_seconds : ℕ
admission_grace_seconds = 3600

abbrev pub nanoseconds : ℕ → ℕ
nanoseconds seconds = seconds * 1000000000

-- The command's deadline, or one that is `seconds` from now.
unfoldable pub deadline_or : Option ℕ → ℕ → Prog (Option ℕ)
deadline_or (some t) seconds = ret (some t)
deadline_or none seconds = do now ← sense clock; ret (some (now + nanoseconds seconds))

-- LotteryResult. When nothing is left, `gift_id` is 0, `inventory_mode` is `none` for the empty
-- text and `status` is `other_status` for the empty text.
pub record LotteryResult : Type 0 where
  pub identity : OrderIdentity
  pub uid : ℕ
  pub gift_id : ℕ
  pub gift_name : Text
  pub price : ℕ
  pub delay : ℕ
  pub status : OrderStatus
  pub inventory_mode : Option InventoryMode
