-- ===== src/Consistency/Handlers/Timeout.antt =====
-- TimeoutCancel of internal/service/order.go, and handleOrderMessage of internal/mq, keep the
-- stores consistent.
use lottery.Base.{ℕ, Bool, false, Option, none, some, if◌then◌else◌}
use lottery.Order.{Order, is_empty}
use lottery.Redis.{Admission}
use lottery.Program.{
  World, ret, ◌>>=◌, on, Result, ok, err, not_found, Topic, create_order, cancel_order, Message,
}
use lottery.Service.Timeout.{
  stale, cancel_at, cancel_by, timeout_if_run, timeout_run, timeout_owned, timeout_with,
  timeout_legacy, timeout_cancel, handle_topic, handle_order_message,
}
use lottery.Consistency.Steps.{
  Told-nothing, Keeps, Ends, ret-Keeps, here-Keeps, bind-Keeps, if-Keeps, pass-Keeps,
  pass_ret-Keeps,
}
use lottery.Consistency.Functions.{
  find_order_identity-Keeps, get_lottery_admission-Keeps, current_seckill_run-Keeps,
}
use lottery.Consistency.Handlers.Cancel.{cancel-Keeps}
use lottery.Consistency.Handlers.Create.{create_redis_pending_order-Keeps}

module _ (stock : ℕ → ℕ) where
  stale-Keeps : (w : World) → Keeps stock Ends stale w
  unfolding stale ◌>>=◌
  stale-Keeps w = here-Keeps stock λ a v le. ret-Keeps stock tt

  cancel_at-Keeps :
      (c : Order) (now deadline : ℕ) (w : World) → Keeps stock Ends (cancel_at c now deadline) w
  unfolding cancel_at ◌>>=◌
  cancel_at-Keeps c now deadline w = if-Keeps stock _ (ret-Keeps stock tt) (
      bind-Keeps stock (cancel-Keeps stock c.user_id c.gift_id _ (some deadline) c.identity w)
        (λ released v le r. ret-Keeps stock tt))

  cancel_by-Keeps :
      (c : Order) (expires_at : Option ℕ) (w : World) → Keeps stock Ends (cancel_by c expires_at) w
  unfolding cancel_by ◌>>=◌
  cancel_by-Keeps c (some deadline) w =
      here-Keeps stock λ now v le. cancel_at-Keeps c now deadline v
  cancel_by-Keeps c none w =
      here-Keeps stock
        λ deadline v le. here-Keeps stock λ now u le'. cancel_at-Keeps c now deadline u

  timeout_run-Keeps : (c : Order) (w : World) → Keeps stock Ends (timeout_run c) w
  unfolding timeout_run timeout_if_run ◌>>=◌
  timeout_run-Keeps c w = if-Keeps stock (is_empty c.order_id) (cancel_by-Keeps c c.expires_at w) (
      bind-Keeps stock (current_seckill_run-Keeps stock w) (λ run v le r.
        pass-Keeps stock Ends run v (Told-nothing run v)
          (λ x p. if-Keeps stock _ (stale-Keeps v) (cancel_by-Keeps c c.expires_at v))))

  timeout_owned-Keeps :
      (c : Order) (legacy : Bool) (x : Option Admission) (w : World)
      → Keeps stock Ends (timeout_owned c legacy x) w
  unfolding timeout_owned
  timeout_owned-Keeps c legacy x w = if-Keeps stock _ (stale-Keeps w) (timeout_run-Keeps c w)

  read-Keeps :
      (c : Order) (legacy : Bool) (x : Result (Option Admission)) (w : World)
      → Keeps stock Ends
          (on x
            (λ e. if legacy then timeout_owned c legacy none else ret (err e))
            (timeout_owned c legacy))
          w
  read-Keeps c legacy (ok x) w = timeout_owned-Keeps c legacy x w
  read-Keeps c legacy (err e) w =
      if-Keeps stock legacy (timeout_owned-Keeps c legacy none w) (ret-Keeps stock tt)

  timeout_with-Keeps :
      (c : Order) (legacy : Bool) (w : World) → Keeps stock Ends (timeout_with c legacy) w
  unfolding timeout_with ◌>>=◌
  timeout_with-Keeps c legacy w =
      bind-Keeps stock (get_lottery_admission-Keeps stock c.user_id w)
        (λ x v le seen. read-Keeps c legacy x v)

  timeout_legacy-Keeps :
      (c : Order) (found : Result Order) (w : World) → Keeps stock Ends (timeout_legacy c found) w
  unfolding timeout_legacy
  timeout_legacy-Keeps c (ok o) w = timeout_with-Keeps c _ w
  timeout_legacy-Keeps c (err not_found) w = timeout_with-Keeps c false w
  timeout_legacy-Keeps c (err _) w = ret-Keeps stock tt

  -- TimeoutCancel keeps the stores consistent, whatever other handlers do between its calls.
  pub timeout_cancel-Keeps : (c : Order) (w : World) → Keeps stock Ends (timeout_cancel c) w
  unfolding timeout_cancel ◌>>=◌
  timeout_cancel-Keeps c w =
      if-Keeps stock _
        (bind-Keeps stock (find_order_identity-Keeps stock c.user_id c.identity w)
          (λ found v le r. timeout_legacy-Keeps c found v))
        (timeout_with-Keeps c false w)

  handle_topic-Keeps : (t : Topic) (c : Order) (w : World) → Keeps stock Ends (handle_topic t c) w
  unfolding handle_topic ◌>>=◌
  handle_topic-Keeps create_order c w =
      bind-Keeps stock (create_redis_pending_order-Keeps stock c w)
        (λ created v le r. pass_ret-Keeps stock _ created v)
  handle_topic-Keeps cancel_order c w = timeout_cancel-Keeps c w

  pub handle_order_message-Keeps :
      (m : Message) (w : World) → Keeps stock Ends (handle_order_message m) w
  unfolding handle_order_message
  handle_order_message-Keeps m w = handle_topic-Keeps m.topic m.order w
