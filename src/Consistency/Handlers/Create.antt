-- ===== src/Consistency/Handlers/Create.antt =====
-- CreateRedisPendingOrder of internal/service/order.go keeps the stores consistent.
use lottery.Base.{
  ℕ, ◌≡◌, refl, sym, inl, inr, subst, Bool, true, false, not, ◌==◌, ◌||◌, arith, Option, none, some,
}
use lottery.Order.{OrderStatus, paid, cancelled, redis_mode, Order, is_empty}
use lottery.Redis.{Admission, matches}
use lottery.Redis.Settled.{Settled}
use lottery.Ledger.{is_mysql}
use lottery.Program.{World, ◌>>=◌, pass}
use lottery.Store.Admissions.{mark_lottery_admission_pending_payment}
use lottery.Service.{deadline_or}
use lottery.Service.Create.{
  is_final, ignored, settle_in, settle, advance, project, created_as, create_in, create_current,
  create_if_run, create_owned, create_for, create_redis_pending_order,
}
use lottery.Consistency.Facts.{Seen, Seen-Before, Seen-Settled, Known}
use lottery.Consistency.Steps.{
  Told-nothing, Keeps, Ends, ret-Keeps, here-Keeps, bind-Keeps, if-Keeps, pass-Keeps,
  pass_ret-Keeps, test-Keeps, unless-Keeps,
}
use lottery.Consistency.Functions.{
  SeenIf, get_lottery_admission-Keeps, mark_lottery_admission-Keeps, current_seckill_run-Keeps,
  transition_pending_order_to_paid-Keeps,
}
use lottery.Consistency.Recording.{Created, create_pending_order-Keeps}
use lottery.Consistency.Cancelling.{record_released-Keeps}

same_gift : (a b : ℕ) (x : Bool) → (not (a == b) || x) ≡ false → a ≡ b
same_gift a b x h = ground arith

module _ (stock : ℕ → ℕ) where
  pub ignored-Keeps : (w : World) → Keeps stock Ends ignored w
  unfolding ignored ◌>>=◌
  ignored-Keeps w = here-Keeps stock λ a v le. ret-Keeps stock tt

  settle_in-Keeps :
      (state : OrderStatus) (c : Order) (expires_at : Option ℕ) (w : World)
      → (state ≡ cancelled → Settled c.user_id c.gift_id c.identity cancelled w.redis)
      → Keeps stock Ends (settle_in state c expires_at) w
  unfolding settle_in ◌>>=◌
  settle_in-Keeps cancelled c expires_at w s =
      bind-Keeps stock
        (record_released-Keeps stock c.user_id c.gift_id expires_at _ c.identity w (s refl))
        (λ recorded v le r. pass_ret-Keeps stock _ recorded v)
  settle_in-Keeps _ c expires_at w s = ret-Keeps stock tt

  settle-Keeps :
      (x : Option Admission) (c : Order) (expires_at : Option ℕ) (w : World)
      → SeenIf c.user_id x w
      → Keeps stock Ends (settle x c expires_at) w
  unfolding settle
  settle-Keeps none c expires_at w seen = ret-Keeps stock tt
  settle-Keeps (some a) c expires_at w seen =
      test-Keeps stock (matches (some a) c.gift_id c.identity)
        (λ h.
          settle_in-Keeps a.state c expires_at w
            (λ e. Seen-Settled c.user_id c.gift_id c.identity cancelled a w (inr refl) e h seen))
        (ret-Keeps stock tt)

  advance-Keeps :
      (c : Order) (expires_at : Option ℕ) (b : Bool) (w : World)
      → Keeps stock Ends (advance c expires_at b) w
  unfolding advance ◌>>=◌
  advance-Keeps c expires_at true w = here-Keeps stock λ a v le. ret-Keeps stock tt
  advance-Keeps c expires_at false w =
      bind-Keeps stock (get_lottery_admission-Keeps stock c.user_id w) (λ again v le seen.
        pass-Keeps stock (SeenIf c.user_id) again v seen (λ x p. settle-Keeps x c expires_at v p))

  marked-Keeps :
      (c : Order) (expires_at : Option ℕ) (w : World)
      → Keeps stock Ends
          (mark_lottery_admission_pending_payment c.user_id c.gift_id c.identity >>= λ advanced.
            pass advanced (advance c expires_at))
          w
  marked-Keeps c expires_at w =
      bind-Keeps stock (mark_lottery_admission-Keeps stock c.user_id c.gift_id c.identity w)
        (λ advanced v le r.
          pass-Keeps stock Ends advanced v (Told-nothing advanced v)
            (λ b p. advance-Keeps c expires_at b v))

  project-Keeps :
      (c : Order) (expires_at : Option ℕ) (state : OrderStatus) (o : Order) (w : World)
      → o.gift_id ≡ c.gift_id
      → Known c.user_id c.identity o w
      → (state ≡ paid → Settled c.user_id c.gift_id c.identity paid w.redis)
      → Keeps stock Ends (project c expires_at state o) w
  unfolding project ◌>>=◌
  project-Keeps c expires_at paid o w g k s =
      bind-Keeps stock
        (transition_pending_order_to_paid-Keeps stock c.user_id c.identity o w k
          (λ mode. subst (λ (n : ℕ). Settled c.user_id n c.identity paid w.redis) (sym g) (s refl)))
        (λ moved v le r. pass_ret-Keeps stock _ moved v)
  project-Keeps c expires_at _ o w g k s = marked-Keeps c expires_at w

  created_as-Keeps :
      (c : Order) (expires_at : Option ℕ) (a : Admission) (o : Order) (w : World)
      → matches (some a) c.gift_id c.identity ≡ true
      → Seen c.user_id a w
      → Known c.user_id c.identity o w
      → Keeps stock Ends (created_as c expires_at a.state o) w
  unfolding created_as
  created_as-Keeps c expires_at a o w h seen k =
      unless-Keeps stock (not (o.gift_id == c.gift_id) || is_mysql o.inventory_mode)
        (ret-Keeps stock tt)
        (λ e. if-Keeps stock (is_final o.status) (ret-Keeps stock tt) (
          project-Keeps c expires_at a.state o w
            (same_gift o.gift_id c.gift_id (is_mysql o.inventory_mode) e) k
            (λ e'. Seen-Settled c.user_id c.gift_id c.identity paid a w (inl refl) e' h seen)))

  create_in-Keeps :
      (state : OrderStatus) (c : Order) (expires_at : Option ℕ) (a : Admission) (w : World)
      → a.state ≡ state
      → matches (some a) c.gift_id c.identity ≡ true
      → Seen c.user_id a w
      → Keeps stock Ends (create_in state c expires_at) w
  unfolding create_in ◌>>=◌
  create_in-Keeps cancelled c expires_at a w e h seen =
      bind-Keeps stock
        (record_released-Keeps stock c.user_id c.gift_id expires_at _ c.identity w
          (Seen-Settled c.user_id c.gift_id c.identity cancelled a w (inr refl) e h seen))
        (λ recorded v le r. pass_ret-Keeps stock _ recorded v)
  create_in-Keeps state c expires_at a w e h seen =
      bind-Keeps stock
        (create_pending_order-Keeps stock c.user_id c.gift_id redis_mode expires_at c.identity a w h
          seen)
        (λ row v le r. pass-Keeps stock (Created c.user_id c.identity) row v r (λ (o, duplicated) k.
          subst (λ (x : OrderStatus). Keeps stock Ends (created_as c expires_at x o) v) e
            (created_as-Keeps c expires_at a o v h (Seen-Before c.user_id a w v le seen) k)))

  deadline_or-Keeps :
      (expires_at : Option ℕ) (seconds : ℕ) (w : World)
      → Keeps stock Ends (deadline_or expires_at seconds) w
  unfolding deadline_or ◌>>=◌
  deadline_or-Keeps (some t) seconds w = ret-Keeps stock tt
  deadline_or-Keeps none seconds w = here-Keeps stock λ now v le. ret-Keeps stock tt

  module _ (c : Order) (a : Admission) (h : matches (some a) c.gift_id c.identity ≡ true) where
    create_current-Keeps :
        (w : World) → Seen c.user_id a w → Keeps stock Ends (create_current c a) w
    unfolding create_current ◌>>=◌
    create_current-Keeps w seen =
        bind-Keeps stock (deadline_or-Keeps c.expires_at _ w) (λ expires_at v le r.
          create_in-Keeps a.state c expires_at a v refl h (Seen-Before c.user_id a w v le seen))

    create_owned-Keeps : (w : World) → Seen c.user_id a w → Keeps stock Ends (create_owned c a) w
    unfolding create_owned create_if_run ◌>>=◌
    create_owned-Keeps w seen = if-Keeps stock (is_empty c.order_id) (create_current-Keeps w seen) (
        bind-Keeps stock (current_seckill_run-Keeps stock w) (λ run v le r.
          pass-Keeps stock Ends run v (Told-nothing run v) (λ x p.
            if-Keeps stock _ (ignored-Keeps v)
              (create_current-Keeps v (Seen-Before c.user_id a w v le seen)))))

  create_for-Keeps :
      (c : Order) (x : Option Admission) (w : World)
      → SeenIf c.user_id x w
      → Keeps stock Ends (create_for c x) w
  unfolding create_for
  create_for-Keeps c none w seen = ignored-Keeps w
  create_for-Keeps c (some a) w seen =
      test-Keeps stock (matches (some a) c.gift_id c.identity)
        (λ h. create_owned-Keeps c a h w seen) (ignored-Keeps w)

  -- CreateRedisPendingOrder keeps the stores consistent, whatever other handlers do between its
  -- calls.
  pub create_redis_pending_order-Keeps :
      (c : Order) (w : World) → Keeps stock Ends (create_redis_pending_order c) w
  unfolding create_redis_pending_order ◌>>=◌
  create_redis_pending_order-Keeps c w =
      bind-Keeps stock (get_lottery_admission-Keeps stock c.user_id w) (λ admission v le seen.
        pass-Keeps stock (SeenIf c.user_id) admission v seen (λ x p. create_for-Keeps c x v p))
