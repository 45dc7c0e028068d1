-- ===== src/Consistency/Handlers/Draw.antt =====
-- Draw of internal/service/lottery.go keeps the stores consistent.
use lottery.Base.{
  ℕ, zero, suc, refl, ◌≢◌, inr, Bool, true, false, Text, [], ◌∷◌, Option, none, some, Map, length,
}
use lottery.Order.{OrderIdentity, Order, CancelReason, cancelled, default_activity_id}
use lottery.Redis.{Acquire, acquired, duplicate, sold_out, stale_run}
use lottery.Redis.Settled.{Settled-Grows}
use lottery.Ledger.{Gift}
use lottery.Consistency.{Before-trans}
use lottery.Program.{
  World, Prog, ret, ◌>>=◌, note, Result, ok, err, perform, system_error, count_orders, failed,
}
use lottery.Service.{Code, Outcome, refused, LotteryResult}
use lottery.Service.Draw.{
  candidates, sent, send_cancel_order, sent_create, send_create_order, note_failure, rolled_back,
  rollback_admission, roll_back_with, queued, scheduled, publish, admitted, admission_as, try_gift,
  try_pool, draw_from, draw_round, draw_rounds, draw_unless_ordered, draw_as, draw_in_run, draw_if,
  draw,
}
use lottery.Consistency.Calls.{same-Good, send-Good}
use lottery.Consistency.Steps.{Told, Keeps, Ends, ret-Keeps, call-Keeps, here-Keeps, bind-Keeps}
use lottery.Consistency.Functions.{
  SettledIf, release_lottery_admission-Keeps, current_seckill_run-Keeps,
}
use lottery.Consistency.Cancelling.{record_released-Keeps}
use lottery.Consistency.Stock.{
  Numbers, new_identity_id-Keeps, try_acquire-Keeps, get_all_gift_inventory-Keeps, get_gift-Keeps,
}

module _ (stock : ℕ → ℕ) where
  sent-Keeps : (x : Result (Unit {0})) (w : World) → Keeps stock Ends (sent x) w
  unfolding sent ◌>>=◌
  sent-Keeps (err e) w = ret-Keeps stock tt
  sent-Keeps (ok x) w = here-Keeps stock λ a v le. ret-Keeps stock tt

  pub send_cancel_order-Keeps :
      (o : Order) (delay : ℕ) (w : World) → Keeps stock Ends (send_cancel_order o delay) w
  unfolding send_cancel_order ◌>>=◌
  send_cancel_order-Keeps o delay w =
      call-Keeps stock (λ v s le. send-Good stock v s _ o delay)
        (λ v s le le'. sent-Keeps (ok tt) _) (λ v le. sent-Keeps (err _) v)

  sent_create-Keeps : (x : Result (Unit {0})) (w : World) → Keeps stock Ends (sent_create x) w
  unfolding sent_create ◌>>=◌
  sent_create-Keeps (err e) w = ret-Keeps stock tt
  sent_create-Keeps (ok x) w = here-Keeps stock λ a v le. ret-Keeps stock tt

  send_create_order-Keeps : (o : Order) (w : World) → Keeps stock Ends (send_create_order o) w
  unfolding send_create_order ◌>>=◌
  send_create_order-Keeps o w =
      call-Keeps stock (λ v s le. send-Good stock v s _ o 0)
        (λ v s le le'. sent_create-Keeps (ok tt) _) (λ v le. sent_create-Keeps (err _) v)

  note_failure-Keeps : {A : Type 0} (x : Result A) (w : World) → Keeps stock Ends (note_failure x) w
  unfolding note_failure ◌>>=◌
  note_failure-Keeps (ok a) w = ret-Keeps stock tt
  note_failure-Keeps (err e) w = here-Keeps stock λ a v le. ret-Keeps stock tt

  -- A program that only notes a metric and gives up.
  noted-Keeps :
      (code : Code) (w : World)
      → Keeps stock
          (Ends {A = Outcome LotteryResult})
          (note system_error >>= λ _. ret (refused code))
          w
  unfolding ◌>>=◌
  noted-Keeps code w = here-Keeps stock λ a v le. ret-Keeps stock tt

  rolled_back-Keeps :
      (uid gift_id : ℕ) (why : CancelReason) (id : OrderIdentity) (x : Result Bool) (w : World)
      → Told (SettledIf uid gift_id id cancelled) x w
      → Keeps stock Ends (rolled_back uid gift_id why id x) w
  unfolding rolled_back ◌>>=◌
  rolled_back-Keeps uid gift_id why id (err e) w s = ret-Keeps stock tt
  rolled_back-Keeps uid gift_id why id (ok false) w s = ret-Keeps stock tt
  rolled_back-Keeps uid gift_id why id (ok true) w s = here-Keeps stock λ a v le.
      here-Keeps stock λ now u le'.
        bind-Keeps stock
          (record_released-Keeps stock uid gift_id _ why id u (
            Settled-Grows uid gift_id id cancelled w.redis u.redis (inr refl) s
              (Before-trans w v u le le').0))
          (λ x y up r. note_failure-Keeps x y)

  roll_back_with-Keeps :
      (uid gift_id : ℕ) (why : CancelReason) (code : Code) (id : OrderIdentity) (w : World)
      → Keeps stock Ends (roll_back_with uid gift_id why code id) w
  unfolding roll_back_with rollback_admission
  roll_back_with-Keeps uid gift_id why code id w =
      bind-Keeps stock
        (bind-Keeps stock (release_lottery_admission-Keeps stock uid gift_id id w)
          (λ x v le s. rolled_back-Keeps uid gift_id why id x v s))
        (λ x v le r. noted-Keeps code v)

  queued-Keeps :
      (uid gift_id : ℕ) (id : OrderIdentity) (gift : Gift) (x : Result (Unit {0})) (w : World)
      → Keeps stock Ends (queued uid gift_id id gift x) w
  unfolding queued ◌>>=◌
  queued-Keeps uid gift_id id gift (err e) w = roll_back_with-Keeps uid gift_id _ _ id w
  queued-Keeps uid gift_id id gift (ok x) w = here-Keeps stock λ a v le. ret-Keeps stock tt

  scheduled-Keeps :
      (uid gift_id : ℕ) (id : OrderIdentity) (gift : Gift) (c : Order) (x : Result (Unit {0}))
      (w : World)
      → Keeps stock Ends (scheduled uid gift_id id gift c x) w
  unfolding scheduled ◌>>=◌
  scheduled-Keeps uid gift_id id gift c (err e) w = roll_back_with-Keeps uid gift_id _ _ id w
  scheduled-Keeps uid gift_id id gift c (ok x) w =
      bind-Keeps stock (send_create_order-Keeps c w)
        (λ y v le r. queued-Keeps uid gift_id id gift y v)

  publish-Keeps :
      (uid gift_id : ℕ) (id : OrderIdentity) (x : Result Gift) (w : World)
      → Keeps stock Ends (publish uid gift_id id x) w
  unfolding publish ◌>>=◌
  publish-Keeps uid gift_id id (err e) w = roll_back_with-Keeps uid gift_id _ _ id w
  publish-Keeps uid gift_id id (ok gift) w = here-Keeps stock λ now v le.
      bind-Keeps stock (send_cancel_order-Keeps _ _ v)
        (λ y u up r. scheduled-Keeps uid gift_id id gift _ y u)

  admitted-Keeps :
      (uid gift_id : ℕ) (id : OrderIdentity) (w : World)
      → Keeps stock Ends (admitted uid gift_id id) w
  unfolding admitted ◌>>=◌
  admitted-Keeps uid gift_id id w = here-Keeps stock λ a v le.
      bind-Keeps stock (get_gift-Keeps stock gift_id v)
        (λ gift u up r. here-Keeps stock λ b x le'. publish-Keeps uid gift_id id gift x)

  admission_as-Keeps :
      (uid gift_id : ℕ) (id : OrderIdentity) (again : Prog (Outcome LotteryResult))
      (x : Result Acquire) (w : World)
      → Keeps stock Ends again w
      → Keeps stock Ends (admission_as uid gift_id id again x) w
  unfolding admission_as ◌>>=◌
  admission_as-Keeps uid gift_id id again (ok acquired) w k = admitted-Keeps uid gift_id id w
  admission_as-Keeps uid gift_id id again (ok sold_out) w k = k
  admission_as-Keeps uid gift_id id again (ok duplicate) w k =
      here-Keeps stock λ a v le. ret-Keeps stock tt
  admission_as-Keeps uid gift_id id again (ok stale_run) w k =
      here-Keeps stock λ a v le. ret-Keeps stock tt
  admission_as-Keeps uid gift_id id again (err e) w k =
      here-Keeps stock λ a v le. ret-Keeps stock tt

  module _ (uid : ℕ) (id : OrderIdentity) (numbered : id.order_id ≢ []) where
    try_gift-Keeps :
        (x : Option ℕ) (again : Prog (Outcome LotteryResult)) (w : World)
        → ((v : World) → Keeps stock Ends again v)
        → Keeps stock Ends (try_gift uid id x again) w
    unfolding try_gift ◌>>=◌
    try_gift-Keeps none again w k = here-Keeps stock λ a v le. ret-Keeps stock tt
    try_gift-Keeps (some gift_id) again w k =
        bind-Keeps stock (try_acquire-Keeps stock uid gift_id _ id w numbered)
          (λ x v le r. admission_as-Keeps uid gift_id id again x v (k v))

    try_pool-Keeps :
        (fuel : ℕ) (pool : Map ℕ) (next : Prog (Outcome LotteryResult)) (w : World)
        → ((v : World) → Keeps stock Ends next v)
        → Keeps stock Ends (try_pool fuel uid id pool next) w
    unfolding try_pool ◌>>=◌
    try_pool-Keeps zero pool next w k = k w
    try_pool-Keeps (suc fuel) [] next w k = k w
    try_pool-Keeps (suc fuel) (g ∷ pool) next w k =
        here-Keeps stock λ u v le. try_gift-Keeps _ _ v (λ x. try_pool-Keeps fuel _ next x k)

    draw_from-Keeps :
        (next : Prog (Outcome LotteryResult)) (pool : Map ℕ) (w : World)
        → ((v : World) → Keeps stock Ends next v)
        → Keeps stock Ends (draw_from uid id next pool) w
    unfolding draw_from ◌>>=◌
    draw_from-Keeps next [] w k = here-Keeps stock λ a v le. ret-Keeps stock tt
    draw_from-Keeps next (g ∷ pool) w k = try_pool-Keeps (length (g ∷ pool)) (g ∷ pool) next w k

    draw_round-Keeps :
        (next : Prog (Outcome LotteryResult)) (x : Result (Map ℕ)) (w : World)
        → ((v : World) → Keeps stock Ends next v)
        → Keeps stock Ends (draw_round uid id next x) w
    unfolding draw_round ◌>>=◌
    draw_round-Keeps next (err e) w k = here-Keeps stock λ a v le. ret-Keeps stock tt
    draw_round-Keeps next (ok gifts) w k = draw_from-Keeps next (candidates gifts) w k

    draw_rounds-Keeps : (tries : ℕ) (w : World) → Keeps stock Ends (draw_rounds tries uid id) w
    unfolding draw_rounds ◌>>=◌
    draw_rounds-Keeps zero w = here-Keeps stock λ a v le. ret-Keeps stock tt
    draw_rounds-Keeps (suc tries) w =
        bind-Keeps stock (get_all_gift_inventory-Keeps stock w) (λ gifts v le r.
          draw_round-Keeps (draw_rounds tries uid id) gifts v (λ u. draw_rounds-Keeps tries u))

    draw_unless_ordered-Keeps :
        (x : Result Bool) (w : World) → Keeps stock Ends (draw_unless_ordered uid id x) w
    unfolding draw_unless_ordered ◌>>=◌
    draw_unless_ordered-Keeps (err e) w = here-Keeps stock λ a v le. ret-Keeps stock tt
    draw_unless_ordered-Keeps (ok true) w = here-Keeps stock λ a v le. ret-Keeps stock tt
    draw_unless_ordered-Keeps (ok false) w = draw_rounds-Keeps 10 w

  draw_as-Keeps :
      (uid : ℕ) (run : Text) (x : Result Text) (w : World)
      → Told Numbers x w
      → Keeps stock Ends (draw_as uid run x) w
  unfolding draw_as ◌>>=◌ perform
  draw_as-Keeps uid run (err e) w n = here-Keeps stock λ a v le. ret-Keeps stock tt
  draw_as-Keeps uid run (ok order_id) w n =
      call-Keeps stock (λ v s le. same-Good stock v s)
        (λ v s le le'. here-Keeps stock λ a u up.
          draw_unless_ordered-Keeps uid (record { order_id = order_id; run_id = run }) n
            (ok (perform (count_orders default_activity_id uid) v).1) u)
        (λ v le. here-Keeps stock λ a u up.
          draw_unless_ordered-Keeps uid (record { order_id = order_id; run_id = run }) n
            (err failed) u)

  draw_in_run-Keeps :
      (uid : ℕ) (x : Result Text) (w : World) → Keeps stock Ends (draw_in_run uid x) w
  unfolding draw_in_run ◌>>=◌
  draw_in_run-Keeps uid (err e) w = here-Keeps stock λ a v le. ret-Keeps stock tt
  draw_in_run-Keeps uid (ok run) w =
      bind-Keeps stock (new_identity_id-Keeps stock w) (λ x v le n. draw_as-Keeps uid run x v n)

  draw_if-Keeps : (uid : ℕ) (b : Bool) (w : World) → Keeps stock Ends (draw_if uid b) w
  unfolding draw_if ◌>>=◌
  draw_if-Keeps uid false w = here-Keeps stock λ a v le. ret-Keeps stock tt
  draw_if-Keeps uid true w =
      bind-Keeps stock (current_seckill_run-Keeps stock w) (λ x v le r. draw_in_run-Keeps uid x v)

  -- Draw keeps the stores consistent, whatever other handlers do between its calls.
  pub draw-Keeps : (uid : ℕ) (w : World) → Keeps stock Ends (draw uid) w
  unfolding draw ◌>>=◌
  draw-Keeps uid w = here-Keeps stock λ b v le. draw_if-Keeps uid b v
