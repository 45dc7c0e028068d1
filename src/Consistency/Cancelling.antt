-- ===== src/Consistency/Cancelling.antt =====
-- RecordReleasedRedisCancellation of internal/database/order.go keeps the stores consistent once
-- the admission is cancelled, however other writers come in between, and with the three calls of
-- itself that the fuel allows or fewer.
use lottery.Base.{ℕ, zero, suc, refl, inr, Bool, ◌==◌, Option, none, some}
use lottery.Order.{OrderStatus, cancelled, OrderIdentity, Order, CancelReason, default_activity_id}
use lottery.Redis.Settled.{Settled, Settled-Grows}
use lottery.Program.{
  World, Prog, ◌>>=◌, Result, ok, err, not_found, perform, insert_row, update_cancelled,
}
use lottery.Store.Orders.{
  cancelled_order, reconcile_in, reconcile, retry_with, inserted_or_retry, record_missing,
  record_updated, record_released_from, record_released_redis_cancellation, recording_calls,
}
use lottery.Consistency.{Before, Before-trans}
use lottery.Consistency.Statements.{insert-Good, cancel_released-Good, update_released-Good}
use lottery.Consistency.Steps.{
  Keeps, Ends, ret-Keeps, call-Keeps, here-Keeps, bind-Keeps, pass_ret-Keeps, if-Keeps,
}
use lottery.Consistency.Functions.{find_order_identity-Keeps}
use lottery.Consistency.Recording.{cancelled-Backed}

module _ (stock : ℕ → ℕ) where
  reconcile_in-Keeps :
      (state : OrderStatus) (o : Order) (w : World) → Keeps stock Ends (reconcile_in state o) w
  unfolding reconcile_in ◌>>=◌
  reconcile_in-Keeps cancelled o w = if-Keeps stock o.stock_released (ret-Keeps stock tt) (
      call-Keeps stock (λ v s le. update_released-Good stock v s o.id)
        (λ v s le le'. ret-Keeps stock tt) (λ v le. ret-Keeps stock tt))
  reconcile_in-Keeps _ o w = ret-Keeps stock tt

  reconcile-Keeps : (gift_id : ℕ) (o : Order) (w : World) → Keeps stock Ends (reconcile gift_id o) w
  unfolding reconcile
  reconcile-Keeps gift_id o w =
      if-Keeps stock _ (ret-Keeps stock tt) (reconcile_in-Keeps o.status o w)

  retry_with-Keeps :
      (gift_id : ℕ) (found : Result Order) (again : Prog (Result (Order × Bool))) (w : World)
      → Keeps stock Ends again w
      → Keeps stock Ends (retry_with gift_id found again) w
  unfolding retry_with
  retry_with-Keeps gift_id (err e) again w k = ret-Keeps stock tt
  retry_with-Keeps gift_id (ok o) again w k = if-Keeps stock _ (ret-Keeps stock tt) k

  inserted_or_retry-Keeps :
      (uid gift_id : ℕ) (id : OrderIdentity) (again : Prog (Result (Order × Bool)))
      (x : Option Order) (w : World)
      → ((v : World) → Before w v → Keeps stock Ends again v)
      → Keeps stock Ends (inserted_or_retry uid gift_id id again x) w
  unfolding inserted_or_retry ◌>>=◌
  inserted_or_retry-Keeps uid gift_id id again (some o) w k = ret-Keeps stock tt
  inserted_or_retry-Keeps uid gift_id id again none w k =
      bind-Keeps stock (find_order_identity-Keeps stock uid id w)
        (λ found v le r. retry_with-Keeps gift_id found again v (k v le))

  module _ (uid gift_id : ℕ) (id : OrderIdentity) (expires_at : Option ℕ) (now : ℕ)
      (why : CancelReason) (again : Prog (Result (Order × Bool))) where
    record_missing-Keeps :
        (found : Result Order) (w : World)
        → Settled uid gift_id id cancelled w.redis
        → ((v : World) → Before w v → Keeps stock Ends again v)
        → Keeps stock Ends (record_missing uid gift_id id expires_at now why again found) w
    unfolding record_missing ◌>>=◌
    record_missing-Keeps (ok o) w s k = reconcile-Keeps gift_id o w
    record_missing-Keeps (err not_found) w s k =
        call-Keeps stock
          (λ v sound le. insert-Good stock v sound _ (λ m.
            cancelled-Backed uid gift_id id expires_at now why v.redis
              (Settled-Grows uid gift_id id cancelled w.redis v.redis (inr refl) s le.0)))
          (λ v sound le le'.
            let v' =
              (perform (insert_row (cancelled_order uid gift_id id expires_at now why)) v).0 in
            inserted_or_retry-Keeps uid gift_id id again _ v'
              (λ u up. k u (Before-trans w v' u le' up)))
          (λ v le. ret-Keeps stock tt)
    record_missing-Keeps (err _) w s k = ret-Keeps stock tt

    record_updated-Keeps :
        (n : ℕ) (w : World)
        → Settled uid gift_id id cancelled w.redis
        → ((v : World) → Before w v → Keeps stock Ends again v)
        → Keeps stock Ends (record_updated uid gift_id id expires_at now why again n) w
    unfolding record_updated ◌>>=◌
    record_updated-Keeps n w s k =
        if-Keeps stock (n == 1)
          (bind-Keeps stock (find_order_identity-Keeps stock uid id w)
            (λ found v le r. pass_ret-Keeps stock _ found v))
          (bind-Keeps stock (find_order_identity-Keeps stock uid id w) (λ found v le r.
            record_missing-Keeps found v
              (Settled-Grows uid gift_id id cancelled w.redis v.redis (inr refl) s le.0)
              (λ u up. k u (Before-trans w v u le up))))

  pub record_released_from-Keeps :
      (fuel uid gift_id : ℕ) (expires_at : Option ℕ) (why : CancelReason) (id : OrderIdentity)
      (w : World)
      → Settled uid gift_id id cancelled w.redis
      → Keeps stock Ends (record_released_from fuel uid gift_id expires_at why id) w
  unfolding record_released_from ◌>>=◌
  record_released_from-Keeps zero uid gift_id expires_at why id w s = ret-Keeps stock tt
  record_released_from-Keeps (suc fuel) uid gift_id expires_at why id w s =
      here-Keeps stock λ now v le.
        call-Keeps stock
          (λ u sound le'.
            cancel_released-Good stock u sound default_activity_id uid gift_id id now why
              (still u (Before-trans w v u le le')))
          (λ u sound le' le''.
            let u' = (perform (update_cancelled default_activity_id uid gift_id id now why) u).0 in
            let up' = Before-trans w v u' le le'' in
            record_updated-Keeps uid gift_id id expires_at now why _ _ u' (still u' up') (λ x up.
              record_released_from-Keeps fuel uid gift_id expires_at why id x
                (still x (Before-trans w u' x up' up))))
          (λ u le'. ret-Keeps stock tt)
    where
      still : (v : World) → Before w v → Settled uid gift_id id cancelled v.redis
      still v le = Settled-Grows uid gift_id id cancelled w.redis v.redis (inr refl) s le.0

  pub record_released-Keeps :
      (uid gift_id : ℕ) (expires_at : Option ℕ) (why : CancelReason) (id : OrderIdentity)
      (w : World)
      → Settled uid gift_id id cancelled w.redis
      → Keeps stock Ends (record_released_redis_cancellation uid gift_id expires_at why id) w
  unfolding record_released_redis_cancellation
  record_released-Keeps uid gift_id expires_at why id w s =
      record_released_from-Keeps recording_calls uid gift_id expires_at why id w s
