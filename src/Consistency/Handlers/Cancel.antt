-- ===== src/Consistency/Handlers/Cancel.antt =====
-- cancel and GiveUp of internal/service/order.go keep the stores consistent.
use lottery.Base.{ℕ, ◌≡◌, refl, inr, Bool, true, false, Option, none, some}
use lottery.Order.{
  OrderStatus, cancelled, OrderIdentity, InventoryMode, redis_mode, mysql_mode, Order, CancelReason,
}
use lottery.Redis.{Admission, matches}
use lottery.Redis.Settled.{Settled}
use lottery.Program.{World, ◌>>=◌, Result, ok, err, not_found}
use lottery.Service.{Outcome, done, refused}
use lottery.Service.Cancel.{
  note_rollback, record_in, after_release, released_or_failed, cancel_redis, cancel_mode,
  cancel_found, cancel, given_up, give_up,
}
use lottery.Consistency.Facts.{Seen-Settled}
use lottery.Consistency.Steps.{
  Told-nothing, Keeps, Ends, ret-Keeps, here-Keeps, bind-Keeps, if-Keeps, or_code-Keeps, test-Keeps,
}
use lottery.Consistency.Functions.{
  SeenIf, find_order_identity-Keeps, get_lottery_admission-Keeps, release_lottery_admission-Keeps,
}
use lottery.Consistency.Recording.{cancel_mysql_order-Keeps}
use lottery.Consistency.Cancelling.{record_released-Keeps}

module _ (stock : ℕ → ℕ) where
  note_rollback-Keeps :
      (gift_id : ℕ) (why : CancelReason) (b : Bool) (w : World)
      → Keeps stock Ends (note_rollback gift_id why b) w
  unfolding note_rollback ◌>>=◌
  note_rollback-Keeps gift_id why false w = ret-Keeps stock tt
  note_rollback-Keeps gift_id why true w = here-Keeps stock λ a v le. ret-Keeps stock tt

  record_in-Keeps :
      (state : OrderStatus) (uid gift_id : ℕ) (why : CancelReason) (expires_at : Option ℕ)
      (id : OrderIdentity) (released : Bool) (w : World)
      → (state ≡ cancelled → Settled uid gift_id id cancelled w.redis)
      → Keeps stock Ends (record_in state uid gift_id why expires_at id released) w
  unfolding record_in ◌>>=◌
  record_in-Keeps cancelled uid gift_id why expires_at id released w s =
      bind-Keeps stock (record_released-Keeps stock uid gift_id expires_at why id w (s refl))
        (λ recorded v le r.
          or_code-Keeps stock _ Ends recorded v (Told-nothing recorded v)
            (λ x p. note_rollback-Keeps gift_id why released v))
  record_in-Keeps _ uid gift_id why expires_at id released w s = ret-Keeps stock tt

  after_release-Keeps :
      (x : Option Admission) (o : Option Order) (uid gift_id : ℕ) (why : CancelReason)
      (expires_at : Option ℕ) (id : OrderIdentity) (released : Bool) (w : World)
      → SeenIf uid x w
      → Keeps stock Ends (after_release x o uid gift_id why expires_at id released) w
  unfolding after_release
  after_release-Keeps none o uid gift_id why expires_at id released w seen = ret-Keeps stock tt
  after_release-Keeps (some a) o uid gift_id why expires_at id released w seen =
      test-Keeps stock (matches (some a) gift_id id)
        (λ h.
          record_in-Keeps a.state uid gift_id why expires_at id released w
            (λ e. Seen-Settled uid gift_id id cancelled a w (inr refl) e h seen))
        (ret-Keeps stock tt)

  cancel_redis-Keeps :
      (o : Option Order) (uid gift_id : ℕ) (why : CancelReason) (expires_at : Option ℕ)
      (id : OrderIdentity) (w : World)
      → Keeps stock Ends (cancel_redis o uid gift_id why expires_at id) w
  unfolding cancel_redis released_or_failed ◌>>=◌
  cancel_redis-Keeps o uid gift_id why expires_at id w =
      bind-Keeps stock (release_lottery_admission-Keeps stock uid gift_id id w)
        (λ released v le r. after released v)
    where
      after :
          (released : Result Bool) (v : World)
          → Keeps stock Ends (released_or_failed o uid gift_id why expires_at id released) v
      after (err e) v = here-Keeps stock λ a u le. ret-Keeps stock tt
      after (ok released) v =
          bind-Keeps stock (get_lottery_admission-Keeps stock uid v) (λ admission u le seen.
            or_code-Keeps stock _ (SeenIf uid) admission u seen
              (λ x p. after_release-Keeps x o uid gift_id why expires_at id released u p))

  cancel_mode-Keeps :
      (mode : InventoryMode) (o : Order) (uid gift_id : ℕ) (why : CancelReason)
      (expires_at : Option ℕ) (id : OrderIdentity) (w : World)
      → Keeps stock Ends (cancel_mode mode o uid gift_id why expires_at id) w
  unfolding cancel_mode ◌>>=◌
  cancel_mode-Keeps mysql_mode o uid gift_id why expires_at id w =
      bind-Keeps stock (cancel_mysql_order-Keeps stock o.id why w) (λ row v le r.
        or_code-Keeps stock _ Ends row v (Told-nothing row v) (λ x p. ret-Keeps stock tt))
  cancel_mode-Keeps redis_mode o uid gift_id why expires_at id w =
      cancel_redis-Keeps (some o) uid gift_id why expires_at id w

  cancel_found-Keeps :
      (found : Result Order) (uid gift_id : ℕ) (why : CancelReason) (expires_at : Option ℕ)
      (id : OrderIdentity) (w : World)
      → Keeps stock Ends (cancel_found found uid gift_id why expires_at id) w
  unfolding cancel_found
  cancel_found-Keeps (ok o) uid gift_id why expires_at id w =
      if-Keeps stock _ (ret-Keeps stock tt)
        (cancel_mode-Keeps o.inventory_mode o uid gift_id why expires_at id w)
  cancel_found-Keeps (err not_found) uid gift_id why expires_at id w =
      cancel_redis-Keeps none uid gift_id why expires_at id w
  cancel_found-Keeps (err _) uid gift_id why expires_at id w = ret-Keeps stock tt

  pub cancel-Keeps :
      (uid gift_id : ℕ) (why : CancelReason) (expires_at : Option ℕ) (id : OrderIdentity)
      (w : World)
      → Keeps stock Ends (cancel uid gift_id why expires_at id) w
  unfolding cancel ◌>>=◌
  cancel-Keeps uid gift_id why expires_at id w =
      bind-Keeps stock (find_order_identity-Keeps stock uid id w)
        (λ found v le r. cancel_found-Keeps found uid gift_id why expires_at id v)

  given_up-Keeps :
      (gift_id : ℕ) (x : Outcome Bool) (w : World) → Keeps stock Ends (given_up gift_id x) w
  unfolding given_up ◌>>=◌
  given_up-Keeps gift_id (refused code) w = ret-Keeps stock tt
  given_up-Keeps gift_id (done false) w = ret-Keeps stock tt
  given_up-Keeps gift_id (done true) w = here-Keeps stock λ a v le. ret-Keeps stock tt

  -- GiveUp keeps the stores consistent, whatever other handlers do between its calls.
  pub give_up-Keeps :
      (uid gift_id : ℕ) (id : OrderIdentity) (w : World)
      → Keeps stock Ends (give_up uid gift_id id) w
  unfolding give_up ◌>>=◌
  give_up-Keeps uid gift_id id w = here-Keeps stock λ now v le.
      bind-Keeps stock (cancel-Keeps uid gift_id _ (some now) id v)
        (λ released u up r. given_up-Keeps gift_id released u)
