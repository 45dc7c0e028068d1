-- ===== src/Consistency/Handlers/Status.antt =====
-- Status of internal/service/order.go keeps the stores consistent: it only reads.
use lottery.Base.{ℕ, not, ◌==◌, Option, none, some, if◌then◌else◌}
use lottery.Order.{OrderIdentity, Order}
use lottery.Redis.{Admission}
use lottery.Program.{World, ret, ◌>>=◌, on, Result, ok, err, not_found}
use lottery.Service.{refused, admission_failed}
use lottery.Service.Create.{is_final}
use lottery.Service.Status.{in_redis, view_of_order, view_with, view_live, view_found, status}
use lottery.Consistency.Steps.{Keeps, Ends, ret-Keeps, bind-Keeps, if-Keeps}
use lottery.Consistency.Functions.{find_order_identity-Keeps, get_lottery_admission-Keeps}

module _ (stock : ℕ → ℕ) where
  viewed-Keeps :
      (uid gift_id : ℕ) (id : OrderIdentity) (o : Option Order) (x : Result (Option Admission))
      (w : World)
      → Keeps stock Ends
          (on x
            (λ e.
              ret (if in_redis o then refused admission_failed else view_of_order uid gift_id o))
            (λ a. ret (view_with uid gift_id id o a)))
          w
  viewed-Keeps uid gift_id id o (ok a) w = ret-Keeps stock tt
  viewed-Keeps uid gift_id id o (err e) w = ret-Keeps stock tt

  view_live-Keeps :
      (uid gift_id : ℕ) (id : OrderIdentity) (o : Option Order) (w : World)
      → Keeps stock Ends (view_live uid gift_id id o) w
  unfolding view_live ◌>>=◌
  view_live-Keeps uid gift_id id o w =
      bind-Keeps stock (get_lottery_admission-Keeps stock uid w)
        (λ x v le seen. viewed-Keeps uid gift_id id o x v)

  view_found-Keeps :
      (uid gift_id : ℕ) (id : OrderIdentity) (found : Result Order) (w : World)
      → Keeps stock Ends (view_found uid gift_id id found) w
  unfolding view_found
  view_found-Keeps uid gift_id id (ok o) w =
      if-Keeps stock (not (o.gift_id == gift_id)) (ret-Keeps stock tt) (
        if-Keeps stock (is_final o.status) (ret-Keeps stock tt)
          (view_live-Keeps uid gift_id id (some o) w))
  view_found-Keeps uid gift_id id (err not_found) w = view_live-Keeps uid gift_id id none w
  view_found-Keeps uid gift_id id (err _) w = ret-Keeps stock tt

  pub status-Keeps :
      (uid gift_id : ℕ) (id : OrderIdentity) (w : World)
      → Keeps stock Ends (status uid gift_id id) w
  unfolding status ◌>>=◌
  status-Keeps uid gift_id id w =
      bind-Keeps stock (find_order_identity-Keeps stock uid id w)
        (λ found v le r. view_found-Keeps uid gift_id id found v)
