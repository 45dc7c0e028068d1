-- ===== src/Consistency/Handlers/Pay.antt =====
-- Pay of internal/service/order.go keeps the stores consistent.
use lottery.Base.{ℕ, ◌≡◌, refl, sym, subst, Bool, true, false, not, ◌==◌, Option, none, some, arith}
use lottery.Order.{
  OrderStatus, pending_payment, paid, OrderIdentity, InventoryMode, redis_mode, mysql_mode, Order,
}
use lottery.Redis.Settled.{Settled}
use lottery.Program.{World, ◌>>=◌, Result, ok, err, not_found}
use lottery.Service.Pay.{
  pay_before_ledger_created, note_completed, paid_as, paid_result, settle_payment, claimed_as,
  pay_mode, pay_by, pay_pending_order, pay_in, pay_found, pay,
}
use lottery.Consistency.Facts.{Known, Known-Before}
use lottery.Consistency.Steps.{
  Told, Keeps, Ends, ret-Keeps, here-Keeps, bind-Keeps, if-Keeps, or_code-Keeps, unless-Keeps,
}
use lottery.Consistency.Functions.{
  SeenIf, SettledIf, find_order_identity-Keeps, get_lottery_admission-Keeps,
  claim_lottery_admission-Keeps, transition_pending_order_to_paid-Keeps,
}
use lottery.Consistency.Handlers.Cancel.{cancel-Keeps}

same_gift : (a b : ℕ) → (not (a == b)) ≡ false → a ≡ b
same_gift a b h = ground arith

module _ (stock : ℕ → ℕ) where
  pay_before-Keeps :
      (uid gift_id : ℕ) (id : OrderIdentity) (w : World)
      → Keeps stock Ends (pay_before_ledger_created uid gift_id id) w
  unfolding pay_before_ledger_created ◌>>=◌
  pay_before-Keeps uid gift_id id w =
      bind-Keeps stock (get_lottery_admission-Keeps stock uid w) (λ admission v le seen.
        or_code-Keeps stock _ (SeenIf uid) admission v seen (λ x p. ret-Keeps stock tt))

  note_completed-Keeps :
      (gift_id : ℕ) (b : Bool) (w : World) → Keeps stock Ends (note_completed gift_id b) w
  unfolding note_completed ◌>>=◌
  note_completed-Keeps gift_id false w = ret-Keeps stock tt
  note_completed-Keeps gift_id true w = here-Keeps stock λ a v le. ret-Keeps stock tt

  paid_as-Keeps :
      (gift_id : ℕ) (state : OrderStatus) (b : Bool) (w : World)
      → Keeps stock Ends (paid_as gift_id state b) w
  unfolding paid_as
  paid_as-Keeps gift_id paid b w = note_completed-Keeps gift_id b w
  paid_as-Keeps gift_id _ b w = ret-Keeps stock tt

  paid_result-Keeps :
      (gift_id : ℕ) (x : Result (Order × Bool)) (w : World)
      → Keeps stock Ends (paid_result gift_id x) w
  unfolding paid_result ◌>>=◌
  paid_result-Keeps gift_id (err e) w = here-Keeps stock λ a v le. ret-Keeps stock tt
  paid_result-Keeps gift_id (ok (o, b)) w = paid_as-Keeps gift_id o.status b w

  settle_payment-Keeps :
      (uid gift_id : ℕ) (id : OrderIdentity) (o : Order) (w : World)
      → Known uid id o w
      → (o.inventory_mode ≡ redis_mode → Settled uid o.gift_id id paid w.redis)
      → Keeps stock Ends (settle_payment gift_id o) w
  unfolding settle_payment ◌>>=◌
  settle_payment-Keeps uid gift_id id o w k s =
      bind-Keeps stock (transition_pending_order_to_paid-Keeps stock uid id o w k s)
        (λ moved v le r. paid_result-Keeps gift_id moved v)

  claimed_as-Keeps :
      (uid gift_id : ℕ) (id : OrderIdentity) (o : Order) (claimed : Result Bool) (w : World)
      → o.gift_id ≡ gift_id
      → Known uid id o w
      → Told (SettledIf uid gift_id id paid) claimed w
      → Keeps stock Ends (claimed_as uid gift_id o claimed) w
  unfolding claimed_as ◌>>=◌
  claimed_as-Keeps uid gift_id id o (err e) w g k s = here-Keeps stock λ a v le. ret-Keeps stock tt
  claimed_as-Keeps uid gift_id id o (ok true) w g k s =
      settle_payment-Keeps uid gift_id id o w k
        (λ mode. subst (λ (n : ℕ). Settled uid n id paid w.redis) (sym g) s)
  claimed_as-Keeps uid gift_id id o (ok false) w g k s =
      bind-Keeps stock (get_lottery_admission-Keeps stock uid w) (λ admission v le seen.
        or_code-Keeps stock _ (SeenIf uid) admission v seen (λ x p. ret-Keeps stock tt))

  pay_mode-Keeps :
      (mode : InventoryMode) (uid gift_id : ℕ) (id : OrderIdentity) (o : Order) (w : World)
      → o.inventory_mode ≡ mode
      → o.gift_id ≡ gift_id
      → Known uid id o w
      → Keeps stock Ends (pay_mode mode uid gift_id id o) w
  unfolding pay_mode ◌>>=◌
  pay_mode-Keeps mysql_mode uid gift_id id o w m g k =
      settle_payment-Keeps uid gift_id id o w k (λ mode. absurd (cc))
  pay_mode-Keeps redis_mode uid gift_id id o w m g k =
      bind-Keeps stock (claim_lottery_admission-Keeps stock uid gift_id id w) (λ claimed v le s.
        claimed_as-Keeps uid gift_id id o claimed v g (Known-Before uid id o w v le k) s)

  pay_by-Keeps :
      (uid gift_id : ℕ) (id : OrderIdentity) (o : Order) (deadline now : ℕ) (w : World)
      → o.gift_id ≡ gift_id
      → Known uid id o w
      → Keeps stock Ends (pay_by uid gift_id id o deadline now) w
  unfolding pay_by ◌>>=◌
  pay_by-Keeps uid gift_id id o deadline now w g k =
      if-Keeps stock _ (pay_mode-Keeps o.inventory_mode uid gift_id id o w refl g k) (
        bind-Keeps stock (cancel-Keeps stock uid gift_id _ (some deadline) id w)
          (λ x v le r. ret-Keeps stock tt))

  pay_pending_order-Keeps :
      (expires_at : Option ℕ) (uid gift_id : ℕ) (id : OrderIdentity) (o : Order) (w : World)
      → o.gift_id ≡ gift_id
      → Known uid id o w
      → Keeps stock Ends (pay_pending_order expires_at uid gift_id id o) w
  unfolding pay_pending_order ◌>>=◌
  pay_pending_order-Keeps none uid gift_id id o w g k =
      pay_mode-Keeps o.inventory_mode uid gift_id id o w refl g k
  pay_pending_order-Keeps (some deadline) uid gift_id id o w g k =
      here-Keeps stock
        λ now v le. pay_by-Keeps uid gift_id id o deadline now v g (Known-Before uid id o w v le k)

  pay_in-Keeps :
      (state : OrderStatus) (uid gift_id : ℕ) (id : OrderIdentity) (o : Order) (w : World)
      → o.gift_id ≡ gift_id
      → Known uid id o w
      → Keeps stock Ends (pay_in state uid gift_id id o) w
  unfolding pay_in
  pay_in-Keeps pending_payment uid gift_id id o w g k =
      pay_pending_order-Keeps o.expires_at uid gift_id id o w g k
  pay_in-Keeps _ uid gift_id id o w g k = ret-Keeps stock tt

  pay_found-Keeps :
      (uid gift_id : ℕ) (id : OrderIdentity) (found : Result Order) (w : World)
      → Told (Known uid id) found w
      → Keeps stock Ends (pay_found uid gift_id id found) w
  unfolding pay_found
  pay_found-Keeps uid gift_id id (ok o) w k =
      unless-Keeps stock _ (ret-Keeps stock tt)
        (λ h. pay_in-Keeps o.status uid gift_id id o w (same_gift o.gift_id gift_id h) k)
  pay_found-Keeps uid gift_id id (err not_found) w k = pay_before-Keeps uid gift_id id w
  pay_found-Keeps uid gift_id id (err _) w k = ret-Keeps stock tt

  -- Pay keeps the stores consistent, whatever other handlers do between its calls.
  pub pay-Keeps :
      (uid gift_id : ℕ) (id : OrderIdentity) (w : World) → Keeps stock Ends (pay uid gift_id id) w
  unfolding pay ◌>>=◌
  pay-Keeps uid gift_id id w =
      bind-Keeps stock (find_order_identity-Keeps stock uid id w)
        (λ found v le r. pay_found-Keeps uid gift_id id found v r)
