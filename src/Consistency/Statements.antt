-- ===== src/Consistency/Statements.antt =====
-- The statements and transactions of Ledger.antt keep the stores consistent, if their caller knows
-- enough.
use lottery.Base.{
  ℕ, ◌≡◌, refl, sym, subst, ◌∙◌, ◌≢◌, ◌⊎◌, inl, inr, Bool, true, ◌&&◌, [], arith, none, some,
  Bool-cases, ◌==◌,
}
use lottery.Order.{
  OrderStatus, pending_payment, paid, cancelled, OrderIdentity, redis_mode, Order, CancelReason,
}
use lottery.Redis.Progress.{may_become, may_become_refl, Grows-refl}
use lottery.Redis.Settled.{Settled}
use lottery.Ledger.{
  Ledger, first, has_id, is_pending, is_live, pay_row, cancel_row, pay_pending, cancel_released,
  mark_released, insert_order, in_scope, of_user, affected, clashes,
}
use lottery.Program.{World, perform, update_released, insert_row, update_paid, update_cancelled}
use lottery.Consistency.Rows.{
  Moves, updated, updated-Extends, updated-Sound, appended, appended-Extends, appended-Sound,
}
use lottery.Consistency.{Extends, Backed, Sound, Before-refl}
use lottery.Consistency.Calls.{Good}

pay_selected :
    (id : ℕ) (o : Order)
    → (has_id id o && is_pending o.status) ≡ true
    → (o.id ≡ id) × (o.status ≡ pending_payment)
pay_selected id o h = ground arith

pending_to_paid : (s : OrderStatus) → s ≡ pending_payment → may_become s paid ≡ true
unfolding may_become
pending_to_paid s h = ground arith

live_to_cancelled : (s : OrderStatus) → is_live s ≡ true → may_become s cancelled ≡ true
unfolding may_become
live_to_cancelled s h = ground arith

cancel_selected :
    (activity uid gift_id : ℕ) (id : OrderIdentity) (o : Order)
    → id.order_id ≢ []
    → (in_scope id o && of_user activity uid o && o.gift_id == gift_id && is_live o.status) ≡ true
    → (o.user_id ≡ uid) × (o.gift_id ≡ gift_id) × (o.identity ≡ id) × (is_live o.status ≡ true)
cancel_selected activity uid gift_id id o n h = ground arith

-- The INSERT adds the row under the next id, or finds a clash and does nothing.
pub insert_cases :
    (o : Order) (l : Ledger)
    → let row = record o { id = l.next_id } in
      (((insert_order o l).0 ≡ l) × ((insert_order o l).1 ≡ none))
      ⊎ (((insert_order o l).0 ≡ appended row l) × ((insert_order o l).1 ≡ some row))
unfolding insert_order appended
insert_cases o l = elim (Bool-cases (affected (clashes o) l.orders == 0)) [
  | inl t ↦ inr (rw t (refl, refl))
  | inr t ↦ inl (rw t (refl, refl))
]

module _ (stock : ℕ → ℕ) (v : World) (s : Sound stock v.redis v.ledger) where
  Good-ledger :
      (l : Ledger)
      → Sound stock v.redis l
      → Extends v.ledger l
      → Good stock v (record v { ledger = l })
  Good-ledger l s' e = (s', (Grows-refl v.redis, e))

  Moves-Good :
      (p : Order → Bool) (f : Order → Order)
      → Moves p f v.redis v.ledger
      → Good stock v (record v { ledger = updated p f v.ledger })
  Moves-Good p f m =
      Good-ledger (updated p f v.ledger) (updated-Sound stock p f v.redis v.ledger m s)
        (updated-Extends p f v.redis v.ledger m)

  -- What the caller of the payment's UPDATE knows: a Redis order's admission is paid.
  unfoldable pub MayPay : ℕ → Type 0
  MayPay id =
      (o : Order)
      → first (has_id id) v.ledger.orders ≡ some o
      → o.inventory_mode ≡ redis_mode
      → Settled o.user_id o.gift_id o.identity paid v.redis

  pub pay-Good : (id now : ℕ) → MayPay id → Good stock v (perform (update_paid id now) v).0
  unfolding perform pay_pending updated MayPay
  pay-Good id now may = Moves-Good _ (pay_row now) (record {
    id = λ o. refl;
    later = λ o found h. record {
      id = refl;
      identity = refl;
      gift = refl;
      user = refl;
      mode = refl;
      state = pending_to_paid o.status (pay_selected id o h).1;
    };
    stays_backed = λ o found h mode b.
        let known =
          may o
            (subst (λ k. first (has_id k) v.ledger.orders ≡ some o) (pay_selected id o h).0 found)
            mode in
        record {
          admission = known.admission;
          found = known.found;
          gift = known.gift;
          same = known.same;
          pays = λ _. known.reached;
          cancels = λ e. absurd (cc);
        };
  })

  pub cancel_released-Good :
      (activity uid gift_id : ℕ) (id : OrderIdentity) (now : ℕ) (why : CancelReason)
      → Settled uid gift_id id cancelled v.redis
      → Good stock v (perform (update_cancelled activity uid gift_id id now why) v).0
  unfolding perform cancel_released updated
  cancel_released-Good activity uid gift_id id now why known =
      Moves-Good _ (cancel_row now why) (record {
        id = λ o. refl;
        later = λ o found h. record {
          id = refl;
          identity = refl;
          gift = refl;
          user = refl;
          mode = refl;
          state = live_to_cancelled o.status (selected o h).3;
        };
        stays_backed = λ o found h mode b.
            let (user, gift, same, _) = selected o h in
            record {
              admission = known.admission;
              found = rw user known.found;
              gift = known.gift ∙ sym gift;
              same = known.same ∙ sym same;
              pays = λ e. absurd (cc);
              cancels = λ _. known.reached;
            };
      })
    where
      numbered : id.order_id ≢ []
      numbered =
          subst (λ (y : OrderIdentity). y.order_id ≢ []) known.same
            (s.numbered uid known.admission known.found)

      selected :
          (o : Order)
          → (in_scope id o && of_user activity uid o && o.gift_id == gift_id && is_live o.status)
            ≡ true
          → (o.user_id ≡ uid)
            × (o.gift_id ≡ gift_id)
            × (o.identity ≡ id)
            × (is_live o.status ≡ true)
      selected o h = cancel_selected activity uid gift_id id o numbered h

  pub update_released-Good : (id : ℕ) → Good stock v (perform (update_released id) v).0
  unfolding perform mark_released updated
  update_released-Good id =
      Moves-Good _ (λ o. record o { stock_released = true })
        (record {
          id = λ o. refl;
          later = λ o found h. record {
            id = refl;
            identity = refl;
            gift = refl;
            user = refl;
            mode = refl;
            state = may_become_refl o.status;
          };
          stays_backed = λ o found h mode b. record {
            admission = b.admission;
            found = b.found;
            gift = b.gift;
            same = b.same;
            pays = b.pays;
            cancels = b.cancels;
          };
        })

  appended-Good :
      (row : Order)
      → row.id ≡ v.ledger.next_id
      → (row.inventory_mode ≡ redis_mode → Backed row v.redis)
      → Good stock v (record v { ledger = appended row v.ledger })
  appended-Good row e b =
      Good-ledger (appended row v.ledger) (appended-Sound stock row v.redis v.ledger e b s)
        (appended-Extends stock row v.redis v.ledger e s)

  -- A new row has its id from the table.
  at_next_id : (o : Order) → Backed o v.redis → Backed (record o { id = v.ledger.next_id }) v.redis
  at_next_id o b = record {
    admission = b.admission;
    found = b.found;
    gift = b.gift;
    same = b.same;
    pays = b.pays;
    cancels = b.cancels;
  }

  pub insert-Good :
      (o : Order)
      → (o.inventory_mode ≡ redis_mode → Backed o v.redis)
      → Good stock v (perform (insert_row o) v).0
  unfolding perform
  insert-Good o b = elim (insert_cases o v.ledger) [
    | inl (e, _) ↦ rw e (s, Before-refl v)
    | inr (e, _) ↦
        rw e (appended-Good (record o { id = v.ledger.next_id }) refl (λ m. at_next_id o (b m)))
  ]
