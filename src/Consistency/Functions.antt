-- ===== src/Consistency/Functions.antt =====
-- The functions of internal/database on admissions and orders keep the stores consistent, and
-- what their callers then know.
use lottery.Base.{
  if◌then◌else◌, ℕ, ◌≡◌, refl, sym, ap, subst, ◌∙◌, ◌≢◌, inl, inr, Bool, true, false, ◌==◌, ◌||◌,
  arith, Text, Option, none, some, lookup, Bool-cases,
}
use lottery.Order.{
  OrderStatus, paid, cancelled, other_status, OrderIdentity, redis_mode, Order, default_activity_id,
}
use lottery.Redis.{Admission, Redis, claim_admission_script, release_admission_script}
use lottery.Redis.Settled.{Settled, claim-Settled, release-Settled, Settled-Grows}
use lottery.Program.{
  failed, World, ask, get_run, set_run_if_absent, pass, ret, ◌>>=◌, Result, ok, err, perform, claim,
  release,
}
use lottery.Store.Admissions.{
  get_lottery_admission, parsed, parsed_as, claim_lottery_admission, release_lottery_admission,
  mark_lottery_admission_pending_payment, id_of, run_of, start_run, new_identity_id,
  current_or_start, current_seckill_run,
}
use lottery.Store.Orders.{
  find_order_identity, present, find_order_by_id, transition_pending_order_to_paid,
}
use lottery.Consistency.{Sound, Before-trans}
use lottery.Consistency.Calls.{same-Good, claim-Good, release-Good, mark-Good, set_run-Good}
use lottery.Consistency.Statements.{MayPay, pay-Good}
use lottery.Consistency.Facts.{Seen, Seen-here, Known, Known-Before, find_order_identity-Known}
use lottery.Consistency.Steps.{
  Told, Keeps, pass_ret-Keeps, Ends, ret-Keeps, call-Keeps, here-Keeps, bind-Keeps,
}

abbrev pub SeenIf : ℕ → Option Admission → World → Type 0
SeenIf uid none w = Unit {0}
SeenIf uid (some a) w = Seen uid a w

abbrev pub SettledIf : ℕ → ℕ → OrderIdentity → OrderStatus → Bool → World → Type 0
SettledIf uid gift_id id state false w = Unit {0}
SettledIf uid gift_id id state true w = Settled uid gift_id id state w.redis

parsed_as-Seen :
    (uid : ℕ) (a : Admission) (state : OrderStatus) (w : World)
    → Seen uid a w
    → Told (SeenIf uid) (parsed_as state a) w
unfolding parsed_as
parsed_as-Seen uid a other_status w s = tt
parsed_as-Seen uid a _ w s = s

refused_or :
    (uid : ℕ) (bad : Bool) (x : Result (Option Admission)) (w : World)
    → Told (SeenIf uid) x w
    → Told (SeenIf uid) (if bad then err failed else x) w
refused_or uid true x w s = tt
refused_or uid false x w s = s

parsed-Seen :
    (uid : ℕ) (x : Option Admission) (w : World)
    → lookup uid w.redis.admissions ≡ x
    → Told (SeenIf uid) (parsed x) w
unfolding parsed
parsed-Seen uid none w e = tt
parsed-Seen uid (some a) w e =
    refused_or uid _ _ w (parsed_as-Seen uid a a.state w (Seen-here uid a w e))

present-Known :
    (uid : ℕ) (id : OrderIdentity) (x : Option Order) (w : World)
    → ((o : Order) → x ≡ some o → Known uid id o w)
    → Told (Known uid id) (present x) w
unfolding present
present-Known uid id none w k = tt
present-Known uid id (some o) w k = k o refl

Settled-row :
    (uid gift_id : ℕ) (id : OrderIdentity) (row : Order) (r : Redis)
    → row.user_id ≡ uid
    → row.gift_id ≡ gift_id
    → row.identity ≡ id
    → Settled uid gift_id id paid r
    → Settled row.user_id row.gift_id row.identity paid r
Settled-row uid gift_id id row r user gift same a = record {
  admission = a.admission;
  found = rw user a.found;
  gift = a.gift ∙ sym gift;
  same = a.same ∙ sym same;
  reached = a.reached;
}

module _ (stock : ℕ → ℕ) where
  pub get_lottery_admission-Keeps :
      (uid : ℕ) (w : World) → Keeps stock (Told (SeenIf uid)) (get_lottery_admission uid) w
  unfolding ◌>>=◌ get_lottery_admission perform
  get_lottery_admission-Keeps uid w =
      call-Keeps stock (λ v s le. same-Good stock v s)
        (λ v s le le'. ret-Keeps stock (parsed-Seen uid (lookup uid v.redis.admissions) v refl))
        (λ v le. ret-Keeps stock tt)

  pub find_order_identity-Keeps :
      (uid : ℕ) (id : OrderIdentity) (w : World)
      → Keeps stock (Told (Known uid id)) (find_order_identity uid id) w
  unfolding ◌>>=◌ find_order_identity perform
  find_order_identity-Keeps uid id w =
      call-Keeps stock (λ v s le. same-Good stock v s)
        (λ v s le le'. ret-Keeps stock (
          present-Known uid id _ v
            (λ o e. find_order_identity-Known stock default_activity_id uid id v s e)))
        (λ v le. ret-Keeps stock tt)

  pub mark_lottery_admission-Keeps :
      (uid gift_id : ℕ) (id : OrderIdentity) (w : World)
      → Keeps stock Ends (mark_lottery_admission_pending_payment uid gift_id id) w
  unfolding ◌>>=◌ mark_lottery_admission_pending_payment
  mark_lottery_admission-Keeps uid gift_id id w =
      call-Keeps stock (λ v s le. mark-Good stock v s uid gift_id id)
        (λ v s le le'. ret-Keeps stock tt) (λ v le. ret-Keeps stock tt)

  claimed_if :
      (uid gift_id : ℕ) (id : OrderIdentity) (n : ℕ) (w : World)
      → (n ≢ 0 → Settled uid gift_id id paid w.redis)
      → SettledIf uid gift_id id paid (n == 1 || n == 2) w
  claimed_if uid gift_id id n w settled = elim (Bool-cases (n == 1 || n == 2)) [
    | inl t ↦ rw t (settled (λ e. ground arith))
    | inr t ↦ rw t tt
  ]

  pub claim_lottery_admission-Keeps :
      (uid gift_id : ℕ) (id : OrderIdentity) (w : World)
      → Keeps stock
          (Told (SettledIf uid gift_id id paid))
          (claim_lottery_admission uid gift_id id)
          w
  unfolding ◌>>=◌ claim_lottery_admission perform
  claim_lottery_admission-Keeps uid gift_id id w =
      call-Keeps stock (λ v s le. claim-Good stock v s uid gift_id id)
        (λ v s le le'. ret-Keeps stock (
          claimed_if uid gift_id id (claim_admission_script uid gift_id id v.redis).1
            (perform (claim uid gift_id id) v).0 (claim-Settled uid gift_id id v.redis)))
        (λ v le. ret-Keeps stock tt)

  released_if :
      (uid gift_id : ℕ) (id : OrderIdentity) (n : ℕ) (w : World)
      → (n ≢ 0 → Settled uid gift_id id cancelled w.redis)
      → SettledIf uid gift_id id cancelled (n == 1) w
  released_if uid gift_id id n w settled = elim (Bool-cases (n == 1)) [
    | inl t ↦ rw t (settled (λ e. ground arith))
    | inr t ↦ rw t tt
  ]

  pub release_lottery_admission-Keeps :
      (uid gift_id : ℕ) (id : OrderIdentity) (w : World)
      → Keeps stock
          (Told (SettledIf uid gift_id id cancelled))
          (release_lottery_admission uid gift_id id)
          w
  unfolding ◌>>=◌ release_lottery_admission perform
  release_lottery_admission-Keeps uid gift_id id w =
      call-Keeps stock (λ v s le. release-Good stock v s uid gift_id id)
        (λ v s le le'. ret-Keeps stock (
          released_if uid gift_id id (release_admission_script uid gift_id id v.redis).1
            (perform (release uid gift_id id) v).0 (release-Settled uid gift_id id v.redis)))
        (λ v le. ret-Keeps stock tt)

  pub find_order_by_id-Keeps : (id : ℕ) (w : World) → Keeps stock Ends (find_order_by_id id) w
  unfolding ◌>>=◌ find_order_by_id perform
  find_order_by_id-Keeps id w =
      call-Keeps stock (λ v s le. same-Good stock v s) (λ v s le le'. ret-Keeps stock tt)
        (λ v le. ret-Keeps stock tt)

  may_pay :
      (uid : ℕ) (id : OrderIdentity) (o : Order) (w : World) (s : Sound stock w.redis w.ledger)
      → Known uid id o w
      → (o.inventory_mode ≡ redis_mode → Settled uid o.gift_id id paid w.redis)
      → MayPay stock w s o.id
  unfolding MayPay
  may_pay uid id o w s k paid_already row found mode =
      let same_row : k.row ≡ row = cc in
      let is_redis : o.inventory_mode ≡ redis_mode =
        sym k.later.mode ∙ ap (λ (x : Order). x.inventory_mode) same_row ∙ mode in
      let a = paid_already is_redis in
      subst (λ (x : Order). Settled x.user_id x.gift_id x.identity paid w.redis) same_row
        (Settled-row uid o.gift_id id k.row w.redis (k.later.user ∙ k.user) k.later.gift
          (k.later.identity ∙ k.same is_redis) a)

  -- What the payment's caller knows of a Redis order: its admission is paid.
  pub transition_pending_order_to_paid-Keeps :
      (uid : ℕ) (id : OrderIdentity) (o : Order) (w : World)
      → Known uid id o w
      → (o.inventory_mode ≡ redis_mode → Settled uid o.gift_id id paid w.redis)
      → Keeps stock Ends (transition_pending_order_to_paid o.id) w
  unfolding ◌>>=◌ transition_pending_order_to_paid
  transition_pending_order_to_paid-Keeps uid id o w k paid_already = here-Keeps stock λ now v le.
      call-Keeps stock
        (λ u s le'.
          let le'' = Before-trans w v u le le' in
          pay-Good stock u s o.id now (
            may_pay uid id o u s (Known-Before uid id o w u le'' k) (λ mode.
              Settled-Grows uid o.gift_id id paid w.redis u.redis (inl refl) (paid_already mode)
                le''.0)))
        (λ u s le' le''.
          bind-Keeps stock (find_order_by_id-Keeps o.id _) (λ a x b r. pass_ret-Keeps stock _ a x))
        (λ u le'. ret-Keeps stock tt)

  start_run-Keeps : (w : World) → Keeps stock Ends start_run w
  unfolding start_run new_identity_id ◌>>=◌ perform
  start_run-Keeps w = here-Keeps stock λ bytes v le. after (id_of bytes) v
    where
      read_again :
          (v : World)
          → Keeps stock Ends
              (ask get_run >>= λ current. pass current (λ found. ret (run_of found)))
              v
      read_again v =
          call-Keeps stock (λ u s le. same-Good stock u s) (λ u s le le'. ret-Keeps stock tt)
            (λ u le. ret-Keeps stock tt)

      after :
          (candidate : Result Text) (v : World)
          → Keeps stock Ends
              (pass candidate λ run.
                (ask (set_run_if_absent run) >>= λ set.
                pass set
                  λ _. (ask get_run >>= λ current. pass current (λ found. ret (run_of found)))))
              v
      after (err e) v = ret-Keeps stock tt
      after (ok run) v =
          call-Keeps stock (λ u s le. set_run-Good stock u s run) (λ u s le le'. read_again _)
            (λ u le. ret-Keeps stock tt)

  current_or_start-Keeps : (x : Option Text) (w : World) → Keeps stock Ends (current_or_start x) w
  unfolding current_or_start
  current_or_start-Keeps none w = start_run-Keeps w
  current_or_start-Keeps (some run) w = ret-Keeps stock tt

  pub current_seckill_run-Keeps : (w : World) → Keeps stock Ends current_seckill_run w
  unfolding current_seckill_run ◌>>=◌ perform
  current_seckill_run-Keeps w =
      call-Keeps stock (λ v s le. same-Good stock v s)
        (λ v s le le'. current_or_start-Keeps v.redis.run v) (λ v le. ret-Keeps stock tt)
