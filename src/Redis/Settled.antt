-- ===== src/Redis/Settled.antt =====
-- Admissions in a final state, under the Lua scripts of admission.go.
use lottery.Base.{
  ℕ, ◌≡◌, refl, ◌∙◌, ◌≢◌, ◌⊎◌, inl, inr, List, arith, true, Option, none, some, lookup,
  lookup-insert_self,
}
use lottery.Order.{OrderStatus, pending_payment, paid, cancelled, other_status, OrderIdentity}
use lottery.Redis.{
  Admission, Redis, with_state, owned, set_state, give_back, Script, claim_admission_script,
  release_admission_script, claim_in, claim_if, release_in, release_if,
}
use lottery.Redis.Effects.{run_scripts, owned-eq}
use lottery.Redis.Progress.{may_become, Grows, run_scripts-Grows}

-- The user's admission for this gift and order has reached this state.
pub record Settled (uid gift_id : ℕ) (id : OrderIdentity) (state : OrderStatus) (r : Redis)
    : Type 0 where
  pub admission : Admission
  pub found : lookup uid r.admissions ≡ some admission
  pub gift : admission.gift_id ≡ gift_id
  pub same : admission.identity ≡ id
  pub reached : admission.state ≡ state

may_become_paid : (s : OrderStatus) → may_become paid s ≡ true → s ≡ paid
unfolding may_become
may_become_paid s h = ground arith

may_become_cancelled : (s : OrderStatus) → may_become cancelled s ≡ true → s ≡ cancelled
unfolding may_become
may_become_cancelled s h = ground arith

abbrev pub IsFinal : OrderStatus → Type 0
IsFinal state = (state ≡ paid) ⊎ (state ≡ cancelled)

pub may_become_final : (s t : OrderStatus) → IsFinal s → may_become s t ≡ true → t ≡ s
unfolding may_become
may_become_final s t f h = ground arith

pub Settled-Grows :
    (uid gift_id : ℕ) (id : OrderIdentity) (state : OrderStatus) (r r' : Redis)
    → IsFinal state
    → Settled uid gift_id id state r
    → Grows r r'
    → Settled uid gift_id id state r'
Settled-Grows uid gift_id id state r r' f s g =
    let (b, found, later) = g uid s.admission s.found in
    record {
      admission = b;
      found = found;
      gift = later.gift ∙ s.gift;
      same = later.identity ∙ s.same;
      reached = may_become_final s.admission.state b.state (rw s.reached f) later.state ∙ s.reached;
    }

identity_path : (a b : OrderIdentity) → a.order_id ≡ b.order_id → a.run_id ≡ b.run_id → a ≡ b
identity_path a b p q i = record { order_id = p i; run_id = q i }

claim_in-Settled :
    (uid : ℕ) (a : Admission) (state : OrderStatus) (r : Redis)
    → lookup uid r.admissions ≡ some a
    → a.state ≡ state
    → (claim_in state uid a r).1 ≢ 0
    → Settled uid a.gift_id a.identity paid (claim_in state uid a r).0
unfolding claim_in set_state
claim_in-Settled uid a paid r e s h = record {
  admission = a;
  found = e;
  gift = refl;
  same = refl;
  reached = s;
}
claim_in-Settled uid a pending_payment r e s h = record {
  admission = with_state paid a;
  found = lookup-insert_self uid (with_state paid a) r.admissions;
  gift = refl;
  same = refl;
  reached = refl;
}
claim_in-Settled uid a _ r e s h = absurd (h refl)

release_in-Settled :
    (uid gift_id : ℕ) (a : Admission) (state : OrderStatus) (r : Redis)
    → lookup uid r.admissions ≡ some a
    → a.state ≡ state
    → (release_in state uid gift_id a r).1 ≢ 0
    → Settled uid a.gift_id a.identity cancelled (release_in state uid gift_id a r).0
unfolding release_in give_back set_state
release_in-Settled uid gift_id a cancelled r e s h = record {
  admission = a;
  found = e;
  gift = refl;
  same = refl;
  reached = s;
}
release_in-Settled uid gift_id a paid r e s h = absurd (h refl)
release_in-Settled uid gift_id a other_status r e s h = absurd (h refl)
release_in-Settled uid gift_id a _ r e s h = record {
  admission = with_state cancelled a;
  found = lookup-insert_self uid (with_state cancelled a) r.admissions;
  gift = refl;
  same = refl;
  reached = refl;
}

claim_if-Settled :
    (uid gift_id : ℕ) (id : OrderIdentity) (r : Redis) (o : Option Admission)
    → owned uid gift_id id r ≡ o
    → (claim_if o uid r).1 ≢ 0
    → Settled uid gift_id id paid (claim_if o uid r).0
unfolding claim_if
claim_if-Settled uid gift_id id r none e h = absurd (h refl)
claim_if-Settled uid gift_id id r (some a) e h =
    let (found, gift, o, n) = owned-eq uid gift_id id r e in
    let s = claim_in-Settled uid a a.state r found refl h in
    record {
      admission = s.admission;
      found = s.found;
      gift = s.gift ∙ gift;
      same = s.same ∙ identity_path a.identity id o n;
      reached = s.reached;
    }

release_if-Settled :
    (uid gift_id : ℕ) (id : OrderIdentity) (r : Redis) (o : Option Admission)
    → owned uid gift_id id r ≡ o
    → (release_if o uid gift_id r).1 ≢ 0
    → Settled uid gift_id id cancelled (release_if o uid gift_id r).0
unfolding release_if
release_if-Settled uid gift_id id r none e h = absurd (h refl)
release_if-Settled uid gift_id id r (some a) e h =
    let (found, gift, o, n) = owned-eq uid gift_id id r e in
    let s = release_in-Settled uid gift_id a a.state r found refl h in
    record {
      admission = s.admission;
      found = s.found;
      gift = s.gift ∙ gift;
      same = s.same ∙ identity_path a.identity id o n;
      reached = s.reached;
    }

pub claim-Settled :
    (uid gift_id : ℕ) (id : OrderIdentity) (r : Redis)
    → (claim_admission_script uid gift_id id r).1 ≢ 0
    → Settled uid gift_id id paid (claim_admission_script uid gift_id id r).0
unfolding claim_admission_script
claim-Settled uid gift_id id r = claim_if-Settled uid gift_id id r (owned uid gift_id id r) refl

pub release-Settled :
    (uid gift_id : ℕ) (id : OrderIdentity) (r : Redis)
    → (release_admission_script uid gift_id id r).1 ≢ 0
    → Settled uid gift_id id cancelled (release_admission_script uid gift_id id r).0
unfolding release_admission_script
release-Settled uid gift_id id r = release_if-Settled uid gift_id id r (owned uid gift_id id r) refl

paid_release :
    (uid gift_id : ℕ) (id : OrderIdentity) (r : Redis) {a : Admission}
    → lookup uid r.admissions ≡ some a
    → a.state ≡ paid
    → (release_admission_script uid gift_id id r).1 ≡ 0
unfolding release_admission_script
paid_release uid gift_id id r e s = ground arith

cancelled_claim :
    (uid gift_id : ℕ) (id : OrderIdentity) (r : Redis) {a : Admission}
    → lookup uid r.admissions ≡ some a
    → a.state ≡ cancelled
    → (claim_admission_script uid gift_id id r).1 ≡ 0
unfolding claim_admission_script
cancelled_claim uid gift_id id r e s = ground arith

cancelled_release :
    (uid gift_id : ℕ) (id : OrderIdentity) (r : Redis) {a : Admission}
    → lookup uid r.admissions ≡ some a
    → a.state ≡ cancelled
    → (release_admission_script uid gift_id id r).0 ≡ r
unfolding release_admission_script
cancelled_release uid gift_id id r e s = ground arith

-- A claim that succeeded, first or again, can never be undone: after any scripts a release of
-- that user's admission, under any gift and order, answers 0.
pub claim-excludes-release :
    (uid gift_id gift_id' : ℕ) (id id' : OrderIdentity) (r : Redis) (scripts : List Script)
    → (claim_admission_script uid gift_id id r).1 ≢ 0
    → let later = run_scripts scripts (claim_admission_script uid gift_id id r).0 in
      (release_admission_script uid gift_id' id' later).1 ≡ 0
claim-excludes-release uid gift_id gift_id' id id' r scripts h =
    let now = (claim_admission_script uid gift_id id r).0 in
    let s =
      Settled-Grows uid gift_id id paid now (run_scripts scripts now) (inl refl)
        (claim-Settled uid gift_id id r h) (run_scripts-Grows scripts now) in
    paid_release uid gift_id' id' (run_scripts scripts now) s.found s.reached

-- A release that succeeded, first or again, is final: after any scripts a claim of that user's
-- admission answers 0, and a further release gives nothing back.
pub release-excludes-claim :
    (uid gift_id gift_id' : ℕ) (id id' : OrderIdentity) (r : Redis) (scripts : List Script)
    → (release_admission_script uid gift_id id r).1 ≢ 0
    → let later = run_scripts scripts (release_admission_script uid gift_id id r).0 in
      ((claim_admission_script uid gift_id' id' later).1 ≡ 0)
      × ((release_admission_script uid gift_id' id' later).0 ≡ later)
release-excludes-claim uid gift_id gift_id' id id' r scripts h =
    let now = (release_admission_script uid gift_id id r).0 in
    let s =
      Settled-Grows uid gift_id id cancelled now (run_scripts scripts now) (inr refl)
        (release-Settled uid gift_id id r h) (run_scripts-Grows scripts now) in
    (
      cancelled_claim uid gift_id' id' (run_scripts scripts now) s.found s.reached,
      cancelled_release uid gift_id' id' (run_scripts scripts now) s.found s.reached,
    )
