-- ===== src/Redis/Effects.antt =====
-- What the Lua scripts of admission.go can do to Redis, in one type.
use lottery.Base.{
  ℕ, ◌≡◌, refl, ◌≢◌, ◌⊎◌, inl, inr, List, [], ◌∷◌, arith, true, Option, none, some, lookup,
}
use lottery.Order.{
  OrderStatus, stock_acquired, pending_payment, paid, cancelled, OrderIdentity, can_transition,
}
use lottery.Redis.{
  Admission, Redis, stock_of, acquire_script, owned, set_state, give_back, take_unit, Script,
  acquires, marks, claims, releases, run_script, mark_in, claim_in, release_in, mark_if, claim_if,
  release_if,
}

unfoldable pub run_scripts : List Script → Redis → Redis
run_scripts [] r = r
run_scripts (s ∷ scripts) r = run_scripts scripts (run_script s r)

-- All that a script can do to Redis; `T` says which orders it may admit.
pub data Effect (T : OrderIdentity → Type 0) (r r' : Redis) : Type 0 where
  kept : r' ≡ r → Effect T r r'
  moved :
      (uid : ℕ) (a : Admission) (state : OrderStatus)
      → lookup uid r.admissions ≡ some a
      → can_transition a.state state ≡ true
      → state ≢ cancelled
      → r' ≡ set_state uid a state r
      → Effect T r r'
  returned :
      (uid : ℕ) (a : Admission)
      → lookup uid r.admissions ≡ some a
      → can_transition a.state cancelled ≡ true
      → r' ≡ give_back uid a.gift_id a r
      → Effect T r r'
  taken :
      (uid gift_id ttl_seconds : ℕ) (id : OrderIdentity)
      → lookup uid r.admissions ≡ none
      → stock_of gift_id r ≢ 0
      → T id
      → r' ≡ take_unit uid gift_id ttl_seconds id r
      → Effect T r r'

pub owned-eq :
    (uid gift_id : ℕ) (id : OrderIdentity) (r : Redis) {a : Admission}
    → owned uid gift_id id r ≡ some a
    → (lookup uid r.admissions ≡ some a)
      × (a.gift_id ≡ gift_id)
      × (a.identity.order_id ≡ id.order_id)
      × (a.identity.run_id ≡ id.run_id)
unfolding owned
owned-eq uid gift_id id r e = ground arith

acquire_cases :
    (uid gift_id ttl_seconds : ℕ) (id : OrderIdentity) (r : Redis)
    → let r' = (acquire_script uid gift_id ttl_seconds id r).0 in
      (r' ≡ r)
      ⊎ ((lookup uid r.admissions ≡ none)
          × (stock_of gift_id r ≢ 0)
          × (r' ≡ take_unit uid gift_id ttl_seconds id r))
unfolding acquire_script
acquire_cases uid gift_id ttl_seconds id r = ground arith

acquire-Effect :
    (uid gift_id ttl_seconds : ℕ) (id : OrderIdentity) (r : Redis)
    → Effect (λ x. x ≡ id) r (acquire_script uid gift_id ttl_seconds id r).0
acquire-Effect uid gift_id ttl_seconds id r = elim (acquire_cases uid gift_id ttl_seconds id r) [
  | inl same ↦ kept same
  | inr (free, left, e) ↦ taken uid gift_id ttl_seconds id free left refl e
]

mark-Effect :
    {T : OrderIdentity → Type 0} (uid : ℕ) (a : Admission) (state : OrderStatus) (r : Redis)
    → lookup uid r.admissions ≡ some a
    → a.state ≡ state
    → Effect T r (mark_in state uid a r).0
unfolding mark_in
mark-Effect uid a stock_acquired r e s =
    moved uid a pending_payment e (unfold can_transition in rw s) (λ x. cc) refl
mark-Effect uid a pending_payment r e s = kept refl
mark-Effect uid a _ r e s = kept refl

claim-Effect :
    {T : OrderIdentity → Type 0} (uid : ℕ) (a : Admission) (state : OrderStatus) (r : Redis)
    → lookup uid r.admissions ≡ some a
    → a.state ≡ state
    → Effect T r (claim_in state uid a r).0
unfolding claim_in
claim-Effect uid a pending_payment r e s =
    moved uid a paid e (unfold can_transition in rw s) (λ x. cc) refl
claim-Effect uid a paid r e s = kept refl
claim-Effect uid a _ r e s = kept refl

release-Effect :
    {T : OrderIdentity → Type 0} (uid : ℕ) (a : Admission) (state : OrderStatus) (r : Redis)
    → lookup uid r.admissions ≡ some a
    → a.state ≡ state
    → Effect T r (release_in state uid a.gift_id a r).0
unfolding release_in
release-Effect uid a stock_acquired r e s = returned uid a e (unfold can_transition in rw s) refl
release-Effect uid a pending_payment r e s = returned uid a e (unfold can_transition in rw s) refl
release-Effect uid a cancelled r e s = kept refl
release-Effect uid a _ r e s = kept refl

mark_if-Effect :
    {T : OrderIdentity → Type 0} (uid gift_id : ℕ) (id : OrderIdentity) (r : Redis)
    (o : Option Admission)
    → owned uid gift_id id r ≡ o
    → Effect T r (mark_if o uid r).0
unfolding mark_if
mark_if-Effect uid gift_id id r none e = kept refl
mark_if-Effect uid gift_id id r (some a) e =
    mark-Effect uid a a.state r (owned-eq uid gift_id id r e).0 refl

claim_if-Effect :
    {T : OrderIdentity → Type 0} (uid gift_id : ℕ) (id : OrderIdentity) (r : Redis)
    (o : Option Admission)
    → owned uid gift_id id r ≡ o
    → Effect T r (claim_if o uid r).0
unfolding claim_if
claim_if-Effect uid gift_id id r none e = kept refl
claim_if-Effect uid gift_id id r (some a) e =
    claim-Effect uid a a.state r (owned-eq uid gift_id id r e).0 refl

release_if-Effect :
    {T : OrderIdentity → Type 0} (uid gift_id : ℕ) (id : OrderIdentity) (r : Redis)
    (o : Option Admission)
    → owned uid gift_id id r ≡ o
    → Effect T r (release_if o uid gift_id r).0
unfolding release_if
release_if-Effect uid gift_id id r none e = kept refl
release_if-Effect uid gift_id id r (some a) e =
    let (found, gift, _, _) = owned-eq uid gift_id id r e in
    rw (← gift) (release-Effect uid a a.state r found refl)

-- Only the first script makes an admission, that of its own order.
abbrev pub Admits : Script → OrderIdentity → Type 0
Admits (acquires _ _ _ id) new = new ≡ id
Admits _ new = ⊥

-- Every script has one of these effects: it changes at most one admission, along an edge of the
-- state machine, and the stock only with it.
pub run_script-Effect : (s : Script) (r : Redis) → Effect (Admits s) r (run_script s r)
unfolding run_script
run_script-Effect (acquires uid gift_id ttl_seconds id) r =
    acquire-Effect uid gift_id ttl_seconds id r
run_script-Effect (marks uid gift_id id) r =
    mark_if-Effect uid gift_id id r (owned uid gift_id id r) refl
run_script-Effect (claims uid gift_id id) r =
    claim_if-Effect uid gift_id id r (owned uid gift_id id r) refl
run_script-Effect (releases uid gift_id id) r =
    release_if-Effect uid gift_id id r (owned uid gift_id id r) refl
