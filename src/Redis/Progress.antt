-- ===== src/Redis/Progress.antt =====
-- The life of an admission under the Lua scripts of admission.go.
use lottery.Base.{
  ℕ, zero, suc, sym, ◌⊎◌, Option, ◌≡◌, refl, subst, ◌∙◌, ◌≢◌, inl, inr, List, [], ◌∷◌, arith, Bool,
  true, false, none, some, lookup, insert, lookup-insert, Bool-cases, ◌==◌,
}
use lottery.Order.{
  OrderStatus, stock_acquired, pending_payment, paid, cancelled, other_status, OrderIdentity,
  can_transition,
}
use lottery.Redis.{
  Admission, Redis, with_state, set_state, give_back, take_unit, key_ttl, kept_ttl, Script,
  run_script,
}
use lottery.Redis.Effects.{Effect, kept, moved, returned, taken, run_scripts, run_script-Effect}

-- One admission is a later state of another: the same purchase, the state moved along the edges.
unfoldable pub may_become : OrderStatus → OrderStatus → Bool
may_become stock_acquired other_status = false
may_become stock_acquired _ = true
may_become pending_payment pending_payment = true
may_become pending_payment paid = true
may_become pending_payment cancelled = true
may_become paid paid = true
may_become cancelled cancelled = true
may_become other_status other_status = true
may_become _ _ = false

pub may_become_refl : (s : OrderStatus) → may_become s s ≡ true
unfolding may_become
may_become_refl stock_acquired = refl
may_become_refl pending_payment = refl
may_become_refl paid = refl
may_become_refl cancelled = refl
may_become_refl other_status = refl

pub may_become_trans :
    (s t u : OrderStatus) → may_become s t ≡ true → may_become t u ≡ true → may_become s u ≡ true
unfolding may_become
may_become_trans s t u h k = ground arith

may_become_edge : (s t : OrderStatus) → can_transition s t ≡ true → may_become s t ≡ true
unfolding may_become can_transition
may_become_edge s t h = ground arith

-- A lifetime stays, but for one that is at its end when a script writes the key again.
abbrev pub LaterTtl : Option ℕ → Option ℕ → Type 0
LaterTtl old new = (new ≡ old) ⊎ ((old ≡ some 0) × (new ≡ none))

kept_ttl-LaterTtl : (old : Option ℕ) → LaterTtl old (kept_ttl old)
kept_ttl-LaterTtl none = inl refl
kept_ttl-LaterTtl (some zero) = inr (refl, refl)
kept_ttl-LaterTtl (some (suc n)) = inl refl

LaterTtl-trans : (x y z : Option ℕ) → LaterTtl x y → LaterTtl y z → LaterTtl x z
LaterTtl-trans x y z (inl p) (inl q) = inl (q ∙ p)
LaterTtl-trans x y z (inl p) (inr (q, r)) = inr (sym p ∙ q, r)
LaterTtl-trans x y z (inr (p, r)) (inl q) = inr (p, q ∙ r)
LaterTtl-trans x y z (inr (p, r)) (inr (q, r')) = inr (p, r')

pub record Later (a b : Admission) : Type 0 where
  pub gift : b.gift_id ≡ a.gift_id
  pub ttl : LaterTtl a.ttl_ms b.ttl_ms
  pub identity : b.identity ≡ a.identity
  pub state : may_become a.state b.state ≡ true

-- Every admission of one Redis is there, perhaps later, in another.
abbrev pub Grows : Redis → Redis → Type 0
Grows r r' =
    (uid : ℕ) (a : Admission)
    → lookup uid r.admissions ≡ some a
    → (b : Admission) × (lookup uid r'.admissions ≡ some b) × Later a b

pub Later-refl : (a : Admission) → Later a a
Later-refl a = record {
  gift = refl;
  ttl = inl refl;
  identity = refl;
  state = may_become_refl a.state;
}

pub Later-trans : {a b c : Admission} → Later a b → Later b c → Later a c
Later-trans {a} {b} {c} p q = record {
  gift = q.gift ∙ p.gift;
  ttl = LaterTtl-trans a.ttl_ms b.ttl_ms c.ttl_ms p.ttl q.ttl;
  identity = q.identity ∙ p.identity;
  state = may_become_trans a.state b.state c.state p.state q.state;
}

pub Grows-refl : (r : Redis) → Grows r r
Grows-refl r uid a e = (a, e, Later-refl a)

pub Grows-trans : (r s t : Redis) → Grows r s → Grows s t → Grows r t
Grows-trans r s t f g uid a e =
    let (b, e', p) = f uid a e in let (c, e'', q) = g uid b e' in (c, e'', Later-trans p q)

insert-Grows :
    (uid : ℕ) (a b : Admission) (r r' : Redis)
    → lookup uid r.admissions ≡ some a
    → r'.admissions ≡ insert uid b r.admissions
    → Later a b
    → Grows r r'
insert-Grows uid a b r r' found e later k x h = elim (Bool-cases (uid == k)) [
  | inl same ↦ (b, ground (arith, lookup-insert uid k b r.admissions), ground (arith, found, h))
  | inr other ↦ (x, ground (arith, lookup-insert uid k b r.admissions), Later-refl x)
]

set_state-Grows :
    (uid : ℕ) (a : Admission) (state : OrderStatus) (r : Redis)
    → lookup uid r.admissions ≡ some a
    → can_transition a.state state ≡ true
    → Grows r (set_state uid a state r)
unfolding set_state
set_state-Grows uid a state r found edge =
    insert-Grows uid a (with_state state a) r (set_state uid a state r) found refl (record {
      gift = refl;
      ttl = kept_ttl-LaterTtl a.ttl_ms;
      identity = refl;
      state = may_become_edge _ _ edge;
    })

give_back-Grows :
    (uid : ℕ) (a : Admission) (r : Redis)
    → lookup uid r.admissions ≡ some a
    → can_transition a.state cancelled ≡ true
    → Grows r (give_back uid a.gift_id a r)
unfolding give_back set_state
give_back-Grows uid a r found edge =
    insert-Grows uid a (with_state cancelled a) r (give_back uid a.gift_id a r) found refl (record {
      gift = refl;
      ttl = kept_ttl-LaterTtl a.ttl_ms;
      identity = refl;
      state = may_become_edge _ _ edge;
    })

take_unit-Grows :
    (uid gift_id ttl_seconds : ℕ) (id : OrderIdentity) (r : Redis)
    → lookup uid r.admissions ≡ none
    → Grows r (take_unit uid gift_id ttl_seconds id r)
unfolding take_unit
take_unit-Grows uid gift_id ttl_seconds id r free k a h =
    (a, lookup-insert uid k new r.admissions ∙ ground (arith, free, h), Later-refl a)
  where
    new : Admission
    new = record {
      gift_id = gift_id;
      state = stock_acquired;
      identity = id;
      ttl_ms = key_ttl ttl_seconds;
    }

Effect-Grows : {T : OrderIdentity → Type 0} {r r' : Redis} → Effect T r r' → Grows r r'
Effect-Grows {r} (kept e) = rw e (Grows-refl r)
Effect-Grows {r} (moved uid a state found edge live e) =
    rw e (set_state-Grows uid a state r found edge)
Effect-Grows {r} (returned uid a found edge e) = rw e (give_back-Grows uid a r found edge)
Effect-Grows {r} (taken uid gift_id ttl_seconds id free left made e) =
    rw e (take_unit-Grows uid gift_id ttl_seconds id r free)

pub run_script-Grows : (s : Script) (r : Redis) → Grows r (run_script s r)
run_script-Grows s r = Effect-Grows (run_script-Effect s r)

-- Whatever scripts run, every admission stays with its gift, its order, its run and its lifetime
-- (where that is 0, a script that writes the admission again leaves it without expiry), and its
-- state moves along the edges of can_transition only.
pub run_scripts-Grows : (scripts : List Script) (r : Redis) → Grows r (run_scripts scripts r)
unfolding run_scripts
run_scripts-Grows [] r = Grows-refl r
run_scripts-Grows (s ∷ scripts) r =
    Grows-trans r (run_script s r) (run_scripts scripts (run_script s r)) (run_script-Grows s r)
      (run_scripts-Grows scripts (run_script s r))

-- Each admission has an order number.
abbrev pub Numbered : Redis → Type 0
Numbered r = (uid : ℕ) (a : Admission) → lookup uid r.admissions ≡ some a → a.identity.order_id ≢ []

insert-Numbered :
    (uid : ℕ) (b : Admission) (r r' : Redis)
    → b.identity.order_id ≢ []
    → r'.admissions ≡ insert uid b r.admissions
    → Numbered r
    → Numbered r'
insert-Numbered uid b r r' new e n k x h = elim (Bool-cases (uid == k)) [
  | inl same ↦
      let is_new : b ≡ x = ground (arith, lookup-insert uid k b r.admissions) in
      subst (λ (y : Admission). y.identity.order_id ≢ []) is_new new
  | inr other ↦ n k x (ground (arith, lookup-insert uid k b r.admissions))
]

pub Effect-Numbered :
    {T : OrderIdentity → Type 0} {r r' : Redis}
    → Effect T r r'
    → ((id : OrderIdentity) → T id → id.order_id ≢ [])
    → Numbered r
    → Numbered r'
unfolding set_state give_back take_unit
Effect-Numbered (kept e) new n = rw e n
Effect-Numbered {r = r} {r' = r'} (moved uid a state found edge live e) new n =
    insert-Numbered uid (with_state state a) r r' (n uid a found) (rw e refl) n
Effect-Numbered {r = r} {r' = r'} (returned uid a found edge e) new n =
    insert-Numbered uid (with_state cancelled a) r r' (n uid a found) (rw e refl) n
Effect-Numbered {r = r} {r' = r'} (taken uid gift_id ttl_seconds id free left made e) new n =
    insert-Numbered uid
      (record {
        gift_id = gift_id;
        state = stock_acquired;
        identity = id;
        ttl_ms = key_ttl ttl_seconds;
      })
      r r' (new id made) (rw e refl) n
