-- ===== src/Redis/Units.antt =====
-- Conservation of stock under the Lua scripts of admission.go.
use lottery.Base.{
  ℕ, ◌+◌, ◌-◌, ◌≡◌, refl, ◌∙◌, ◌≢◌, List, [], ◌∷◌, arith, true, none, some, lookup, lookup-insert,
  total, total-insert, if◌then◌else◌, ◌==◌,
}
use lottery.Order.{OrderStatus, stock_acquired, cancelled, OrderIdentity, can_transition}
use lottery.Redis.{
  Admission, Redis, with_state, stock_of, set_state, give_back, take_unit, key_ttl, Script,
  run_script,
}
use lottery.Redis.Effects.{Effect, kept, moved, returned, taken, run_scripts, run_script-Effect}

-- The unit of `gift_id` that an admission holds: every one but a cancelled one, which has given
-- it back.
abbrev holds_in : OrderStatus → ℕ
holds_in cancelled = 0
holds_in _ = 1

abbrev pub holds : ℕ → Admission → ℕ
holds gift_id a = if a.gift_id == gift_id then holds_in a.state else 0

-- All units of a gift: those left, and those held by users.
unfoldable pub units : ℕ → Redis → ℕ
units gift_id r = stock_of gift_id r + total (holds gift_id) r.admissions

units-set_state :
    (g uid : ℕ) (a : Admission) (state : OrderStatus) (r : Redis)
    → lookup uid r.admissions ≡ some a
    → units g (set_state uid a state r) + holds g a ≡ units g r + holds g (with_state state a)
unfolding units set_state
units-set_state g uid a state r e =
    ground (arith, total-insert (holds g) uid (with_state state a) r.admissions, e)

units-give_back :
    (g uid : ℕ) (a : Admission) (r : Redis)
    → lookup uid r.admissions ≡ some a
    → can_transition a.state cancelled ≡ true
    → units g (give_back uid a.gift_id a r) ≡ units g r
unfolding units give_back can_transition
units-give_back g uid a r found edge = ground (
  arith,
  found,
  total-insert (holds g) uid (with_state cancelled a) r.admissions,
  lookup-insert a.gift_id g (stock_of a.gift_id r + 1) r.stock,
)

units-take_unit :
    (g uid gift_id ttl_seconds : ℕ) (id : OrderIdentity) (r : Redis)
    → lookup uid r.admissions ≡ none
    → stock_of gift_id r ≢ 0
    → units g (take_unit uid gift_id ttl_seconds id r) ≡ units g r
unfolding units take_unit
units-take_unit g uid gift_id ttl_seconds id r free left = ground (
  arith,
  free,
  total-insert (holds g) uid
      (record {
        gift_id = gift_id;
        state = stock_acquired;
        identity = id;
        ttl_ms = key_ttl ttl_seconds;
      })
      r.admissions,
  lookup-insert gift_id g (stock_of gift_id r - 1) r.stock,
)

pub Effect-units :
    (g : ℕ) {T : OrderIdentity → Type 0} {r r' : Redis} → Effect T r r' → units g r' ≡ units g r
Effect-units g (kept e) = rw e
Effect-units g {r} (moved uid a state found edge live e) =
    rw e (unfold can_transition in ground (arith, units-set_state g uid a state r found))
Effect-units g {r} (returned uid a found edge e) = rw e (units-give_back g uid a r found edge)
Effect-units g {r} (taken uid gift_id ttl_seconds id free left made e) =
    rw e (units-take_unit g uid gift_id ttl_seconds id r free left)

-- No sequence of scripts, whatever their arguments, makes or loses a unit of a gift: what is left
-- in Redis and what users hold add up to the same number always.
pub run_scripts-units :
    (g : ℕ) (scripts : List Script) (r : Redis) → units g (run_scripts scripts r) ≡ units g r
unfolding run_scripts
run_scripts-units g [] r = refl
run_scripts-units g (s ∷ scripts) r =
    run_scripts-units g scripts (run_script s r) ∙ Effect-units g (run_script-Effect s r)
