-- ===== src/Breaker/Runs.antt =====
-- What holds of the breaker of circuit_breaker.go over sequences of calls.
use lottery.Base.{
  ℕ, suc, ltb, ◌-◌, ◌+◌, ◌≤◌, ◌<◌, ◌≡◌, refl, ◌⊎◌, inl, inr, List, [], ◌∷◌, arith, false,
  if◌then◌else◌, length,
}
use lottery.Breaker.{
  closed, open_circuit, half_open, green, CircuitBreaker, allow, is_overloaded, Call, allows,
  reports, step,
}
use lottery.Breaker.Invariant.{Inv, step-Inv}

unfoldable pub run : CircuitBreaker → List Call → CircuitBreaker
run cb [] = cb
run cb (call ∷ calls) = run (step cb call) calls

-- How many of the requests at these times, with no report between them, are let through.
unfoldable pub admitted : CircuitBreaker → List ℕ → ℕ
admitted cb [] = 0
admitted cb (now ∷ times) = (if (allow now cb).1 then 1 else 0) + admitted (allow now cb).0 times

-- Every state that calls in any order reach from a well-formed breaker is well-formed.
pub run-Inv : (cb : CircuitBreaker) (calls : List Call) → Inv cb → Inv (run cb calls)
unfolding run
run-Inv cb [] v = v
run-Inv cb (call ∷ calls) v = run-Inv (step cb call) calls (step-Inv cb call v)

allow_half_open :
    (cb : CircuitBreaker) (now : ℕ)
    → cb.state ≡ half_open
    → ((allow now cb).0.state ≡ half_open)
      × ((if (allow now cb).1 then 1 else 0) + cb.half_open_probes
          ≡ (allow now cb).0.half_open_probes)
      × ((allow now cb).0.half_open_max ≡ cb.half_open_max)
      × (cb.half_open_probes ≤ cb.half_open_max
          → (allow now cb).0.half_open_probes ≤ cb.half_open_max)
unfolding allow
allow_half_open cb now h = ground arith

admitted_half_open :
    (cb : CircuitBreaker) (times : List ℕ)
    → cb.state ≡ half_open
    → cb.half_open_probes ≤ cb.half_open_max
    → admitted cb times + cb.half_open_probes ≤ cb.half_open_max
unfolding admitted
admitted_half_open cb [] h p = omega arith
admitted_half_open cb (now ∷ times) h p =
    let (h', counted, kept, capped) = allow_half_open cb now h in
    omega (arith, admitted_half_open (allow now cb).0 times h' (omega arith))

allow_open :
    (cb : CircuitBreaker) (now : ℕ)
    → cb.state ≡ open_circuit
    → (((allow now cb).0 ≡ cb) × ((allow now cb).1 ≡ false))
      ⊎ (((allow now cb).0.state ≡ half_open)
          × ((if (allow now cb).1 then 1 else 0) ≡ (allow now cb).0.half_open_probes)
          × ((allow now cb).0.half_open_max ≡ cb.half_open_max)
          × ((allow now cb).0.half_open_probes ≤ cb.half_open_max))
unfolding allow
allow_open cb now h = ground arith

-- From the open state, requests that come before any report are let through at most
-- half_open_max times, whenever they come.
pub admitted-le-half_open_max :
    (cb : CircuitBreaker) (times : List ℕ)
    → cb.state ≡ open_circuit
    → admitted cb times ≤ cb.half_open_max
unfolding admitted
admitted-le-half_open_max cb [] h = omega arith
admitted-le-half_open_max cb (now ∷ times) h = elim (allow_open cb now h) [
  | inl (same, refused) ↦ rw (same, refused) (omega (arith, admitted-le-half_open_max cb times h))
  | inr (h', counted, kept, capped) ↦
      omega (arith, admitted_half_open (allow now cb).0 times h' (omega arith))
]

abbrev pub smaller : ℕ → ℕ → ℕ
smaller a b = if ltb a b then a else b

-- The probes that are left, or the requests if these are fewer.
admitted_half_open-smaller :
    (cb : CircuitBreaker) (times : List ℕ)
    → cb.state ≡ half_open
    → cb.half_open_probes ≤ cb.half_open_max
    → admitted cb times ≡ smaller (length times) (cb.half_open_max - cb.half_open_probes)
unfolding admitted allow
admitted_half_open-smaller cb [] h p = ground arith
admitted_half_open-smaller cb (now ∷ times) h p =
    let (h', counted, kept, capped) = allow_half_open cb now h in
    ground (arith, admitted_half_open-smaller (allow now cb).0 times h' (omega arith))

-- Requests to an open breaker, the first of them once the cooldown is over and the others at any
-- time, with no report between them: as many as half_open_max are let through, or all if these are
-- fewer. A probe that ends without a report is never given back.
pub admitted-eq-smaller :
    (cb : CircuitBreaker) (now : ℕ) (times : List ℕ)
    → cb.state ≡ open_circuit
    → cb.opened_at + cb.cooldown ≤ now
    → admitted cb (now ∷ times) ≡ smaller (length (now ∷ times)) cb.half_open_max
unfolding admitted allow
admitted-eq-smaller cb now times h cooled = elim (allow_open cb now h) [
  | inl (same, refused) ↦ ground (arith, admitted_half_open-smaller (allow now cb).0 times)
  | inr (h', counted, kept, capped) ↦ ground (
    arith,
    admitted_half_open-smaller (allow now cb).0 times h' (omega arith),
    counted,
    kept,
    capped,
  )
]

-- A call that the cooldown or a late report brings to an open breaker.
pub data WhileCooling (cb : CircuitBreaker) : Call → Type 0 where
  early : (now : ℕ) → now < cb.opened_at + cb.cooldown → WhileCooling cb (allows now)
  late_report :
      (now latency_ms pool_usage : ℕ) → WhileCooling cb (reports now latency_ms pool_usage)

pub data AllCooling (cb : CircuitBreaker) : List Call → Type 0 where
  none_left : AllCooling cb []
  and_then :
      {c : Call} {cs : List Call} → WhileCooling cb c → AllCooling cb cs → AllCooling cb (c ∷ cs)

step_cooling :
    {cb : CircuitBreaker} {c : Call} → cb.state ≡ open_circuit → WhileCooling cb c → step cb c ≡ cb
unfolding step
step_cooling h (early now e) = ground arith
step_cooling h (late_report now latency_ms pool_usage) = ground arith

-- An open breaker is inert until the cooldown is over: requests before its end, all refused, and
-- reports of requests let through earlier leave it exactly as it was.
pub run-cooling :
    (cb : CircuitBreaker) {cs : List Call}
    → cb.state ≡ open_circuit
    → AllCooling cb cs
    → (run cb cs ≡ cb) × ((now : ℕ) → now < cb.opened_at + cb.cooldown → (allow now cb).1 ≡ false)
unfolding run allow
run-cooling cb h none_left = (refl, λ now e. ground arith)
run-cooling cb h (and_then c cs) = rw (step_cooling h c) (run-cooling cb h cs)

-- Reports at one pressure, at the given times.
unfoldable pub reports_at : ℕ → ℕ → List ℕ → List Call
reports_at latency_ms pool_usage [] = []
reports_at latency_ms pool_usage (now ∷ times) =
    reports now latency_ms pool_usage ∷ reports_at latency_ms pool_usage times

step_healthy :
    (cb : CircuitBreaker) (now latency_ms pool_usage : ℕ)
    → cb.state ≡ half_open
    → is_overloaded cb latency_ms pool_usage ≡ false
    → suc cb.half_open_successes < cb.half_open_success
    → let cb' = step cb (reports now latency_ms pool_usage) in
      (cb'.state ≡ half_open)
      × (cb'.half_open_successes ≡ suc cb.half_open_successes)
      × (cb'.config ≡ cb.config)
      × (is_overloaded cb' latency_ms pool_usage ≡ false)
unfolding step is_overloaded
step_healthy cb now latency_ms pool_usage h o below = ground arith

step_recovers :
    (cb : CircuitBreaker) (now latency_ms pool_usage : ℕ)
    → cb.state ≡ half_open
    → is_overloaded cb latency_ms pool_usage ≡ false
    → suc cb.half_open_successes ≡ cb.half_open_success
    → let cb' = step cb (reports now latency_ms pool_usage) in
      (cb'.state ≡ closed) × (cb'.consecutive_overload ≡ 0) × (cb'.signal ≡ green)
unfolding step is_overloaded
step_recovers cb now latency_ms pool_usage h o last = ground arith

-- A half-open breaker with s healthy probes counted, reported health over and over: it stays
-- half-open for fewer than half_open_success - s reports, and with the last of exactly
-- half_open_success - s reports it closes, with no overload counted and the light green.
pub reports_at-recovers :
    (cb : CircuitBreaker) (latency_ms pool_usage last : ℕ) (times : List ℕ)
    → cb.state ≡ half_open
    → is_overloaded cb latency_ms pool_usage ≡ false
    → cb.half_open_successes + length times + 1 ≡ cb.half_open_success
    → let cb' = run cb (reports_at latency_ms pool_usage times) in
      let cb'' = step cb' (reports last latency_ms pool_usage) in
      (cb'.state ≡ half_open)
      × (cb''.state ≡ closed)
      × (cb''.consecutive_overload ≡ 0)
      × (cb''.signal ≡ green)
unfolding run reports_at
reports_at-recovers cb latency_ms pool_usage last [] h o e =
    let (closes, counted, light) = step_recovers cb last latency_ms pool_usage h o (omega arith) in
    (h, closes, counted, light)
reports_at-recovers cb latency_ms pool_usage last (now ∷ times) h o e =
    let (h', counted, kept, o') = step_healthy cb now latency_ms pool_usage h o (omega arith) in
    reports_at-recovers (step cb (reports now latency_ms pool_usage)) latency_ms pool_usage last
      times h' o' (ground arith)
