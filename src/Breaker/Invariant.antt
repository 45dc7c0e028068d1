-- ===== src/Breaker/Invariant.antt =====
-- What holds of the breaker of circuit_breaker.go between two calls.
use lottery.Base.{◌≤◌, ◌<◌, ◌≡◌, arith}
use lottery.Breaker.{
  closed, open_circuit, half_open, Signal, yellow, red, Config, CircuitBreaker, new_circuit_breaker,
  Call, allows, reports, resets, step,
}

pub record Inv (cb : CircuitBreaker) : Type 0 where
  pub trips : 0 < cb.trip_threshold
  pub recovers : 0 < cb.half_open_success
  pub enough_probes : cb.half_open_success ≤ cb.half_open_max
  pub overloads_below : cb.consecutive_overload < cb.trip_threshold
  pub overloads_closed : 0 < cb.consecutive_overload → cb.state ≡ closed
  pub probes_capped : cb.half_open_probes ≤ cb.half_open_max
  pub successes_below : cb.half_open_successes < cb.half_open_success
  pub probes_half_open : 0 < cb.half_open_probes → cb.state ≡ half_open
  pub red_when_open : cb.state ≡ open_circuit → cb.signal ≡ red
  pub yellow_when_half_open : cb.state ≡ half_open → cb.signal ≡ yellow

pub new-Inv : (c : Config) (shown : Signal) → Inv (new_circuit_breaker c shown)
unfolding new_circuit_breaker
new-Inv c shown = ground arith

pub step-Inv : (cb : CircuitBreaker) (call : Call) → Inv cb → Inv (step cb call)
unfolding step
step-Inv cb (allows now) v = ground arith
step-Inv cb (reports now latency_ms pool_usage) v = ground arith
step-Inv cb resets v = ground arith
