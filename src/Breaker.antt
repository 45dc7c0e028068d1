-- ===== src/Breaker.antt =====
-- internal/service/circuit_breaker.go: the breaker that guards MySQL on the cache-aside path.
-- A method that changes `*CircuitBreaker` under its lock returns the new record. Times are
-- nanoseconds; `signal` is the last value given to metrics.SetCircuitState.
pub mod Invariant
pub mod Runs
use lottery.Base.{ℕ, zero, suc, ◌+◌, ◌/◌, Bool, true, false, ◌&&◌, ◌||◌, ltb, leb, if◌then◌else◌}

pub data CircuitState : Type 0 where
  closed open_circuit half_open : CircuitState

pub data Signal : Type 0 where
  green yellow red : Signal

-- The settings that the environment gives. A negative value acts as 0 in every test below.
pub record Config : Type 0 where
  pub yellow_latency_ms : ℕ
  pub red_latency_ms : ℕ
  pub red_pool_usage : ℕ
  pub trip_threshold : ℕ
  pub cooldown : ℕ
  pub half_open_max : ℕ
  pub half_open_success : ℕ

pub record CircuitBreaker : Type 0 where
  pub config : Config
  pub open config use *
  pub state : CircuitState
  pub opened_at : ℕ
  pub consecutive_overload : ℕ
  pub half_open_probes : ℕ
  pub half_open_successes : ℕ
  pub signal : Signal

at_least_one : ℕ → ℕ
at_least_one n = if ltb n 1 then 1 else n

clamp_config : Config → Config
unfolding at_least_one
clamp_config c =
    let successes = at_least_one c.half_open_success in
    record c {
      trip_threshold = at_least_one c.trip_threshold;
      half_open_success = successes;
      half_open_max = if ltb c.half_open_max successes then successes else c.half_open_max;
    }

unfoldable pub new_circuit_breaker : Config → Signal → CircuitBreaker
unfolding clamp_config
new_circuit_breaker c shown = record {
  config = clamp_config c;
  state = closed;
  opened_at = 0;
  consecutive_overload = 0;
  half_open_probes = 0;
  half_open_successes = 0;
  signal = shown;
}

-- The case of the half-open state, into which the end of the cooldown falls through.
probe : CircuitBreaker → CircuitBreaker × Bool
probe cb =
    if leb cb.half_open_max cb.half_open_probes
    then (cb, false)
    else (record cb { half_open_probes = cb.half_open_probes + 1 }, true)

begin_half_open : CircuitBreaker → CircuitBreaker
begin_half_open cb = record cb {
  state = half_open;
  half_open_probes = 0;
  half_open_successes = 0;
  signal = yellow;
}

allow_in : CircuitState → ℕ → CircuitBreaker → CircuitBreaker × Bool
unfolding probe begin_half_open
allow_in open_circuit now cb =
    if ltb now (cb.opened_at + cb.cooldown) then (cb, false) else probe (begin_half_open cb)
allow_in half_open now cb = probe cb
allow_in closed now cb = (cb, true)

unfoldable pub allow : ℕ → CircuitBreaker → CircuitBreaker × Bool
unfolding allow_in
allow now cb = allow_in cb.state now cb

unfoldable pub is_overloaded : CircuitBreaker → ℕ → ℕ → Bool
is_overloaded cb latency_ms pool_usage =
    if leb cb.red_latency_ms latency_ms
    then true
    else leb cb.red_pool_usage pool_usage && leb cb.yellow_latency_ms latency_ms

trip : ℕ → CircuitBreaker → CircuitBreaker
trip now cb = record cb {
  state = open_circuit;
  opened_at = now;
  consecutive_overload = 0;
  half_open_probes = 0;
  half_open_successes = 0;
  signal = red;
}

close : CircuitBreaker → CircuitBreaker
close cb = record cb {
  state = closed;
  consecutive_overload = 0;
  half_open_probes = 0;
  half_open_successes = 0;
  signal = green;
}

report_probe : Bool → ℕ → CircuitBreaker → CircuitBreaker
unfolding trip close
report_probe true now cb = trip now cb
report_probe false now cb =
    let successes = cb.half_open_successes + 1 in
    if leb cb.half_open_success successes
    then close cb
    else record cb { half_open_successes = successes; signal = yellow }

-- The warning light of the closed state.
warn : ℕ → ℕ → CircuitBreaker → CircuitBreaker
warn latency_ms pool_usage cb = record cb {
  signal =
      if leb cb.yellow_latency_ms latency_ms || leb (cb.red_pool_usage / 2) pool_usage
      then yellow
      else green;
}

report_closed : Bool → ℕ → ℕ → ℕ → CircuitBreaker → CircuitBreaker
unfolding trip warn
report_closed true now latency_ms pool_usage cb =
    let overloads = cb.consecutive_overload + 1 in
    if leb cb.trip_threshold overloads
    then trip now cb
    else warn latency_ms pool_usage (record cb { consecutive_overload = overloads })
report_closed false now latency_ms pool_usage cb =
    warn latency_ms pool_usage (record cb { consecutive_overload = 0 })

report_in : CircuitState → Bool → ℕ → ℕ → ℕ → CircuitBreaker → CircuitBreaker
unfolding report_probe report_closed
report_in half_open overloaded now latency_ms pool_usage cb = report_probe overloaded now cb
report_in closed overloaded now latency_ms pool_usage cb =
    report_closed overloaded now latency_ms pool_usage cb
report_in open_circuit overloaded now latency_ms pool_usage cb = cb

unfoldable pub report : ℕ → ℕ → ℕ → CircuitBreaker → CircuitBreaker
unfolding report_in is_overloaded
report now latency_ms pool_usage cb =
    report_in cb.state (is_overloaded cb latency_ms pool_usage) now latency_ms pool_usage cb

unfoldable pub reset : CircuitBreaker → CircuitBreaker
unfolding close
reset cb = record (close cb) { opened_at = 0 }

shown_in : CircuitState → Signal
shown_in open_circuit = red
shown_in half_open = yellow
shown_in closed = green

unfoldable pub state_text : CircuitBreaker → Signal
unfolding shown_in
state_text cb = shown_in cb.state

-- A call, with the time at which it takes the lock.
pub data Call : Type 0 where
  allows : ℕ → Call
  reports : ℕ → ℕ → ℕ → Call
  resets : Call

unfoldable pub step : CircuitBreaker → Call → CircuitBreaker
unfolding allow report reset
step cb (allows now) = (allow now cb).0
step cb (reports now latency_ms pool_usage) = report now latency_ms pool_usage cb
step cb resets = reset cb
