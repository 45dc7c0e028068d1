-- ===== src/Examples/Guards.antt =====
-- Runs of the circuit breaker, of the token bucket and of the weighted draw.
use lottery.Base.{ℕ, ◌+◌, ◌*◌, ◌≤◌, ◌<◌, ◌≡◌, refl, arith, false, List, [], ◌∷◌, length, some}
use lottery.Breaker.{
  closed, open_circuit, half_open, green, yellow, red, Config, CircuitBreaker, is_overloaded, Call,
  allows, reports, resets, step, new_circuit_breaker,
}
use lottery.Breaker
use lottery.Breaker.Invariant.{Inv, new-Inv}
use lottery.Breaker.Runs.{
  run, admitted, run-Inv, admitted-le-half_open_max, smaller, admitted-eq-smaller, and_then,
  none_left, early, late_report, run-cooling, reports_at, reports_at-recovers,
}
use lottery.Limiter
use lottery.Limiter.Bounds.{Use, requested, was_reset}
use lottery.Base.{rounded, float_steps}
use lottery.WeightedDraw.{draw_index}
use lottery.WeightedDraw.Draws.{sum, sum_before, weight_at, draw_index_share, draw_index_in_range}

-- The defaults of newCircuitBreaker, with a cooldown of 5 s and a low threshold.
abbrev settings : Config
settings = record {
  yellow_latency_ms = 30;
  red_latency_ms = 150;
  red_pool_usage = 95;
  trip_threshold = 3;
  cooldown = 5000000000;
  half_open_max = 5;
  half_open_success = 3;
}

abbrev opened : CircuitBreaker
opened = record {
  config = settings;
  state = open_circuit;
  opened_at = 1000;
  consecutive_overload = 0;
  half_open_probes = 0;
  half_open_successes = 0;
  signal = red;
}

abbrev pub at_work : CircuitBreaker
at_work = record opened { state = closed; signal = green }

abbrev probing : CircuitBreaker
probing = record opened { state = half_open; half_open_probes = 5; signal = yellow }

run-Inv_example :
    Inv (run (new_circuit_breaker settings green) (allows 1 ∷ reports 2 200 99 ∷ resets ∷ []))
run-Inv_example =
    run-Inv (new_circuit_breaker settings green) (allows 1 ∷ reports 2 200 99 ∷ resets ∷ [])
      (new-Inv settings green)

admitted-le-half_open_max_example : admitted opened (6000000000 ∷ 6000000001 ∷ []) ≤ 5
admitted-le-half_open_max_example =
    admitted-le-half_open_max opened (6000000000 ∷ 6000000001 ∷ []) refl

-- Seven requests after the cooldown, of which five get through.
abbrev late : List ℕ
late = 6 ∷ 7 ∷ 8 ∷ 9000000000000 ∷ 9 ∷ 10 ∷ []

admitted-eq-smaller_example : admitted opened (6000000000 ∷ late) ≡ smaller 7 5
admitted-eq-smaller_example = admitted-eq-smaller opened 6000000000 late refl (omega arith)

run-cooling_example :
    (run opened (allows 2000 ∷ reports 3000 10 1 ∷ []) ≡ opened)
    × ((now : ℕ) → now < 1000 + 5000000000 → (Breaker.allow now opened).1 ≡ false)
run-cooling_example =
    run-cooling opened {cs = allows 2000 ∷ reports 3000 10 1 ∷ []} refl
      (and_then (early 2000 (omega arith)) (and_then (late_report 3000 10 1) none_left))

healthy : is_overloaded probing 10 5 ≡ false
unfolding is_overloaded
healthy = refl

reports_at-recovers_example :
    let cb' = run probing (reports_at 10 5 (1 ∷ 2 ∷ [])) in
    let cb'' = step cb' (reports 3 10 5) in
    (cb'.state ≡ half_open)
    × (cb''.state ≡ closed)
    × (cb''.consecutive_overload ≡ 0)
    × (cb''.signal ≡ green)
reports_at-recovers_example = reports_at-recovers probing 10 5 3 (1 ∷ 2 ∷ []) refl healthy refl

-- Two requests a second, a reset, and a request whose time was read before it.
abbrev uses : List Use
uses = requested 2000000000 ∷ was_reset 3000000000 ∷ requested 2500000000 ∷ []

abbrev pool : List ℕ
pool = 3 ∷ 0 ∷ 5 ∷ []

abbrev in_stock : List ℕ
in_stock = 3 ∷ 5 ∷ []

draw_index_share_example :
    (i : ℕ) × (draw_index 7000000000000000 pool ≡ some i)
    × (i < length pool)
    × (0 < weight_at i pool)
    × (sum_before i pool * float_steps < rounded 53 (7000000000000000 * sum pool))
    × (rounded 53 (7000000000000000 * sum pool)
        ≤ (sum_before i pool + weight_at i pool) * float_steps)
draw_index_share_example =
    draw_index_share 7000000000000000 3 (0 ∷ 5 ∷ []) (omega arith) (omega arith)
      (unfold sum in omega arith)

draw_index_in_range_example :
    (i : ℕ) × (draw_index 0 in_stock ≡ some i) × (i < length in_stock) × (0 < weight_at i in_stock)
draw_index_in_range_example =
    draw_index_in_range 0 3 (5 ∷ []) (omega arith) (omega arith, (omega arith, tt))
