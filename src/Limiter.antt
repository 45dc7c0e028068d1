-- ===== src/Limiter.antt =====
-- internal/service/limiter.go: the token bucket at the entry of the Redis path. Times are nanoseconds.
-- The floats `burst` and `tokens` are counted in units of 2^-83, of which every float64 that the
-- limiter makes is a whole number: a nanosecond in seconds is more than 2^-30, and has 53 bits. The
-- rate is a whole number of tokens a second. Sums, products and quotients are rounded as float64 are;
-- the fuel of 83 is enough for values below 2^53.
pub mod Bounds
use lottery.Base.{
  ◌/◌, ◌%◌, ◌^◌, rounded, rounded_ratio, ℕ, ◌+◌, ◌-◌, ◌*◌, Bool, true, false, Option, none, some,
  ltb, leb, ◌==◌, if◌then◌else◌,
}

-- `last_refill` is `none` for the zero time.
pub record Limiter : Type 0 where
  pub rate : ℕ
  pub burst : ℕ
  pub tokens : ℕ
  pub last_refill : Option ℕ

-- One token, or one second, in units.
abbrev pub one_token : ℕ
one_token = 2 ^ 83

abbrev nanoseconds : ℕ
nanoseconds = 1000000000

-- Duration.Seconds: the whole seconds plus the rest divided by 1e9.
unfoldable pub seconds : ℕ → ℕ
seconds ns =
    rounded 83
      (ns / nanoseconds * one_token + rounded_ratio 83 (ns % nanoseconds * one_token) nanoseconds)

-- A limit of 0 (the source: 0 or less) turns the limiter off.
unfoldable pub new_limiter : ℕ → ℕ → Limiter
new_limiter qps now =
    if qps == 0 then record { rate = 0; burst = 0; tokens = 0; last_refill = none } else record {
      rate = qps;
      burst = qps * one_token;
      tokens = qps * one_token;
      last_refill = some now;
    }

unfoldable pub refill_since : Option ℕ → ℕ → Limiter → Limiter
refill_since none now l = record l { last_refill = some now; tokens = l.burst }
refill_since (some last) now l =
    if leb now last
    then l
    else (let filled = rounded 83 (l.tokens + rounded 83 (seconds (now - last) * l.rate)) in
        record l {
          tokens = if ltb l.burst filled then l.burst else filled;
          last_refill = some now;
        })

unfoldable pub refill : ℕ → Limiter → Limiter
unfolding refill_since
refill now l = refill_since l.last_refill now l

unfoldable pub take_token : Limiter → Limiter × Bool
take_token l =
    if ltb l.tokens one_token
    then (l, false)
    else (record l { tokens = rounded 83 (l.tokens - one_token) }, true)

unfoldable pub allow : ℕ → Limiter → Limiter × Bool
unfolding take_token refill
allow now l = if l.rate == 0 then (l, true) else take_token (refill now l)

unfoldable pub reset : ℕ → Limiter → Limiter
reset now l = if l.rate == 0 then l else record l { tokens = l.burst; last_refill = some now }
