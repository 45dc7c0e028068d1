-- ===== src/Limiter/Bounds.antt =====
-- How many requests the bucket of limiter.go lets through.
use lottery.Base.{ℕ, ◌+◌, ◌*◌, ◌≤◌, ◌≡◌, List, [], ◌∷◌, if◌then◌else◌}
use lottery.Limiter.{Limiter, one_token, allow, reset}

-- The state after requests at these times, and how many of them were let through.
unfoldable pub serve : Limiter → List ℕ → Limiter × ℕ
serve l [] = (l, 0)
serve l (now ∷ times) =
    let (l', passed) = allow now l in
    let (l'', n) = serve l' times in (l'', (if passed then 1 else 0) + n)

-- A request or a reset at a time that was read from the clock.
pub data Use : Type 0 where
  requested was_reset : ℕ → Use

-- The state after uses, in the order in which they get the lock.
unfoldable pub used : Limiter → List Use → Limiter
used l [] = l
used l (requested now ∷ uses) = used (allow now l).0 uses
used l (was_reset now ∷ uses) = used (reset now l) uses

record Inv (qps : ℕ) (l : Limiter) : Type 0 where
  rated : l.rate ≡ qps
  full : l.burst ≡ qps * one_token
  capped : l.tokens ≤ l.burst

-- Times none of which is after the last one that the bucket has seen.
abbrev pub NoneLater : ℕ → List ℕ → Type 0
NoneLater last [] = Unit {0}
NoneLater last (now ∷ times) = (now ≤ last) × NoneLater last times
