-- ===== src/Program/Schedule.antt =====
-- Handlers side by side: a schedule says which one goes on, what becomes of its call, and what its
-- clock and random sources give.
use lottery.Base.{ℕ, zero, suc, List, [], ◌∷◌}
use lottery.Program.{Prog, ret, call, here, World, Turn, exec, perform_local}

-- One call of one handler.
unfoldable pub advance : {A : Type 0} → Turn → Prog A → World → World × Prog A
advance t (ret a) w = (w, ret a)
advance t (call c k) w = ((exec t.fault c w).0, k (exec t.fault c w).1)
advance t (here c k) w = ((perform_local c t w).0, k (perform_local c t w).1)

-- Handlers by number; a number past the end is no step.
unfoldable pub step_at : {A : Type 0} → ℕ → Turn → List (Prog A) → World → World × List (Prog A)
unfolding advance
step_at i t [] w = (w, [])
step_at zero t (p ∷ ps) w = ((advance t p w).0, (advance t p w).1 ∷ ps)
step_at (suc i) t (p ∷ ps) w = ((step_at i t ps w).0, p ∷ (step_at i t ps w).1)

-- `thread` of each turn says who goes on.
unfoldable pub run : {A : Type 0} → List Turn → List (Prog A) → World → World × List (Prog A)
unfolding step_at
run [] ps w = (w, ps)
run (t ∷ ts) ps w = run ts (step_at t.thread t ps w).1 (step_at t.thread t ps w).0
