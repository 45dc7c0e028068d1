-- ===== src/Program/Safety.antt =====
-- Rely and guarantee: an invariant of the world and an order in which it only grows are kept by
-- all calls of a program, and what others do in between is known only to keep them too.
use lottery.Base.{ℕ, zero, suc, List, [], ◌∷◌}
use lottery.Program.{
  Prog, ret, call, here, ◌>>=◌, World, Turn, Fault, fine, lost, unanswered, Result, ok, err, failed,
  Remote, Reply, perform, exec, perform_local,
}
use lottery.Program.Schedule.{advance, step_at, run}

-- All handlers of a list.
abbrev pub All {ℓ} : {A : Type 0} → (A → Type ℓ) → List A → Type ℓ
All P [] = Unit
All P (x ∷ xs) = P x × All P xs

pub record Rely : Type 1 where
  pub Inv : World → Type 0
  pub Le : World → World → Type 0
  pub le_refl : (w : World) → Le w w
  pub le_trans : (u v w : World) → Le u v → Le v w → Le u w

module _ (rely : Rely) where
  open rely use {Inv, Le, le_refl, le_trans}

  -- From a world that others may have brought on, each call keeps the invariant and the order,
  -- and the result satisfies `Q` where the program returns.
  unfoldable pub Safe : {A : Type 0} → (A → World → Type 0) → Prog A → World → Type 0
  Safe Q (ret a) w = Q a w
  Safe Q (call c k) w =
      (v : World)
      → Le w v
      → Inv v
      → (f : Fault)
      → Inv (exec f c v).0 × Le v (exec f c v).0 × Safe Q (k (exec f c v).1) (exec f c v).0
  Safe Q (here c k) w =
      (v : World)
      → Le w v
      → Inv v
      → (t : Turn)
      → Inv (perform_local c t v).0
        × Le v (perform_local c t v).0
        × Safe Q (k (perform_local c t v).1) (perform_local c t v).0

  -- A call, by what it does where it takes effect, and by what is done after a failure.
  pub call-Safe :
      {A : Type 0} (Q : A → World → Type 0) (c : Remote) (k : Result (Reply c) → Prog A) (w : World)
      → ((v : World)
          → Le w v
          → Inv v
          → Inv (perform c v).0
            × Le v (perform c v).0
            × Safe Q (k (ok (perform c v).1)) (perform c v).0)
      → ((v : World) → Le w v → Safe Q (k (err failed)) v)
      → Safe Q (call c k) w
  unfolding Safe exec
  call-Safe Q c k w answered failing = go
    where
      go :
          (v : World)
          → Le w v
          → Inv v
          → (f : Fault)
          → Inv (exec f c v).0 × Le v (exec f c v).0 × Safe Q (k (exec f c v).1) (exec f c v).0
      go v le i fine = answered v le i
      go v le i lost = (i, le_refl v, failing v le)
      go v le i unanswered =
          let (i', le', s) = answered v le i in
          (i', le', failing (perform c v).0 (le_trans w v (perform c v).0 le le'))

  pub bind-Safe :
      {A B : Type 0} (R : A → World → Type 0) (Q : B → World → Type 0) (p : Prog A) (f : A → Prog B)
      (w : World)
      → Safe R p w
      → ((a : A) (v : World) → R a v → Safe Q (f a) v)
      → Safe Q (p >>= f) w
  unfolding Safe ◌>>=◌
  bind-Safe R Q (ret a) f w s next = next a w s
  bind-Safe R Q (call c k) f w s next = λ v le i fault.
      let (i', le', s') = s v le i fault in
      (i', le', bind-Safe R Q (k (exec fault c v).1) f (exec fault c v).0 s' next)
  bind-Safe R Q (here c k) f w s next = λ v le i t.
      let (i', le', s') = s v le i t in
      (i', le', bind-Safe R Q (k (perform_local c t v).1) f (perform_local c t v).0 s' next)

  abbrev pub Anything : {A : Type 0} → A → World → Type 0
  Anything a w = Unit {0}

  pub Safe-le :
      {A : Type 0} (p : Prog A) (v w : World) → Le v w → Safe Anything p v → Safe Anything p w
  unfolding Safe
  Safe-le (ret a) v w le s = tt
  Safe-le (call c k) v w le s = λ u le' i f. s u (le_trans v w u le le') i f
  Safe-le (here c k) v w le s = λ u le' i t. s u (le_trans v w u le le') i t

  advance-Safe :
      {A : Type 0} (t : Turn) (p : Prog A) (w : World)
      → Inv w
      → Safe Anything p w
      → Inv (advance t p w).0
        × Le w (advance t p w).0
        × Safe Anything (advance t p w).1 (advance t p w).0
  unfolding Safe advance
  advance-Safe t (ret a) w i s = (i, le_refl w, tt)
  advance-Safe t (call c k) w i s = s w (le_refl w) i t.fault
  advance-Safe t (here c k) w i s = s w (le_refl w) i t

  All-le :
      {A : Type 0} (ps : List (Prog A)) (v w : World)
      → Le v w
      → All (λ p. Safe Anything p v) ps
      → All (λ p. Safe Anything p w) ps
  All-le [] v w le s = tt
  All-le (p ∷ ps) v w le s = (Safe-le p v w le s.0, All-le ps v w le s.1)

  step_at-Safe :
      {A : Type 0} (i : ℕ) (t : Turn) (ps : List (Prog A)) (w : World)
      → Inv w
      → All (λ p. Safe Anything p w) ps
      → Inv (step_at i t ps w).0
        × Le w (step_at i t ps w).0
        × All (λ p. Safe Anything p (step_at i t ps w).0) (step_at i t ps w).1
  unfolding step_at
  step_at-Safe i t [] w inv s = (inv, le_refl w, tt)
  step_at-Safe zero t (p ∷ ps) w inv s =
      let (inv', le', s') = advance-Safe t p w inv s.0 in
      (inv', le', (s', All-le ps w (advance t p w).0 le' s.1))
  step_at-Safe (suc i) t (p ∷ ps) w inv s =
      let (inv', le', s') = step_at-Safe i t ps w inv s.1 in
      (inv', le', (Safe-le p w (step_at i t ps w).0 le' s.0, s'))

  -- Safe handlers keep the invariant under every schedule and every choice of failures.
  pub run-Safe :
      {A : Type 0} (ts : List Turn) (ps : List (Prog A)) (w : World)
      → Inv w
      → All (λ p. Safe Anything p w) ps
      → Inv (run ts ps w).0 × Le w (run ts ps w).0
  unfolding run
  run-Safe [] ps w inv s = (inv, le_refl w)
  run-Safe (t ∷ ts) ps w inv s =
      let (inv', le', s') = step_at-Safe t.thread t ps w inv s in
      let w' = (step_at t.thread t ps w).0 in
      let (inv'', le'') = run-Safe ts (step_at t.thread t ps w).1 w' inv' s' in
      (inv'', le_trans w w' (run ts (step_at t.thread t ps w).1 w').0 le' le'')
