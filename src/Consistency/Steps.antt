-- ===== src/Consistency/Steps.antt =====
-- One step of a program that keeps the stores consistent: a call, or a step inside the process.
use lottery.Base.{ℕ, ◌≡◌, refl, Bool, true, false, if◌then◌else◌}
use lottery.Program.{
  World, Prog, ret, call, pass, here, ◌>>=◌, Result, ok, err, failed, Remote, Reply, Local, Answer,
  perform, exec, perform_local, clock, entropy, dice, measure, limiter_allow, breaker_allow,
  breaker_report, emit, Turn,
}
use lottery.Service.{Code, Outcome, or_code}
use lottery.Program.Safety.{Safe, call-Safe, bind-Safe}
use lottery.Consistency.{Sound, Before, Before-refl, Before-trans, consistency}
use lottery.Consistency.Calls.{Good}

-- A program after which `Q` holds, and which keeps the stores consistent.
pub record Keeps (stock : ℕ → ℕ) {A : Type 0} (Q : A → World → Type 0) (p : Prog A) (w : World)
    : Type 0 where
  pub safe : Safe (consistency stock) Q p w

-- Nothing is asked of the result.
abbrev pub Ends : {A : Type 0} → A → World → Type 0
Ends a w = Unit {0}

-- What an answer says where it is not an error.
abbrev pub Told : {A : Type 0} → (A → World → Type 0) → Result A → World → Type 0
Told P (ok a) w = P a w
Told P (err e) w = Unit {0}

pub Told-nothing : {A : Type 0} (a : Result A) (w : World) → Told Ends a w
Told-nothing (ok a) w = tt
Told-nothing (err e) w = tt

module _ (stock : ℕ → ℕ) where
  pub ret-Keeps :
      {A : Type 0} {Q : A → World → Type 0} {a : A} {w : World} → Q a w → Keeps stock Q (ret a) w
  unfolding Safe
  ret-Keeps q = record { safe = q }

  weaken :
      {A : Type 0} (R : A → World → Type 0) (p : Prog A) (w : World)
      → Safe (consistency stock) R p w
      → Safe (consistency stock) Ends p w
  unfolding Safe
  weaken R (ret a) w s = tt
  weaken R (call c k) w s = λ v le i f.
      let (i', le', s') = s v le i f in (i', le', weaken R (k (exec f c v).1) (exec f c v).0 s')
  weaken R (here c k) w s = λ v le i t.
      let (i', le', s') = s v le i t in
      (i', le', weaken R (k (perform_local c t v).1) (perform_local c t v).0 s')

  -- What holds of the result may be forgotten.
  pub weaken-Keeps :
      {A : Type 0} {R : A → World → Type 0} {p : Prog A} {w : World}
      → Keeps stock R p w
      → Keeps stock Ends p w
  weaken-Keeps {R = R} {p = p} {w = w} s = record { safe = weaken R p w s.safe }

  -- A call whose effect is consistent. What is done with its answer starts from the world that it
  -- leaves, what is done after a failure from one that others may have changed.
  pub call-Keeps :
      {A : Type 0} {Q : A → World → Type 0} {c : Remote} {k : Result (Reply c) → Prog A} {w : World}
      → ((v : World) → Sound stock v.redis v.ledger → Before w v → Good stock v (perform c v).0)
      → ((v : World)
          → Sound stock v.redis v.ledger
          → Before w v
          → Before w (perform c v).0
          → Keeps stock Q (k (ok (perform c v).1)) (perform c v).0)
      → ((v : World) → Before w v → Keeps stock Q (k (err failed)) v)
      → Keeps stock Q (call c k) w
  call-Keeps {Q = Q} {c = c} {k = k} {w = w} good next failing = record {
    safe =
        call-Safe (consistency stock) Q c k w
          (λ v le s.
            let (s', le') = good v s le in
            (s', le', (next v s le (Before-trans w v (perform c v).0 le le')).safe))
          (λ v le. (failing v le).safe);
  }

  local_Good :
      (c : Local) (t : Turn) (v : World)
      → Sound stock v.redis v.ledger
      → Good stock v (perform_local c t v).0
  unfolding perform_local
  local_Good clock t v s = (s, Before-refl v)
  local_Good entropy t v s = (s, Before-refl v)
  local_Good dice t v s = (s, Before-refl v)
  local_Good measure t v s = (s, Before-refl v)
  local_Good limiter_allow t v s = (s, Before-refl v)
  local_Good breaker_allow t v s = (s, Before-refl v)
  local_Good (breaker_report latency_ms usage) t v s = (s, Before-refl v)
  local_Good (emit m) t v s = (s, Before-refl v)

  -- A step inside the process touches neither store.
  pub here-Keeps :
      {A : Type 0} {Q : A → World → Type 0} {c : Local} {k : Answer c → Prog A} {w : World}
      → ((a : Answer c) (v : World) → Before w v → Keeps stock Q (k a) v)
      → Keeps stock Q (here c k) w
  unfolding Safe
  here-Keeps {c = c} {k = k} {w = w} next = record {
    safe = λ v le s t.
        let (s', le') = local_Good c t v s in
        let w' = (perform_local c t v).0 in
        (s', le', (next (perform_local c t v).1 w' (Before-trans w v w' le le')).safe);
  }

  framed :
      {A : Type 0} (R : A → World → Type 0) (p : Prog A) (u w : World)
      → Before u w
      → Safe (consistency stock) R p w
      → Safe (consistency stock) (λ a v. R a v × Before u v) p w
  unfolding Safe
  framed R (ret a) u w b s = (s, b)
  framed R (call c k) u w b s = λ v le i f.
      let (i', le', s') = s v le i f in
      let v' = (exec f c v).0 in
      (
        i',
        le',
        framed R (k (exec f c v).1) u v' (Before-trans u v v' (Before-trans u w v b le) le') s',
      )
  framed R (here c k) u w b s = λ v le i t.
      let (i', le', s') = s v le i t in
      let v' = (perform_local c t v).0 in
      (
        i',
        le',
        framed R (k (perform_local c t v).1) u v'
            (Before-trans u v v' (Before-trans u w v b le) le') s',
      )

  -- One program after another, whose start the second still knows to lie behind it.
  pub bind-Keeps :
      {A B : Type 0} {R : A → World → Type 0} {Q : B → World → Type 0} {p : Prog A} {f : A → Prog B}
      {w : World}
      → Keeps stock R p w
      → ((a : A) (v : World) → Before w v → R a v → Keeps stock Q (f a) v)
      → Keeps stock Q (p >>= f) w
  bind-Keeps {R = R} {Q = Q} {p = p} {f = f} {w = w} s next = record {
    safe =
        bind-Safe (consistency stock) (λ a v. R a v × Before w v) Q p f w
          (framed R p w w (Before-refl w) s.safe) (λ a v (r, le). (next a v le r).safe);
  }

  pub pass-Keeps :
      {A B : Type 0} (P : A → World → Type 0) {k : A → Prog (Result B)} (a : Result A) (w : World)
      → Told P a w
      → ((x : A) → P x w → Keeps stock Ends (k x) w)
      → Keeps stock Ends (pass a k) w
  pass-Keeps P (ok a) w p next = next a p
  pass-Keeps P (err e) w p next = ret-Keeps tt

  pub pass_ret-Keeps :
      {A B : Type 0} (f : A → Result B) (a : Result A) (w : World)
      → Keeps stock Ends (pass a (λ x. ret (f x))) w
  pass_ret-Keeps f (ok a) w = ret-Keeps tt
  pass_ret-Keeps f (err e) w = ret-Keeps tt

  pub if-Keeps :
      {A : Type 0} {Q : A → World → Type 0} {p q : Prog A} (b : Bool) {w : World}
      → Keeps stock Q p w
      → Keeps stock Q q w
      → Keeps stock Q (if b then p else q) w
  if-Keeps true h k = h
  if-Keeps false h k = k

  -- A test, whose positive answer the first branch may use.
  pub test-Keeps :
      {A : Type 0} {Q : A → World → Type 0} {p q : Prog A} (b : Bool) {w : World}
      → (b ≡ true → Keeps stock Q p w)
      → Keeps stock Q q w
      → Keeps stock Q (if b then p else q) w
  test-Keeps true h k = h refl
  test-Keeps false h k = k

  pub or_code-Keeps :
      {A B : Type 0} (code : Code) (P : A → World → Type 0) {k : A → Prog (Outcome B)}
      (a : Result A) (w : World)
      → Told P a w
      → ((x : A) → P x w → Keeps stock Ends (k x) w)
      → Keeps stock Ends (or_code code a k) w
  or_code-Keeps code P (ok a) w p next = next a p
  or_code-Keeps code P (err e) w p next = ret-Keeps tt

  pub unless-Keeps :
      {A : Type 0} {Q : A → World → Type 0} {p q : Prog A} (b : Bool) {w : World}
      → Keeps stock Q p w
      → (b ≡ false → Keeps stock Q q w)
      → Keeps stock Q (if b then p else q) w
  unless-Keeps true h k = h
  unless-Keeps false h k = k refl
