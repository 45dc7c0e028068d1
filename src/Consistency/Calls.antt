-- ===== src/Consistency/Calls.antt =====
-- Each call of Program.antt keeps the stores consistent, if its caller knows enough.
use lottery.Base.{ℕ, ◌≡◌, refl, sym, subst, ◌≢◌, [], Text, Map}
use lottery.Order.{OrderIdentity, Order}
use lottery.Redis.{Redis, Script, acquires, marks, claims, releases, run_script}
use lottery.Redis.Effects.{run_script-Effect, Admits}
use lottery.Redis.Progress.{Grows, Grows-refl, run_script-Grows, Effect-Numbered}
use lottery.Redis.Units.{units, Effect-units}
use lottery.Program.{
  World, Topic, perform, set_run_if_absent, acquire, mark, claim, release, set_all_stock,
  del_all_stock, send,
}
use lottery.Consistency.Rows.{grown-Sound}
use lottery.Consistency.{Extends-refl, Sound, Before, Before-refl}

-- A world that a call may leave.
abbrev pub Good : (ℕ → ℕ) → World → World → Type 0
Good stock v w = Sound stock w.redis w.ledger × Before v w

module _ (stock : ℕ → ℕ) (v : World) (s : Sound stock v.redis v.ledger) where
  pub same-Good : Good stock v v
  same-Good = (s, Before-refl v)

  script-Good :
      (c : Script)
      → ((id : OrderIdentity) → Admits c id → id.order_id ≢ [])
      → Good stock v (record v { redis = run_script c v.redis })
  script-Good c new = (
    grown-Sound stock v.redis (run_script c v.redis) v.ledger (run_script-Grows c v.redis)
        (λ g. Effect-units g (run_script-Effect c v.redis))
        (Effect-Numbered (run_script-Effect c v.redis) new s.numbered) s,
    (run_script-Grows c v.redis, Extends-refl v.ledger),
  )

  pub acquire-Good :
      (uid gift_id ttl : ℕ) (id : OrderIdentity)
      → id.order_id ≢ []
      → Good stock v (perform (acquire uid gift_id ttl id) v).0
  unfolding perform run_script
  acquire-Good uid gift_id ttl id h =
      script-Good (acquires uid gift_id ttl id)
        (λ x e. subst (λ (y : OrderIdentity). y.order_id ≢ []) (sym e) h)

  pub mark-Good :
      (uid gift_id : ℕ) (id : OrderIdentity) → Good stock v (perform (mark uid gift_id id) v).0
  unfolding perform run_script
  mark-Good uid gift_id id = script-Good (marks uid gift_id id) (λ x e. absurd e)

  pub claim-Good :
      (uid gift_id : ℕ) (id : OrderIdentity) → Good stock v (perform (claim uid gift_id id) v).0
  unfolding perform run_script
  claim-Good uid gift_id id = script-Good (claims uid gift_id id) (λ x e. absurd e)

  pub release-Good :
      (uid gift_id : ℕ) (id : OrderIdentity) → Good stock v (perform (release uid gift_id id) v).0
  unfolding perform run_script
  release-Good uid gift_id id = script-Good (releases uid gift_id id) (λ x e. absurd e)

  -- The keys that no admission or count stands in.
  aside-Good :
      (r : Redis)
      → r.stock ≡ v.redis.stock
      → r.admissions ≡ v.redis.admissions
      → Good stock v (record v { redis = r })
  unfolding units
  aside-Good r same_stock same_admissions = (
    grown-Sound stock v.redis r v.ledger grows (λ g. rw (same_stock, same_admissions))
        (rw same_admissions s.numbered) s,
    (grows, Extends-refl v.ledger),
  )
    where
      grows : Grows v.redis r
      grows = rw same_admissions (Grows-refl v.redis)

  pub set_run-Good : (run : Text) → Good stock v (perform (set_run_if_absent run) v).0
  unfolding perform
  set_run-Good run = aside-Good _ refl refl

  pub set_all_stock-Good : (stocks : Map ℕ) → Good stock v (perform (set_all_stock stocks) v).0
  unfolding perform
  set_all_stock-Good stocks = aside-Good _ refl refl

  pub del_all_stock-Good : Good stock v (perform del_all_stock v).0
  unfolding perform
  del_all_stock-Good = aside-Good _ refl refl

  pub send-Good : (t : Topic) (o : Order) (delay : ℕ) → Good stock v (perform (send t o delay) v).0
  unfolding perform
  send-Good t o delay = (s, Before-refl v)
