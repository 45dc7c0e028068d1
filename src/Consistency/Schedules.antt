-- ===== src/Consistency/Schedules.antt =====
-- All handlers of internal/service on orders at once: any number of requests and messages, their
-- calls interleaved in any way, with calls that fail before or after they take effect.
use lottery.Base.{ℕ, ◌+◌, ◌≤◌, ◌≡◌, refl, ◌∙◌, inl, arith, List, [], ◌∷◌, map, some, true, total}
use lottery.Order.{OrderStatus, OrderIdentity, Order, paid, redis_mode}
use lottery.Redis.{stock_of}
use lottery.Redis.Units.{units, holds}
use lottery.Redis.Progress.{may_become}
use lottery.Redis.Settled.{Settled, Settled-Grows, may_become_final}
use lottery.Ledger.{first, has_id}
use lottery.Program.{World, Prog, ret, ◌>>=◌, Message, Turn}
use lottery.Program.Schedule.{run}
use lottery.Program.Safety.{All, Safe, run-Safe, Anything}
use lottery.Service.Draw
use lottery.Service.CacheAside
use lottery.Service.Cancel.{give_up}
use lottery.Service.Pay.{pay}
use lottery.Service.Status.{status}
use lottery.Service.Timeout.{handle_order_message}
use lottery.Consistency.{Sound, Before, consistency}
use lottery.Consistency.Steps.{Keeps, Ends, ret-Keeps, bind-Keeps}
use lottery.Consistency.Handlers.Draw.{draw-Keeps}
use lottery.Consistency.Handlers.CacheAside as CacheAsideDraw
use lottery.Consistency.Handlers.Cancel.{give_up-Keeps}
use lottery.Consistency.Handlers.Pay.{pay-Keeps}
use lottery.Consistency.Handlers.Status.{status-Keeps}
use lottery.Consistency.Handlers.Timeout.{handle_order_message-Keeps}

-- A request or a message.
pub data Job : Type 0 where
  draws buys : ℕ → Job
  pays gives_up asks : ℕ → ℕ → OrderIdentity → Job
  consumes : Message → Job

-- What handles it; the answer to the client is left out.
unfoldable pub program : Job → Prog (Unit {0})
program (draws uid) = Draw.draw uid >>= λ _. ret tt
program (buys uid) = CacheAside.draw uid >>= λ _. ret tt
program (pays uid gift_id id) = pay uid gift_id id >>= λ _. ret tt
program (gives_up uid gift_id id) = give_up uid gift_id id >>= λ _. ret tt
program (asks uid gift_id id) = status uid gift_id id >>= λ _. ret tt
program (consumes m) = handle_order_message m >>= λ _. ret tt

module _ (stock : ℕ → ℕ) where
  answered-Keeps :
      {A : Type 0} {p : Prog A} {w : World}
      → Keeps stock Ends p w
      → Keeps stock Ends (p >>= λ _. ret tt) w
  answered-Keeps k = bind-Keeps stock k (λ a v le r. ret-Keeps stock tt)

  program-Keeps : (job : Job) (w : World) → Keeps stock Ends (program job) w
  unfolding program
  program-Keeps (draws uid) w = answered-Keeps (draw-Keeps stock uid w)
  program-Keeps (buys uid) w = answered-Keeps (CacheAsideDraw.draw-Keeps stock uid w)
  program-Keeps (pays uid gift_id id) w = answered-Keeps (pay-Keeps stock uid gift_id id w)
  program-Keeps (gives_up uid gift_id id) w = answered-Keeps (give_up-Keeps stock uid gift_id id w)
  program-Keeps (asks uid gift_id id) w = answered-Keeps (status-Keeps stock uid gift_id id w)
  program-Keeps (consumes m) w = answered-Keeps (handle_order_message-Keeps stock m w)

  All-Safe :
      (jobs : List Job) (w : World)
      → All (λ p. Safe (consistency stock) (Anything (consistency stock)) p w) (map program jobs)
  All-Safe [] w = tt
  All-Safe (job ∷ jobs) w = ((program-Keeps job w).safe, All-Safe jobs w)

-- From consistent stores, where every admission has an order number, and as long as no key expires,
-- whatever requests and messages are handled, in whatever interleaving of their calls and with
-- whatever failures, the stores stay consistent: the ids of the table rise, each order of the Redis
-- path has the user's admission behind it, for the same gift and order, paid if the order is paid and
-- cancelled if the order is cancelled, and of each gift the units left and the units held add up to
-- what they were. And no admission or order is lost, changes its gift, owner or identity, or leaves
-- a final state.
pub run-Sound :
    (stock : ℕ → ℕ) (jobs : List Job) (turns : List Turn) (w : World)
    → Sound stock w.redis w.ledger
    → let v = (run turns (map program jobs) w).0 in Sound stock v.redis v.ledger × Before w v
run-Sound stock jobs turns w s =
    run-Safe (consistency stock) turns (map program jobs) w s (All-Safe stock jobs w)

-- However many requests and messages are handled from consistent stores, and however they
-- interleave and fail, as long as no key expires, no gift is oversold: the users that hold a unit of it through the Redis path,
-- one who has paid included, are never more than the units there were, those left included.
pub run-holds-le-stock :
    (stock : ℕ → ℕ) (jobs : List Job) (turns : List Turn) (w : World) (gift_id : ℕ)
    → Sound stock w.redis w.ledger
    → let v = (run turns (map program jobs) w).0 in
      stock_of gift_id v.redis + total (holds gift_id) v.redis.admissions ≤ stock gift_id
unfolding units
run-holds-le-stock stock jobs turns w gift_id s =
    let kept = (run-Sound stock jobs turns w s).0.kept gift_id in omega (arith, kept)

-- From consistent stores, and as long as no key expires, whatever requests and messages are handled
-- and however they interleave and fail, an order of the Redis path that is paid is still
-- in the table and still paid after all that follows, and its user's admission, for the same gift
-- and order, is paid too, so that its unit is not given back.
pub run-paid :
    (stock : ℕ → ℕ) (jobs : List Job) (turns : List Turn) (w : World) (i : ℕ) (o : Order)
    → Sound stock w.redis w.ledger
    → first (has_id i) w.ledger.orders ≡ some o
    → o.inventory_mode ≡ redis_mode
    → o.status ≡ paid
    → let v = (run turns (map program jobs) w).0 in
      ((o' : Order) × (first (has_id i) v.ledger.orders ≡ some o') × (o'.status ≡ paid))
      × Settled o.user_id o.gift_id o.identity paid v.redis
run-paid stock jobs turns w i o s found mode is_paid =
    let (_, (grows, extends)) = run-Sound stock jobs turns w s in
    let v = (run turns (map program jobs) w).0 in
    let (o', found', later) = extends i o found in
    let b = s.backed i o found mode in
    (
      (o', found', stays_paid o.status o'.status is_paid later.state),
      Settled-Grows o.user_id o.gift_id o.identity paid w.redis v.redis (inl refl)
          (record {
            admission = b.admission;
            found = b.found;
            gift = b.gift;
            same = b.same;
            reached = b.pays is_paid;
          })
          grows,
    )
  where
    stays_paid : (s t : OrderStatus) → s ≡ paid → may_become s t ≡ true → t ≡ paid
    stays_paid s t e h = may_become_final s t (inl e) h ∙ e
