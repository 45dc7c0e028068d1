-- ===== src/Consistency/Handlers/CacheAside.antt =====
-- Draw of internal/service/lottery_cacheaside.go keeps the stores consistent.
use lottery.Base.{ℕ, zero, suc, Bool, true, false, [], ◌∷◌, Option, none, some, Map}
use lottery.Order.{Order, CancelReason}
use lottery.Ledger.{Gift}
use lottery.Program.{World, Prog, ◌>>=◌, Result, ok, err, failed, perform, Measure}
use lottery.Store.Stock.{
  Operation, cache_hit_read, db_read, db_write, Taken, taken, already_taken, stock_sold_out,
}
use lottery.Service.{Code, Outcome, LotteryResult}
use lottery.Service.Draw.{candidates}
use lottery.Service.CacheAside.{
  report_db, report_pressure, undo_with, announced, announce, taken_as, buy, pick, round, rounds,
  draw_unless_ordered, draw_if, draw,
}
use lottery.Consistency.Calls.{same-Good}
use lottery.Consistency.Steps.{Keeps, Ends, ret-Keeps, call-Keeps, here-Keeps, bind-Keeps}
use lottery.Consistency.Recording.{cancel_mysql_order-Keeps}
use lottery.Consistency.Stock.{get_all_gift_stock-Keeps, acquire_mysql-Keeps, get_gift-Keeps}
use lottery.Consistency.Handlers.Draw.{send_cancel_order-Keeps}

module _ (stock : ℕ → ℕ) where
  report_in-Keeps :
      (operation : Operation) (m : Measure) (w : World)
      → Keeps stock Ends (report_pressure (record { operation = operation; measured = m })) w
  unfolding report_pressure report_db ◌>>=◌
  report_in-Keeps cache_hit_read m w = here-Keeps stock λ a v le. ret-Keeps stock tt
  report_in-Keeps db_read m w =
      here-Keeps stock
        λ a v le. here-Keeps stock λ b u up. here-Keeps stock λ c x le'. ret-Keeps stock tt
  report_in-Keeps db_write m w =
      here-Keeps stock λ a v le. here-Keeps stock λ b u up. ret-Keeps stock tt

  undo_with-Keeps :
      (o : Order) (why : CancelReason) (code : Code) (w : World)
      → Keeps stock Ends (undo_with o why code) w
  unfolding undo_with ◌>>=◌
  undo_with-Keeps o why code w =
      bind-Keeps stock (cancel_mysql_order-Keeps stock o.id why w)
        (λ x v le r. here-Keeps stock λ a u up. ret-Keeps stock tt)

  announced-Keeps :
      (uid gift_id : ℕ) (gift : Gift) (o : Order) (x : Result (Unit {0})) (w : World)
      → Keeps stock Ends (announced uid gift_id gift o x) w
  unfolding announced ◌>>=◌
  announced-Keeps uid gift_id gift o (err e) w = undo_with-Keeps o _ _ w
  announced-Keeps uid gift_id gift o (ok x) w = here-Keeps stock λ a v le. ret-Keeps stock tt

  announce-Keeps :
      (uid gift_id : ℕ) (o : Order) (x : Result Gift) (w : World)
      → Keeps stock Ends (announce uid gift_id o x) w
  unfolding announce ◌>>=◌
  announce-Keeps uid gift_id o (err e) w = undo_with-Keeps o _ _ w
  announce-Keeps uid gift_id o (ok gift) w =
      bind-Keeps stock (send_cancel_order-Keeps stock o _ w)
        (λ x v le r. announced-Keeps uid gift_id gift o x v)

  taken_as-Keeps :
      (uid gift_id : ℕ) (next : Prog (Outcome LotteryResult)) (x : Result Taken) (w : World)
      → Keeps stock Ends next w
      → Keeps stock Ends (taken_as uid gift_id next x) w
  unfolding taken_as ◌>>=◌
  taken_as-Keeps uid gift_id next (err e) w k = here-Keeps stock λ a v le. ret-Keeps stock tt
  taken_as-Keeps uid gift_id next (ok (already_taken o)) w k = ret-Keeps stock tt
  taken_as-Keeps uid gift_id next (ok stock_sold_out) w k = k
  taken_as-Keeps uid gift_id next (ok (taken o)) w k =
      bind-Keeps stock (get_gift-Keeps stock gift_id w)
        (λ gift v le r. announce-Keeps uid gift_id o gift v)

  buy-Keeps :
      (uid : ℕ) (next : Prog (Outcome LotteryResult)) (x : Option ℕ) (w : World)
      → ((v : World) → Keeps stock Ends next v)
      → Keeps stock Ends (buy uid next x) w
  unfolding buy ◌>>=◌
  buy-Keeps uid next none w k = here-Keeps stock λ a v le. ret-Keeps stock tt
  buy-Keeps uid next (some gift_id) w k = here-Keeps stock λ now v le.
      bind-Keeps stock (acquire_mysql-Keeps stock uid gift_id _ v) (λ (stat, row) u up r.
        bind-Keeps stock (report_in-Keeps stat.operation stat.measured u)
          (λ a x le' r'. taken_as-Keeps uid gift_id next row x (k x)))

  pick-Keeps :
      (uid : ℕ) (next : Prog (Outcome LotteryResult)) (pool : Map ℕ) (w : World)
      → ((v : World) → Keeps stock Ends next v)
      → Keeps stock Ends (pick uid next pool) w
  unfolding pick ◌>>=◌
  pick-Keeps uid next [] w k = here-Keeps stock λ a v le. ret-Keeps stock tt
  pick-Keeps uid next (g ∷ pool) w k = here-Keeps stock λ u v le. buy-Keeps uid next _ v k

  round-Keeps :
      (uid : ℕ) (next : Prog (Outcome LotteryResult)) (x : Result (Map ℕ)) (w : World)
      → ((v : World) → Keeps stock Ends next v)
      → Keeps stock Ends (round uid next x) w
  unfolding round ◌>>=◌
  round-Keeps uid next (err e) w k = here-Keeps stock λ a v le. ret-Keeps stock tt
  round-Keeps uid next (ok gifts) w k = pick-Keeps uid next (candidates gifts) w k

  rounds-Keeps : (tries uid : ℕ) (w : World) → Keeps stock Ends (rounds tries uid) w
  unfolding rounds ◌>>=◌
  rounds-Keeps zero uid w = here-Keeps stock λ a v le. ret-Keeps stock tt
  rounds-Keeps (suc tries) uid w =
      bind-Keeps stock (get_all_gift_stock-Keeps stock w) (λ (stat, gifts) v le r.
        bind-Keeps stock (report_in-Keeps stat.operation stat.measured v)
          (λ a u up r'. round-Keeps uid (rounds tries uid) gifts u (λ x. rounds-Keeps tries uid x)))

  draw_unless_ordered-Keeps :
      (uid : ℕ) (x : Result Bool) (w : World) → Keeps stock Ends (draw_unless_ordered uid x) w
  unfolding draw_unless_ordered ◌>>=◌
  draw_unless_ordered-Keeps uid (err e) w = here-Keeps stock λ a v le. ret-Keeps stock tt
  draw_unless_ordered-Keeps uid (ok true) w = ret-Keeps stock tt
  draw_unless_ordered-Keeps uid (ok false) w = rounds-Keeps 10 uid w

  draw_if-Keeps : (uid : ℕ) (b : Bool) (w : World) → Keeps stock Ends (draw_if uid b) w
  unfolding draw_if ◌>>=◌ perform
  draw_if-Keeps uid false w = here-Keeps stock λ a v le. ret-Keeps stock tt
  draw_if-Keeps uid true w =
      call-Keeps stock (λ v s le. same-Good stock v s)
        (λ v s le le'. draw_unless_ordered-Keeps uid (ok _) v)
        (λ v le. draw_unless_ordered-Keeps uid (err failed) v)

  -- The MySQL path's Draw keeps the stores consistent, whatever other handlers do between its
  -- calls.
  pub draw-Keeps : (uid : ℕ) (w : World) → Keeps stock Ends (draw uid) w
  unfolding draw ◌>>=◌
  draw-Keeps uid w = here-Keeps stock λ a v le. here-Keeps stock λ b u up. draw_if-Keeps uid b u
