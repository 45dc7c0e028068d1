-- ===== src/Consistency/Stock.antt =====
-- What the two Draw handlers read and take of the stock keeps the stores consistent.
use lottery.Base.{ℕ, zero, suc, ◌≢◌, ◌/◌, Text, List, [], ◌∷◌, Option, none, some, Map}
use lottery.Order.{OrderIdentity, default_activity_id}
use lottery.Ledger.{Admitted, created, existing, no_stock, clash}
use lottery.Program.{World, ret, ◌>>=◌, perform, acquire_mysql}
use lottery.Store.Admissions.{hex_from, hex, id_of, new_identity_id, try_acquire_lottery_admission}
use lottery.Store.Stock.{
  counts_of, get_all_gift_inventory, CacheAsideStat, backfill, load_stock, cached_or_load,
  get_all_gift_stock_cache_aside, taken_as, acquire_mysql_stock_and_create_pending_order, get_gift,
  db_write,
}
use lottery.Consistency.Calls.{same-Good, acquire-Good, set_all_stock-Good, del_all_stock-Good}
use lottery.Consistency.Transactions.{acquire_mysql-Good}
use lottery.Consistency.Steps.{
  Told, Keeps, Ends, ret-Keeps, call-Keeps, here-Keeps, bind-Keeps, if-Keeps,
}

hex_from-some : (k n : ℕ) (c : ℕ) (done : Text) → hex_from k n (c ∷ done) ≢ []
unfolding hex_from
hex_from-some zero n c done e = cc
hex_from-some (suc k) n c done e = hex_from-some k (n / 16) _ (c ∷ done) e

-- A number in hexadecimal digits is not the empty text.
hex-some : (n : ℕ) → hex n ≢ []
unfolding hex hex_from
hex-some n e = hex_from-some 31 (n / 16) _ [] e

abbrev pub Numbers : Text → World → Type 0
Numbers t w = t ≢ []

module _ (stock : ℕ → ℕ) where
  pub new_identity_id-Keeps : (w : World) → Keeps stock (Told Numbers) new_identity_id w
  unfolding new_identity_id ◌>>=◌
  new_identity_id-Keeps w = here-Keeps stock λ bytes v le. ret-Keeps stock (numbers bytes v)
    where
      numbers : (bytes : Option ℕ) (v : World) → Told Numbers (id_of bytes) v
      numbers none v = unfold id_of in tt
      numbers (some n) v = unfold id_of in hex-some n

  pub try_acquire-Keeps :
      (uid gift_id ttl : ℕ) (id : OrderIdentity) (w : World)
      → id.order_id ≢ []
      → Keeps stock Ends (try_acquire_lottery_admission uid gift_id ttl id) w
  unfolding try_acquire_lottery_admission ◌>>=◌
  try_acquire-Keeps uid gift_id ttl id w h = if-Keeps stock _ (ret-Keeps stock tt) (
      call-Keeps stock (λ v s le. acquire-Good stock v s uid gift_id ttl id h)
        (λ v s le le'. ret-Keeps stock tt) (λ v le. ret-Keeps stock tt))

  counts_of-Keeps : (ids : List ℕ) (w : World) → Keeps stock Ends (counts_of ids) w
  unfolding counts_of ◌>>=◌ perform
  counts_of-Keeps [] w = ret-Keeps stock tt
  counts_of-Keeps (id ∷ ids) w =
      call-Keeps stock (λ v s le. same-Good stock v s) (λ v s le le'. ret-Keeps stock tt)
        (λ v le. ret-Keeps stock tt)

  pub get_all_gift_inventory-Keeps : (w : World) → Keeps stock Ends get_all_gift_inventory w
  unfolding get_all_gift_inventory ◌>>=◌ perform
  get_all_gift_inventory-Keeps w =
      call-Keeps stock (λ v s le. same-Good stock v s)
        (λ v s le le'. counts_of-Keeps v.redis.gift_ids v) (λ v le. ret-Keeps stock tt)

  pub get_gift-Keeps : (id : ℕ) (w : World) → Keeps stock Ends (get_gift id) w
  unfolding get_gift ◌>>=◌ perform
  get_gift-Keeps id w =
      call-Keeps stock (λ v s le. same-Good stock v s) (λ v s le le'. ret-Keeps stock tt)
        (λ v le. ret-Keeps stock tt)

  backfill-Keeps :
      (stat : CacheAsideStat) (stocks : Map ℕ) (w : World)
      → Keeps stock Ends (backfill stat stocks) w
  unfolding backfill ◌>>=◌
  backfill-Keeps stat stocks w =
      call-Keeps stock (λ v s le. set_all_stock-Good stock v s stocks)
        (λ v s le le'. ret-Keeps stock tt) (λ v le. ret-Keeps stock tt)

  load_stock-Keeps : (w : World) → Keeps stock Ends load_stock w
  unfolding load_stock ◌>>=◌ perform
  load_stock-Keeps w = here-Keeps stock λ m v le.
      call-Keeps stock (λ u s le'. same-Good stock u s) (λ u s le' le''. backfill-Keeps _ _ u)
        (λ u le'. ret-Keeps stock tt)

  cached_or_load-Keeps : (x : Option (Map ℕ)) (w : World) → Keeps stock Ends (cached_or_load x) w
  unfolding cached_or_load
  cached_or_load-Keeps none w = load_stock-Keeps w
  cached_or_load-Keeps (some stocks) w = ret-Keeps stock tt

  pub get_all_gift_stock-Keeps : (w : World) → Keeps stock Ends get_all_gift_stock_cache_aside w
  unfolding get_all_gift_stock_cache_aside ◌>>=◌ perform
  get_all_gift_stock-Keeps w =
      call-Keeps stock (λ v s le. same-Good stock v s)
        (λ v s le le'. cached_or_load-Keeps v.redis.all_stock v) (λ v le. load_stock-Keeps v)

  taken_as-Keeps : (uid : ℕ) (x : Admitted) (w : World) → Keeps stock Ends (taken_as uid x) w
  unfolding taken_as ◌>>=◌ perform
  taken_as-Keeps uid (created o) w =
      call-Keeps stock (λ v s le. del_all_stock-Good stock v s) (λ v s le le'. ret-Keeps stock tt)
        (λ v le. ret-Keeps stock tt)
  taken_as-Keeps uid clash w =
      call-Keeps stock (λ v s le. same-Good stock v s) (λ v s le le'. ret-Keeps stock tt)
        (λ v le. ret-Keeps stock tt)
  taken_as-Keeps uid (existing o) w = ret-Keeps stock tt
  taken_as-Keeps uid no_stock w = ret-Keeps stock tt

  pub acquire_mysql-Keeps :
      (uid gift_id : ℕ) (expires_at : Option ℕ) (w : World)
      → Keeps stock Ends (acquire_mysql_stock_and_create_pending_order uid gift_id expires_at) w
  unfolding acquire_mysql_stock_and_create_pending_order ◌>>=◌
  acquire_mysql-Keeps uid gift_id expires_at w = here-Keeps stock λ m v le.
      call-Keeps stock (λ u s le'. acquire_mysql-Good stock u s _ uid gift_id expires_at)
        (λ u s le' le''.
          let x = (perform (acquire_mysql default_activity_id uid gift_id expires_at) u).1 in
          bind-Keeps stock
            {f = λ result. ret (record { operation = db_write; measured = m }, result)}
            (taken_as-Keeps uid x _) (λ x y up r. ret-Keeps stock tt))
        (λ u le'. ret-Keeps stock tt)
