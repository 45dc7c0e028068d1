-- ===== src/Store/Stock.antt =====
-- internal/database/inventory.go, inventory_cacheaside.go and gift.go: what the two Draw handlers
-- read and take of the stock.
use lottery.Base.{ℕ, List, [], ◌∷◌, Option, none, some, Map, ◌==◌, if◌then◌else◌}
use lottery.Order.{Order, default_activity_id}
use lottery.Redis.{or_zero}
use lottery.Ledger.{Gift, Admitted, created, existing, no_stock, clash}
use lottery.Program.{
  Prog, ret, ◌>>=◌, ask, sense, on, pass, Result, ok, err, not_found, get_gift_ids, get_stock,
  get_all_stock, set_all_stock, del_all_stock, select_stock, select_order, select_gift,
  acquire_mysql, measure, Measure,
}

unfoldable pub with_count : ℕ → Option ℕ → ℕ × ℕ
with_count id count = (id, or_zero count)

unfoldable pub zip_counts : List ℕ → List (Option ℕ) → Map ℕ
unfolding with_count
zip_counts [] counts = []
zip_counts (id ∷ ids) [] = []
zip_counts (id ∷ ids) (count ∷ counts) = with_count id count ∷ zip_counts ids counts

unfoldable pub counts_of : List ℕ → Prog (Result (Map ℕ))
unfolding zip_counts
counts_of [] = ret (ok [])
counts_of (id ∷ ids) = do
  counts ← ask (get_stock (id ∷ ids))
  pass counts (λ counts. ret (ok (zip_counts (id ∷ ids) counts)))

-- SMEMBERS of the registry, and then one MGET: gift ids with their counts, a missing key as 0.
unfoldable pub get_all_gift_inventory : Prog (Result (Map ℕ))
unfolding counts_of
get_all_gift_inventory = do ids ← ask get_gift_ids; pass ids counts_of

pub data Operation : Type 0 where
  cache_hit_read db_read db_write : Operation

-- CacheAsideStat: which access it was, and what was measured.
pub record CacheAsideStat : Type 0 where
  pub operation : Operation
  pub measured : Measure

abbrev no_measure : Measure
no_measure = record { wait_ms = 0; db_ms = 0; in_use = 0; capacity = 0 }

-- A failed SET of the cache is only logged.
unfoldable pub backfill : CacheAsideStat → Map ℕ → Prog (CacheAsideStat × Result (Map ℕ))
backfill stat stocks = do filled ← ask (set_all_stock stocks); ret (stat, ok stocks)

unfoldable pub load_stock : Prog (CacheAsideStat × Result (Map ℕ))
unfolding backfill
load_stock = do
  measured ← sense measure
  rows ← ask select_stock
  on rows (λ e. ret (record { operation = db_read; measured = measured }, err e))
      (backfill (record { operation = db_read; measured = measured }))

unfoldable pub cached_or_load : Option (Map ℕ) → Prog (CacheAsideStat × Result (Map ℕ))
unfolding load_stock
cached_or_load (some stocks) =
    ret (record { operation = cache_hit_read; measured = no_measure }, ok stocks)
cached_or_load none = load_stock

-- A cache that cannot be read is passed over.
unfoldable pub get_all_gift_stock_cache_aside : Prog (CacheAsideStat × Result (Map ℕ))
unfolding cached_or_load
get_all_gift_stock_cache_aside = do
  cached ← ask get_all_stock
  on cached (λ _. load_stock) cached_or_load

pub data Taken : Type 0 where
  taken already_taken : Order → Taken
  stock_sold_out : Taken

unfoldable pub duplicated : Option Order → Result Taken
duplicated none = err not_found
duplicated (some o) = ok (already_taken o)

unfoldable pub taken_as : ℕ → Admitted → Prog (Result Taken)
unfolding duplicated
taken_as uid (created o) = do dropped ← ask del_all_stock; ret (ok (taken o))
taken_as uid (existing o) = ret (ok (already_taken o))
taken_as uid no_stock = ret (ok stock_sold_out)
taken_as uid clash = do
  found ← ask (select_order default_activity_id uid)
  pass found (λ o. ret (duplicated o))

unfoldable pub acquire_mysql_stock_and_create_pending_order :
    ℕ → ℕ → Option ℕ → Prog (CacheAsideStat × Result Taken)
unfolding taken_as
acquire_mysql_stock_and_create_pending_order uid gift_id expires_at = do
  measured ← sense measure
  row ← ask (acquire_mysql default_activity_id uid gift_id expires_at)
  result ← pass row (taken_as uid)
  ret (record { operation = db_write; measured = measured }, result)

-- A gift that is not in the table keeps the zero values of the struct that was passed in, whose
-- Id is the one asked for: Find into a struct reports no missing row.
unfoldable pub gift_or_empty : Option Gift → Gift
gift_or_empty none = record { name = []; price = 0; count = 0; cache_stock = 0 }
gift_or_empty (some g) = g

unfoldable pub get_gift : ℕ → Prog (Result Gift)
unfolding gift_or_empty
get_gift id = do
  row ← ask (select_gift id)
  pass row (λ row. ret (if id == 0 then err not_found else ok (gift_or_empty row)))
