-- ===== src/Archive/Reads.antt =====
-- internal/service/archive.go: the two ways to read a material. Copies go when their time is over or
-- another handler deletes them, and others write them, which are arguments: what has happened to the
-- copies while a reader waits for the lock of the material, and while it reads the tables.
use lottery.Base.{ℕ, Bool, true, false, List, ◌==◌, if◌then◌else◌}
use lottery.Program.{Fault}
use lottery.Purchase.Outbox.{star_marrow_material_id}
use lottery.Archive.Copies.{
  Json, Copies, Fetched, hit, miss, get_failed, get_material_detail_cache,
  set_material_detail_cache,
}
use lottery.Archive.{
  Tables, MaterialDetailDto, not_found, read_failed, Detail, found_detail, no_detail, Queries,
  get_material_detail,
}

pub data ArchiveSource : Type 0 where
  mysql cache_hit cache_miss cache_error : ArchiveSource

pub data ArchiveError : Type 0 where
  archive_not_found archive_db_read_failed : ArchiveError

pub data Answer : Type 0 where
  archive : MaterialDetailDto → Answer
  app_error : ArchiveError → Answer

pub record ArchiveCacheTrace : Type 0 where
  pub initial_hit : Bool
  pub initial_miss : Bool
  pub coalesced : Bool
  pub mysql_fallback : Bool
  pub sql_queries : ℕ
  pub cache_rebuilt : Bool
  pub cache_rebuild_failed : Bool
  pub cache_error : Bool

abbrev pub no_trace : ArchiveCacheTrace
no_trace = record {
  initial_hit = false;
  initial_miss = false;
  coalesced = false;
  mysql_fallback = false;
  sql_queries = 0;
  cache_rebuilt = false;
  cache_rebuild_failed = false;
  cache_error = false;
}

-- What meets a read: the fates of its calls, the time, and what others do to the copies while it
-- waits for the lock and while it reads the tables.
pub record Fates : Type 0 where
  pub first_get : Fault
  pub first_del : Fault
  pub second_get : Fault
  pub second_del : Fault
  pub queries : Queries
  pub set : Fault
  pub now : ℕ
  pub while_waiting : Copies → Copies
  pub while_reading : Copies → Copies

unfoldable pub as_answer : Detail → Answer
as_answer (found_detail d) = archive d
as_answer (no_detail not_found) = app_error archive_not_found
as_answer (no_detail read_failed) = app_error archive_db_read_failed

-- readMySQL
unfoldable pub read_mysql : Queries → (List ℕ → ℕ) → ℕ → ℕ → Tables → Answer × ℕ
unfolding as_answer get_material_detail
read_mysql q average now id t =
    let (detail, queries) = get_material_detail q average now id t in (as_answer detail, queries)

pub record Read : Type 0 where
  pub copies : Copies
  pub answer : Answer
  pub source : ArchiveSource
  pub sql_queries : ℕ
  pub trace : ArchiveCacheTrace

unfoldable pub read_past_cache :
    Fates → (List ℕ → ℕ) → ℕ → Tables → Copies → ArchiveCacheTrace → Read
unfolding read_mysql
read_past_cache f average id t copies trace =
    let (answer, queries) = read_mysql f.queries average f.now id t in
    record {
      copies = f.while_reading copies;
      answer = answer;
      source = cache_error;
      sql_queries = queries;
      trace = record trace { cache_error = true; mysql_fallback = true; sql_queries = queries };
    }

unfoldable pub rebuilt : Copies × Bool → MaterialDetailDto → ℕ → ArchiveCacheTrace → Read
rebuilt (copies, done) d queries trace = record {
  copies = copies;
  answer = archive d;
  source = cache_miss;
  sql_queries = queries;
  trace =
      if done
      then record trace { cache_rebuilt = true }
      else record trace { cache_rebuild_failed = true };
}

unfoldable pub fill_copy : Json → Fates → Answer → ℕ → Copies → ArchiveCacheTrace → Read
unfolding rebuilt set_material_detail_cache
fill_copy json f (archive d) queries copies trace =
    rebuilt (set_material_detail_cache json f.set d copies) d queries trace
fill_copy json f (app_error e) queries copies trace = record {
  copies = copies;
  answer = app_error e;
  source = cache_miss;
  sql_queries = queries;
  trace = trace;
}

unfoldable pub read_and_refill :
    Json → Fates → (List ℕ → ℕ) → ℕ → Tables → Copies → ArchiveCacheTrace → Read
unfolding read_mysql fill_copy
read_and_refill json f average id t copies trace =
    let (answer, queries) = read_mysql f.queries average f.now id t in
    fill_copy json f answer queries (f.while_reading copies)
      (record trace { mysql_fallback = true; sql_queries = queries })

unfoldable pub from_cache : Copies → MaterialDetailDto → ArchiveCacheTrace → Read
from_cache copies d trace = record {
  copies = copies;
  answer = archive d;
  source = cache_hit;
  sql_queries = 0;
  trace = trace;
}

-- Under the lock.
unfoldable pub checked_again :
    Json → Fates → (List ℕ → ℕ) → ℕ → Tables → Copies × Fetched → ArchiveCacheTrace → Read
unfolding from_cache read_and_refill
checked_again json f average id t (copies, hit d) trace =
    from_cache copies d (record trace { coalesced = true })
checked_again json f average id t (copies, miss) trace =
    read_and_refill json f average id t copies trace
checked_again json f average id t (copies, get_failed) trace =
    read_and_refill json f average id t copies (record trace { cache_error = true })

unfoldable pub checked : Json → Fates → (List ℕ → ℕ) → ℕ → Tables → Copies × Fetched → Read
unfolding from_cache read_past_cache checked_again get_material_detail_cache
checked json f average id t (copies, hit d) =
    from_cache copies d (record no_trace { initial_hit = true })
checked json f average id t (copies, get_failed) = read_past_cache f average id t copies no_trace
checked json f average id t (copies, miss) =
    checked_again json f average id t
      (get_material_detail_cache json f.second_get f.second_del id (f.while_waiting copies))
      (record no_trace { initial_miss = true })

-- readCachedWithOriginDelay
unfoldable pub read_cached_with_origin_delay :
    Json → Fates → (List ℕ → ℕ) → ℕ → Tables → Copies → Read
unfolding checked get_material_detail_cache
read_cached_with_origin_delay json f average id t copies =
    checked json f average id t (get_material_detail_cache json f.first_get f.first_del id copies)

unfoldable pub checked_unprotected :
    Json → Fates → (List ℕ → ℕ) → ℕ → Tables → Copies × Fetched → Read
unfolding from_cache read_past_cache read_and_refill
checked_unprotected json f average id t (copies, hit d) =
    from_cache copies d (record no_trace { initial_hit = true })
checked_unprotected json f average id t (copies, get_failed) =
    read_past_cache f average id t copies no_trace
checked_unprotected json f average id t (copies, miss) =
    read_and_refill json f average id t copies (record no_trace { initial_miss = true })

-- readCachedUnprotected
unfoldable pub read_cached_unprotected : Json → Fates → (List ℕ → ℕ) → ℕ → Tables → Copies → Read
unfolding checked_unprotected get_material_detail_cache
read_cached_unprotected json f average id t copies =
    checked_unprotected json f average id t
      (get_material_detail_cache json f.first_get f.first_del id copies)

-- validateArchiveMaterialID
abbrev pub is_archive_material : ℕ → Bool
is_archive_material id = id == star_marrow_material_id

-- ReadDirect
unfoldable pub read_direct : Queries → (List ℕ → ℕ) → ℕ → ℕ → Tables → Answer × ℕ
unfolding read_mysql
read_direct q average now id t =
    if is_archive_material id
    then read_mysql q average now id t
    else (app_error archive_not_found, 0)

-- ReadCached
unfoldable pub read_cached : Json → Fates → (List ℕ → ℕ) → ℕ → Tables → Copies → Read
unfolding read_cached_with_origin_delay
read_cached json f average id t copies =
    if is_archive_material id
    then read_cached_with_origin_delay json f average id t copies
    else record {
      copies = copies;
      answer = app_error archive_not_found;
      source = cache_miss;
      sql_queries = 0;
      trace = no_trace;
    }
