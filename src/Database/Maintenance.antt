-- ===== src/Database/Maintenance.antt =====
-- database/maintenance.py: the monthly partitions. A database maps each partitioned table to its
-- attached partitions with the times of their rows, in microseconds. A partition is named after its
-- month, which is from 1 to 12 as the code makes the names, or has another name; a table of a
-- partition's name is taken to be attached to its parent. The calendar of `datetime` and whether
-- the lock on a parent can be had in time are parameters. Heartbeats are a single statement and
-- left out, as are errors other than that a lock cannot be had.
pub mod Retained
mod Tests
use node_monitor.Common.{
  ℕ, suc, ◌+◌, ◌*◌, ◌≤◌, ◌<◌, String, Bool, true, false, not, ◌&&◌, Option, none, some, List, [],
  ◌∷◌, ◌++◌, if◌then◌else◌, ◌==◌, nat_eq, text_eq, ltb, leb, any, zero,
}
use node_monitor.Common.Dict.{Dict, lookup, put}

pub record Month : Type 0 where
  pub year : ℕ
  pub month : ℕ

unfoldable pub is_same_month : Month → Month → Bool
is_same_month a b = (a.year == b.year) && (a.month == b.month)

-- `_next_month`
unfoldable pub next_month : Month → Month
next_month m =
    if m.month == 12
    then record { year = m.year + 1; month = 1 }
    else record m { month = m.month + 1 }

-- `datetime` on UTC: the month of a time, and the first instant of a month.
pub record Calendar : Type 0 where
  pub month_of : ℕ → Month
  pub start_of : Month → ℕ

-- `<table>_yYYYYmMM`, or a name that does not match.
pub data Name : Type 0 where
  monthly : Month → Name
  other_name : String → Name

pub record Partition : Type 0 where
  pub name : Name
  pub rows : List ℕ

abbrev pub Database : Type 0
Database = Dict String (List Partition)

pub record Retention : Type 0 where
  pub node_metrics_days : ℕ
  pub usage_summary_days : ℕ
  pub collection_events_days : ℕ

abbrev pub partitioned : List String
partitioned = "node_metrics_1m" ∷ "user_usage_5m" ∷ "node_usage_5m" ∷ "collection_events" ∷ []

-- `getattr(retention, PARTITIONED[table])` as microseconds
unfoldable pub span_of : Retention → String → ℕ
span_of r table =
    86400000000
    * (if table == "node_metrics_1m"
        then r.node_metrics_days
        else if table == "collection_events"
        then r.collection_events_days
        else r.usage_summary_days)

-- The names dropped and skipped, and the database.
pub record Applied : Type 0 where
  pub dropped : List Name
  pub skipped : List Name
  pub db : Database

unfoldable pub or_no_parts : Option (List Partition) → List Partition
or_no_parts none = []
or_no_parts (some parts) = parts

-- `_attached_partitions`, with the rows.
unfoldable pub attached : String → Database → List Partition
attached table db = or_no_parts (lookup table db)

unfoldable pub is_month : Month → Name → Bool
is_month m (monthly n) = is_same_month n m
is_month m (other_name name) = false

unfoldable pub has_month : Month → List Partition → Bool
has_month m parts = any (λ p. is_month m p.name) parts

-- The month and as many after it.
unfoldable pub months_from : ℕ → Month → List Month
months_from zero m = m ∷ []
months_from (suc n) m = m ∷ months_from n (next_month m)

module _ (can_create : String → Month → Bool) where
  unfoldable pub create_if : Bool → Bool → String → Month → Database → Option Bool × Database
  create_if true lock table m db = (some false, db)
  create_if false false table m db = (none, db)
  create_if false true table m db =
      (some true, put table (attached table db ++ record { name = monthly m; rows = [] } ∷ []) db)

  -- `ensure_partition`: whether it created the partition, or `none` if it raises.
  unfoldable pub ensure_partition : String → Month → Database → Option Bool × Database
  ensure_partition table m db =
      create_if (has_month m (attached table db)) (can_create table m) table m db

  unfoldable pub with_created :
      Bool → String → Month → Option (List (String × Month)) → Option (List (String × Month))
  with_created new table m none = none
  with_created new table m (some created) = some (if new then (table, m) ∷ created else created)

  unfoldable pub after_one :
      Option Bool
      → String
      → Month
      → Option (List (String × Month)) × Database
      → Database
      → Option (List (String × Month)) × Database
  after_one none table m rest db = (none, db)
  after_one (some new) table m rest db = (with_created new table m rest.0, rest.1)

  -- The loop, which ends where a call raises.
  unfoldable pub ensure_all :
      List (String × Month) → Database → Option (List (String × Month)) × Database
  ensure_all [] db = (some [], db)
  ensure_all ((table, m) ∷ more) db =
      let (new, next) = ensure_partition table m db in
      let rest = ensure_all more next in after_one new table m rest next

unfoldable pub pairs : String → List Month → List (String × Month)
pairs table [] = []
pairs table (m ∷ ms) = (table, m) ∷ pairs table ms

unfoldable pub all_pairs : List String → List Month → List (String × Month)
all_pairs [] months = []
all_pairs (table ∷ tables) months = pairs table months ++ all_pairs tables months

module _ (cal : Calendar) (can_create : String → Month → Bool)
    (can_drop : String → Month → Bool) where
  -- `ensure_partitions`
  unfoldable pub ensure_partitions : ℕ → ℕ → Database → Option (List (String × Month)) × Database
  ensure_partitions now months_ahead db =
      ensure_all can_create (all_pairs partitioned (months_from months_ahead (cal.month_of now))) db

  -- The whole month is older than `now - span`, and it is not the current month.
  unfoldable pub is_expired : ℕ → ℕ → Month → Bool
  is_expired now span m =
      ltb (cal.start_of m) (cal.start_of (cal.month_of now))
      && leb (cal.start_of (next_month m) + span) now

  -- Whether a partition stays: one that is not due, or whose parent cannot be locked, does.
  unfoldable pub stays : String → ℕ → ℕ → Name → Bool
  stays table now span (other_name name) = true
  stays table now span (monthly m) = not (is_expired now span m && can_drop table m)

  unfoldable pub is_skipped : String → ℕ → ℕ → Name → Bool
  is_skipped table now span (other_name name) = false
  is_skipped table now span (monthly m) = is_expired now span m && not (can_drop table m)

  -- The loop over the partitions of one table: those that stay.
  unfoldable pub swept : String → ℕ → ℕ → List Partition → List Partition
  swept table now span [] = []
  swept table now span (p ∷ ps) =
      let rest = swept table now span ps in if stays table now span p.name then p ∷ rest else rest

  unfoldable pub dropped_names : String → ℕ → ℕ → List Partition → List Name
  dropped_names table now span [] = []
  dropped_names table now span (p ∷ ps) =
      let rest = dropped_names table now span ps in
      if stays table now span p.name then rest else p.name ∷ rest

  unfoldable pub skipped_names : String → ℕ → ℕ → List Partition → List Name
  skipped_names table now span [] = []
  skipped_names table now span (p ∷ ps) =
      let rest = skipped_names table now span ps in
      if is_skipped table now span p.name then p.name ∷ rest else rest

  unfoldable pub retain : ℕ → Retention → List String → Database → Applied
  retain now r [] db = record { dropped = []; skipped = []; db = db }
  retain now r (table ∷ tables) db =
      let parts = attached table db in
      let span = span_of r table in
      let rest = retain now r tables (put table (swept table now span parts) db) in
      record {
        dropped = dropped_names table now span parts ++ rest.dropped;
        skipped = skipped_names table now span parts ++ rest.skipped;
        db = rest.db;
      }

  -- `apply_retention`
  unfoldable pub apply_retention : ℕ → Retention → Database → Applied
  apply_retention now r db = retain now r partitioned db

  -- `run`: the months created, and the rest, which is missing if the creation raises.
  unfoldable pub after_ensure :
      ℕ
      → Retention
      → Option (List (String × Month)) × Database
      → Option (List (String × Month) × Applied) × Database
  after_ensure now r (none, db) = (none, db)
  after_ensure now r (some created, db) =
      let applied = apply_retention now r db in (some (created, applied), applied.db)

  unfoldable pub run :
      ℕ → Retention → Database → Option (List (String × Month) × Applied) × Database
  run now r db = after_ensure now r (ensure_partitions now 2 db)
