-- ===== src/Database/Writer/Attempt.antt =====
-- database/writer.py, `write`, `ping` and the connection: what a write answers, by what the
-- database does with its statements.
use node_monitor.Common.{
  ℕ, String, Bool, true, false, not, ◌||◌, Option, none, some, List, [], if◌then◌else◌,
}
use node_monitor.Common.Dict.{Dict}
use node_monitor.Database.Writer.{Plan}

-- An exception, which `is_unavailable` takes for an outage or not.
pub data Fault : Type 0 where
  outage fatal : Fault

-- `_apply` in one transaction: the rows written per table, a missing partition, or an exception.
pub data Applied : Type 0 where
  wrote : Dict String ℕ → Applied
  missing_partition : Applied
  broke : Fault → Applied

pub data Created : Type 0 where
  made : List String → Created
  not_made : Fault → Created

-- What a write meets: the connection's fault, if it has one, the first attempt, the partitions
-- created, and the second attempt.
pub record Database : Type 0 where
  pub connection : Option Fault
  pub first : Applied
  pub created : Created
  pub second : Applied

-- The connection after a statement.
pub record Connection : Type 0 where
  pub is_closed : Bool
  pub is_broken : Bool
  pub is_idle : Bool

-- `write`: the result, DatabaseUnavailable, another exception of the database, or ValueError for
-- a malformed batch.
pub data Answer : Type 0 where
  result : Dict String ℕ → Dict String ℕ → List String → Answer
  unavailable raised malformed : Answer

unfoldable pub is_outage : Fault → Bool
is_outage outage = true
is_outage fatal = false

unfoldable pub fault_answer : Fault → Answer
fault_answer outage = unavailable
fault_answer fatal = raised

-- The second attempt is the last: a partition that is missing again is an error.
unfoldable pub after_second : Dict String ℕ → List String → Applied → Answer
after_second beyond created (wrote rows) = result rows beyond created
after_second beyond created missing_partition = raised
after_second beyond created (broke fault) = fault_answer fault

unfoldable pub after_create : Dict String ℕ → Created → Applied → Answer
after_create beyond (made created) second = after_second beyond created second
after_create beyond (not_made fault) second = fault_answer fault

unfoldable pub after_first : Dict String ℕ → Applied → Database → Answer
after_first beyond (wrote rows) db = result rows beyond []
after_first beyond missing_partition db = after_create beyond db.created db.second
after_first beyond (broke fault) db = fault_answer fault

unfoldable pub connected : Dict String ℕ → Option Fault → Database → Answer
connected beyond none db = after_first beyond db.first db
connected beyond (some fault) db = fault_answer fault

-- `write`, by its plan.
unfoldable pub write_plan : {P : Type 0} → Option (Plan P) → Database → Answer
write_plan none db = malformed
write_plan (some p) db = connected p.beyond db.connection db

-- `_discard_if_unusable`: the connection that is kept.
unfoldable pub discard_if_unusable : Bool → Option Connection → Option Connection
discard_if_unusable force none = none
discard_if_unusable force (some c) =
    if force || (c.is_closed || (c.is_broken || not c.is_idle)) then none else some c

-- `ping`: whether a trivial query is answered, and the connection that is kept.
unfoldable pub ping : Option Fault → Option Connection → Bool × Option Connection
ping none c = (true, c)
ping (some fault) c = (false, discard_if_unusable true c)
