-- ===== src/Database/Storage.antt =====
-- What database/buffered.py calls: the spool (database/spool.py), the database writer
-- (database/writer.py) and the monotonic clock, over one state of the world outside. The spool and
-- the writer are parts of the program with modules of their own; the writer's answers come from
-- PostgreSQL.
use node_monitor.Common.{ℕ, String, Bool, Option, List, Eq}
use node_monitor.Common.Dict.{Dict}
use node_monitor.Values.{DateTime, Record}

-- An exception: its type's name and its message.
pub record Exc : Type 0 where
  pub name : String
  pub message : String

-- `DatabaseWriter.write`: the rows beyond retention for each table, or an exception, which is
-- DatabaseUnavailable or another one.
pub data Written : Type 0 where
  wrote : Dict String ℕ → Written
  unavailable : Exc → Written
  failed : Exc → Written

-- `Spool.append`
pub record SpoolResult : Type 0 where
  pub stored : Bool
  pub dropped_batches : ℕ
  pub dropped_records : ℕ
  pub error : Option String

pub record Storage : Type 1 where
  pub World : Type 0
  pub FilePath : Type 0
  pub path_eq : Eq FilePath
  pub name : FilePath → String
  pub is_live_only : FilePath → Bool
  -- `clock()`
  pub clock : World → ℕ × World
  -- `spool.batch_files()`, `read`, `remove`, `quarantine` and os.path.lexists
  pub batch_files : World → List FilePath
  pub read : FilePath → World → Option (List Record) × World
  pub remove : FilePath → World → World
  pub quarantine : FilePath → World → World
  pub exists : FilePath → World → Bool
  -- `spool.append`, `quarantine_records` and `take_quarantined`
  pub append : List Record → World → SpoolResult × World
  pub quarantine_records : List Record → String → World → Option String × World
  pub take_quarantined : World → List (String × String) × World
  -- `writer.write` and `writer.ping`
  pub write : List Record → DateTime → World → Written × World
  pub ping : World → Bool × World
