-- ===== src/Database/Migrate.antt =====
-- database/migrate.py: the numbered migrations. `version_of` stands for the match of the pattern of
-- file names and its number, `execute` for what the database does with the text of a file (none if
-- that fails). One run has the advisory lock at a time, so runs do not interleave.
pub mod Applied
pub mod Discovered
use node_monitor.Common.{
  ℕ, String, Bool, true, false, Option, none, some, List, [], ◌∷◌, ◌++◌, if◌then◌else◌, ◌==◌, Eq,
  nat_eq, contains, ltb, leb, map, max,
}
use node_monitor.Common.Dict.{Dict, lookup, keys}

abbrev pub Migration : Type 0
Migration = ℕ × String

-- `_discover` returns the migrations or raises RuntimeError, for a version 0 or a shared version.
pub data Discovery : Type 0 where
  found : List Migration → Discovery
  zero_version : String → Discovery
  shared_version : String → String → Discovery

-- `sorted(found.items())`: the versions differ, so they alone decide.
unfoldable pub insert_sorted : Migration → List Migration → List Migration
insert_sorted m [] = m ∷ []
insert_sorted m (n ∷ ns) =
    let rest = insert_sorted m ns in if ltb m.0 n.0 then m ∷ n ∷ ns else n ∷ rest

unfoldable pub sorted : List Migration → List Migration
sorted [] = []
sorted (m ∷ ms) = insert_sorted m (sorted ms)

module _ (version_of : String → Option ℕ) where
  -- What one file does to the dict `found`, by the name that has its version already.
  unfoldable pub claim :
      ℕ → String → Option String → List Migration → (List Migration → Discovery) → Discovery
  claim version name (some other) ms rest = shared_version other name
  claim version name none ms rest = rest (ms ++ (version, name) ∷ [])

  unfoldable pub discover_one :
      String → Option ℕ → List Migration → (List Migration → Discovery) → Discovery
  discover_one name none ms rest = rest ms
  discover_one name (some version) ms rest =
      if version == 0 then zero_version name else claim version name (lookup version ms) ms rest

  unfoldable pub discover_loop : List String → List Migration → Discovery
  discover_loop [] ms = found (sorted ms)
  discover_loop (name ∷ names) ms = discover_one name (version_of name) ms (discover_loop names)

  unfoldable pub discover : List String → Discovery
  discover names = discover_loop names []

-- `MIGRATIONS[-1][0] if MIGRATIONS else 0`
unfoldable pub required_version : List Migration → ℕ
required_version [] = 0
required_version ((version, name) ∷ []) = version
required_version ((version, name) ∷ m ∷ ms) = required_version (m ∷ ms)

-- The database: the rows of schema_migrations, and what the migrations have made of the rest.
pub record Schema (Tables : Type 0) : Type 0 where
  pub versions : List Migration
  pub tables : Tables

pub data Migrated : Type 0 where
  applied : List ℕ → Migrated
  in_transaction : Migrated
  failed_in : Migration → Migrated

unfoldable pub greatest : List ℕ → ℕ
greatest [] = 0
greatest (n ∷ ns) = max n (greatest ns)

module _ {Tables : Type 0} (execute : String → Tables → Option Tables) where
  -- `coalesce(max(version), 0)`
  unfoldable pub current_version : Schema Tables → ℕ
  current_version schema = greatest (keys schema.versions)

  -- `check_schema` returns, or raises SchemaOutOfDate (false).
  unfoldable pub check_schema : List Migration → Schema Tables → Bool
  check_schema migrations schema =
      if ltb (current_version schema) (required_version migrations) then false else true

  -- The transaction of one migration: both statements, or neither.
  unfoldable pub apply_one :
      Migration
      → Option Tables
      → Schema Tables
      → (Schema Tables → Migrated × Schema Tables)
      → Migrated × Schema Tables
  apply_one m none schema rest = (failed_in m, schema)
  apply_one m (some tables) schema rest =
      rest (record { versions = schema.versions ++ m ∷ []; tables = tables })

  -- The loop of `_apply_pending`.
  unfoldable pub apply_loop :
      List ℕ → List ℕ → List Migration → Schema Tables → Migrated × Schema Tables
  apply_loop done so_far [] schema = (applied so_far, schema)
  apply_loop done so_far (m ∷ ms) schema =
      if contains m.0 done
      then apply_loop done so_far ms schema
      else apply_one m (execute m.1 schema.tables) schema (apply_loop done (so_far ++ m.0 ∷ []) ms)

  unfoldable pub apply_pending : List Migration → Schema Tables → Migrated × Schema Tables
  apply_pending migrations schema = apply_loop (keys schema.versions) [] migrations schema

  -- `migrate`, by whether the connection has no open transaction.
  unfoldable pub migrate : Bool → List Migration → Schema Tables → Migrated × Schema Tables
  migrate false migrations schema = (in_transaction, schema)
  migrate true migrations schema = apply_pending migrations schema
