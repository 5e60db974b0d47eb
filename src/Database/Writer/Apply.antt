-- ===== src/Database/Writer/Apply.antt =====
-- database/writer.py, the statements of a batch on the tables of live state: `_write_snapshot`,
-- `_write_live_node`, `_write_hardware` and the upserts they execute, over one store. Times are
-- microseconds; a process row has a key, its pid and start time.
pub mod Replayed
use node_monitor.Common.{
  ℕ, min, max, String, Option, none, some, List, [], ◌∷◌, if◌then◌else◌, Eq, text_eq, pair_eq, leb,
  contains, keep,
}
use node_monitor.Common.Dict.{Dict, lookup, put, merge, values}
use node_monitor.Values.{Value}

abbrev pub NodeKey : Type 0
NodeKey = String × String

-- A live_processes row of the batch.
pub record Snapshot (Proc : Type 0) : Type 0 where
  pub key : NodeKey
  pub ts : ℕ
  pub processes : List Proc

-- A live_node row: when it was updated, its columns, its label if the row has one, and its boot.
pub record LiveNode : Type 0 where
  pub key : NodeKey
  pub updated_at : ℕ
  pub columns : Dict String Value
  pub label : Option (Option Value)
  pub boot_id : Option String

pub record Hardware : Type 0 where
  pub key : NodeKey
  pub collected_at : ℕ
  pub boot_id : Option String
  pub columns : Dict String Value

-- A row of `nodes`.
pub record Node : Type 0 where
  pub label : Option Value
  pub first_seen : ℕ
  pub last_seen : ℕ
  pub boot_id : Option String

-- The tables: live_snapshots with the live_processes of each node, live_nodes with the times that
-- order them, node_hardware by boot, and nodes.
pub record Store (Proc : Type 0) : Type 0 where
  pub snapshots : Dict NodeKey (ℕ × List Proc)
  pub live_nodes : Dict NodeKey (ℕ × Dict String Value)
  pub hardware : Dict (NodeKey × String) (Dict String Value)
  pub nodes : Dict NodeKey Node

abbrev pub unknown_boot_id : String
unknown_boot_id = "unknown"

-- `_LIVE_NODE_COLUMNS`
abbrev pub live_node_columns : List String
live_node_columns =
    "label" ∷ "updated_at" ∷ "session_state" ∷ "boot_id" ∷ "probe_version" ∷ "load1" ∷ "mem_used_kb"
    ∷ "mem_total_kb" ∷ "procs_total" ∷ "last_census_at" ∷ []

module _ {Proc K : Type 0} ⦃k : Eq K⦄ (proc_key : Proc → K) where
  -- `{(p.get("pid"), p.get("start_time")): p for p in row["processes"]}`
  unfoldable pub by_key : List Proc → Dict K Proc → Dict K Proc
  by_key [] found = found
  by_key (p ∷ ps) found = by_key ps (put (proc_key p) p found)

  unfoldable pub stored_of : Snapshot Proc → ℕ × List Proc
  stored_of s = (s.ts, values (by_key s.processes []))

  -- The upsert `WHERE s.ts <= EXCLUDED.ts`, and the rows that replace the node's.
  unfoldable pub newer_snapshot : Option (ℕ × List Proc) → Snapshot Proc → ℕ × List Proc
  newer_snapshot none s = stored_of s
  newer_snapshot (some old) s = if leb old.0 s.ts then stored_of s else old

  -- `_write_snapshot`
  unfoldable pub write_snapshot : Snapshot Proc → Store Proc → Store Proc
  write_snapshot s store = record store {
    snapshots = put s.key (newer_snapshot (lookup s.key store.snapshots) s) store.snapshots;
  }

  unfoldable pub write_snapshots : List (Snapshot Proc) → Store Proc → Store Proc
  write_snapshots [] store = store
  write_snapshots (s ∷ more) store = write_snapshots more (write_snapshot s store)

unfoldable pub or_value {ℓ} : {A : Type ℓ} → Option A → Option A → Option A
or_value none old = old
or_value (some new) old = some new

unfoldable pub or_none : Option (Option Value) → Option Value
or_none none = none
or_none (some label) = label

unfoldable pub or_label : Option (Option Value) → Option Value → Option Value
or_label none old = old
or_label (some label) old = label

-- `_NODE_SQL`, for the values of a record: the label if it has one.
unfoldable pub node_row : Option (Option Value) → ℕ → Option String → Option Node → Node
node_row label seen boot_id none = record {
  label = or_none label;
  first_seen = seen;
  last_seen = seen;
  boot_id = boot_id;
}
node_row label seen boot_id (some n) = record {
  label = if leb n.last_seen seen then or_label label n.label else n.label;
  first_seen = min n.first_seen seen;
  last_seen = max n.last_seen seen;
  boot_id = if leb n.last_seen seen then or_value boot_id n.boot_id else n.boot_id;
}

-- The columns of a row that the table has.
unfoldable pub known_columns : Dict String Value → Dict String Value
known_columns row = keep (λ entry. contains entry.0 live_node_columns) row

-- The upsert `WHERE live_nodes.updated_at <= EXCLUDED.updated_at`: the columns given are set.
unfoldable pub newer_live_node : Option (ℕ × Dict String Value) → LiveNode → ℕ × Dict String Value
newer_live_node none r = (r.updated_at, known_columns r.columns)
newer_live_node (some old) r =
    if leb old.0 r.updated_at then (r.updated_at, merge old.1 (known_columns r.columns)) else old

unfoldable pub boot_or_unknown : Option String → String
boot_or_unknown none = unknown_boot_id
boot_or_unknown (some boot_id) = boot_id

-- `ON CONFLICT (system, node, boot_id) DO NOTHING`
unfoldable pub first_hardware : Option (Dict String Value) → Dict String Value → Dict String Value
first_hardware none columns = columns
first_hardware (some old) columns = old

module _ {Proc : Type 0} where
  unfoldable pub write_node :
      NodeKey → Option (Option Value) → ℕ → Option String → Store Proc → Store Proc
  write_node key label seen boot_id store = record store {
    nodes = put key (node_row label seen boot_id (lookup key store.nodes)) store.nodes;
  }

  -- `_write_live_node`
  unfoldable pub write_live_node : LiveNode → Store Proc → Store Proc
  write_live_node r store = write_node r.key r.label r.updated_at r.boot_id (record store {
    live_nodes = put r.key (newer_live_node (lookup r.key store.live_nodes) r) store.live_nodes;
  })

  -- `_write_hardware`
  unfoldable pub write_hardware : Hardware → Store Proc → Store Proc
  write_hardware r store =
      let key : NodeKey × String = (r.key, boot_or_unknown r.boot_id) in
      write_node r.key none r.collected_at r.boot_id (record store {
        hardware = put key (first_hardware (lookup key store.hardware) r.columns) store.hardware;
      })
