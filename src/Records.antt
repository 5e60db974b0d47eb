-- ===== src/Records.antt =====
-- pipeline/records.py: the storage records of the per-node pipelines, and the kinds they have.
-- A row is a dict from column names to values; the value type is a parameter of the queue and of
-- all that only passes rows on.
use node_monitor.Common.{String, Bool, List, [], ◌∷◌, contains, text_eq}
use node_monitor.Common.Dict.{Dict}

pub record Record {ℓ} (V : Type ℓ) : Type ℓ where
  pub kind : String
  pub row : Dict String V

abbrev pub live_processes : String
live_processes = "live_processes"

abbrev pub live_node : String
live_node = "live_node"

abbrev pub node_metrics_1m : String
node_metrics_1m = "node_metrics_1m"

abbrev pub user_usage_5m : String
user_usage_5m = "user_usage_5m"

abbrev pub node_usage_5m : String
node_usage_5m = "node_usage_5m"

abbrev pub node_hardware : String
node_hardware = "node_hardware"

abbrev pub collection_event : String
collection_event = "collection_event"

-- spool.py: live rows only ever describe a node's current state.
abbrev pub live_kinds : List String
live_kinds = live_processes ∷ live_node ∷ []

unfoldable pub is_live {ℓ} : {V : Type ℓ} → Record V → Bool
is_live r = contains r.kind live_kinds
