-- ===== src/Database/Writer.antt =====
-- database/writer.py, `DatabaseWriter`: the plan of a batch (`_plan`), and `write` with its retry
-- after a missing partition. Times are microseconds; the SQL statements are in the child `Apply`.
-- The text of a partition's name and the conversion of values to parameters are parameters.
pub mod Planned
mod Tests
pub mod Apply
pub mod Attempt
use node_monitor.Common.{
  not, ℕ, ◌+◌, String, Bool, true, false, Option, none, some, List, [], ◌∷◌, ◌++◌, if◌then◌else◌,
  ◌==◌, Eq, text_eq, pair_eq, ltb, leb, all, ◌>>=◌, map,
}
use node_monitor.Common.Dict.{Dict, lookup, put}
use node_monitor.Records.{
  live_processes, live_node, node_metrics_1m, user_usage_5m, node_usage_5m, node_hardware,
  collection_event,
}
use node_monitor.Values.{Value, null, time, dict, end, text, DateTime, Record}
use node_monitor.Database.Maintenance.{Retention, span_of}

abbrev pub Row : Type 0
Row = Dict String Value

-- `_TABLE`
abbrev pub tables : Dict String String
tables =
    (live_processes, "live_processes")
    ∷ (live_node, "live_nodes")
    ∷ (node_hardware, "node_hardware")
    ∷ (node_metrics_1m, "node_metrics_1m")
    ∷ (user_usage_5m, "user_usage_5m")
    ∷ (node_usage_5m, "node_usage_5m")
    ∷ (collection_event, "collection_events")
    ∷ []

-- `PARTITION_KEY`
abbrev pub partition_keys : Dict String String
partition_keys =
    ("node_metrics_1m", "minute")
    ∷ ("user_usage_5m", "interval_start")
    ∷ ("node_usage_5m", "interval_start")
    ∷ ("collection_events", "ts")
    ∷ []

-- `_LIVE_NODE_REQUIRED`
abbrev pub live_node_required : List String
live_node_required = "updated_at" ∷ "session_state" ∷ []

-- The parameters of an event's statement.
pub record EventParams (P : Type 0) : Type 0 where
  pub ts : Value
  pub system : Value
  pub node : Value
  pub event_type : Value
  pub detail : P

pub record Plan (P : Type 0) : Type 0 where
  pub snapshots : Dict (String × String) Row
  pub live_nodes : List Row
  pub hardware : List Row
  pub summaries : Dict String (List (List P))
  pub events : List (EventParams P)
  pub months : Dict (String × String) ℕ
  pub beyond : Dict String ℕ

-- What the plan does with a record of each kind.
pub data Group : Type 0 where
  snapshot live hardware_row event summary : Group

unfoldable pub empty_plan : {P : Type 0} → Plan P
empty_plan = record {
  snapshots = [];
  live_nodes = [];
  hardware = [];
  summaries = [];
  events = [];
  months = [];
  beyond = [];
}

unfoldable pub or_null : Option Value → Value
or_null none = null
or_null (some v) = v

-- `row.get(column)`
unfoldable pub get : String → Row → Value
get column row = or_null (lookup column row)

-- `row[column]` where a text is needed, as the system and the node of live rows are; `none` is an
-- exception.
unfoldable pub as_text : Value → Option String
as_text (text s) = some s
as_text v = none

-- `require_aware`: the time of an aware datetime, else an exception.
unfoldable pub aware_micros : DateTime → Option ℕ
aware_micros t = elim t.offset [ none ↦ none | some o ↦ some t.micros ]

unfoldable pub as_time : Value → Option ℕ
as_time (time t) = aware_micros t
as_time v = none

unfoldable pub is_null : Value → Bool
is_null null = true
is_null v = false

unfoldable pub is_known {ℓ} : {A : Type ℓ} → Option A → Bool
is_known none = false
is_known (some a) = true

-- `plan.beyond[table] += 1`
unfoldable pub count_or_zero : Option ℕ → ℕ
count_or_zero none = 0
count_or_zero (some n) = n

-- `setdefault(key, value)`
unfoldable pub put_absent {ℓ κ} :
    {K : Type ℓ} {V : Type κ} ⦃e : Eq K⦄ → Option V → K → V → Dict K V → Dict K V
put_absent none k v d = put k v d
put_absent (some old) k v d = d

unfoldable pub group_of : String → Group
group_of kind =
    if kind == live_processes
    then snapshot
    else if kind == live_node
    then live
    else if kind == node_hardware
    then hardware_row
    else if kind == collection_event
    then event
    else summary

unfoldable pub or_no_params : {P : Type 0} → Option (List (List P)) → List (List P)
or_no_params none = []
or_no_params (some rows) = rows

module _ {P : Type 0} (to_db_value : Value → P) (summary_columns : String → List String)
    (partition_name : String → ℕ → String) (retention : Retention) where
  unfoldable pub add_beyond : String → Plan P → Plan P
  add_beyond table p = record p {
    beyond = put table (count_or_zero (lookup table p.beyond) + 1) p.beyond;
  }

  unfoldable pub add_month : String → ℕ → Plan P → Plan P
  add_month table ts p =
      let key : String × String = (table, partition_name table ts) in
      record p { months = put_absent (lookup key p.months) key ts p.months }

  -- Python compares two aware datetimes or two naive ones, and raises for one of each.
  unfoldable pub is_comparable : DateTime → DateTime → Bool
  is_comparable a b = if is_known a.offset then is_known b.offset else not (is_known b.offset)

  -- The newer of two snapshots, and the later of the batch if they are of the same time; `none`
  -- where the comparison of the times raises.
  unfoldable pub newer_if : Value → Value → Row → Row → Option Row
  newer_if (time new) (time old) row current =
      if is_comparable new old
      then some (if leb old.micros new.micros then row else current)
      else none
  newer_if new old row current = none

  unfoldable pub newer : Row → Option Row → Option Row
  newer row none = some row
  newer row (some current) = newer_if (get "ts" row) (get "ts" current) row current

  unfoldable pub add_snapshot : Row → Plan P → Option (Plan P)
  add_snapshot row p = do
    system ← as_text (get "system" row)
    node ← as_text (get "node" row)
    chosen ← newer row (lookup (system, node) p.snapshots)
    some (record p { snapshots = put (system, node) chosen p.snapshots })

  unfoldable pub has_required : Row → Bool
  has_required row =
      all (λ column. if is_null (get column row) then false else true) live_node_required

  -- `to_db_value({} if detail is None else detail)`
  unfoldable pub detail_or_empty : Value → Value
  detail_or_empty null = dict end
  detail_or_empty v = v

  -- A row without its system or its type raises KeyError.
  unfoldable pub event_params : Row → Option (EventParams P)
  event_params row = do
    system ← lookup "system" row
    event_type ← lookup "event_type" row
    some (record {
      ts = get "ts" row;
      system = system;
      node = get "node" row;
      event_type = event_type;
      detail = to_db_value (detail_or_empty (get "detail" row));
    })

  unfoldable pub add_event : Row → Plan P → Option (Plan P)
  add_event row p = do
    params ← event_params row
    some (record p { events = p.events ++ params ∷ [] })

  unfoldable pub summary_params : String → Row → List P
  summary_params table row =
      map (λ column. to_db_value (get column row)) ("system" ∷ "node" ∷ summary_columns table)

  unfoldable pub add_summary : String → Row → Plan P → Plan P
  add_summary table row p =
      let before = or_no_params (lookup table p.summaries) in
      record p { summaries = put table (before ++ summary_params table row ∷ []) p.summaries }

  unfoldable pub add_to : Group → String → Row → Plan P → Option (Plan P)
  add_to snapshot table row p = add_snapshot row p
  add_to live table row p =
      if has_required row then some (record p { live_nodes = p.live_nodes ++ row ∷ [] }) else none
  add_to hardware_row table row p = some (record p { hardware = p.hardware ++ row ∷ [] })
  add_to event table row p = add_event row p
  add_to summary table row p = some (add_summary table row p)

  -- A row of a partitioned table with its time: counted if it is beyond retention, else planned.
  unfoldable pub add_timed : ℕ → Group → String → Row → Option ℕ → Plan P → Option (Plan P)
  add_timed now group table row none p = none
  add_timed now group table row (some ts) p =
      let planned = add_to group table row (add_month table ts p) in
      if ltb (ts + span_of retention table) now then some (add_beyond table p) else planned

  unfoldable pub add_row : ℕ → Group → String → Row → Option String → Plan P → Option (Plan P)
  add_row now group table row none p = add_to group table row p
  add_row now group table row (some column) p =
      add_timed now group table row (as_time (get column row)) p

  unfoldable pub add_record : ℕ → Record → Option String → Plan P → Option (Plan P)
  add_record now r none p = none
  add_record now r (some table) p =
      add_row now (group_of r.kind) table r.row (lookup table partition_keys) p

  unfoldable pub add_records : ℕ → List Record → Plan P → Option (Plan P)
  add_records now [] p = some p
  add_records now (r ∷ rs) p = add_record now r (lookup r.kind tables) p >>= add_records now rs

  unfoldable pub plan_at : List Record → Option ℕ → Option (Plan P)
  plan_at records none = none
  plan_at records (some now) =
      let planned = add_records now records empty_plan in
      if all (λ r. is_known (lookup r.kind tables)) records then planned else none

  -- `_plan`: `none` if it raises.
  unfoldable pub plan : List Record → DateTime → Option (Plan P)
  plan records now = plan_at records (aware_micros now)
