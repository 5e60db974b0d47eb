-- ===== src/Database/Writer/Tests.antt =====
-- Examples for the theorems on the database writer.
use node_monitor.Common.{
  ℕ, ◌+◌, ◌≡◌, refl, String, some, List, [], ◌∷◌, length, nat_eq, text_eq, pair_eq,
}
use node_monitor.Common.Dict.{lookup, put}
use node_monitor.Records.{collection_event, live_processes}
use node_monitor.Values.{null, dict, end, Value, text, time, pos, DateTime, Record}
use node_monitor.Database.Maintenance.{Retention, span_of}
use node_monitor.Database.Writer.{
  Plan, plan, plan_at, empty_plan, aware_micros, is_known, add_records, add_record, add_row,
  add_timed, as_time, get, or_null, group_of, add_to, add_event, event_params, detail_or_empty,
  add_month, put_absent, add_beyond, count_or_zero, add_snapshot, as_text, newer,
}
use node_monitor.Database.Writer.Planned.{accounted, snapshots_in, plan-accounts}
use node_monitor.Database.Writer.Apply.{Snapshot, Store, write_snapshots}
use node_monitor.Database.Writer.Apply.Replayed.{IsForward, write_snapshots-replayed}

abbrev as_is : Value → Value
as_is v = v

abbrev no_columns : String → List String
no_columns table = []

abbrev name_of : String → ℕ → String
name_of table ts = table

abbrev retention : Retention
retention = record { node_metrics_days = 1; usage_summary_days = 1; collection_events_days = 1 }

abbrev at : ℕ → DateTime
at micros = record { micros = micros; offset = some (pos 0) }

-- An old event, a new one, and a snapshot.
abbrev records : List Record
records =
    record { kind = collection_event; row = ("ts", time (at 5)) ∷ [] }
    ∷ record {
      kind = collection_event;
      row = ("ts", time (at 90000000000)) ∷ ("system", text "s") ∷ ("event_type", text "e") ∷ [];
    }
    ∷ record {
      kind = live_processes;
      row = ("system", text "s") ∷ ("node", text "n") ∷ ("ts", time (at 7)) ∷ [];
    }
    ∷ []

abbrev planned : Plan Value
planned = record {
  snapshots =
      (("s", "n"), ("system", text "s") ∷ ("node", text "n") ∷ ("ts", time (at 7)) ∷ []) ∷ [];
  live_nodes = [];
  hardware = [];
  summaries = [];
  events =
      record {
        ts = time (at 90000000000);
        system = text "s";
        node = null;
        event_type = text "e";
        detail = dict end;
      }
      ∷ [];
  months = (("collection_events", "collection_events"), 90000000000) ∷ [];
  beyond = ("collection_events", 1) ∷ [];
}

plan_ran : plan as_is no_columns name_of retention records (at 90000000001) ≡ some planned
unfolding plan plan_at aware_micros is_known lookup add_records add_record add_row add_timed as_time
    get or_null group_of add_to add_event event_params detail_or_empty add_month put_absent put
    empty_plan add_beyond count_or_zero span_of add_snapshot as_text newer
plan_ran = refl

plan-accounts_example : accounted planned + snapshots_in records ≡ length records
plan-accounts_example =
    plan-accounts as_is no_columns name_of retention records (at 90000000001) planned plan_ran

abbrev pid : ℕ → ℕ
pid p = p

abbrev snapshots : List (Snapshot ℕ)
snapshots =
    record { key = ("s", "n"); ts = 7; processes = 1 ∷ 2 ∷ 1 ∷ [] }
    ∷ record { key = ("s", "n"); ts = 5; processes = 3 ∷ [] }
    ∷ []

abbrev store : Store ℕ
store = record {
  snapshots = (("s", "n"), (6, 4 ∷ [])) ∷ [];
  live_nodes = [];
  hardware = [];
  nodes = [];
}

write_snapshots-replayed_example :
    (lookup
        ("s", "n")
        (write_snapshots pid snapshots (write_snapshots pid snapshots store)).snapshots
      ≡ lookup ("s", "n") (write_snapshots pid snapshots store).snapshots)
    × IsForward
        (lookup ("s", "n") store.snapshots)
        (lookup ("s", "n") (write_snapshots pid snapshots store).snapshots)
write_snapshots-replayed_example = write_snapshots-replayed pid ("s", "n") snapshots store
