-- ===== src/Database/Maintenance/Tests.antt =====
-- An example for the theorem on maintenance.
use node_monitor.Common.{
  ℕ, ◌+◌, ◌-◌, ◌/◌, ◌*◌, ◌%◌, ◌≡◌, String, Bool, true, [], ◌∷◌, arith, nat_eq,
}
use node_monitor.Common.Dict.{lookup}
use node_monitor.Database.Maintenance.{
  Month, next_month, Calendar, monthly, other_name, Database, Retention, span_of, attached,
  or_no_parts, run,
}
use node_monitor.Database.Maintenance.Retained.{IsPlaced, IsIn, all_rows, recent, run-retains}

-- A calendar whose months are one microsecond long.
abbrev start : Month → ℕ
start m = (12 * m.year + m.month) - 1

abbrev month_at : ℕ → Month
month_at t = record { year = t / 12; month = t % 12 + 1 }

abbrev calendar : Calendar
calendar = record { month_of = month_at; start_of = start }

abbrev retention : Retention
retention = record { node_metrics_days = 1; usage_summary_days = 1; collection_events_days = 1 }

-- A partition that is due, and one with a name that does not match.
abbrev database : Database
database =
    (
      "collection_events",
      record { name = monthly (month_at 5); rows = 5 ∷ [] }
          ∷ record { name = other_name "collection_events_old"; rows = 3 ∷ [] }
          ∷ [],
    )
    ∷ []

abbrev is_creatable : String → Month → Bool
is_creatable table m = true

placed : IsPlaced calendar (attached "collection_events" database)
unfolding IsPlaced IsIn attached next_month or_no_parts lookup
placed = (((omega arith, omega arith), tt), (tt, tt))

run-retains_example :
    recent 90000000000 (span_of retention "collection_events") (
      all_rows (
        attached "collection_events"
          (run calendar is_creatable is_creatable 90000000000 retention database).1))
    ≡ recent 90000000000
        (span_of retention "collection_events")
        (all_rows (attached "collection_events" database))
run-retains_example =
    run-retains calendar is_creatable is_creatable 90000000000 retention "collection_events"
      database placed
