-- ===== src/Collector/Tests.antt =====
-- Examples for the theorems on the collector's sessions.
use node_monitor.Common.{
  ℕ, zero, suc, All, ◌≡◌, refl, true, false, Option, none, some, List, [], ◌∷◌, ◌++◌, nat_eq,
  text_eq, arith,
}
use node_monitor.Collector.Stderr.{
  Bytes, Chars, Log, Detail, feed, feed_lines, finish_line, add_part, report_line, strip_returns,
  put_front, is_space,
}
use node_monitor.Common.Slices.{first, drop, last}
use node_monitor.Collector.Stderr.Bounds.{IsBounded, feed-IsBounded}
use node_monitor.Collector.Stderr.Chunks.{feed-append}
use node_monitor.Collector.Link.{
  Message, Link, Read, line, too_long, pump, on_read, pump_on, handle_line, handle_parsed, note,
  note_boot_id, note_reboot, emit, strip_newline,
}
use node_monitor.Collector.Link.Reading.{Arrived, IsRead, pump-IsRead}
use node_monitor.Collector.Session.{Config, Session, rotate, eof, run}
use node_monitor.Collector.Upkeep
use node_monitor.Collector.Upkeep.Pace.{Paces, tick_all, tick_all-Paces}
use node_monitor.Collector.WriterThread.{Thread, Turn, run as run_thread}
use node_monitor.Collector.WriterThread.Flow.{given, due, Flows, run-Flows}
use node_monitor.Collector.Session.Backoff.{IsRandom, IsSpaced, run-IsSpaced}

abbrev ascii : Bytes → Chars
ascii bytes = bytes

abbrev empty_log : Log
empty_log = record { events = []; line = []; tail = []; emitted = 0; suppressed = 0 }

-- "ab\nc"
abbrev chunk : Bytes
chunk = 97 ∷ 98 ∷ 10 ∷ 99 ∷ []

-- "d\n"
abbrev rest_of_line : Bytes
rest_of_line = 100 ∷ 10 ∷ []

feed_ran :
    (feed ascii rest_of_line (feed ascii chunk empty_log)).events
    ≡ Detail.line (97 ∷ 98 ∷ []) ∷ Detail.line (99 ∷ 100 ∷ []) ∷ []
unfolding feed feed_lines finish_line add_part report_line strip_returns put_front is_space first
    last drop
feed_ran = refl

feed-append_example :
    feed ascii (chunk ++ rest_of_line) empty_log
    ≡ feed ascii rest_of_line (feed ascii chunk empty_log)
feed-append_example = feed-append ascii chunk rest_of_line empty_log

empty_log-IsBounded : IsBounded empty_log
empty_log-IsBounded = record {
  line = omega arith;
  tail = omega arith;
  emitted = omega arith;
  events = refl;
}

feed-IsBounded_example : IsBounded (feed ascii chunk empty_log)
feed-IsBounded_example = feed-IsBounded ascii chunk empty_log empty_log-IsBounded

-- A line of one byte n is a greeting with boot id n, another is no JSON.
abbrev loads : Bytes → Option (Message ℕ Unit)
loads [] = none
loads (n ∷ []) = some (record { kind = some "hello"; boot_id = some n; reason = none; body = tt })
loads (n ∷ m ∷ bytes) = none

abbrev new_link : Link ℕ Unit
new_link = record { bye_reason = none; boot_id = none; reports = [] }

abbrev reads : List (ℕ × Read)
reads =
    (1, line (5 ∷ 10 ∷ [])) ∷ (2, too_long) ∷ (3, line (6 ∷ 10 ∷ [])) ∷ (4, line (6 ∷ 7 ∷ [])) ∷ []

pump_ran : (pump loads ascii 10 (some 5) reads new_link).1.boot_id ≡ some 6
unfolding pump on_read pump_on handle_line handle_parsed note note_boot_id note_reboot emit
    strip_newline
pump_ran = refl

reads-Arrived : All (Arrived 10) reads
unfolding Arrived
reads-Arrived = (omega arith, (omega arith, (omega arith, (omega arith, tt))))

pump-IsRead_example :
    IsRead loads ascii reads new_link (pump loads ascii 10 (some 5) reads new_link)
pump-IsRead_example = pump-IsRead loads ascii 10 (some 5) reads new_link reads-Arrived

abbrev config : Config
config = record {
  silence_timeout = 30;
  max_lifetime = 1000;
  backoff_low = 2;
  backoff_high = 60;
  healthy_after = 50;
}

abbrev sessions : List Session
sessions =
    record {
      outcome = eof;
      uptime = 3;
      bye_reason = none;
      stopped = false;
      stopped_waiting = false;
      random = 7;
    }
    ∷ record {
      outcome = rotate;
      uptime = 900;
      bye_reason = none;
      stopped = false;
      stopped_waiting = false;
      random = 0;
    }
    ∷ record {
      outcome = eof;
      uptime = 9;
      bye_reason = some "signal";
      stopped = true;
      stopped_waiting = false;
      random = 1;
    }
    ∷ []

sessions-IsRandom : All (IsRandom config) sessions
unfolding IsRandom
sessions-IsRandom = (omega arith, (omega arith, (omega arith, tt)))

run-IsSpaced_example : IsSpaced config Unit 0 (run config sessions)
run-IsSpaced_example = run-IsSpaced config sessions sessions-IsRandom

-- Every submit answers one event and every second one raises; ticks answer nothing.
abbrev submit : List ℕ → ℕ → Option (List ℕ) × ℕ
submit records zero = (none, 1)
submit records (suc n) = (some (7 ∷ []), 0)

abbrev tick : ℕ → Option (List ℕ) × ℕ
tick n = (some [], n)

abbrev thread : Thread ℕ ℕ
thread = record { world = 1; carried = []; log = [] }

abbrev turns : List (Turn ℕ)
turns =
    record { durable = 1 ∷ 2 ∷ []; live = []; finished = false }
    ∷ record { durable = []; live = 3 ∷ []; finished = true }
    ∷ []

thread-Flows : Flows submit tick thread
unfolding Flows given due
thread-Flows = refl

run-Flows_example : Flows submit tick (run_thread submit tick turns thread)
run-Flows_example = run-Flows submit tick turns thread thread-Flows

abbrev upkeep_config : Upkeep.Config
upkeep_config = record {
  heartbeat_interval = 60;
  maintenance_interval = 86400;
  retry_interval = 3600;
}

abbrev new_upkeep : Upkeep.Upkeep
new_upkeep = record {
  connected = false;
  last_heartbeat_attempt = none;
  next_maintenance = none;
  failing = false;
  calls = [];
}

abbrev quiet : Upkeep.Surroundings
quiet = record {
  status_error = none;
  heartbeat_error = none;
  maintained = record { created = []; dropped = []; skipped = [] };
  maintenance_error = none;
}

abbrev ticks : List (ℕ × Upkeep.Surroundings)
ticks = (100, quiet) ∷ (130, quiet) ∷ (170, quiet) ∷ []

tick_all-Paces_example : Paces upkeep_config new_upkeep (tick_all upkeep_config ticks new_upkeep)
tick_all-Paces_example = tick_all-Paces upkeep_config ticks new_upkeep
