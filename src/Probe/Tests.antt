-- ===== src/Probe/Tests.antt =====
-- Examples for the theorems on the probe.
use node_monitor.Common.{
  ℕ, ◌+◌, max, ◌≡◌, refl, String, Bool, true, false, Option, none, some, List, map, [], ◌∷◌, All,
  any, ◌==◌, text_eq, arith,
}
use node_monitor.Probe.Chunks.{
  emit_chunk_bytes, encoded_chunks, join, longest, IsChunking, encoded_chunks-IsChunking,
}
use node_monitor.Probe.Schedule.{next_due, catch_up, IsNext, next_due-IsNext}
use node_monitor.Probe.Gpu.{Gpu, Census, failed, query_all, query_gpus, is_suspended}
use node_monitor.Probe.Gpu.Streak.{
  last_failure, streak_of, run_of, IsTracked, IsPaced, query_all-IsTracked, query-IsPaced,
}
use node_monitor.Probe.Tracker.{Tracker, Row, Usage, update}
use node_monitor.Probe.Tracker.Scans.{ticks_between, update-ticks_between}
use node_monitor.Probe.Lock.{
  Poll, Attempt, acquired, acquire, after_holder, find_holder, take_over, after_signal,
  signal_probe, signal_if, wait_for_lock,
}
use node_monitor.Probe.Lock.Signals.{
  IsJustified, read_for, takes, acquire-IsJustified, acquire-takes,
}

abbrev pieces : List (List ℕ)
pieces = (1 ∷ 2 ∷ []) ∷ (3 ∷ []) ∷ (4 ∷ 5 ∷ 6 ∷ []) ∷ []

encoded_chunks-IsChunking_example :
    IsChunking (max emit_chunk_bytes (longest pieces)) (join pieces) (encoded_chunks pieces)
encoded_chunks-IsChunking_example = encoded_chunks-IsChunking pieces

next_due_ran : next_due 100 60 350 ≡ 400
unfolding next_due catch_up
next_due_ran = refl

next_due-IsNext_example : IsNext 100 60 350 (next_due 100 60 350)
next_due-IsNext_example = next_due-IsNext 100 60 350 (omega arith)

abbrev idle : Gpu
idle = record { resume_at = none; failure = none; streak = 0; complaints = [] }

abbrev at_time : ℕ → Option String → Census
at_time t error = record { checked_at = t; installed = true; error = error; suspended_at = t + 1 }

abbrev censuses : List Census
censuses =
    at_time 1 (some "no permission")
    ∷ at_time 2 (some "no permission")
    ∷ at_time 3 (some "no permission")
    ∷ at_time 4 none
    ∷ []

idle-IsTracked : IsTracked idle []
unfolding last_failure streak_of
idle-IsTracked = record { failure = refl; streak = refl }

query_all-IsTracked_example :
    IsTracked (query_all 600 true censuses (idle, [])).0 (query_all 600 true censuses (idle, [])).1
query_all-IsTracked_example = query_all-IsTracked 600 true censuses idle [] idle-IsTracked

abbrev failing : Gpu
failing = record {
  resume_at = some 2;
  failure = some "no permission";
  streak = 2;
  complaints = failed "no permission" ∷ failed "no permission" ∷ [];
}

abbrev two_failures : List (Option String)
two_failures = some "no permission" ∷ some "no permission" ∷ []

failing-IsTracked : IsTracked failing two_failures
unfolding last_failure streak_of run_of
failing-IsTracked = record { failure = refl; streak = refl }

failing_awake : is_suspended 600 3 (some 2) ≡ false
unfolding is_suspended
failing_awake = refl

query-IsPaced_example :
    IsPaced 600
      (at_time 3 (some "no permission"))
      failing
      two_failures
      (query_gpus 600 true (at_time 3 (some "no permission")) failing).1
query-IsPaced_example =
    query-IsPaced 600 (at_time 3 (some "no permission")) failing two_failures failing-IsTracked
      failing_awake refl

abbrev has_marker : String → Bool
has_marker cmdline = cmdline == "probe"

abbrev busy : List Poll
busy = record { locked = false; pid = some 77; now = 3 } ∷ []

abbrev free : List Poll
free = record { locked = true; pid = some 77; now = 9 } ∷ []

abbrev term_attempt : Attempt
term_attempt = record { cmdline = some "probe"; started = 4; polls = free }

abbrev kill_attempt : Attempt
kill_attempt = record { cmdline = none; started = 9000; polls = [] }

acquire_ran : (acquire 5 has_marker 0 busy term_attempt kill_attempt).0 ≡ acquired
unfolding acquire after_holder find_holder take_over after_signal signal_probe signal_if
    wait_for_lock
acquire_ran = refl

acquire-IsJustified_example :
    All
      (IsJustified 5 has_marker (read_for 5 has_marker term_attempt kill_attempt))
      (acquire 5 has_marker 0 busy term_attempt kill_attempt).1
acquire-IsJustified_example = acquire-IsJustified 5 has_marker 0 busy term_attempt kill_attempt

acquire-takes_example : any takes (busy ∷ free ∷ [] ∷ []) ≡ true
acquire-takes_example = acquire-takes 5 has_marker 0 busy term_attempt kill_attempt acquire_ran

abbrev tracker : Tracker
tracker = record { active_per_min = 500; clk_tck = 100; state = []; updates = 0 }

abbrev earlier : List Row
earlier = record { pid = 5; start_time = 10; utime = 3; stime = 4 } ∷ []

-- Pid 5 goes on, pid 6 is new.
abbrev rows : List Row
rows =
    record { pid = 5; start_time = 10; utime = 30; stime = 4 }
    ∷ record { pid = 6; start_time = 90; utime = 1; stime = 1 }
    ∷ []

update-ticks_between_example :
    map Usage.cpu_ticks (update (update tracker 0 0 earlier).1 60000 60000 rows).0
    ≡ map (ticks_between earlier) rows
update-ticks_between_example = update-ticks_between tracker 0 60000 0 60000 earlier rows
