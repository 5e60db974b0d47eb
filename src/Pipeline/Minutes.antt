-- ===== src/Pipeline/Minutes.antt =====
-- pipeline/node_metrics.py, `MinuteAggregator`: counters and censuses gathered by minute. Times are
-- microseconds. A row holds the closed minute and its censuses, from which `_close` computes the
-- averages, which are left out.
pub mod Samples
pub mod Bounded
pub mod Pairs
use node_monitor.Common.{
  ℕ, zero, suc, ◌+◌, ◌-◌, ◌%◌, min, max, String, Bool, false, ◌&&◌, ◌||◌, Option, none, some, List,
  [], ◌∷◌, ◌++◌, if◌then◌else◌, ◌==◌, nat_eq, length, keep, ltb, leb,
}
use node_monitor.Values.{ℤ, pos, negsuc}
use node_monitor.Common.Dict.{Dict, lookup, put, discard, keys}
pub use node_monitor.Pipeline.Minutes.Pairs.{Counters, Minute}
unfoldable pub use node_monitor.Pipeline.Minutes.Pairs.{
  is_cpu_pair, add_cpu_pair, add_iface, add_net, fs_totals, fs_delta, add_fs, add_md, add_probe_cpu,
  add_pair,
}

abbrev pub max_pending_census_minutes : ℕ
max_pending_census_minutes = 10

pub record CensusMessage : Type 0 where
  pub gpus : List ℕ
  pub scan_seconds : Option ℕ
  pub gpu_status : Option String

-- The counters before: the message, its time and its session.
pub record Previous : Type 0 where
  pub message : Counters
  pub recv : ℕ
  pub session_id : ℕ

pub record Aggregator : Type 0 where
  pub open_minute : Option Minute
  pub prev : Option Previous
  pub census : Dict ℕ CensusMessage
  pub last_closed : Option ℕ

pub record Row : Type 0 where
  pub of : Minute
  pub census : Option CensusMessage

-- `_floor_minute`
unfoldable pub floor_minute : ℕ → ℕ
floor_minute recv = recv - recv % 60000000

unfoldable pub new_minute : ℕ → Minute
new_minute minute = record {
  minute = minute;
  last = none;
  sample_count = 0;
  offsets = [];
  cpu = [];
  cpu_pairs = 0;
  net = [];
  md = [];
  probe_cpu = 0;
  probe_pairs = 0;
  probe_rss = none;
}

-- The smallest key, from a first guess.
unfoldable pub least : ℕ → List ℕ → ℕ
least m [] = m
least m (k ∷ ks) = least (min m k) ks

-- One turn of the loop that bounds the waiting censuses.
unfoldable pub drop_oldest : Dict ℕ CensusMessage → Dict ℕ CensusMessage
drop_oldest [] = []
drop_oldest ((m, c) ∷ cs) = discard (least m (keys cs)) ((m, c) ∷ cs)

-- The loop, on fuel: a turn removes one entry, so the length suffices.
unfoldable pub bound_census : ℕ → Dict ℕ CensusMessage → Dict ℕ CensusMessage
bound_census zero census = census
bound_census (suc n) census =
    let rest = bound_census n (drop_oldest census) in
    if ltb max_pending_census_minutes (length census) then rest else census

-- The longer of the scans of one minute.
unfoldable pub longer_scan : Option ℕ → Option ℕ → Option ℕ
longer_scan none old = old
longer_scan (some scan) none = some scan
longer_scan (some scan) (some old) = some (max scan old)

unfoldable pub slot_scan : Option CensusMessage → Option ℕ
slot_scan none = none
slot_scan (some c) = c.scan_seconds

unfoldable pub put_census : ℕ → CensusMessage → Aggregator → Aggregator
put_census minute c a =
    let slot = record c {
      scan_seconds = longer_scan c.scan_seconds (slot_scan (lookup minute a.census));
    } in
    let census = put minute slot a.census in
    record a { census = bound_census (length census) census }

unfoldable pub is_before_open : ℕ → Option Minute → Bool
is_before_open minute none = false
is_before_open minute (some m) = ltb minute m.minute

unfoldable pub is_closed : ℕ → Option ℕ → Bool
is_closed minute none = false
is_closed minute (some last) = leb minute last

unfoldable pub add_census : CensusMessage → ℕ → Aggregator → Aggregator
add_census c recv a =
    let minute = floor_minute recv in
    if is_before_open minute a.open_minute || is_closed minute a.last_closed
    then a
    else put_census minute c a

-- The counters before are of use in the same session and if time has passed.
unfoldable pub add_after : Option Previous → Counters → ℕ → ℕ → Minute → Minute
add_after none msg recv session_id m = m
add_after (some p) msg recv session_id m =
    if (p.session_id == session_id) && ltb p.recv recv
    then add_pair p.message msg (recv - p.recv) m
    else m

unfoldable pub or_before : Option ℕ → Option ℕ → Option ℕ
or_before none old = old
or_before (some n) old = some n

-- `recv - ts`
unfoldable pub clock_offset : ℕ → ℕ → ℤ
clock_offset recv ts = if leb ts recv then pos (recv - ts) else negsuc (ts - recv - 1)

unfoldable pub with_offset : ℕ → Option ℕ → List ℤ → List ℤ
with_offset recv none offsets = offsets
with_offset recv (some ts) offsets = offsets ++ clock_offset recv ts ∷ []

unfoldable pub count_sample : Counters → ℕ → Minute → Minute
count_sample msg recv m = record m {
  sample_count = m.sample_count + 1;
  last = some msg;
  probe_rss = or_before msg.rss_kb m.probe_rss;
  offsets = with_offset recv msg.ts m.offsets;
}

-- `_close`: the row, and the aggregator without the censuses up to the minute.
unfoldable pub close_minute : Minute → Aggregator → Row × Aggregator
close_minute m a = (
  record { of = m; census = lookup m.minute a.census },
  record a {
    open_minute = none;
    last_closed = some m.minute;
    census = keep (λ c. leb m.minute c.0) (discard m.minute a.census);
  },
)

unfoldable pub close_open : Option Minute → Aggregator → List Row × Aggregator
close_open none a = ([], a)
close_open (some m) a = let (row, next) = close_minute m a in (row ∷ [], next)

-- `add_counters` closes the open minute if the new one is later.
unfoldable pub close_before : ℕ → Option Minute → Aggregator → List Row × Aggregator
close_before minute none a = ([], a)
close_before minute (some m) a = if ltb m.minute minute then close_open (some m) a else ([], a)

unfoldable pub open_or_new : ℕ → Option Minute → Minute
open_or_new minute none = new_minute minute
open_or_new minute (some m) = m

unfoldable pub add_to_open : Counters → ℕ → ℕ → Aggregator → Aggregator
add_to_open msg recv session_id a = record a {
  open_minute = some (
      add_after a.prev msg recv session_id
        (count_sample msg recv (open_or_new (floor_minute recv) a.open_minute)));
  prev = some (record { message = msg; recv = recv; session_id = session_id });
}

unfoldable pub add_counters : Counters → ℕ → ℕ → Aggregator → List Row × Aggregator
add_counters msg recv session_id a =
    let (rows, closed) = close_before (floor_minute recv) a.open_minute a in
    (rows, add_to_open msg recv session_id closed)

unfoldable pub flush : Aggregator → List Row × Aggregator
flush a = close_open a.open_minute a
