-- ===== src/Probe/Tracker.antt =====
-- probe/probe.py, `ProcessTracker`: CPU use between two scans and dormancy. Times are milliseconds,
-- the threshold is in thousandths of a CPU second per minute, and CPU use is kept as the two tick
-- counts, whose difference over clk_tck is the source's float. A scan has each process once.
pub mod Scans
use node_monitor.Common.{
  ℕ, zero, suc, ◌+◌, ◌-◌, ◌*◌, ◌≤◌, Bool, true, false, ◌&&◌, Option, none, some, List, [], ◌∷◌,
  ◌++◌, if◌then◌else◌, ◌==◌, Eq, nat_eq, leb, map,
}

-- A row of the scan, as far as `update` reads it.
pub record Row : Type 0 where
  pub pid : ℕ
  pub start_time : ℕ
  pub utime : ℕ
  pub stime : ℕ

pub data Activity : Type 0 where
  active idle : Activity

-- What `update` puts in a row; `cpu_ticks` are the counts before and after.
pub record Usage : Type 0 where
  pub cpu_ticks : Option (ℕ × ℕ)
  pub cpu_state : Option Activity
  pub idle_for : Option ℕ
  pub is_lower_bound : Bool

-- What is remembered of a process.
pub record Known : Type 0 where
  pub pid : ℕ
  pub start_time : ℕ
  pub ticks : ℕ
  pub first_seen : ℕ
  pub last_active : Option ℕ
  pub existed_at_start : Bool

pub record Tracker : Type 0 where
  pub active_per_min : ℕ
  pub clk_tck : ℕ
  pub state : List Known
  pub updates : ℕ

unfoldable pub find_known : ℕ → ℕ → List Known → Option Known
find_known pid start [] = none
find_known pid start (k ∷ ks) =
    if (k.pid == pid) && (k.start_time == start) then some k else find_known pid start ks

unfoldable pub ticks_of : Row → ℕ
ticks_of r = r.utime + r.stime

-- `cpu_seconds >= threshold`, both times 60,000,000 * clk_tck.
unfoldable pub is_active : Tracker → ℕ → ℕ → ℕ → Bool
is_active t interval before after =
    leb (t.active_per_min * interval * t.clk_tck + before * 60000000) (after * 60000000)

unfoldable pub is_none {ℓ} : {A : Type ℓ} → Option A → Bool
is_none none = true
is_none (some a) = false

module _ (tracker : Tracker) (now interval : ℕ) where
  unfoldable pub new_process : Row → Usage × Known
  new_process r = (
    record { cpu_ticks = none; cpu_state = none; idle_for = none; is_lower_bound = false },
    record {
      pid = r.pid;
      start_time = r.start_time;
      ticks = ticks_of r;
      first_seen = now;
      last_active = none;
      existed_at_start = tracker.updates == 0;
    },
  )

  -- A process that is known, by whether it has been active.
  unfoldable pub seen_again : Bool → Row → Known → Usage × Known
  seen_again true r k = (
    record {
      cpu_ticks = some (k.ticks, ticks_of r);
      cpu_state = some active;
      idle_for = some 0;
      is_lower_bound = false;
    },
    record k { ticks = ticks_of r; last_active = some now },
  )
  seen_again false r k = (
    record {
      cpu_ticks = some (k.ticks, ticks_of r);
      cpu_state = some idle;
      idle_for = some (now - elim k.last_active [ none ↦ k.first_seen | some t ↦ t ]);
      is_lower_bound = is_none k.last_active && k.existed_at_start;
    },
    record k { ticks = ticks_of r },
  )

  unfoldable pub update_known : Row → Option Known → Usage × Known
  update_known r none = new_process r
  update_known r (some k) = seen_again (is_active tracker interval k.ticks (ticks_of r)) r k

  unfoldable pub update_row : Row → Usage × Known
  update_row r = update_known r (find_known r.pid r.start_time tracker.state)

  unfoldable pub update_rows : List Row → List (Usage × Known)
  update_rows [] = []
  update_rows (r ∷ rs) = update_row r ∷ update_rows rs

  unfoldable pub update : List Row → List Usage × Tracker
  update rows = (
    map (λ u. u.0) (update_rows rows),
    record tracker { state = map (λ u. u.1) (update_rows rows); updates = tracker.updates + 1 },
  )
