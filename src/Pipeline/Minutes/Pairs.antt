-- ===== src/Pipeline/Minutes/Pairs.antt =====
-- pipeline/node_metrics.py, `_Minute` and `MinuteAggregator._add_pair`: what two counters messages
-- of one session add to a minute, each family of counters on its own. Times are microseconds.
use node_monitor.Common.{
  ℕ, ◌+◌, ◌-◌, String, Bool, true, false, ◌&&◌, Option, none, some, List, [], ◌∷◌, if◌then◌else◌,
  nat_eq, text_eq, all, any, leb,
}
use Prim.Native.String.{slice, find}
use node_monitor.Values.{ℤ}
use node_monitor.Common.Dict.{Dict, lookup, put, keys}

abbrev pub cpu_keys : List String
cpu_keys = "user" ∷ "nice" ∷ "system" ∷ "iowait" ∷ "irq" ∷ "softirq" ∷ "steal" ∷ "idle" ∷ []

-- A counters message: `md_ops` has the total of each target, `probe_cpu` the CPU time of the probe
-- and its children if both are there, and `ts` its time, if that can be read.
pub record Counters : Type 0 where
  pub cpu_jiffies : Dict String ℕ
  pub net : Dict String (ℕ × ℕ)
  pub md_ops : Dict String ℕ
  pub probe_cpu : Option ℕ
  pub rss_kb : Option ℕ
  pub ts : Option ℕ

-- `_Minute`; `net` has the received and sent bytes and the time they took, `md` the operations of a
-- file system and theirs.
pub record Minute : Type 0 where
  pub minute : ℕ
  pub last : Option Counters
  pub sample_count : ℕ
  pub offsets : List ℤ
  pub cpu : Dict String ℕ
  pub cpu_pairs : ℕ
  pub net : Dict String (ℕ × ℕ × ℕ)
  pub md : Dict String (ℕ × ℕ)
  pub probe_cpu : ℕ
  pub probe_pairs : ℕ
  pub probe_rss : Option ℕ

unfoldable pub has_key {ℓ} : {V : Type ℓ} → Dict String V → String → Bool
has_key d k = elim (lookup k d) [ none ↦ false | some v ↦ true ]

unfoldable pub value : Dict String ℕ → String → ℕ
value d k = elim (lookup k d) [ none ↦ 0 | some n ↦ n ]

-- The CPU family: all keys are there and none has gone back.
unfoldable pub is_cpu_pair : Counters → Counters → Bool
is_cpu_pair a b =
    all (λ k. has_key a.cpu_jiffies k && has_key b.cpu_jiffies k) cpu_keys
    && all (λ k. leb (value a.cpu_jiffies k) (value b.cpu_jiffies k)) cpu_keys

unfoldable pub add_cpu : Counters → Counters → List String → Dict String ℕ → Dict String ℕ
add_cpu a b [] cpu = cpu
add_cpu a b (k ∷ ks) cpu =
    add_cpu a b ks (put k (value cpu k + (value b.cpu_jiffies k - value a.cpu_jiffies k)) cpu)

unfoldable pub add_cpu_pair : Counters → Counters → Minute → Minute
add_cpu_pair a b m =
    if is_cpu_pair a b
    then record m { cpu = add_cpu a b cpu_keys m.cpu; cpu_pairs = m.cpu_pairs + 1 }
    else m

-- One interface, by its counts before.
unfoldable pub add_iface :
    ℕ → String → ℕ × ℕ → Option (ℕ × ℕ) → Option (ℕ × ℕ × ℕ) → Minute → Minute
add_iface elapsed iface new none sums m = m
add_iface elapsed iface (rx, tx) (some (rx', tx')) none m =
    if leb rx' rx && leb tx' tx
    then record m { net = put iface (rx - rx', tx - tx', elapsed) m.net }
    else m
add_iface elapsed iface (rx, tx) (some (rx', tx')) (some (sum_rx, sum_tx, time)) m =
    if leb rx' rx && leb tx' tx
    then record m {
      net = put iface (sum_rx + (rx - rx'), sum_tx + (tx - tx'), time + elapsed) m.net;
    }
    else m

unfoldable pub add_net : ℕ → Dict String (ℕ × ℕ) → Dict String (ℕ × ℕ) → Minute → Minute
add_net elapsed old [] m = m
add_net elapsed old ((iface, new) ∷ more) m =
    add_net elapsed old more (add_iface elapsed iface new (lookup iface old) (lookup iface m.net) m)

-- `target.split("-MDT")[0]`: all of the target if it has no such part.
unfoldable pub fs_of : String → String
fs_of target = slice target 0 (find target "-MDT")

unfoldable pub or_no_targets : Option (Dict String ℕ) → Dict String ℕ
or_no_targets none = []
or_no_targets (some targets) = targets

-- `_fs_totals`, from the file systems found so far.
unfoldable pub fs_totals : Dict String ℕ → Dict String (Dict String ℕ) → Dict String (Dict String ℕ)
fs_totals [] found = found
fs_totals ((target, total) ∷ more) found =
    let fs = fs_of target in
    fs_totals more (put fs (put target total (or_no_targets (lookup fs found))) found)

-- The sum of the deltas of the targets that both have, `none` if one has gone back.
unfoldable pub add_delta : ℕ → Option ℕ → Option ℕ → Option ℕ
add_delta new none deltas = deltas
add_delta new (some old) none = none
add_delta new (some old) (some sum) = if leb old new then some (sum + (new - old)) else none

unfoldable pub delta_sum : Dict String ℕ → Dict String ℕ → Option ℕ
delta_sum old [] = some 0
delta_sum old ((target, new) ∷ more) = add_delta new (lookup target old) (delta_sum old more)

unfoldable pub has_common : Dict String ℕ → Dict String ℕ → Bool
has_common old new = any (has_key old) (keys new)

unfoldable pub add_fs : ℕ → String → Option ℕ → Option (ℕ × ℕ) → Minute → Minute
add_fs elapsed fs none sums m = m
add_fs elapsed fs (some delta) none m = record m { md = put fs (delta, elapsed) m.md }
add_fs elapsed fs (some delta) (some (sum, time)) m = record m {
  md = put fs (sum + delta, time + elapsed) m.md;
}

unfoldable pub fs_delta : Option (Dict String ℕ) → Dict String ℕ → Option ℕ
fs_delta none new = none
fs_delta (some old) new = if has_common old new then delta_sum old new else none

-- The file systems of both messages.
unfoldable pub add_md :
    ℕ → Dict String (Dict String ℕ) → Dict String (Dict String ℕ) → Minute → Minute
add_md elapsed old [] m = m
add_md elapsed old ((fs, new) ∷ more) m =
    add_md elapsed old more (add_fs elapsed fs (fs_delta (lookup fs old) new) (lookup fs m.md) m)

-- The CPU time of the probe, if both messages have it and it has not gone back.
unfoldable pub add_probe_cpu : Option ℕ → Option ℕ → Minute → Minute
add_probe_cpu none new m = m
add_probe_cpu (some old) none m = m
add_probe_cpu (some old) (some new) m =
    if leb old new
    then record m { probe_cpu = m.probe_cpu + (new - old); probe_pairs = m.probe_pairs + 1 }
    else m

unfoldable pub add_pair : Counters → Counters → ℕ → Minute → Minute
add_pair a b elapsed m = add_probe_cpu a.probe_cpu b.probe_cpu (
    add_md elapsed (fs_totals a.md_ops []) (fs_totals b.md_ops [])
      (add_net elapsed a.net b.net (add_cpu_pair a b m)))
