-- ===== src/Pipeline/Minutes/Samples.antt =====
-- pipeline/node_metrics.py: in which rows the counters messages are counted.
use node_monitor.Common.{
  ℕ, ◌+◌, ◌-◌, ◌++◌, ◌∙◌, String, ◌≡◌, refl, ◌&&◌, Option, none, some, List, [], ◌∷◌, sum_by,
  sum_by-append, length, arith, Bool-cases, inl, inr, ltb, leb, ◌==◌, nat_eq, text_eq,
}
use node_monitor.Common.Dict.{Dict, lookup}
use node_monitor.Pipeline.Minutes.{
  Counters, Minute, Previous, Aggregator, Row, floor_minute, new_minute, is_cpu_pair, add_cpu_pair,
  add_iface, add_net, fs_totals, fs_delta, add_fs, add_md, add_probe_cpu, add_pair, add_after,
  count_sample, close_minute, close_open, close_before, open_or_new, add_to_open, add_counters,
}

unfoldable pub samples : List Row → ℕ
samples rows = sum_by (λ r. r.of.sample_count) rows

unfoldable pub open_samples : Option Minute → ℕ
open_samples none = 0
open_samples (some m) = m.sample_count

cpu_lem : (a b : Counters) (m : Minute) → (add_cpu_pair a b m).sample_count ≡ m.sample_count
unfolding add_cpu_pair
cpu_lem a b m = elim (Bool-cases (is_cpu_pair a b)) [
  | inl pair ↦ rw pair refl
  | inr unpaired ↦ rw unpaired refl
]

iface_lem :
    (elapsed : ℕ) (iface : String) (new : ℕ × ℕ) (old : Option (ℕ × ℕ)) (sums : Option (ℕ × ℕ × ℕ))
    (m : Minute)
    → (add_iface elapsed iface new old sums m).sample_count ≡ m.sample_count
unfolding add_iface
iface_lem elapsed iface new none sums m = refl
iface_lem elapsed iface (rx, tx) (some (rx', tx')) none m =
    elim (Bool-cases (leb rx' rx && leb tx' tx)) [ inl up ↦ rw up refl | inr reset ↦ rw reset refl ]
iface_lem elapsed iface (rx, tx) (some (rx', tx')) (some (x, y, z)) m =
    elim (Bool-cases (leb rx' rx && leb tx' tx)) [ inl up ↦ rw up refl | inr reset ↦ rw reset refl ]

net_lem :
    (elapsed : ℕ) (old new : Dict String (ℕ × ℕ)) (m : Minute)
    → (add_net elapsed old new m).sample_count ≡ m.sample_count
unfolding add_net
net_lem elapsed old [] m = refl
net_lem elapsed old ((iface, counts) ∷ more) m =
    let sums = lookup iface m.net in
    let before = lookup iface old in
    net_lem elapsed old more (add_iface elapsed iface counts before sums m)
    ∙ iface_lem elapsed iface counts before sums m

fs_lem :
    (elapsed : ℕ) (fs : String) (delta : Option ℕ) (sums : Option (ℕ × ℕ)) (m : Minute)
    → (add_fs elapsed fs delta sums m).sample_count ≡ m.sample_count
unfolding add_fs
fs_lem elapsed fs none sums m = refl
fs_lem elapsed fs (some delta) none m = refl
fs_lem elapsed fs (some delta) (some (sum, time)) m = refl

md_lem :
    (elapsed : ℕ) (old new : Dict String (Dict String ℕ)) (m : Minute)
    → (add_md elapsed old new m).sample_count ≡ m.sample_count
unfolding add_md
md_lem elapsed old [] m = refl
md_lem elapsed old ((fs, targets) ∷ more) m =
    let delta = fs_delta (lookup fs old) targets in
    let sums = lookup fs m.md in
    md_lem elapsed old more (add_fs elapsed fs delta sums m) ∙ fs_lem elapsed fs delta sums m

probe_lem :
    (old new : Option ℕ) (m : Minute) → (add_probe_cpu old new m).sample_count ≡ m.sample_count
unfolding add_probe_cpu
probe_lem none new m = refl
probe_lem (some old) none m = refl
probe_lem (some old) (some new) m = elim (Bool-cases (leb old new)) [
  | inl grown ↦ rw grown refl
  | inr reset ↦ rw reset refl
]

pair_lem :
    (a b : Counters) (elapsed : ℕ) (m : Minute)
    → (add_pair a b elapsed m).sample_count ≡ m.sample_count
unfolding add_pair
pair_lem a b elapsed m =
    let paired = add_cpu_pair a b m in
    let netted = add_net elapsed a.net b.net paired in
    let old = fs_totals a.md_ops [] in
    let new = fs_totals b.md_ops [] in
    probe_lem a.probe_cpu b.probe_cpu (add_md elapsed old new netted)
    ∙ md_lem elapsed old new netted
    ∙ net_lem elapsed a.net b.net paired
    ∙ cpu_lem a b m

after_lem :
    (p : Option Previous) (msg : Counters) (recv session_id : ℕ) (m : Minute)
    → (add_after p msg recv session_id m).sample_count ≡ m.sample_count
unfolding add_after
after_lem none msg recv session_id m = refl
after_lem (some p) msg recv session_id m =
    elim (Bool-cases ((p.session_id == session_id) && ltb p.recv recv)) [
      | inr apart ↦ rw apart refl
      | inl pair ↦ rw pair (pair_lem p.message msg (recv - p.recv) m)
    ]

counted_lem :
    (msg : Counters) (recv minute : ℕ) (o : Option Minute)
    → (count_sample msg recv (open_or_new minute o)).sample_count ≡ open_samples o + 1
unfolding open_samples count_sample open_or_new new_minute
counted_lem msg recv minute none = refl
counted_lem msg recv minute (some m) = refl

opened_lem :
    (msg : Counters) (recv session_id : ℕ) (a : Aggregator)
    → open_samples (add_to_open msg recv session_id a).open_minute ≡ open_samples a.open_minute + 1
unfolding add_to_open open_samples
opened_lem msg recv session_id a =
    after_lem a.prev msg recv session_id
      (count_sample msg recv (open_or_new (floor_minute recv) a.open_minute))
    ∙ counted_lem msg recv (floor_minute recv) a.open_minute

closed_lem :
    (minute : ℕ) (o : Option Minute) (a : Aggregator)
    → a.open_minute ≡ o
    → samples (close_before minute o a).0 + open_samples (close_before minute o a).1.open_minute
      ≡ open_samples o
unfolding close_before close_open close_minute samples open_samples
closed_lem minute none a e = rw e refl
closed_lem minute (some m) a e = elim (Bool-cases (ltb m.minute minute)) [
  | inl later ↦ rw later (omega arith)
  | inr same ↦ rw (same, e) (omega arith)
]

-- Messages in a row, each with its time and its session.
unfoldable pub add_all : List (Counters × ℕ × ℕ) → Aggregator → List Row × Aggregator
add_all [] a = ([], a)
add_all ((msg, recv, session_id) ∷ more) a =
    let (rows, next) = add_counters msg recv session_id a in
    let (later, last) = add_all more next in (rows ++ later, last)

-- Whatever the clock does, each counters message is counted in one row, once: those of the rows
-- emitted and of the open minute are those that were open before and the messages added.
pub add_all-samples :
    (messages : List (Counters × ℕ × ℕ)) (a : Aggregator)
    → samples (add_all messages a).0 + open_samples (add_all messages a).1.open_minute
      ≡ open_samples a.open_minute + length messages
unfolding add_all add_counters samples
add_all-samples [] a = omega arith
add_all-samples ((msg, recv, session_id) ∷ more) a =
    let closed = close_before (floor_minute recv) a.open_minute a in
    let next = add_to_open msg recv session_id closed.1 in
    omega (
      arith,
      add_all-samples more next,
      opened_lem msg recv session_id closed.1,
      closed_lem (floor_minute recv) a.open_minute a refl,
      sum_by-append (λ r. r.of.sample_count) closed.0 (add_all more next).0,
    )
