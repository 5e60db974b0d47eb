-- ===== src/Probe/Tracker/Scans.antt =====
-- What the tracker remembers from one scan to the next.
use mathlib.Core.Option
use node_monitor.Common.{
  ℕ, ◌≡◌, refl, ap, Bool, true, false, ◌&&◌, Option, none, some, List, [], ◌∷◌, ◌==◌, nat_eq, arith,
  Bool-cases, inl, inr, map, if◌then◌else◌,
}
use node_monitor.Probe.Tracker.{
  Row, Usage, Known, Tracker, find_known, ticks_of, is_active, new_process, seen_again,
  update_known, update_row, update_rows, update,
}

-- The ticks of a process in a list of rows.
unfoldable pub ticks_in : ℕ → ℕ → List Row → Option ℕ
ticks_in pid start [] = none
ticks_in pid start (r ∷ rs) =
    if (r.pid == pid) && (r.start_time == start) then some (ticks_of r) else ticks_in pid start rs

find-same :
    (pid start : ℕ) (ks : List Known) (k : Known)
    → find_known pid start ks ≡ some k
    → (k.pid ≡ pid) × (k.start_time ≡ start)
unfolding find_known
find-same pid start [] k h = absurd (ground (arith, h))
find-same pid start (j ∷ ks) k h = elim (Bool-cases ((j.pid == pid) && (j.start_time == start))) [
  | inl same ↦ ground (arith, same, h)
  | inr other ↦ find-same pid start ks k (ground (arith, other, h))
]

-- What is remembered of a process is what its row says.
record Remembers (r : Row) (k : Known) : Type 0 where
  pid : k.pid ≡ r.pid
  start_time : k.start_time ≡ r.start_time
  ticks : k.ticks ≡ ticks_of r

module _ (tracker : Tracker) (now interval : ℕ) where
  seen-Remembers :
      (was_active : Bool) (r : Row) (k : Known)
      → (k.pid ≡ r.pid) × (k.start_time ≡ r.start_time)
      → Remembers r (seen_again tracker now interval was_active r k).1
  unfolding seen_again
  seen-Remembers true r k h = record { pid = h.0; start_time = h.1; ticks = refl }
  seen-Remembers false r k h = record { pid = h.0; start_time = h.1; ticks = refl }

  known-Remembers :
      (r : Row) (o : Option Known)
      → find_known r.pid r.start_time tracker.state ≡ o
      → Remembers r (update_known tracker now interval r o).1
  unfolding update_known new_process
  known-Remembers r none e = record { pid = refl; start_time = refl; ticks = refl }
  known-Remembers r (some k) e =
      seen-Remembers (is_active tracker interval k.ticks (ticks_of r)) r k
        (find-same r.pid r.start_time tracker.state k e)

  update-Remembers : (r : Row) → Remembers r (update_row tracker now interval r).1
  unfolding update_row
  update-Remembers r = known-Remembers r (find_known r.pid r.start_time tracker.state) refl

  state_ticks :
      (pid start : ℕ) (rows : List Row)
      → Option.map Known.ticks (find_known pid start (update tracker now interval rows).1.state)
        ≡ ticks_in pid start rows
  unfolding update update_rows find_known ticks_in
  state_ticks pid start [] = refl
  state_ticks pid start (r ∷ rs) =
      let h = update-Remembers r in
      elim (Bool-cases ((r.pid == pid) && (r.start_time == start))) [
        | inl same ↦ rw (h.pid, h.start_time, same) (ap (λ n. some n) h.ticks)
        | inr other ↦ rw (h.pid, h.start_time, other) (state_ticks pid start rs)
      ]

-- The counts before and after that a row should get, from the previous scan.
unfoldable pub ticks_between : List Row → Row → Option (ℕ × ℕ)
ticks_between earlier r =
    Option.map (λ before. (before, ticks_of r)) (ticks_in r.pid r.start_time earlier)

module _ (tracker : Tracker) (now interval : ℕ) where
  seen-ticks :
      (was_active : Bool) (r : Row) (k : Known)
      → (seen_again tracker now interval was_active r k).0.cpu_ticks ≡ some (k.ticks, ticks_of r)
  unfolding seen_again
  seen-ticks true r k = refl
  seen-ticks false r k = refl

  known-ticks :
      (r : Row) (o : Option Known)
      → (update_known tracker now interval r o).0.cpu_ticks
        ≡ Option.map (λ before. (before, ticks_of r)) (Option.map Known.ticks o)
  unfolding update_known new_process
  known-ticks r none = refl
  known-ticks r (some k) = seen-ticks (is_active tracker interval k.ticks (ticks_of r)) r k

  rows-ticks :
      (earlier rows : List Row)
      → ((pid start : ℕ)
          → Option.map Known.ticks (find_known pid start tracker.state)
            ≡ ticks_in pid start earlier)
      → map Usage.cpu_ticks (update tracker now interval rows).0 ≡ map (ticks_between earlier) rows
  unfolding update update_rows update_row ticks_between
  rows-ticks earlier [] h = refl
  rows-ticks earlier (r ∷ rs) h =
      rw
        (
          known-ticks r (find_known r.pid r.start_time tracker.state),
          h r.pid r.start_time,
          rows-ticks earlier rs h,
        )
        refl

-- The CPU use of a process in a scan is measured from the ticks of the same pid and start time in
-- the scan before, and is None where that scan did not have it: never across two programs.
pub update-ticks_between :
    (tracker : Tracker) (now now' interval interval' : ℕ) (earlier rows : List Row)
    → map Usage.cpu_ticks (update (update tracker now interval earlier).1 now' interval' rows).0
      ≡ map (ticks_between earlier) rows
update-ticks_between tracker now now' interval interval' earlier rows =
    rows-ticks (update tracker now interval earlier).1 now' interval' earlier rows
      (λ pid start. state_ticks tracker now interval pid start earlier)
