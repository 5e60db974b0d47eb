-- ===== src/Probe/Schedule.antt =====
-- probe/probe.py, `_next_due`: when a periodic collection is due again. Times are natural numbers of
-- some unit in place of floats.
use node_monitor.Common.{
  ℕ, ◌+◌, ◌-◌, ◌*◌, ◌/◌, ◌≤◌, ◌<◌, ◌≡◌, ◌⊎◌, inl, inr, refl, true, false, if◌then◌else◌, ltb, leb,
  leb→le, arith, Bool-cases,
}
use native.Mathlib.Nat.{lt-mul-div-succ, mul-div-le, mul-add}

-- `interval * (int((now - due) / interval) + 1) if interval > 0 else now - due`
unfoldable pub catch_up : ℕ → ℕ → ℕ → ℕ
catch_up due interval now =
    if ltb 0 interval then interval * ((now - due) / interval + 1) else now - due

unfoldable pub next_due : ℕ → ℕ → ℕ → ℕ
next_due due interval now =
    let next = due + interval in if leb next now then next + catch_up next interval now else next

-- The next time is later than now, a whole number of intervals after the last one, and it is the
-- first such time: one interval earlier is now or before, or is the last one.
pub record IsNext (due interval now next : ℕ) : Type 0 where
  pub slots : ℕ
  pub on_grid : next ≡ due + interval * slots
  pub ahead : now < next
  pub first : (next ≡ due + interval) ⊎ (next ≤ now + interval)

by_lateness :
    (due interval now : ℕ)
    → 0 < interval
    → (now < due + interval) ⊎ (due + interval ≤ now)
    → IsNext due interval now (next_due due interval now)
unfolding next_due catch_up
by_lateness due interval now h (inl soon) =
    let early : leb (due + interval) now ≡ false = ground (arith, soon) in
    rw early (record { slots = 1; on_grid = omega arith; ahead = soon; first = inl refl })
by_lateness due interval now h (inr late) =
    let missed : leb (due + interval) now ≡ true = ground (arith, late) in
    let positive : ltb 0 interval ≡ true = ground (arith, h) in
    let n = (now - (due + interval)) / interval in
    rw (missed, positive)
      (record {
        slots = n + 2;
        on_grid = omega (arith, mul-add interval n 2, mul-add interval n 1);
        ahead =
            omega (arith, late, lt-mul-div-succ (now - (due + interval)) h, mul-add interval n 1);
        first = inr (
            omega
              (arith, late, mul-div-le (now - (due + interval)) interval, mul-add interval n 1));
      })

-- With an interval above 0 the next time is later than now, on the grid of intervals, and no slot
-- that is still ahead is skipped, however many have been missed.
pub next_due-IsNext :
    (due interval now : ℕ) → 0 < interval → IsNext due interval now (next_due due interval now)
next_due-IsNext due interval now h = elim (Bool-cases (leb (due + interval) now)) [
  | inl late ↦ by_lateness due interval now h (inr (leb→le (due + interval) now late))
  | inr soon ↦ by_lateness due interval now h (inl (ground arith))
]
