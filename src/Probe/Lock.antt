-- ===== src/Probe/Lock.antt =====
-- probe/probe.py, `ProbeLock._acquire`: taking the lock over from an earlier probe. What the
-- surroundings do is given: the polls of each waiting loop, and for each signal the command line
-- that the pid has then. `has_marker` stands for `MARKER in cmdline`.
pub mod Signals
use node_monitor.Common.{
  ℕ, ◌+◌, ◌≤◌, String, Bool, true, false, ◌||◌, Option, none, some, List, [], ◌∷◌, ◌++◌,
  if◌then◌else◌, ◌==◌, Eq, nat_eq, leb,
}

pub data Signal : Type 0 where
  sigterm sigkill : Signal

-- One turn of a waiting loop: whether `_try_lock` has taken the lock, the pid in the file, and the
-- clock.
pub record Poll : Type 0 where
  pub locked : Bool
  pub pid : Option ℕ
  pub now : ℕ

-- What a signal meets: the command line of the pid, and the wait that follows.
pub record Attempt : Type 0 where
  pub cmdline : Option String
  pub started : ℕ
  pub polls : List Poll

-- How `_acquire` ends: it returns, or raises LockHeldByOther, or is still waiting when the polls are
-- used up.
pub data Ending : Type 0 where
  acquired : Ending
  no_pid : Ending
  refused : ℕ → Ending
  not_a_probe : ℕ → Ending
  not_released : ℕ → Ending
  waiting : Ending

-- A signal that was sent, and the command line read before.
pub record Sent : Type 0 where
  pub pid : ℕ
  pub signal : Signal
  pub cmdline : String

abbrev pub lock_pid_wait : ℕ
lock_pid_wait = 1000

abbrev pub lock_takeover_wait : ℕ
lock_takeover_wait = 5000

-- What the first loop of `_acquire` ends in: a holder's pid, or the end of it all.
pub data Holder : Type 0 where
  ended : Ending → Holder
  held_by : ℕ → Holder

-- The first loop, in milliseconds.
unfoldable pub find_holder : ℕ → List Poll → Holder
find_holder deadline [] = ended waiting
find_holder deadline (p ∷ ps) =
    let rest = find_holder deadline ps in
    if p.locked then ended acquired else elim p.pid [
      | some pid ↦ held_by pid
      | none ↦ if leb deadline p.now then ended no_pid else rest
    ]

-- `_wait_for_lock`, `none` when it is still waiting.
unfoldable pub wait_for_lock : ℕ → List Poll → Option Bool
wait_for_lock deadline [] = none
wait_for_lock deadline (p ∷ ps) =
    let rest = wait_for_lock deadline ps in
    if p.locked then some true else (if leb deadline p.now then some false else rest)

module _ (self : ℕ) (has_marker : String → Bool) where
  -- `_signal_probe` raises (the ending), or returns with the signal sent or not.
  unfoldable pub signal_if : Bool → Option String → ℕ → Signal → Option Ending × List Sent
  signal_if true cmdline pid signal = (some (refused pid), [])
  signal_if false none pid signal = (none, [])
  signal_if false (some cmdline) pid signal =
      if has_marker cmdline
      then (none, record { pid = pid; signal = signal; cmdline = cmdline } ∷ [])
      else (some (not_a_probe pid), [])

  unfoldable pub signal_probe : Option String → ℕ → Signal → Option Ending × List Sent
  signal_probe cmdline pid signal = signal_if (leb pid 1 || (pid == self)) cmdline pid signal

  -- After a signal, by whether `_signal_probe` raised and what the wait came to.
  unfoldable pub after_signal :
      Option Ending × List Sent → Option Bool → Ending × List Sent → Ending × List Sent
  after_signal (some ending, sent) waited next = (ending, sent)
  after_signal (none, sent) none next = (waiting, sent)
  after_signal (none, sent) (some true) next = (acquired, sent)
  after_signal (none, sent) (some false) next = (next.0, sent ++ next.1)

  -- The loop over the signals.
  unfoldable pub take_over : ℕ → List (Signal × Attempt) → Ending × List Sent
  take_over pid [] = (not_released pid, [])
  take_over pid ((signal, a) ∷ more) =
      after_signal (signal_probe a.cmdline pid signal)
        (wait_for_lock (a.started + lock_takeover_wait) a.polls) (take_over pid more)

  unfoldable pub after_holder : Holder → Attempt → Attempt → Ending × List Sent
  after_holder (ended ending) term kill = (ending, [])
  after_holder (held_by pid) term kill = take_over pid ((sigterm, term) ∷ (sigkill, kill) ∷ [])

  unfoldable pub acquire : ℕ → List Poll → Attempt → Attempt → Ending × List Sent
  acquire started polls term kill =
      after_holder (find_holder (started + lock_pid_wait) polls) term kill
