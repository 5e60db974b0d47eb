-- ===== src/Probe/Lock/Signals.antt =====
-- probe/probe.py, `ProbeLock._acquire`: whom the probe signals, and when it has the lock.
use node_monitor.Common.{
  ℕ, ◌+◌, ◌<◌, ◌≡◌, ◌≢◌, refl, ap, ◌∙◌, String, Bool, true, false, ◌||◌, Option, none, some, List,
  [], ◌∷◌, All, All-append, any, ◌==◌, nat_eq, leb, arith, Bool-cases, inl, inr, ◌⊎◌,
}
use node_monitor.Probe.Lock.{
  Signal, Poll, Attempt, Ending, Sent, Holder, sigterm, sigkill, acquired, ended, held_by,
  find_holder, wait_for_lock, signal_if, signal_probe, after_signal, take_over, after_holder,
  acquire, lock_takeover_wait, lock_pid_wait,
}

-- Some poll of the list has taken the lock.
unfoldable pub takes : List Poll → Bool
takes polls = any (λ p. p.locked) polls

wait-takes :
    (deadline : ℕ) (ps : List Poll) → wait_for_lock deadline ps ≡ some true → takes ps ≡ true
unfolding wait_for_lock takes
wait-takes deadline [] h = ground arith
wait-takes deadline (p ∷ ps) h = ground (arith, wait-takes deadline ps)

module _ (self : ℕ) (has_marker : String → Bool) where
  -- A signal goes to a pid above 1 that is another process, whose command line, read for this
  -- signal, has the marker of a probe.
  unfoldable pub IsJustified : (Signal → Option String) → Sent → Type 0
  IsJustified read s =
      (1 < s.pid)
      × ((s.pid == self) ≡ false)
      × (read s.signal ≡ some s.cmdline)
      × (has_marker s.cmdline ≡ true)

  module _ (read : Signal → Option String) where
    signal-IsJustified :
        (pid : ℕ) (signal : Signal)
        → All (IsJustified read) (signal_probe self has_marker (read signal) pid signal).1
    unfolding signal_probe signal_if IsJustified
    signal-IsJustified pid signal = elim (Bool-cases (leb pid 1 || (pid == self))) [
      | inl bad ↦ rw bad tt
      | inr other ↦ rw other (by_cmdline other (read signal) refl)
    ]
      where
        by_cmdline :
            (leb pid 1 || (pid == self)) ≡ false
            → (line : Option String) → read signal ≡ line
            → All (IsJustified read) (signal_if self has_marker false line pid signal).1
        by_cmdline other none e = tt
        by_cmdline other (some line) e = elim (Bool-cases (has_marker line)) [
          | inl probe ↦ rw probe ((ground (arith, other), ground (arith, other), e, probe), tt)
          | inr stranger ↦ rw stranger tt
        ]

    after_signal-IsJustified :
        (first : Option Ending × List Sent) (waited : Option Bool) (next : Ending × List Sent)
        → All (IsJustified read) first.1
        → All (IsJustified read) next.1
        → All (IsJustified read) (after_signal self has_marker first waited next).1
    unfolding after_signal
    after_signal-IsJustified (some ending, sent) waited next h k = h
    after_signal-IsJustified (none, sent) none next h k = h
    after_signal-IsJustified (none, sent) (some true) next h k = h
    after_signal-IsJustified (none, sent) (some false) next h k =
        All-append (IsJustified read) sent next.1 h k

    -- The attempts have the command lines that are read for their signals.
    abbrev AreRead : List (Signal × Attempt) → Type 0
    AreRead = All (λ a. a.1.cmdline ≡ read a.0)

    take_over-IsJustified :
        (pid : ℕ) (attempts : List (Signal × Attempt))
        → AreRead attempts
        → All (IsJustified read) (take_over self has_marker pid attempts).1
    unfolding take_over
    take_over-IsJustified pid [] h = tt
    take_over-IsJustified pid ((signal, a) ∷ more) h = rw h.0 (
        after_signal-IsJustified (signal_probe self has_marker (read signal) pid signal)
          (wait_for_lock (a.started + lock_takeover_wait) a.polls)
          (take_over self has_marker pid more) (signal-IsJustified pid signal)
          (take_over-IsJustified pid more h.1))

  -- The command line that the pid has before each of the two signals.
  abbrev pub read_for : Attempt → Attempt → Signal → Option String
  read_for term kill sigterm = term.cmdline
  read_for term kill sigkill = kill.cmdline

  -- Whatever the surroundings do, every signal that is sent goes to another process above pid 1,
  -- and the command line that was read for this very signal has the marker of a probe.
  pub acquire-IsJustified :
      (started : ℕ) (polls : List Poll) (term kill : Attempt)
      → All (IsJustified (read_for term kill)) (acquire self has_marker started polls term kill).1
  unfolding acquire after_holder
  acquire-IsJustified started polls term kill = held (find_holder (started + lock_pid_wait) polls)
    where
      held :
          (holder : Holder)
          → All (IsJustified (read_for term kill)) (after_holder self has_marker holder term kill).1
      held (ended ending) = tt
      held (held_by pid) =
          take_over-IsJustified (read_for term kill) pid ((sigterm, term) ∷ (sigkill, kill) ∷ [])
            (refl, (refl, tt))

  find-takes :
      (deadline : ℕ) (ps : List Poll) → find_holder deadline ps ≡ ended acquired → takes ps ≡ true
  unfolding find_holder takes
  find-takes deadline [] h = absurd (ground (arith, h))
  find-takes deadline (p ∷ ps) h = elim (Bool-cases p.locked) [
    | inl locked ↦ rw locked refl
    | inr busy ↦ ground (arith, busy, h, find-takes deadline ps)
  ]

  never_acquires :
      (cmdline : Option String) (pid : ℕ) (signal : Signal)
      → (signal_probe self has_marker cmdline pid signal).0 ≢ some acquired
  unfolding signal_probe signal_if
  never_acquires none pid signal h = ground (arith, h)
  never_acquires (some line) pid signal h = ground (arith, h)

  after_signal-acquired :
      (first : Option Ending × List Sent) (waited : Option Bool) (next : Ending × List Sent)
      → first.0 ≢ some acquired
      → (after_signal self has_marker first waited next).0 ≡ acquired
      → (waited ≡ some true) ⊎ (next.0 ≡ acquired)
  unfolding after_signal
  after_signal-acquired (some ending, sent) waited next h k = absurd (h (ap (λ e. some e) k))
  after_signal-acquired (none, sent) none next h k = absurd (ground (arith, k))
  after_signal-acquired (none, sent) (some true) next h k = inl refl
  after_signal-acquired (none, sent) (some false) next h k = inr k

  take_over-takes :
      (pid : ℕ) (attempts : List (Signal × Attempt))
      → (take_over self has_marker pid attempts).0 ≡ acquired
      → any (λ a. takes a.1.polls) attempts ≡ true
  unfolding take_over
  take_over-takes pid [] h = absurd (ground (arith, h))
  take_over-takes pid ((signal, a) ∷ more) h =
      elim (after_signal-acquired (signal_probe self has_marker a.cmdline pid signal)
        (wait_for_lock (a.started + lock_takeover_wait) a.polls)
        (take_over self has_marker pid more) (never_acquires a.cmdline pid signal) h) [
          | inl here ↦ rw (wait-takes (a.started + lock_takeover_wait) a.polls here) refl
          | inr later ↦ ground (arith, take_over-takes pid more later)
        ]

  -- `_acquire` returns only with the lock taken, in the first loop or after a signal.
  pub acquire-takes :
      (started : ℕ) (polls : List Poll) (term kill : Attempt)
      → (acquire self has_marker started polls term kill).0 ≡ acquired
      → any takes (polls ∷ term.polls ∷ kill.polls ∷ []) ≡ true
  unfolding acquire after_holder
  acquire-takes started polls term kill h =
      held (find_holder (started + lock_pid_wait) polls) refl h
    where
      held :
          (holder : Holder)
          → find_holder (started + lock_pid_wait) polls ≡ holder
          → (after_holder self has_marker holder term kill).0 ≡ acquired
          → any takes (polls ∷ term.polls ∷ kill.polls ∷ []) ≡ true
      held (ended ending) e k =
          rw (find-takes (started + lock_pid_wait) polls (e ∙ ap (λ x. ended x) k)) refl
      held (held_by pid) e k =
          ground (arith, take_over-takes pid ((sigterm, term) ∷ (sigkill, kill) ∷ []) k)
