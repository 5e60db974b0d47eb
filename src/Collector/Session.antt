-- ===== src/Collector/Session.antt =====
-- collector/session.py, `NodeSession`: the reconnect loop. Times are microseconds of the monotonic
-- clock. What the sessions do is given to `run` as a list.
pub mod Backoff
use node_monitor.Common.{
  ℕ, zero, suc, ◌+◌, ◌-◌, ◌*◌, ◌^◌, min, String, Bool, true, false, ◌&&◌, ◌||◌, not, Option, none,
  some, List, [], ◌∷◌, ◌++◌, if◌then◌else◌, ◌==◌, Eq, text_eq, nat_eq, length, ltb, leb,
}
use node_monitor.Collector.Link.{End, at_eof, at_deadline, in_silence}

pub record Config : Type 0 where
  pub silence_timeout : ℕ
  pub max_lifetime : ℕ
  pub backoff_low : ℕ
  pub backoff_high : ℕ
  pub healthy_after : ℕ

abbrev pub max_backoff_doublings : ℕ
max_backoff_doublings = 30

-- How a session ends.
pub data Outcome : Type 0 where
  spawn_failed exit eof silence rotate stop : Outcome

unfoldable pub is_rotate : Outcome → Bool
is_rotate rotate = true
is_rotate spawn_failed = false
is_rotate exit = false
is_rotate eof = false
is_rotate silence = false
is_rotate stop = false

-- One turn of the loop in `run`, as its surroundings have it: what `_session` returns, the reason
-- that a `bye` of the probe gave, whether `stop` was called by the end of the session and by the
-- end of the wait, and the number k of `random.random()`, which is k / 2 ** 53.
pub record Session : Type 0 where
  pub outcome : Outcome
  pub uptime : ℕ
  pub bye_reason : Option String
  pub stopped : Bool
  pub stopped_waiting : Bool
  pub random : ℕ

-- What `run` does: the sessions, each with its attempt, and the waits, `reconnect_wait` with the
-- delay and the number of failures. A delay is in 2 ** -54 microseconds, the exact value of the
-- source's expression, which rounds it to a float.
pub data Action : Type 0 where
  session : ℕ → Session → Action
  reconnect_wait : ℕ → ℕ → Action

unfoldable pub is_some {ℓ} : {A : Type ℓ} → Option A → Bool
is_some none = false
is_some (some a) = true

module _ (config : Config) where
  unfoldable pub is_healthy : Session → Bool
  is_healthy s = leb config.healthy_after s.uptime

  unfoldable pub reconnects_at_once : Session → Bool
  reconnects_at_once s = is_rotate s.outcome && (not (is_some s.bye_reason) || is_healthy s)

  -- `min(self._backoff[1], self._backoff[0] * 2 ** min(failures - 1, MAX_BACKOFF_DOUBLINGS))`
  unfoldable pub ceiling : ℕ → ℕ
  ceiling failures =
      min config.backoff_high (config.backoff_low * 2 ^ min (failures - 1) max_backoff_doublings)

  -- `ceiling * (0.5 + random / 2)`
  unfoldable pub delay : ℕ → ℕ → ℕ
  delay failures random = ceiling failures * (2 ^ 53 + random)

  unfoldable pub failures_before : Session → ℕ → ℕ
  failures_before s failures = if is_healthy s then 0 else failures

  -- The rest of a turn after `_session`, by whether the session was stopped and whether it
  -- reconnects at once; `rest` is the loop, by whether `stop` was called.
  unfoldable pub after_session : Bool → Bool → Session → ℕ → (Bool → ℕ → List Action) → List Action
  after_session true at_once s failures rest = []
  after_session false true s failures rest = rest false failures
  after_session false false s failures rest =
      reconnect_wait (delay (failures + 1) s.random) (failures + 1)
      ∷ rest s.stopped_waiting (failures + 1)

  -- The loop of `run`, by whether `stop` was called.
  unfoldable pub run_loop : Bool → ℕ → ℕ → List Session → List Action
  run_loop stopped attempt failures [] = []
  run_loop true attempt failures (s ∷ more) = []
  run_loop false attempt failures (s ∷ more) =
      session (attempt + 1) s
      ∷ after_session s.stopped (reconnects_at_once s) s (failures_before s failures)
          (λ stopped n. run_loop stopped (attempt + 1) n more)

  unfoldable pub run : List Session → List Action
  run sessions = run_loop false 0 0 sessions

-- `_stream`, from what `_pump` returned, or none if the session was stopped first.
unfoldable pub stream_outcome : Option String → Option End → Outcome
stream_outcome bye none = stop
stream_outcome (some bye) (some end) = rotate
stream_outcome none (some at_deadline) = rotate
stream_outcome none (some at_eof) = eof
stream_outcome none (some in_silence) = silence

-- The end of `_session`: after the end of the stream a process that exits in time makes it an exit.
unfoldable pub settle_outcome : Bool → Outcome → Outcome
settle_outcome exited eof = if exited then exit else eof
settle_outcome exited rotate = rotate
settle_outcome exited stop = stop
settle_outcome exited silence = silence
settle_outcome exited exit = exit
settle_outcome exited spawn_failed = spawn_failed
