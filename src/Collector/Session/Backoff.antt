-- ===== src/Collector/Session/Backoff.antt =====
-- collector/session.py, `NodeSession.run`: when one session may follow another, and how long the
-- waits between them are.
use node_monitor.Common.{
  ℕ, ◌+◌, ◌*◌, ◌^◌, ◌≤◌, ◌<◌, ◌≡◌, refl, ap, Bool, true, false, List, [], ◌∷◌, All, arith, min, leb,
  if◌then◌else◌, none, some, Option, not, ◌||◌, ◌⊎◌, inl, inr, leb→le,
}
use Prim.Native.String.{String}
use native.Mathlib.Nat.{mul-add, mul-le-mul_left}
use node_monitor.Collector.Session.{
  Config, Session, Action, session, reconnect_wait, run, run_loop, after_session, rotate,
  spawn_failed, exit, eof, silence, stop, Outcome, is_rotate, is_some, is_healthy,
  reconnects_at_once, failures_before, ceiling, delay,
}

module _ (config : Config) where
  -- A session that another may follow at once: a rotation that the probe did not ask for, or that
  -- ran for the healthy time.
  unfoldable pub Renews : Session → Type 0
  Renews s = (s.outcome ≡ rotate) × ((s.bye_reason ≡ none) ⊎ (config.healthy_after ≤ s.uptime))

  -- The longest wait after n failures in a row before: the lower backoff, doubled n times but no
  -- more than 30 times, and no more than the upper one.
  unfoldable pub longest : ℕ → ℕ
  longest n = min config.backoff_high (config.backoff_low * 2 ^ min n 30)

  -- The failures in a row after a session, those of before if it was short.
  unfoldable pub row_after : Session → ℕ → ℕ
  row_after s n = if leb config.healthy_after s.uptime then 0 else n

  -- What may follow, by the condition of another session and the failures in a row: nothing, a
  -- session, or a wait between half of the longest and all of it, which is one more failure; after
  -- a wait there is a session again.
  unfoldable pub IsSpaced : Type 0 → ℕ → List Action → Type 0
  IsSpaced MayStart n [] = Unit
  IsSpaced MayStart n (session attempt s ∷ more) =
      MayStart × IsSpaced (Renews s) (row_after s n) more
  IsSpaced MayStart n (reconnect_wait d failures ∷ more) =
      (failures ≡ n + 1)
      × (longest n * 2 ^ 53 ≤ d)
      × (d ≤ longest n * 2 ^ 54)
      × IsSpaced Unit (n + 1) more

  -- `random.random()` is below 1.
  unfoldable pub IsRandom : Session → Type 0
  IsRandom s = s.random < 2 ^ 53

  at_once-Renews : (s : Session) → reconnects_at_once config s ≡ true → Renews s
  unfolding reconnects_at_once Renews is_rotate is_some is_healthy
  at_once-Renews s h = by_outcome s.outcome refl
    where
      told :
          (reason : Option String)
          → s.bye_reason ≡ reason
          → (not (is_some reason) || leb config.healthy_after s.uptime) ≡ true
          → (s.bye_reason ≡ none) ⊎ (config.healthy_after ≤ s.uptime)
      told none e k = inl e
      told (some reason) e k = inr (leb→le config.healthy_after s.uptime (ground (arith, k)))

      by_outcome : (o : Outcome) → s.outcome ≡ o → Renews s
      by_outcome rotate e = (e, told s.bye_reason refl (ground (arith, h, e)))
      by_outcome spawn_failed e = absurd (ground (arith, h, e))
      by_outcome exit e = absurd (ground (arith, h, e))
      by_outcome eof e = absurd (ground (arith, h, e))
      by_outcome silence e = absurd (ground (arith, h, e))
      by_outcome stop e = absurd (ground (arith, h, e))

  ceiling_lem : (n : ℕ) → ceiling config (n + 1) ≡ longest n
  unfolding ceiling longest
  ceiling_lem n =
      ap (λ k. min config.backoff_high (config.backoff_low * 2 ^ min k 30)) (omega arith)

  delay-low : (n random : ℕ) → longest n * 2 ^ 53 ≤ delay config (n + 1) random
  unfolding delay
  delay-low n random = rw ceiling_lem (omega (arith, mul-add (longest n) (2 ^ 53) random))

  delay-high : (n random : ℕ) → random < 2 ^ 53 → delay config (n + 1) random ≤ longest n * 2 ^ 54
  unfolding delay
  delay-high n random h =
      let c = longest n in
      let below : random ≤ 2 ^ 53 = omega (arith, h) in
      rw ceiling_lem (
        omega
          (arith, mul-add c (2 ^ 53) random, mul-le-mul_left c below, mul-add c (2 ^ 53) (2 ^ 53)))

  after_session-IsSpaced :
      (stopped at_once : Bool) (s : Session) (n : ℕ) (rest : Bool → ℕ → List Action)
      → IsRandom s
      → (at_once ≡ true → Renews s)
      → ((MayStart : Type 0) (stopped : Bool) (n : ℕ)
          → MayStart
          → IsSpaced MayStart n (rest stopped n))
      → IsSpaced (Renews s) n (after_session config stopped at_once s n rest)
  unfolding after_session IsSpaced IsRandom
  after_session-IsSpaced true at_once s n rest r may h = tt
  after_session-IsSpaced false true s n rest r may h = h (Renews s) false n (may refl)
  after_session-IsSpaced false false s n rest r may h =
      (refl, delay-low n s.random, delay-high n s.random r, h Unit s.stopped_waiting (n + 1) tt)

  run_loop-IsSpaced :
      (MayStart : Type 0) (stopped : Bool) (attempt n : ℕ) (sessions : List Session)
      → All IsRandom sessions
      → MayStart
      → IsSpaced MayStart n (run_loop config stopped attempt n sessions)
  unfolding run_loop IsSpaced failures_before is_healthy row_after
  run_loop-IsSpaced MayStart stopped attempt n [] h may = tt
  run_loop-IsSpaced MayStart true attempt n (s ∷ more) h may = tt
  run_loop-IsSpaced MayStart false attempt n (s ∷ more) h may = (
    may,
    after_session-IsSpaced s.stopped (reconnects_at_once config s) s (failures_before config s n)
        (λ stopped n. run_loop config stopped (attempt + 1) n more) h.0 (at_once-Renews s)
        (λ MayStart stopped n may. run_loop-IsSpaced MayStart stopped (attempt + 1) n more h.1 may),
  )

  -- Two sessions follow one another without a wait only where the first was a rotation, and one
  -- that the probe did not ask for or that ran for the healthy time. Each wait counts one failure
  -- more than there were since a session last ran for the healthy time, and is between half of the
  -- longest wait and all of it: the lower backoff, doubled with each failure before, thirty times
  -- at most, and no more than the upper backoff.
  pub run-IsSpaced :
      (sessions : List Session) → All IsRandom sessions → IsSpaced Unit 0 (run config sessions)
  unfolding run
  run-IsSpaced sessions h = run_loop-IsSpaced Unit false 0 0 sessions h tt
