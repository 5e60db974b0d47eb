-- ===== src/Probe/Gpu.antt =====
-- probe/probe.py, `_Census._query_gpus` and `_suspend_gpu`: when GPUs are queried, and when queries
-- pause. Times are natural numbers of some unit. What a census meets is given: the clock, whether
-- there is an nvidia-smi, and the error of the query, `none` if it succeeds.
pub mod Streak
use node_monitor.Common.{
  ℕ, zero, suc, ◌+◌, ◌≤◌, String, ◌≡◌, refl, sym, ap, Bool, true, false, Option, none, some, List,
  [], ◌∷◌, ◌++◌, if◌then◌else◌, ◌==◌, Eq, text_eq, ltb, leb, arith, Bool-cases, inl, inr,
}

abbrev pub gpu_timeout_error : String
gpu_timeout_error = "nvidia-smi timeout"

abbrev pub identical_failures_to_suspend : ℕ
identical_failures_to_suspend = 3

pub record Census : Type 0 where
  pub checked_at : ℕ
  pub installed : Bool
  pub error : Option String
  pub suspended_at : ℕ

-- The messages of `emitter.error("gpu", ...)`; the suspending ones name the error and, but for a
-- timeout, the number of identical failures.
pub data Complaint : Type 0 where
  failed : String → Complaint
  suspended : String → Option ℕ → Complaint

pub data Status : Type 0 where
  ok absent error suspended_now : Status

pub record Gpu : Type 0 where
  pub resume_at : Option ℕ
  pub failure : Option String
  pub streak : ℕ
  pub complaints : List Complaint

unfoldable pub complain : Complaint → Gpu → Gpu
complain c g = record g { complaints = g.complaints ++ c ∷ [] }

module _ (pause : ℕ) where
  unfoldable pub suspend_gpu : String → Option ℕ → ℕ → Gpu → Gpu
  suspend_gpu reason count now g =
      complain (suspended reason count) (record g { resume_at = some (now + pause) })

  -- `error == self._gpu_failure`
  unfoldable pub is_same_failure : String → Option String → Bool
  is_same_failure e none = false
  is_same_failure e (some f) = e == f

  unfoldable pub count_failure : String → Gpu → Gpu
  count_failure e g =
      if is_same_failure e g.failure
      then record g { streak = g.streak + 1 }
      else record g { failure = some e; streak = 1 }

  unfoldable pub report_failure : String → ℕ → Gpu → Gpu
  report_failure e now g =
      if leb identical_failures_to_suspend g.streak
      then suspend_gpu e (some g.streak) now g
      else complain (failed e) g

  unfoldable pub forget : Gpu → Gpu
  forget g = record g { failure = none; streak = 0 }

  -- What a query's error does, none if there is none.
  unfoldable pub after_query : Option String → ℕ → Gpu → Status × Gpu
  after_query none now g = (ok, forget g)
  after_query (some e) now g =
      if e == gpu_timeout_error
      then (error, suspend_gpu e none now (forget g))
      else (error, report_failure e now (count_failure e g))

  unfoldable pub is_suspended : ℕ → Option ℕ → Bool
  is_suspended now none = false
  is_suspended now (some t) = ltb now t

  -- `_query_gpus`, by whether GPU queries are enabled, paused, and nvidia-smi installed.
  unfoldable pub query_if : Bool → Bool → Bool → Census → Gpu → Status × Gpu
  query_if false paused installed c g = (absent, g)
  query_if true true installed c g = (suspended_now, g)
  query_if true false false c g = (absent, record g { resume_at = none })
  query_if true false true c g = after_query c.error c.suspended_at (record g { resume_at = none })

  unfoldable pub query_gpus : Bool → Census → Gpu → Status × Gpu
  query_gpus enabled c g = query_if enabled (is_suspended c.checked_at g.resume_at) c.installed c g

  -- The results of the queries that are made, the newest first, put before the earlier ones.
  unfoldable pub result_if :
      Bool → Bool → Bool → Census → List (Option String) → List (Option String)
  result_if false paused installed c results = results
  result_if true true installed c results = results
  result_if true false false c results = results
  result_if true false true c results = c.error ∷ results

  -- Censuses in a row.
  unfoldable pub query_all :
      Bool → List Census → Gpu × List (Option String) → Gpu × List (Option String)
  query_all enabled [] (g, results) = (g, results)
  query_all enabled (c ∷ cs) (g, results) = query_all enabled cs (
    (query_gpus enabled c g).1,
    result_if enabled (is_suspended c.checked_at g.resume_at) c.installed c results,
  )
