-- ===== src/Probe/Gpu/Streak.antt =====
-- probe/probe.py, `_Census._query_gpus`: what the state of the GPU queries means, and when they
-- pause.
use node_monitor.Common.{
  ==_refl, ◌∙◌, ◌<◌, ℕ, suc, ◌+◌, String, ◌≡◌, refl, sym, ap, Bool, true, false, Option, none, some,
  List, [], ◌∷◌, ◌++◌, append-nil, ◌||◌, if◌then◌else◌, ◌==◌, text_eq, leb, arith, Bool-cases, inl,
  inr,
}
use node_monitor.Probe.Gpu.{
  suspended_now, suspended, failed, Complaint, Census, Gpu, gpu_timeout_error,
  identical_failures_to_suspend, complain, suspend_gpu, is_same_failure, count_failure,
  report_failure, forget, after_query, is_suspended, query_if, query_gpus, result_if, query_all,
}

-- The error of the last query, unless it was none or a timeout.
unfoldable pub last_failure : List (Option String) → Option String
last_failure [] = none
last_failure (none ∷ results) = none
last_failure (some e ∷ results) = if e == gpu_timeout_error then none else some e

-- How many of the last results are the error e.
unfoldable pub run_of : String → List (Option String) → ℕ
run_of e [] = 0
run_of e (none ∷ results) = 0
run_of e (some f ∷ results) = let more = run_of e results in if e == f then suc more else 0

-- How often in a row the last query has failed in the same way.
unfoldable pub streak_of : Option String → List (Option String) → ℕ
streak_of none results = 0
streak_of (some e) results = run_of e results

-- The state tells the results of the queries made, the newest first.
pub record IsTracked (g : Gpu) (results : List (Option String)) : Type 0 where
  pub failure : g.failure ≡ last_failure results
  pub streak : g.streak ≡ streak_of (last_failure results) results

module _ (pause : ℕ) where
  forget-IsTracked :
      (g : Gpu) (r : Option String) (results : List (Option String))
      → last_failure (r ∷ results) ≡ none
      → g.failure ≡ none
      → g.streak ≡ 0
      → IsTracked g (r ∷ results)
  unfolding streak_of
  forget-IsTracked g r results e f s = record { failure = rw e f; streak = rw e s }

  same_run :
      (e : String) (results : List (Option String))
      → (e == gpu_timeout_error) ≡ false
      → is_same_failure pause e (last_failure results) ≡ true
      → streak_of (last_failure results) results ≡ run_of e results
  unfolding last_failure is_same_failure run_of streak_of
  same_run e [] other h = ground (arith, h)
  same_run e (none ∷ results) other h = ground (arith, h)
  same_run e (some f ∷ results) other h = elim (Bool-cases (f == gpu_timeout_error)) [
    | inl timeout ↦ absurd (ground (arith, timeout, h))
    | inr plain ↦
        let same : e ≡ f = (text_eq.equals_iff e f).0 (ground (arith, plain, h)) in
        rw plain (ap (λ k. run_of k (some f ∷ results)) (sym same))
  ]

  new_run :
      (e : String) (results : List (Option String))
      → (e == gpu_timeout_error) ≡ false
      → is_same_failure pause e (last_failure results) ≡ false
      → run_of e results ≡ 0
  unfolding last_failure is_same_failure run_of
  new_run e [] other h = refl
  new_run e (none ∷ results) other h = refl
  new_run e (some f ∷ results) other h = elim (Bool-cases (e == f)) [
    | inr new ↦ rw new refl
    | inl same ↦
        let f_is_e : f ≡ e = sym ((text_eq.equals_iff e f).0 same) in
        let plain : (f == gpu_timeout_error) ≡ false = rw f_is_e other in
        absurd (ground (arith, plain, same, h))
  ]

  failed-IsTracked :
      (e : String) (g : Gpu) (results : List (Option String))
      → (e == gpu_timeout_error) ≡ false
      → g.failure ≡ some e
      → g.streak ≡ suc (run_of e results)
      → IsTracked g (some e ∷ results)
  unfolding last_failure streak_of run_of
  failed-IsTracked e g results other f n = record {
    failure = rw other f;
    streak = rw other (n ∙ ground (arith, ==_refl e));
  }

  failure_lem : (e : String) (o : Option String) → is_same_failure pause e o ≡ true → o ≡ some e
  unfolding is_same_failure
  failure_lem e none h = absurd (ground (arith, h))
  failure_lem e (some f) h = ap (λ k. some k) (sym ((text_eq.equals_iff e f).0 h))

  count_failure-IsTracked :
      (e : String) (g : Gpu) (results : List (Option String))
      → (e == gpu_timeout_error) ≡ false
      → IsTracked g results
      → IsTracked (count_failure pause e g) (some e ∷ results)
  unfolding count_failure
  count_failure-IsTracked e g results other h =
      elim (Bool-cases (is_same_failure pause e g.failure)) [
        | inl same ↦ rw same (
            let before : is_same_failure pause e (last_failure results) ≡ true =
              rw (sym h.failure) same in
            failed-IsTracked e (record g { streak = g.streak + 1 }) results other
              (failure_lem e g.failure same)
              (omega (arith, h.streak, same_run e results other before)))
        | inr new ↦ rw new (
            let before : is_same_failure pause e (last_failure results) ≡ false =
              rw (sym h.failure) new in
            failed-IsTracked e (record g { failure = some e; streak = 1 }) results other refl
              (omega (arith, new_run e results other before)))
      ]

  report_failure-IsTracked :
      (e : String) (now : ℕ) (g : Gpu) (results : List (Option String))
      → IsTracked g results
      → IsTracked (report_failure pause e now g) results
  unfolding report_failure suspend_gpu complain
  report_failure-IsTracked e now g results h =
      elim (Bool-cases (leb identical_failures_to_suspend g.streak)) [
        | inl often ↦ rw often (record { failure = h.failure; streak = h.streak })
        | inr seldom ↦ rw seldom (record { failure = h.failure; streak = h.streak })
      ]

  after_query-IsTracked :
      (r : Option String) (now : ℕ) (g : Gpu) (results : List (Option String))
      → IsTracked g results
      → IsTracked (after_query pause r now g).1 (r ∷ results)
  unfolding after_query forget suspend_gpu complain last_failure
  after_query-IsTracked none now g results h =
      forget-IsTracked (forget pause g) none results refl refl refl
  after_query-IsTracked (some e) now g results h = elim (Bool-cases (e == gpu_timeout_error)) [
    | inl timeout ↦ rw timeout (
        forget-IsTracked (suspend_gpu pause e none now (forget pause g)) (some e) results
          (rw timeout refl) refl refl)
    | inr other ↦ rw other (
        report_failure-IsTracked e now (count_failure pause e g) (some e ∷ results)
          (count_failure-IsTracked e g results other h))
  ]

  query_if-IsTracked :
      (enabled paused installed : Bool) (c : Census) (g : Gpu) (results : List (Option String))
      → IsTracked g results
      → IsTracked
          (query_if pause enabled paused installed c g).1
          (result_if pause enabled paused installed c results)
  unfolding query_if result_if
  query_if-IsTracked false paused installed c g results h = h
  query_if-IsTracked true true installed c g results h = h
  query_if-IsTracked true false false c g results h = record {
    failure = h.failure;
    streak = h.streak;
  }
  query_if-IsTracked true false true c g results h =
      after_query-IsTracked c.error c.suspended_at (record g { resume_at = none }) results
        (record { failure = h.failure; streak = h.streak })

  -- Over any censuses the remembered failure is the last query's error, if it was no timeout, and
  -- the streak, which decides when queries pause, is the number of queries in a row that ended so.
  pub query_all-IsTracked :
      (enabled : Bool) (cs : List Census) (g : Gpu) (results : List (Option String))
      → IsTracked g results
      → IsTracked
          (query_all pause enabled cs (g, results)).0
          (query_all pause enabled cs (g, results)).1
  unfolding query_all query_gpus
  query_all-IsTracked enabled [] g results h = h
  query_all-IsTracked enabled (c ∷ cs) g results h =
      let paused = is_suspended pause c.checked_at g.resume_at in
      query_all-IsTracked enabled cs (query_if pause enabled paused c.installed c g).1
        (result_if pause enabled paused c.installed c results)
        (query_if-IsTracked enabled paused c.installed c g results h)

  -- A timeout begins a pause, and so does a failure that repeats the last two or more.
  unfoldable pub begins_pause : Option String → List (Option String) → Bool
  begins_pause none results = false
  begins_pause (some e) results = e == gpu_timeout_error || leb 2 (run_of e results)

  -- The complaint of a query, by its error and the results before.
  unfoldable pub complaints_for : Option String → List (Option String) → List Complaint
  complaints_for none results = []
  complaints_for (some e) results =
      (if e == gpu_timeout_error
        then suspended e none
        else if leb 2 (run_of e results)
        then suspended e (some (suc (run_of e results)))
        else failed e)
      ∷ []

  -- What a query leaves: a pause if it begins one, in which no later census queries before its end,
  -- and the complaint for its error.
  pub record IsPaced (c : Census) (g : Gpu) (results : List (Option String)) (next : Gpu)
      : Type 0 where
    pub resumes :
        next.resume_at
        ≡ (if begins_pause c.error results then some (c.suspended_at + pause) else none)
    pub complains : next.complaints ≡ g.complaints ++ complaints_for c.error results
    pub waits :
        (later : Census)
        → begins_pause c.error results ≡ true
        → later.checked_at < c.suspended_at + pause
        → query_gpus pause true later next ≡ (suspended_now, next)

  count_lem :
      (e : String) (g : Gpu) (results : List (Option String))
      → (e == gpu_timeout_error) ≡ false
      → IsTracked g results
      → (count_failure pause e g).streak ≡ suc (run_of e results)
  unfolding last_failure streak_of run_of
  count_lem e g results other h =
      let k = count_failure-IsTracked e g results other h in
      let after : last_failure (some e ∷ results) ≡ some e = rw other refl in
      k.streak ∙ ap (λ f. streak_of f (some e ∷ results)) after ∙ ground (arith, ==_refl e)

  count_rest :
      (e : String) (g : Gpu)
      → ((count_failure pause e g).resume_at ≡ g.resume_at)
        × ((count_failure pause e g).complaints ≡ g.complaints)
  unfolding count_failure
  count_rest e g = elim (Bool-cases (is_same_failure pause e g.failure)) [
    | inl same ↦ rw same (refl, refl)
    | inr new ↦ rw new (refl, refl)
  ]

  -- The pause and the complaints that a query's error leaves, where no pause was on.
  after_query_lem :
      (error : Option String) (now : ℕ) (g : Gpu) (results : List (Option String))
      → IsTracked g results
      → g.resume_at ≡ none
      → ((after_query pause error now g).1.resume_at
          ≡ (if begins_pause error results then some (now + pause) else none))
        × ((after_query pause error now g).1.complaints
            ≡ g.complaints ++ complaints_for error results)
  unfolding after_query forget suspend_gpu complain report_failure begins_pause complaints_for
  after_query_lem none now g results h idle = (idle, sym (append-nil g.complaints))
  after_query_lem (some e) now g results h idle = elim (Bool-cases (e == gpu_timeout_error)) [
    | inl timeout ↦ rw timeout (refl, refl)
    | inr other ↦
        let n = count_lem e g results other h in
        let rest = count_rest e g in
        elim (Bool-cases (leb 2 (run_of e results))) [
          | inl often ↦
              let third : leb identical_failures_to_suspend (count_failure pause e g).streak
                  ≡ true =
                ground (arith, n, often) in
              rw (other, often, third) (refl, rw (rest.1, n) refl)
          | inr few ↦
              let early : leb identical_failures_to_suspend (count_failure pause e g).streak
                  ≡ false =
                ground (arith, n, few) in
              rw (other, few, early) (rest.0 ∙ idle, rw rest.1 refl)
        ]
  ]

  paused_lem :
      (later : Census) (next : Gpu) (end : ℕ)
      → next.resume_at ≡ some end
      → later.checked_at < end
      → query_gpus pause true later next ≡ (suspended_now, next)
  unfolding is_suspended query_gpus query_if
  paused_lem later next end on early =
      let busy : is_suspended pause later.checked_at next.resume_at ≡ true =
        rw on (ground (arith, early)) in
      rw busy refl

  -- A census that queries, where the state tells the earlier results: it begins a pause exactly
  -- with a timeout or a failure that repeats the last two or more, and during the pause no census
  -- queries or changes anything; a failed query makes one complaint, which names its error, and
  -- another query makes none.
  pub query-IsPaced :
      (c : Census) (g : Gpu) (results : List (Option String))
      → IsTracked g results
      → is_suspended pause c.checked_at g.resume_at ≡ false
      → c.installed ≡ true
      → IsPaced c g results (query_gpus pause true c g).1
  unfolding query_gpus query_if
  query-IsPaced c g results h awake installed =
      let g' = record g { resume_at = none } in
      let tracked : IsTracked g' results = record { failure = h.failure; streak = h.streak } in
      let after = after_query_lem c.error c.suspended_at g' results tracked refl in
      rw (awake, installed)
        (record {
          resumes = after.0;
          complains = after.1;
          waits = λ later begins early.
              paused_lem later (after_query pause c.error c.suspended_at g').1
                (c.suspended_at + pause) (after.0 ∙ rw begins refl) early;
        })
