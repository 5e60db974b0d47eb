-- ===== src/Pipeline/Usage/Rows/Emitted.antt =====
-- Which rows the usage aggregator emits, whatever the clock does.
use node_monitor.Common.{
  ℕ, ◌+◌, suc, ◌≤◌, String, ◌≡◌, refl, Option, none, some, List, [], ◌∷◌, ◌++◌, Bool, arith,
  Bool-cases, inl, inr, ltb, length, sum_by, ltb→lt, sort_by,
}
use node_monitor.Common.Dict.{Dict}
use node_monitor.Pipeline.Usage.Tallies.{Floats, Process, Tally}
use node_monitor.Pipeline.Usage.{Interval, new_interval, add_rows}
use node_monitor.Pipeline.Usage.Rows.{
  Summary, user_usage, node_usage, Aggregator, floor_interval, user_rows, node_row, rows_of, flush,
  is_later, open_or_new, flush_if, is_ok, add_census, columns_of,
}

-- The interval and the sample count of each node row.
unfoldable pub node_rows : {F : Type 0} → List (Summary F) → List (ℕ × ℕ)
node_rows [] = []
node_rows (user_usage name c ∷ rows) = node_rows rows
node_rows (node_usage r ∷ rows) =
    (r.columns.interval_start, r.columns.sample_count) ∷ node_rows rows

-- Each interval is later than the one before.
unfoldable pub IsRising : ℕ → List (ℕ × ℕ) → Type 0
IsRising low [] = Unit
IsRising low ((start, count) ∷ more) = (low ≤ start) × IsRising (suc start) more

unfoldable pub samples : List (ℕ × ℕ) → ℕ
samples rows = sum_by (λ r. r.1) rows

-- The aggregator with an open interval, and with none.
abbrev pub aggregator : {F : Type 0} → Interval F → ℕ → ℕ → Aggregator F
aggregator iv interval expected = record {
  interval = interval;
  expected = expected;
  open_interval = some iv;
}

abbrev pub idle : {F : Type 0} → ℕ → ℕ → Aggregator F
idle interval expected = record { interval = interval; expected = expected; open_interval = none }

weaken : (low high : ℕ) (rows : List (ℕ × ℕ)) → low ≤ high → IsRising high rows → IsRising low rows
unfolding IsRising
weaken low high [] below h = tt
weaken low high ((start, count) ∷ more) below h = (omega (arith, h.0), h.1)

module _ {F : Type 0} ⦃floats : Floats F⦄ (text_less : String → String → Bool) where
  -- Censuses in a row, each with its time and GPU status, and then a flush: the node rows.
  unfoldable pub run : List (List (Process F) × ℕ × Option String) → Aggregator F → List (ℕ × ℕ)
  run [] a = node_rows (flush text_less a).0
  run ((rows, recv, gpu_status) ∷ more) a =
      let (out, next) = add_census text_less rows recv gpu_status a in
      node_rows out ++ run more next

  node_rows-user_rows :
      (iv : Interval F) (expected : ℕ) (users : Dict String (Tally F)) (rest : List (Summary F))
      → node_rows (user_rows text_less iv expected users ++ rest) ≡ node_rows rest
  unfolding user_rows node_rows
  node_rows-user_rows iv expected [] rest = refl
  node_rows-user_rows iv expected ((name, t) ∷ users) rest =
      node_rows-user_rows iv expected users rest

  -- An interval has one node row.
  node_rows-rows_of :
      (iv : Interval F) (expected : ℕ)
      → node_rows (rows_of text_less (some iv) expected) ≡ (iv.start, iv.samples) ∷ []
  unfolding rows_of node_rows node_row columns_of
  node_rows-rows_of iv expected =
      node_rows-user_rows iv expected (sort_by (λ a b. text_less a.0 b.0) iv.users)
        (node_row text_less iv expected ∷ [])

  -- What is emitted from an open interval on.
  opened :
      (messages : List (List (Process F) × ℕ × Option String)) (iv : Interval F)
      (interval expected : ℕ)
      → IsRising iv.start (run messages (aggregator iv interval expected))
        × (samples (run messages (aggregator iv interval expected)) ≡ iv.samples + length messages)
  unfolding run add_census flush flush_if is_later open_or_new add_rows new_interval IsRising
      samples node_rows
  opened [] iv interval expected =
      rw (node_rows-rows_of iv expected) ((omega arith, tt), omega arith)
  opened ((rows, recv, status) ∷ more) iv interval expected =
      let start = floor_interval interval recv in
      elim (Bool-cases (ltb iv.start start)) [
        | inr same ↦ rw same (
            let later = opened more (add_rows rows (is_ok status) iv) interval expected in
            (later.0, omega (arith, later.1)))
        | inl after ↦
            rw (after, node_rows-rows_of iv expected)
              (let fresh = add_rows rows (is_ok status) (new_interval start) in
                let later = opened more fresh interval expected in
                (
                  (
                    omega arith,
                    weaken (suc iv.start) start (run more (aggregator fresh interval expected))
                        (omega (arith, ltb→lt iv.start start after)) later.0,
                  ),
                  omega (arith, later.1),
                ))
      ]

  -- Whatever the clock does, the node rows that any censuses and a flush emit are of strictly later
  -- intervals one after the other, and each census is counted in one of them, once.
  pub run-counts :
      (messages : List (List (Process F) × ℕ × Option String)) (interval expected : ℕ)
      → IsRising 0 (run messages (idle interval expected))
        × (samples (run messages (idle interval expected)) ≡ length messages)
  unfolding run add_census flush flush_if is_later open_or_new rows_of node_rows IsRising samples
      new_interval add_rows
  run-counts [] interval expected = (tt, refl)
  run-counts ((rows, recv, status) ∷ more) interval expected =
      let start = floor_interval interval recv in
      let fresh = add_rows rows (is_ok status) (new_interval start) in
      let later = opened more fresh interval expected in
      (
        weaken 0 start (run more (aggregator fresh interval expected)) (omega arith) later.0,
        omega (arith, later.1),
      )
