-- ===== src/Probe/Scan/Accounts.antt =====
-- What the coverage of a walk accounts for.
use node_monitor.Common.{
  ℕ, suc, ◌+◌, String, ◌≡◌, refl, Bool, Option, none, some, List, [], ◌∷◌, length, sum_by, arith,
  map, ap, length-map,
}
use node_monitor.Common.Dict.{Dict}
use node_monitor.Values.{ℤ}
use node_monitor.Probe.Stat.{Text, parse_stat}
use node_monitor.Probe.Process.{
  Entry, Coverage, no_coverage, Numbers, Row, Walk, one_if_none, clean_cmdline, numbers_of,
  read_row, read_numbers, read_owned, status_of, read_named, read_parsed, read_stat, read_process,
}
use node_monitor.Probe.Scan.{
  WithParent, with_row, count_pid, walk, numbered, by_pid, enrich_row, enrich_rows, enrich_parents,
  scan_processes,
}

-- The entries that made no row.
unfoldable pub skipped : Coverage → ℕ
skipped c = c.stat_unreadable + c.stat_unparseable + c.kernel_thread + c.vanished

unfoldable pub unnamed : List Row → ℕ
unnamed rows = sum_by (λ r. one_if_none r.username) rows

unfoldable pub without_exe : List Row → ℕ
without_exe rows = sum_by (λ r. one_if_none r.exe) rows

-- From one coverage to the next some entries have become rows, or have been counted as skipped.
unfoldable pub IsCounted : ℕ → ℕ → List Row → Coverage → Coverage → Type 0
IsCounted seen entries rows c d =
    (length rows + skipped d ≡ entries + skipped c)
    × (d.owner_unresolved ≡ unnamed rows + c.owner_unresolved)
    × (d.exe_unreadable ≡ without_exe rows + c.exe_unreadable)
    × (d.parent_unresolved ≡ c.parent_unresolved)
    × (d.pids_seen ≡ seen + c.pids_seen)

unfoldable pub rows_of : List WithParent → List Row
rows_of rows = map (λ r. r.row) rows

length-rows_of : (rows : List WithParent) → length (rows_of rows) ≡ length rows
unfolding rows_of
length-rows_of rows = length-map (λ r. r.row) rows

unfoldable pub orphans : List WithParent → ℕ
orphans rows = sum_by (λ r. one_if_none r.parent_comm) rows

-- The coverage of a scan explains the entries that are numbers, and what is missing in its rows.
unfoldable pub IsAccounted : ℕ → List WithParent → Coverage → Type 0
IsAccounted entries rows c =
    (c.pids_seen ≡ entries)
    × (length rows + skipped c ≡ entries)
    × (c.owner_unresolved ≡ unnamed (rows_of rows))
    × (c.exe_unreadable ≡ without_exe (rows_of rows))
    × (c.parent_unresolved ≡ orphans rows)

module _ (int : Text → Option ℤ) (digits : Text → Option ℕ) (owner_of : ℕ → Option String) where
  -- One entry, whose row is there or not.
  abbrev Counts : Option Row × Walk → Walk → Type 0
  Counts result w =
      IsCounted 0 1 (with_row int digits owner_of result.0 []) w.coverage result.1.coverage

  read_numbers-Counts :
      (page_kb : ℕ) (entry : Entry) (comm : Text) (tail : List Text) (uid : ℕ) (threads : Option ℕ)
      (n : Option Numbers) (w : Walk)
      → Counts (read_numbers int digits owner_of page_kb entry comm tail uid threads n w) w
  unfolding read_numbers read_row IsCounted skipped unnamed without_exe with_row
  read_numbers-Counts page_kb entry comm tail uid threads none w =
      (omega arith, omega arith, omega arith, refl, omega arith)
  read_numbers-Counts page_kb entry comm tail uid threads (some n) w =
      (omega arith, omega arith, omega arith, refl, omega arith)

  read_owned-Counts :
      (page_kb pid : ℕ) (entry : Entry) (comm : Text) (tail : List Text)
      (status : Option ℕ × Option ℕ) (w : Walk)
      → Counts (read_owned int digits owner_of page_kb pid entry comm tail status w) w
  unfolding read_owned IsCounted skipped unnamed without_exe with_row
  read_owned-Counts page_kb pid entry comm tail (none, threads) w =
      (omega arith, omega arith, omega arith, refl, omega arith)
  read_owned-Counts page_kb pid entry comm tail (some uid, threads) w =
      read_numbers-Counts page_kb entry comm tail uid threads
        (numbers_of int digits owner_of pid tail) w

  read_named-Counts :
      (page_kb pid : ℕ) (entry : Entry) (comm : Text) (tail : List Text) (cmdline : Text) (w : Walk)
      → Counts (read_named int digits owner_of page_kb pid entry comm tail cmdline w) w
  unfolding read_named IsCounted skipped unnamed without_exe with_row
  read_named-Counts page_kb pid entry comm tail [] w =
      (omega arith, omega arith, omega arith, refl, omega arith)
  read_named-Counts page_kb pid entry comm tail (c ∷ cs) w =
      read_owned-Counts page_kb pid entry comm tail (status_of int digits owner_of entry.status) w

  read_parsed-Counts :
      (page_kb pid : ℕ) (entry : Entry) (parsed : Option (Text × List Text)) (w : Walk)
      → Counts (read_parsed int digits owner_of page_kb pid entry parsed w) w
  unfolding read_parsed IsCounted skipped unnamed without_exe with_row
  read_parsed-Counts page_kb pid entry none w =
      (omega arith, omega arith, omega arith, refl, omega arith)
  read_parsed-Counts page_kb pid entry (some (comm, tail)) w =
      read_named-Counts page_kb pid entry comm tail (clean_cmdline entry.cmdline) w

  read_stat-Counts :
      (page_kb pid : ℕ) (entry : Entry) (stat : Option Text) (w : Walk)
      → Counts (read_stat int digits owner_of page_kb pid entry stat w) w
  unfolding read_stat IsCounted skipped unnamed without_exe with_row
  read_stat-Counts page_kb pid entry none w =
      (omega arith, omega arith, omega arith, refl, omega arith)
  read_stat-Counts page_kb pid entry (some raw) w =
      read_parsed-Counts page_kb pid entry (parse_stat raw) w

  with_row-IsCounted :
      (o : Option Row) (rows : List Row) (n : ℕ) (w v : Walk) (e : Coverage)
      → Counts (o, v) (count_pid int digits owner_of w)
      → IsCounted n n rows v.coverage e
      → IsCounted (suc n) (suc n) (with_row int digits owner_of o rows) w.coverage e
  unfolding IsCounted skipped unnamed without_exe with_row count_pid
  with_row-IsCounted none rows n w v e h k = (
    omega (arith, h.0, k.0),
    omega (arith, h.1, k.1),
    omega (arith, h.2, k.2),
    omega (arith, h.3, k.3),
    omega (arith, h.4, k.4),
  )
  with_row-IsCounted (some r) rows n w v e h k = (
    omega (arith, h.0, k.0),
    omega (arith, h.1, k.1),
    omega (arith, h.2, k.2),
    omega (arith, h.3, k.3),
    omega (arith, h.4, k.4),
  )

  walk-IsCounted :
      (page_kb : ℕ) (entries : List (ℕ × Entry)) (w : Walk)
      → IsCounted
          (length entries)
          (length entries)
          (walk int digits owner_of page_kb entries w).0
          w.coverage
          (walk int digits owner_of page_kb entries w).1.coverage
  unfolding walk IsCounted unnamed without_exe read_process
  walk-IsCounted page_kb [] w = (refl, omega arith, omega arith, refl, omega arith)
  walk-IsCounted page_kb ((pid, entry) ∷ more) w =
      let counted = count_pid int digits owner_of w in
      let read = read_process int digits owner_of page_kb pid entry counted in
      let rest = walk int digits owner_of page_kb more read.1 in
      with_row-IsCounted read.0 rest.0 (length more) w read.1 rest.1.coverage
        (read_stat-Counts page_kb pid entry entry.stat counted) (walk-IsCounted page_kb more read.1)

  module _ (is_multiplexer is_shell : Text → Bool) (direct : ℤ → Option Text × Option Text) where
    abbrev enrich : Dict ℕ Row → List Row → Coverage → List WithParent × Coverage
    enrich = enrich_rows int digits owner_of is_multiplexer is_shell direct

    -- The coverage after a row.
    after : Dict ℕ Row → Row → Coverage → Coverage
    after found row c = record c {
      parent_unresolved =
          c.parent_unresolved
          + one_if_none
              (enrich_row int digits owner_of is_multiplexer is_shell direct found row).parent_comm;
    }

    rows_lem :
        (found : Dict ℕ Row) (rows : List Row) (c : Coverage)
        → rows_of (enrich found rows c).0 ≡ rows
    unfolding enrich_rows enrich_row rows_of after
    rows_lem found [] c = refl
    rows_lem found (row ∷ rows) c = ap (λ rs. row ∷ rs) (rows_lem found rows (after found row c))

    orphans_lem :
        (found : Dict ℕ Row) (rows : List Row) (c : Coverage)
        → (enrich found rows c).1.parent_unresolved
          ≡ orphans (enrich found rows c).0 + c.parent_unresolved
    unfolding enrich_rows enrich_row orphans after
    orphans_lem found [] c = omega arith
    orphans_lem found (row ∷ rows) c = omega (arith, orphans_lem found rows (after found row c))

    -- Enriching the rows changes only the count of the parents.
    enrich-IsKept :
        (found : Dict ℕ Row) (rows : List Row) (c : Coverage)
        → (skipped (enrich found rows c).1 ≡ skipped c)
          × ((enrich found rows c).1.owner_unresolved ≡ c.owner_unresolved)
          × ((enrich found rows c).1.exe_unreadable ≡ c.exe_unreadable)
          × ((enrich found rows c).1.pids_seen ≡ c.pids_seen)
    unfolding enrich_rows skipped after
    enrich-IsKept found [] c = (refl, refl, refl, refl)
    enrich-IsKept found (row ∷ rows) c = enrich-IsKept found rows (after found row c)

    -- In a scan that can list /proc every entry that is a number is a row or is counted under one
    -- of the four reasons why it is none, and the other counts are the rows without an owner's
    -- name, without an executable and without a known parent.
    pub scan_processes-IsAccounted :
        (page_kb : ℕ) (entries : List Entry) (names : Dict ℕ (Option String))
        → IsAccounted
            (length (numbered int digits owner_of entries))
            (scan_processes int digits owner_of is_multiplexer is_shell direct page_kb
              (some entries)
              names).0
            (scan_processes int digits owner_of is_multiplexer is_shell direct page_kb
              (some entries)
              names).1
    unfolding scan_processes enrich_parents IsAccounted IsCounted no_coverage skipped
    scan_processes-IsAccounted page_kb entries names =
        let start : Walk = record { uid_names = names; coverage = no_coverage } in
        let walked =
          walk int digits owner_of page_kb (numbered int digits owner_of entries) start in
        let found = by_pid int digits owner_of is_multiplexer is_shell direct walked.0 [] in
        let h = walk-IsCounted page_kb (numbered int digits owner_of entries) start in
        let kept = enrich-IsKept found walked.0 walked.1.coverage in
        let same = rows_lem found walked.0 walked.1.coverage in
        let enriched = (enrich found walked.0 walked.1.coverage).0 in
        (
          omega (arith, kept.3, h.4),
          omega (arith, kept.0, h.0, length-rows_of enriched, ap length same),
          omega (arith, kept.1, h.1, ap unnamed same),
          omega (arith, kept.2, h.2, ap without_exe same),
          omega (arith, orphans_lem found walked.0 walked.1.coverage, h.3),
        )
