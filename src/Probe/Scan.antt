-- ===== src/Probe/Scan.antt =====
-- probe/probe.py, `scan_processes` and `_enrich_parents`: one walk over /proc. The reads of a parent
-- outside the census and what the regular expressions find are parameters.
pub mod Accounts
mod Tests
use node_monitor.Common.{ℕ, ◌+◌, String, Bool, false, Option, none, some, List, [], ◌∷◌, nat_eq}
use node_monitor.Common.Dict.{Dict, lookup, put}
use node_monitor.Values.{ℤ, pos, negsuc}
use node_monitor.Probe.Stat.{Text, parse_stat, parent_kind}
use node_monitor.Probe.Process.{Entry, Coverage, no_coverage, Row, Walk, one_if_none, read_process}

-- A row with what is known of its parent.
pub record WithParent : Type 0 where
  pub row : Row
  pub parent_comm : Option Text
  pub parent_exe : Option Text
  pub under_screen_or_tmux : Bool
  pub kind : String

module _ (int : Text → Option ℤ) (digits : Text → Option ℕ) (owner_of : ℕ → Option String) where
  unfoldable pub with_row : Option Row → List Row → List Row
  with_row none rows = rows
  with_row (some row) rows = row ∷ rows

  unfoldable pub count_pid : Walk → Walk
  count_pid w = record w { coverage = record w.coverage { pids_seen = w.coverage.pids_seen + 1 } }

  -- The loop over the entries, those that are a number.
  unfoldable pub walk : ℕ → List (ℕ × Entry) → Walk → List Row × Walk
  walk page_kb [] w = ([], w)
  walk page_kb ((pid, entry) ∷ more) w =
      let (row, next) = read_process int digits owner_of page_kb pid entry (count_pid w) in
      let (rows, last) = walk page_kb more next in (with_row row rows, last)

  unfoldable pub if_number : Option ℕ → Entry → List (ℕ × Entry) → List (ℕ × Entry)
  if_number none entry more = more
  if_number (some pid) entry more = (pid, entry) ∷ more

  -- `if not entry.isdigit(): continue`
  unfoldable pub numbered : List Entry → List (ℕ × Entry)
  numbered [] = []
  numbered (entry ∷ more) = if_number (digits entry.name) entry (numbered more)

  module _ (is_multiplexer is_shell : Text → Bool) (direct : ℤ → Option Text × Option Text) where
    -- `{r["pid"]: r for r in rows}`
    unfoldable pub by_pid : List Row → Dict ℕ Row → Dict ℕ Row
    by_pid [] found = found
    by_pid (r ∷ rs) found = by_pid rs (put r.numbers.pid r found)

    unfoldable pub comm_of : Option (Text × List Text) → Option Text
    comm_of none = none
    comm_of (some parsed) = some parsed.0

    unfoldable pub comm_in : Option Text → Option Text
    comm_in none = none
    comm_in (some raw) = comm_of (parse_stat raw)

    -- `_resolve_parent_direct`
    unfoldable pub resolve_parent_direct : ℤ → Option Text × Option Text
    resolve_parent_direct ppid = let (raw, exe) = direct ppid in (comm_in raw, exe)

    unfoldable pub parent_in : ℤ → Dict ℕ Row → Option Row
    parent_in (pos ppid) found = lookup ppid found
    parent_in (negsuc ppid) found = none

    unfoldable pub parent_of : ℤ → Option Row → Option Text × Option Text
    parent_of ppid (some parent) = (some parent.comm, parent.exe)
    parent_of ppid none = resolve_parent_direct ppid

    -- `bool(parent_comm and _MULTIPLEXER_RE.search(parent_comm))`
    unfoldable pub is_under : Option Text → Bool
    is_under none = false
    is_under (some []) = false
    is_under (some (c ∷ cs)) = is_multiplexer (c ∷ cs)

    unfoldable pub enrich_row : Dict ℕ Row → Row → WithParent
    enrich_row found row =
        let ppid = row.numbers.ppid in
        let (comm, exe) = parent_of ppid (parent_in ppid found) in
        record {
          row = row;
          parent_comm = comm;
          parent_exe = exe;
          under_screen_or_tmux = is_under comm;
          kind = parent_kind is_multiplexer is_shell ppid comm;
        }

    unfoldable pub enrich_rows : Dict ℕ Row → List Row → Coverage → List WithParent × Coverage
    enrich_rows found [] c = ([], c)
    enrich_rows found (row ∷ rows) c =
        let new = enrich_row found row in
        let (more, last) =
          enrich_rows found rows
            (record c { parent_unresolved = c.parent_unresolved + one_if_none new.parent_comm }) in
        (new ∷ more, last)

    -- `_enrich_parents`
    unfoldable pub enrich_parents : List Row → Coverage → List WithParent × Coverage
    enrich_parents rows c = enrich_rows (by_pid rows []) rows c

    unfoldable pub scan_processes :
        ℕ
        → Option (List Entry)
        → Dict ℕ (Option String)
        → List WithParent × Coverage × Dict ℕ (Option String)
    scan_processes page_kb none names = ([], no_coverage, names)
    scan_processes page_kb (some entries) names =
        let start : Walk = record { uid_names = names; coverage = no_coverage } in
        let (rows, w) = walk page_kb (numbered entries) start in
        let (enriched, coverage) = enrich_parents rows w.coverage in
        (enriched, coverage, w.uid_names)
