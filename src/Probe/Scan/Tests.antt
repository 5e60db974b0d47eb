-- ===== src/Probe/Scan/Tests.antt =====
-- Examples for the theorems on the lines of /proc and on a scan.
use node_monitor.Common.{
  ℕ, zero, suc, ◌≡◌, refl, String, Bool, false, Option, none, some, List, [], ◌∷◌, length, All,
  nat_eq, arith,
}
use node_monitor.Values.{ℤ, pos}
use node_monitor.Probe.Stat.{Text, is_space, parse_stat}
use node_monitor.Probe.Stat.RoundTrip.{IsField, stat_line, parse_stat-stat_line}
use node_monitor.Probe.Process.{Entry}
use node_monitor.Probe.Scan.{numbered, scan_processes}
use node_monitor.Probe.Scan.Accounts.{IsAccounted, scan_processes-IsAccounted}

abbrev times : ℕ → List Text
times zero = []
times (suc n) = (49 ∷ []) ∷ times n

-- "S" and then 21 times "1"
abbrev fields : List Text
fields = (83 ∷ []) ∷ times 21

-- ") ("
abbrev comm : Text
comm = 41 ∷ 32 ∷ 40 ∷ []

times-IsField : (n : ℕ) → All IsField (times n)
unfolding IsField is_space
times-IsField zero = tt
times-IsField (suc n) = (((refl, refl), tt), times-IsField n)

fields-IsField : All IsField fields
unfolding IsField is_space
fields-IsField = (((refl, refl), tt), times-IsField 21)

parse_stat-stat_line_example : parse_stat (stat_line (55 ∷ []) comm fields) ≡ some (comm, fields)
parse_stat-stat_line_example =
    parse_stat-stat_line (55 ∷ []) comm fields refl fields-IsField (omega arith)

abbrev int : Text → Option ℤ
int [] = none
int (c ∷ cs) = some (pos c)

abbrev digits : Text → Option ℕ
digits [] = none
digits (c ∷ cs) = some c

abbrev owner_of : ℕ → Option String
owner_of uid = none

abbrev found : Text → Bool
found text = false

abbrev direct : ℤ → Option Text × Option Text
direct ppid = (none, none)

abbrev line : Text
line = 55 ∷ 32 ∷ 40 ∷ 97 ∷ 41 ∷ 32 ∷ 49 ∷ 32 ∷ 49 ∷ []

-- A directory that is no number, a process that has gone, and one whose line is too short.
abbrev entries : List Entry
entries =
    record { name = []; stat = none; cmdline = none; status = none; exe = none }
    ∷ record { name = 7 ∷ []; stat = none; cmdline = none; status = none; exe = none }
    ∷ record { name = 8 ∷ []; stat = some line; cmdline = none; status = none; exe = none }
    ∷ []

scan_processes-IsAccounted_example :
    IsAccounted
      (length (numbered int digits owner_of entries))
      (scan_processes int digits owner_of found found direct 4 (some entries) []).0
      (scan_processes int digits owner_of found found direct 4 (some entries) []).1
scan_processes-IsAccounted_example =
    scan_processes-IsAccounted int digits owner_of found found direct 4 entries []
