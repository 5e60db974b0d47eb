-- ===== src/Pipeline/Enrich/Tests.antt =====
-- An example for the theorem on the enriched rows.
use node_monitor.Common.{
  ℕ, String, Bool, ◌≡◌, Option, none, some, List, [], ◌∷◌, ◌==◌, text_eq, map, All, if◌then◌else◌,
}
use node_monitor.Pipeline.Enrich.{RawRow, user_key, enrich_census}
use node_monitor.Pipeline.Enrich.Presence.{IsEnriched, enrich_census-IsEnriched}

abbrev uid_name : ℕ → String
uid_name uid = "uid:7"

abbrev session_tty : String → Option String
session_tty title = if title == "sshd: ann@pts/1" then some "pts/1" else none

abbrev search : String → String → Bool
search pattern subject = pattern == subject

abbrev redact : String → String
redact cmdline = cmdline

abbrev raw : Option String → String → RawRow ℕ Unit
raw username cmdline = record {
  copied = tt;
  uid = 1000;
  username = username;
  comm = "sh";
  argv0 = none;
  cmdline = some cmdline;
  gpu_mem_mb = none;
  cpu_state = none;
  idle_for_sec = none;
}

-- A shell of Ann's, her session, and a process without an owner's name.
abbrev rows : List (RawRow ℕ Unit)
rows = raw (some "ann") "sh" ∷ raw (some "ann") "sshd: ann@pts/1" ∷ raw none "sh" ∷ []

enrich_census-IsEnriched_example :
    (map
        (λ r. r.username)
        (enrich_census uid_name session_tty search redact 0 1000 rows (some "ok"))
      ≡ map (user_key uid_name session_tty) rows)
    × All
        (IsEnriched uid_name session_tty search redact 0 1000 rows)
        (enrich_census uid_name session_tty search redact 0 1000 rows (some "ok"))
enrich_census-IsEnriched_example =
    enrich_census-IsEnriched uid_name session_tty search redact 0 1000 rows (some "ok")
