-- ===== src/Probe/Process.antt =====
-- probe/probe.py, `_read_process` and what it calls: the census row of one process. What the files
-- hold is input; the owners of uids and what `int` reads are parameters.
use node_monitor.Common.{
  ℕ, zero, suc, ◌+◌, ◌*◌, ◌-◌, String, Bool, false, not, Option, none, some, List, [], ◌∷◌,
  if◌then◌else◌, ◌==◌, nat_eq,
}
use node_monitor.Common.Dict.{Dict, lookup, put}
use node_monitor.Common.{◌>>=◌}
use node_monitor.Values.{ℤ, pos, negsuc}
use node_monitor.Probe.Stat.{Text, is_space, parse_stat, status_fields}

-- The answers for one entry of /proc: its name and its files, `none` where they cannot be read.
pub record Entry : Type 0 where
  pub name : Text
  pub stat : Option Text
  pub cmdline : Option Text
  pub status : Option Text
  pub exe : Option Text

pub record Coverage : Type 0 where
  pub pids_seen : ℕ
  pub stat_unreadable : ℕ
  pub stat_unparseable : ℕ
  pub kernel_thread : ℕ
  pub vanished : ℕ
  pub owner_unresolved : ℕ
  pub exe_unreadable : ℕ
  pub parent_unresolved : ℕ

unfoldable pub no_coverage : Coverage
no_coverage = record {
  pids_seen = 0;
  stat_unreadable = 0;
  stat_unparseable = 0;
  kernel_thread = 0;
  vanished = 0;
  owner_unresolved = 0;
  exe_unreadable = 0;
  parent_unresolved = 0;
}

-- The numbers that a row takes from the entry's name and the fields of `stat`.
pub record Numbers : Type 0 where
  pub pid : ℕ
  pub ppid : ℤ
  pub sid : ℤ
  pub tty_nr : ℤ
  pub utime : ℤ
  pub stime : ℤ
  pub start_time : ℤ
  pub rss_pages : ℤ

pub record Row : Type 0 where
  pub numbers : Numbers
  pub uid : ℕ
  pub username : Option String
  pub comm : Text
  pub exe : Option Text
  pub argv0 : Text
  pub cmdline : Text
  pub state : Option Text
  pub threads : Option ℕ
  pub rss_kb : ℤ
  pub interactive : Bool
  pub session_leader : Bool

-- `rss_pages * page_kb`
unfoldable pub times : ℤ → ℕ → ℤ
times (pos n) k = pos (n * k)
times (negsuc n) zero = pos 0
times (negsuc n) (suc k) = negsuc ((suc n * suc k) - 1)

unfoldable pub is_zero : ℤ → Bool
is_zero (pos n) = n == 0
is_zero (negsuc n) = false

unfoldable pub is_pid : ℕ → ℤ → Bool
is_pid pid (pos n) = pid == n
is_pid pid (negsuc n) = false

-- `tail[i]`
unfoldable pub nth : ℕ → List Text → Option Text
nth i [] = none
nth zero (f ∷ fs) = some f
nth (suc i) (f ∷ fs) = nth i fs

-- `replace("\0", " ")`
unfoldable pub nul_to_space : Text → Text
nul_to_space [] = []
nul_to_space (c ∷ cs) = (if c == 0 then 32 else c) ∷ nul_to_space cs

-- `strip()`: the spaces in front, and those at the end.
unfoldable pub strip_front : Text → Text
strip_front [] = []
strip_front (c ∷ cs) = let rest = strip_front cs in if is_space c then rest else c ∷ cs

unfoldable pub unless_blank : ℕ → Text → Text
unless_blank c [] = if is_space c then [] else c ∷ []
unless_blank c (x ∷ xs) = c ∷ x ∷ xs

unfoldable pub strip_end : Text → Text
strip_end [] = []
strip_end (c ∷ cs) = unless_blank c (strip_end cs)

unfoldable pub text_or_empty : Option Text → Text
text_or_empty none = []
text_or_empty (some text) = text

unfoldable pub clean_cmdline : Option Text → Text
clean_cmdline raw = strip_end (strip_front (nul_to_space (text_or_empty raw)))

-- `raw_cmdline.split("\0", 1)[0]`
unfoldable pub up_to_nul : Text → Text
up_to_nul [] = []
up_to_nul (c ∷ cs) = let rest = up_to_nul cs in if c == 0 then [] else c ∷ rest

unfoldable pub one_if_none {ℓ} : {A : Type ℓ} → Option A → ℕ
one_if_none none = 1
one_if_none (some a) = 0

-- What a walk changes: the names of the uids met so far, and the coverage.
pub record Walk : Type 0 where
  pub uid_names : Dict ℕ (Option String)
  pub coverage : Coverage

module _ (int : Text → Option ℤ) (digits : Text → Option ℕ) (owner_of : ℕ → Option String) where
  unfoldable pub int_at : ℕ → List Text → Option ℤ
  int_at i tail = do field ← nth i tail; int field

  -- The conversions under `try`; `none` is ValueError.
  unfoldable pub numbers_of : ℕ → List Text → Option Numbers
  numbers_of pid tail = do
    ppid ← int_at 1 tail
    sid ← int_at 3 tail
    tty_nr ← int_at 4 tail
    utime ← int_at 11 tail
    stime ← int_at 12 tail
    start_time ← int_at 19 tail
    rss_pages ← int_at 21 tail
    some (record {
      pid = pid;
      ppid = ppid;
      sid = sid;
      tty_nr = tty_nr;
      utime = utime;
      stime = stime;
      start_time = start_time;
      rss_pages = rss_pages;
    })

  -- `_resolve_uid`
  unfoldable pub remember :
      ℕ → Option (Option String) → Dict ℕ (Option String) → Option String × Dict ℕ (Option String)
  remember uid (some name) names = (name, names)
  remember uid none names = (owner_of uid, put uid (owner_of uid) names)

  unfoldable pub resolve_uid : ℕ → Dict ℕ (Option String) → Option String × Dict ℕ (Option String)
  resolve_uid uid names = remember uid (lookup uid names) names

  unfoldable pub read_row :
      ℕ → Entry → Text → List Text → ℕ → Option ℕ → Numbers → Walk → Option Row × Walk
  read_row page_kb entry comm tail uid threads n w =
      let (username, names) = resolve_uid uid w.uid_names in
      (
        some (record {
          numbers = n;
          uid = uid;
          username = username;
          comm = comm;
          exe = entry.exe;
          argv0 = up_to_nul (text_or_empty entry.cmdline);
          cmdline = clean_cmdline entry.cmdline;
          state = nth 0 tail;
          threads = threads;
          rss_kb = times n.rss_pages page_kb;
          interactive = not (is_zero n.tty_nr);
          session_leader = is_pid n.pid n.sid;
        }),
        record {
          uid_names = names;
          coverage = record w.coverage {
            owner_unresolved = w.coverage.owner_unresolved + one_if_none username;
            exe_unreadable = w.coverage.exe_unreadable + one_if_none entry.exe;
          };
        },
      )

  unfoldable pub read_numbers :
      ℕ → Entry → Text → List Text → ℕ → Option ℕ → Option Numbers → Walk → Option Row × Walk
  read_numbers page_kb entry comm tail uid threads none w = (
    none,
    record w {
      coverage = record w.coverage { stat_unparseable = w.coverage.stat_unparseable + 1 };
    },
  )
  read_numbers page_kb entry comm tail uid threads (some n) w =
      read_row page_kb entry comm tail uid threads n w

  unfoldable pub read_owned :
      ℕ → ℕ → Entry → Text → List Text → Option ℕ × Option ℕ → Walk → Option Row × Walk
  read_owned page_kb pid entry comm tail (none, threads) w =
      (none, record w { coverage = record w.coverage { vanished = w.coverage.vanished + 1 } })
  read_owned page_kb pid entry comm tail (some uid, threads) w =
      read_numbers page_kb entry comm tail uid threads (numbers_of pid tail) w

  unfoldable pub status_of : Option Text → Option ℕ × Option ℕ
  status_of none = (none, none)
  status_of (some raw) = status_fields digits raw

  unfoldable pub read_named : ℕ → ℕ → Entry → Text → List Text → Text → Walk → Option Row × Walk
  read_named page_kb pid entry comm tail [] w = (
    none,
    record w { coverage = record w.coverage { kernel_thread = w.coverage.kernel_thread + 1 } },
  )
  read_named page_kb pid entry comm tail (c ∷ cs) w =
      read_owned page_kb pid entry comm tail (status_of entry.status) w

  unfoldable pub read_parsed : ℕ → ℕ → Entry → Option (Text × List Text) → Walk → Option Row × Walk
  read_parsed page_kb pid entry none w = (
    none,
    record w {
      coverage = record w.coverage { stat_unparseable = w.coverage.stat_unparseable + 1 };
    },
  )
  read_parsed page_kb pid entry (some (comm, tail)) w =
      read_named page_kb pid entry comm tail (clean_cmdline entry.cmdline) w

  unfoldable pub read_stat : ℕ → ℕ → Entry → Option Text → Walk → Option Row × Walk
  read_stat page_kb pid entry none w = (
    none,
    record w { coverage = record w.coverage { stat_unreadable = w.coverage.stat_unreadable + 1 } },
  )
  read_stat page_kb pid entry (some raw) w = read_parsed page_kb pid entry (parse_stat raw) w

  -- `_read_process`
  unfoldable pub read_process : ℕ → ℕ → Entry → Walk → Option Row × Walk
  read_process page_kb pid entry w = read_stat page_kb pid entry entry.stat w
